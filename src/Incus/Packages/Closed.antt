-- ===== src/Incus/Packages/Closed.antt =====
-- What `resolveOpenSSHDebs` collects is complete: it holds every dependency of what it holds.
use goincus.Base.{
  ℕ, zero, suc, ◌+◌, ◌≡◌, ◌≢◌, refl, Bool, true, false, ◌||◌, Option, none, some, List, [], ◌∷◌,
  ◌++◌, String, ◌==◌, String-Eq, starts_with, contains, contains-append, map, arith, Bool-cases,
  inl, inr,
}
use goincus.Base.Maps.{Map, value_at}
use goincus.Incus.Packages.{
  DebPkg, Verdict, pass, missing, panics, take, visit, resolve, Resolution, resolved, not_in_index,
  panicked, is_base, is_passed, found_verdict, deps_verdict, new_deps, dep_names, first_needs,
  resolve_openssh_debs, total_deps,
}
use goincus.Incus.Packages.Finish.{Taken, visit-take}

-- A name that no package is fetched for: one of the base system, the C library, or one that the index does not have.
unfoldable pub is_left_out : Map DebPkg → String → Bool
is_left_out index name =
    is_base name
    || starts_with name "libc6"
    || (elim (value_at index name) as (λ _. Bool) [ none ↦ true | some _ ↦ false ])

-- Every dependency of the packages seen is seen, is on the list, or is left out.
abbrev Covered : Map DebPkg → (need seen : List String) → Type 0
Covered index need seen =
    (name : String) (pkg : DebPkg) (deps : List String) (dep : String)
    → contains seen name ≡ true
    → value_at index name ≡ some pkg
    → dep_names pkg ≡ some deps
    → contains deps dep ≡ true
    → (contains seen dep || contains need dep || is_left_out index dep) ≡ true

-- The packages collected are those of the names seen, under their own names.
abbrev Collected : Map DebPkg → (seen : List String) → List DebPkg → Type 0
Collected index seen out =
    ((name : String) → contains (map (λ p. p.name) out) name ≡ contains seen name)

-- A package index, in which each package stands under its own name, as `parsePackages` builds it.
abbrev pub IsIndexed : Map DebPkg → Type 0
IsIndexed index = (name : String) (pkg : DebPkg) → value_at index name ≡ some pkg → pkg.name ≡ name

contains-new_deps :
    (seen deps : List String) (dep : String)
    → contains deps dep ≡ true
    → (contains seen dep || contains (new_deps seen deps) dep || is_base dep) ≡ true
contains-new_deps seen [] dep h = cc
contains-new_deps seen (d ∷ deps) dep h =
    ground (arith, String-Eq.test_iff d dep, contains-new_deps seen deps dep)

-- A name that is passed over needs no more.
found_verdict-pass :
    (index : Map DebPkg) (seen : List String) (name : String) (o : Option DebPkg)
    → value_at index name ≡ o
    → found_verdict seen name o ≡ pass
    → is_left_out index name ≡ true
unfolding found_verdict deps_verdict is_left_out
found_verdict-pass index seen name none e h = rw e (ground arith)
found_verdict-pass index seen name (some p) e h = absurd (no (dep_names p) h)
  where
    no : (o : Option (List String)) → deps_verdict seen name p o ≢ pass
    no none h = cc
    no (some all) h = cc

visit-pass :
    (index : Map DebPkg) (seen : List String) (name : String)
    → visit index seen name ≡ pass
    → (contains seen name || is_left_out index name) ≡ true
unfolding visit is_passed is_left_out
visit-pass index seen name h = elim (Bool-cases (is_passed seen name)) [
  | inl passed ↦ by_name passed
  | inr fresh ↦
      by_index (found_verdict-pass index seen name (value_at index name) refl (rest fresh))
]
  where
    by_name : is_passed seen name ≡ true → (contains seen name || is_left_out index name) ≡ true
    by_name p = ground arith

    by_index : is_left_out index name ≡ true → (contains seen name || is_left_out index name) ≡ true
    by_index p = ground arith

    rest : is_passed seen name ≡ false → found_verdict seen name (value_at index name) ≡ pass
    rest fresh = rw fresh at h

-- Each name is seen, on the list or left out.
abbrev IsCovered : Map DebPkg → (need seen : List String) → String → Type 0
IsCovered index need seen name =
    (contains seen name || contains need name || is_left_out index name) ≡ true

IsCovered-pass :
    (index : Map DebPkg) (need seen : List String) (name other : String)
    → (contains seen name || is_left_out index name) ≡ true
    → IsCovered index (name ∷ need) seen other
    → IsCovered index need seen other
IsCovered-pass index need seen name other h c = ground (arith, String-Eq.test_iff name other)

IsCovered-take :
    (index : Map DebPkg) (need deps seen : List String) (name other : String)
    → IsCovered index (name ∷ need) seen other
    → IsCovered index (need ++ deps) (name ∷ seen) other
IsCovered-take index need deps seen name other c = ground (arith, contains-append need deps other)

Covered-take :
    (index : Map DebPkg) (need seen : List String) (name : String) (pkg : DebPkg)
    (deps : List String)
    → Taken index seen name pkg deps
    → Covered index (name ∷ need) seen
    → Covered index (need ++ deps) (name ∷ seen)
unfolding is_left_out
Covered-take index need seen name pkg deps (fresh, found, (all, known, e)) c n p ds d hn hp hd hc =
    elim (Bool-cases (name == n)) [
      | inl same ↦ new ((String-Eq.test_iff name n).0 same)
      | inr other ↦ IsCovered-take index need deps seen name d (c n p ds d (old other) hp hd hc)
    ]
  where
    old : (name == n) ≡ false → contains seen n ≡ true
    old o = ground arith

    new : name ≡ n → IsCovered index (need ++ deps) (name ∷ seen) d
    new same =
        let same_pkg : p ≡ pkg = cc (same, found, hp) in
        let same_deps : ds ≡ all = cc (same_pkg, known, hd) in
        let there : contains all d ≡ true = rw (← same_deps) hc in
        rw e (
          ground (
            arith,
            contains-append need (new_deps (name ∷ seen) all) d,
            contains-new_deps (name ∷ seen) all d there,
          ))

contains-concat :
    (out : List DebPkg) (pkg : DebPkg) (k : String)
    → contains (map (λ p. p.name) (out ++ pkg ∷ [])) k
      ≡ (contains (map (λ p. p.name) out) k || pkg.name == k)
contains-concat [] pkg k = ground arith
contains-concat (p ∷ out) pkg k = ground (arith, contains-concat out pkg k)

Collected-take :
    (index : Map DebPkg) (seen : List String) (name : String) (pkg : DebPkg) (out : List DebPkg)
    → pkg.name ≡ name
    → Collected index seen out
    → Collected index (name ∷ seen) (out ++ pkg ∷ [])
Collected-take index seen name pkg out same c other =
    rw (contains-concat out pkg other, same, c other) (ground arith)

-- What holds of a collection when the list is empty, and follows from what held before.
abbrev Finished : Map DebPkg → (need seen : List String) → List DebPkg → Type 0
Finished index need seen out =
    (last : List String) × (Covered index [] last
      × (Collected index last out
          × ((r : String) → IsCovered index need seen r → IsCovered index [] last r)))

resolve-Finished :
    (index : Map DebPkg)
    → IsIndexed index
    → (fuel : ℕ) (need seen : List String) (out result : List DebPkg) → Covered index need seen
    → Collected index seen out
    → resolve index fuel need seen out ≡ resolved result
    → Finished index need seen result
unfolding resolve
resolve-Finished index indexed fuel [] seen out result c k =
    λ e. (seen, (c, (λ r. cc (e, k r), λ r covered. covered)))
resolve-Finished index indexed zero (name ∷ need) seen out result c k = λ e. absurd (cc e)
resolve-Finished index indexed (suc fuel) (name ∷ need) seen out result c k =
    go (visit index seen name) refl (resolve-Finished index indexed fuel)
  where
    go :
        (v : Verdict)
        → visit index seen name ≡ v
        → ((need seen : List String) (out result : List DebPkg)
            → Covered index need seen
            → Collected index seen out
            → resolve index fuel need seen out ≡ resolved result
            → Finished index need seen result)
        → (elim v as (λ _. Resolution) [
          | pass ↦ resolve index fuel need seen out
          | missing ↦ not_in_index name
          | panics ↦ panicked
          | take pkg deps ↦ resolve index fuel (need ++ deps) (name ∷ seen) (out ++ pkg ∷ [])
        ])
          ≡ resolved result
        → Finished index (name ∷ need) seen result
    go pass e rec h =
        let done = visit-pass index seen name e in
        let (last, (covered, (collected, onward))) =
          rec need seen out result
            (λ n p ds d hn hp hd hc.
              IsCovered-pass index need seen name d done (c n p ds d hn hp hd hc))
            k h in
        (
          last,
          (covered, (collected, λ r q. onward r (IsCovered-pass index need seen name r done q))),
        )
    go missing e rec h = absurd (cc h)
    go panics e rec h = absurd (cc h)
    go (take pkg deps) e rec h =
        let t = visit-take index seen name pkg deps e in
        let (last, (covered, (collected, onward))) =
          rec (need ++ deps) (name ∷ seen) (out ++ pkg ∷ []) result
            (Covered-take index need seen name pkg deps t c)
            (Collected-take index seen name pkg out (indexed name pkg t.1) k) h in
        (
          last,
          (covered, (collected, λ r q. onward r (IsCovered-take index need deps seen name r q))),
        )

-- The names of a collection of packages.
abbrev pub names_of : List DebPkg → List String
names_of out = map (λ p. p.name) out

at_end :
    (index : Map DebPkg) (last : List String) (out : List DebPkg) (r : String)
    → contains (names_of out) r ≡ contains last r
    → IsCovered index [] last r
    → (contains (names_of out) r || is_left_out index r) ≡ true
at_end index last out r same covered = ground arith

-- A name that is to be fetched: a first name, or a dependency of a package collected.
pub data IsNeeded (index : Map DebPkg) (out : List DebPkg) (r : String) : Type 0 where
  at_first : contains first_needs r ≡ true → IsNeeded index out r
  by_package :
      (name : String) (pkg : DebPkg) (deps : List String)
      → contains (names_of out) name ≡ true
      → value_at index name ≡ some pkg
      → dep_names pkg ≡ some deps
      → contains deps r ≡ true
      → IsNeeded index out r

-- Where `resolveOpenSSHDebs` gives packages for an index in which each package stands under its own
-- name, the four first names and every name that the dependencies of a package collected list are
-- either collected too, or left out: of the base system, of the C library, or not in the index.
pub resolve_openssh_debs-IsClosed :
    (index : Map DebPkg) (out : List DebPkg) (r : String)
    → IsIndexed index
    → resolve_openssh_debs index ≡ resolved out
    → IsNeeded index out r
    → (contains (names_of out) r || is_left_out index r) ≡ true
unfolding resolve_openssh_debs
resolve_openssh_debs-IsClosed index out r indexed h needed =
    let (last, (covered, (collected, onward))) =
      resolve-Finished index indexed (4 + total_deps index) first_needs [] [] out
        (λ n p ds d hn hp hd hc. absurd (cc hn)) (λ name. refl) h in
    at_end index last out r (collected r) (elim needed [
      | at_first m ↦ onward r (ground arith)
      | by_package n p ds hn hp hd hc ↦ covered n p ds r (rw (← collected n) hn) hp hd hc
    ])
