-- ===== src/Incus/Packages/Finish.antt =====
-- The loop of `resolveOpenSSHDebs` ends: a package puts its dependencies on the list once.
use goincus.Base.{
  ℕ, zero, suc, ◌+◌, ◌≤◌, ◌≡◌, ◌≢◌, refl, Bool, false, not, ◌&&◌, Option, none, some, List, [], ◌∷◌,
  ◌++◌, String, String-Eq, contains, select, length, length-append, arith, if◌then◌else◌,
  Bool-cases, inl, inr,
}
use goincus.Base.Maps.{Map, value_at}
use goincus.Incus.Packages.{
  DebPkg, Verdict, pass, missing, panics, take, visit, resolve, Resolution, not_in_index, panicked,
  out_of_fuel, is_base, is_passed, deps_verdict, found_verdict, new_deps, dep_names, dep_count,
  total_deps, first_needs, resolve_openssh_debs,
}

-- The names that packages not yet taken can still put on the list.
abbrev pending : Map DebPkg → List String → ℕ
pending [] seen = 0
pending ((name, pkg) ∷ index) seen =
    let rest = pending index seen in if contains seen name then rest else dep_count pkg + rest

length-select-le : {A : Type 0} (p : A → Bool) (xs : List A) → length (select p xs) ≤ length xs
length-select-le p [] = omega arith
length-select-le p (x ∷ xs) = ground (arith, length-select-le p xs)

pending-le :
    (index : Map DebPkg) (seen : List String) (name : String)
    → pending index (name ∷ seen) ≤ pending index seen
pending-le [] seen name = omega arith
pending-le ((k, pkg) ∷ index) seen name = ground (arith, pending-le index seen name)

pending-take :
    (index : Map DebPkg) (seen : List String) (name : String) (pkg : DebPkg)
    → value_at index name ≡ some pkg
    → contains seen name ≡ false
    → pending index (name ∷ seen) + dep_count pkg ≤ pending index seen
unfolding value_at
pending-take [] seen name pkg e fresh = cc
pending-take ((k, p) ∷ index) seen name pkg e fresh =
    ground (
      arith,
      String-Eq.test_iff name k,
      pending-le index seen name,
      pending-take index seen name pkg,
    )

pending-none : (index : Map DebPkg) → pending index [] ≡ total_deps index
unfolding total_deps
pending-none [] = refl
pending-none ((k, p) ∷ index) = omega (arith, pending-none index)

-- What it says of a name that it is taken.
abbrev pub Taken : Map DebPkg → List String → String → DebPkg → List String → Type 0
Taken index seen name pkg deps =
    (is_passed seen name ≡ false)
    × (value_at index name ≡ some pkg)
    × ((all : List String) × (dep_names pkg ≡ some all) × (deps ≡ new_deps (name ∷ seen) all))

deps_verdict-take :
    (seen : List String) (name : String) (p pkg : DebPkg) (deps : List String)
    → (o : Option (List String)) → dep_names p ≡ o
    → deps_verdict seen name p o ≡ take pkg deps
    → (p ≡ pkg)
      × ((all : List String) × (dep_names pkg ≡ some all) × (deps ≡ new_deps (name ∷ seen) all))
unfolding deps_verdict
deps_verdict-take seen name p pkg deps none e h = absurd (cc h)
deps_verdict-take seen name p pkg deps (some all) e h =
    let same : p ≡ pkg = cc h in (same, (all, rw (← same) e, cc h))

found_verdict-take :
    (index : Map DebPkg) (seen : List String) (name : String) (pkg : DebPkg) (deps : List String)
    → is_passed seen name ≡ false
    → (o : Option DebPkg) → value_at index name ≡ o
    → found_verdict seen name o ≡ take pkg deps
    → Taken index seen name pkg deps
unfolding found_verdict
found_verdict-take index seen name pkg deps fresh none e h = absurd (ground arith)
found_verdict-take index seen name pkg deps fresh (some p) e h =
    let d = deps_verdict-take seen name p pkg deps (dep_names p) refl h in (fresh, cc (e, d.0), d.1)

pub visit-take :
    (index : Map DebPkg) (seen : List String) (name : String) (pkg : DebPkg) (deps : List String)
    → visit index seen name ≡ take pkg deps
    → Taken index seen name pkg deps
unfolding visit
visit-take index seen name pkg deps h = elim (Bool-cases (is_passed seen name)) [
  | inl passed ↦ absurd (cc (h, passed))
  | inr fresh ↦
      found_verdict-take index seen name pkg deps fresh (value_at index name) refl (rw fresh at h)
]

-- What a name that is taken puts on the list is paid for by what was pending.
Taken-le :
    (index : Map DebPkg) (seen : List String) (name : String) (pkg : DebPkg) (deps : List String)
    → Taken index seen name pkg deps
    → pending index (name ∷ seen) + length deps ≤ pending index seen
unfolding dep_count is_passed
Taken-le index seen name pkg deps (fresh, found, (all, known, e)) =
    let seen_not : contains seen name ≡ false = ground arith in
    let count : dep_count pkg ≡ length all = rw (known, dep_count) refl in
    let fewer : length deps ≤ length all =
      rw e (length-select-le (λ d. not (contains (name ∷ seen) d) && not (is_base d)) all) in
    omega (arith, pending-take index seen name pkg found seen_not)

-- With fuel for the names on the list and those that can still come, the loop ends.
resolve-Finishing :
    (index : Map DebPkg) (fuel : ℕ) (need seen : List String) (out : List DebPkg)
    → length need + pending index seen ≤ fuel
    → resolve index fuel need seen out ≢ out_of_fuel
unfolding resolve
resolve-Finishing index fuel [] seen out h = λ e. cc
resolve-Finishing index zero (name ∷ need) seen out h = absurd (omega arith)
resolve-Finishing index (suc fuel) (name ∷ need) seen out h =
    go (visit index seen name) refl (resolve-Finishing index fuel)
  where
    go :
        (v : Verdict)
        → visit index seen name ≡ v
        → ((need seen : List String) (out : List DebPkg)
            → length need + pending index seen ≤ fuel
            → resolve index fuel need seen out ≢ out_of_fuel)
        → (elim v as (λ _. Resolution) [
          | pass ↦ resolve index fuel need seen out
          | missing ↦ not_in_index name
          | panics ↦ panicked
          | take pkg deps ↦ resolve index fuel (need ++ deps) (name ∷ seen) (out ++ pkg ∷ [])
        ])
          ≢ out_of_fuel
    go pass e rec = rec need seen out (omega arith)
    go missing e rec = λ f. cc
    go panics e rec = λ f. cc
    go (take pkg deps) e rec = rec (need ++ deps) (name ∷ seen) (out ++ pkg ∷ []) (
        omega (
          arith,
          length-append need deps,
          Taken-le index seen name pkg deps (visit-take index seen name pkg deps e),
        ))

-- For every package index, `resolveOpenSSHDebs` ends: the rounds of its loop are at most the four first
-- names and the dependencies that the packages of the index name, also where packages depend on each other in a circle.
pub resolve_openssh_debs-ends : (index : Map DebPkg) → resolve_openssh_debs index ≢ out_of_fuel
unfolding resolve_openssh_debs
resolve_openssh_debs-ends index =
    resolve-Finishing index (4 + total_deps index) first_needs [] []
      (omega (arith, pending-none index))
