-- ===== src/Ports/Mark.antt =====
-- The marking of a block and the release of one (`AllocateBlock`'s last loop and `ReleaseBlock` in
-- internal/ports/allocator.go), under the laws of Redis.
use goincus.Base.{
  contains-append, not, ◌≢◌, ℕ, zero, suc, ◌+◌, ◌≤◌, ◌<◌, ◌≡◌, refl, ◌∙◌, inl, inr, Bool, true,
  false, ◌&&◌, ◌||◌, List, [], ◌∷◌, ◌++◌, ◌==◌, ℕ-Eq, String-Eq, nat_eq_iff, contains, Bool-cases,
  arith, String,
}
use mathlib.Core.List.{append_assoc, append-nil}
use text.Mathlib.TextPositions.{eq_refl}
use goincus.Base.Result.{Error, ok, err, Result-cases}
use goincus.System.{System, World, fail, ◌>>◌}
use goincus.Redis.{ports_key}
use goincus.Redis.Laws.{RedisLaws}
use goincus.Ports.{mark_block, release_block}

-- `n` ports from `p` on.
abbrev pub block_of : ℕ → ℕ → List ℕ
block_of zero p = []
block_of (suc n) p = p ∷ block_of n (p + 1)

pub contains-block_of : (n p q : ℕ) → p ≤ q → q < p + n → contains (block_of n p) q ≡ true
contains-block_of zero p q low high = absurd (omega arith)
contains-block_of (suc n) p q low high = ground (arith, contains-block_of n (p + 1) q)

pub contains-block_of_below : (n p q : ℕ) → q < p → contains (block_of n p) q ≡ false
contains-block_of_below zero p q h = refl
contains-block_of_below (suc n) p q h = ground (arith, contains-block_of_below n (p + 1) q)

pub contains-block_of_above : (n p q : ℕ) → p + n ≤ q → contains (block_of n p) q ≡ false
contains-block_of_above zero p q h = refl
contains-block_of_above (suc n) p q h = ground (arith, contains-block_of_above n (p + 1) q)

module _ (S : System) (L : RedisLaws S.redis) where
  -- Whether a port is in the set of allocated ports.
  abbrev pub is_marked : World S → ℕ → Bool
  is_marked w q = L.member w.redis (ports_key S) q

  -- The ports of the list are in the set, all others are as before, and so are the tables.
  abbrev pub MarksOnly : List ℕ → World S → World S → Type 0
  MarksOnly ports w w' =
      (w'.db ≡ w.db) × ((q : ℕ) → is_marked w' q ≡ (contains ports q || is_marked w q))

  pub s_add_marks :
      (p : ℕ) (s : S.redis.State)
      → (S.redis.s_add (ports_key S) p s).0 ≡ ok tt
      → (q : ℕ)
      → L.member (S.redis.s_add (ports_key S) p s).1 (ports_key S) q
        ≡ (p == q || L.member s (ports_key S) q)
  s_add_marks p s h q = elim (Bool-cases (p == q)) [
    | inl same ↦ rw (same, ← (nat_eq_iff p q).0 same) (L.s_add_adds (ports_key S) p s h)
    | inr other ↦
        rw other
          (L.s_add_only (ports_key S) p s (ports_key S) q (ground (arith, eq_refl (ports_key S))))
  ]

  abbrev pub after_mark : ℕ → World S → World S
  after_mark p w = record w { redis = (S.redis.s_add (ports_key S) p w.redis).1 }

  pub mark_block-suc_ok :
      (n p : ℕ) (block : List ℕ) (w : World S)
      → (S.redis.s_add (ports_key S) p w.redis).0 ≡ ok tt
      → mark_block S (suc n) p block w ≡ mark_block S n (p + 1) (block ++ p ∷ []) (after_mark p w)
  unfolding mark_block
  mark_block-suc_ok n p block w h = ground arith

  mark_block-suc_err :
      (n p : ℕ) (block : List ℕ) (w : World S) (e : Error)
      → (S.redis.s_add (ports_key S) p w.redis).0 ≡ err e
      → mark_block S (suc n) p block w ≡ (release_block S block >> fail e) (after_mark p w)
  unfolding mark_block
  mark_block-suc_err n p block w e h = ground arith

  then_fail-ne-ok :
      (block : List ℕ) (e : Error) (w : World S) (b : List ℕ)
      → ¬ ((release_block S block >> fail e) w).0 ≡ ok b
  then_fail-ne-ok block e w b h = elim (Result-cases (release_block S block w).0) [
    | inl (_, done) ↦ ground (arith, done)
    | inr (_, failed) ↦ ground (arith, failed)
  ]

  -- A block that is returned is the one that was asked for, and all of it is marked.
  pub mark_block-MarksOnly :
      (n p : ℕ) (block : List ℕ) (w : World S) (b : List ℕ)
      → (mark_block S n p block w).0 ≡ ok b
      → (b ≡ block ++ block_of n p) × MarksOnly (block_of n p) w (mark_block S n p block w).1
  unfolding mark_block
  mark_block-MarksOnly zero p block w b h = (ground (arith, append-nil block), (refl, λ q. refl))
  mark_block-MarksOnly (suc n) p block w b h =
      elim (Result-cases (S.redis.s_add (ports_key S) p w.redis).0) [
        | inl (tt, done) ↦
            let step = mark_block-suc_ok n p block w done in
            let rest =
              mark_block-MarksOnly n (p + 1) (block ++ p ∷ []) (after_mark p w) b (rw step at h) in
            rw step (
              rest.0 ∙ append_assoc block (p ∷ []) (block_of n (p + 1)),
              (rest.1.0, λ q. rest.1.1 q ∙ ground (arith, s_add_marks p w.redis done q)),
            )
        | inr (e, failed) ↦ absurd (
            then_fail-ne-ok block e (after_mark p w) b
              (rw (mark_block-suc_err n p block w e failed) at h))
      ]

  -- `SADD` of the port has failed, in some state of the server.
  abbrev pub Unadded : ℕ → Type 0
  Unadded f = (s : S.redis.State) × (e : Error) × ((S.redis.s_add (ports_key S) f s).0 ≡ err e)

  -- `SREM` is carried out each time.
  abbrev pub Removes : Type 0
  Removes = (k : String) (p : ℕ) (s : S.redis.State) → (S.redis.s_rem k p s).0 ≡ ok tt

  module _ (answers : Removes) where
    s_rem_marks :
        (p : ℕ) (s : S.redis.State) (q : ℕ)
        → L.member (S.redis.s_rem (ports_key S) p s).1 (ports_key S) q
          ≡ (not (p == q) && L.member s (ports_key S) q)
    s_rem_marks p s q = elim (Bool-cases (p == q)) [
      | inl same ↦
          rw (same, ← (nat_eq_iff p q).0 same)
            (L.s_rem_removes (ports_key S) p s (answers (ports_key S) p s))
      | inr other ↦
          rw other
            (L.s_rem_only (ports_key S) p s (ports_key S) q (ground (arith, eq_refl (ports_key S))))
    ]

    -- If `SREM` is carried out each time, `ReleaseBlock` returns, takes exactly the ports of the list
    -- out of the set, and changes no table.
    pub release_block_lem :
        (ports : List ℕ) (w : World S)
        → ((release_block S ports w).1.db ≡ w.db)
          × ((release_block S ports w).0 ≡ ok tt)
          × ((q : ℕ)
              → is_marked (release_block S ports w).1 q ≡ (not (contains ports q) && is_marked w q))
    unfolding release_block
    release_block_lem [] w = (refl, refl, λ q. refl)
    release_block_lem (p ∷ ports) w =
        let w₁ : World S = record w { redis = (S.redis.s_rem (ports_key S) p w.redis).1 } in
        let rest = release_block_lem ports w₁ in
        (rest.0, rest.1, λ q. ground (arith, rest.2 q, s_rem_marks p w.redis q))

    -- Marking that fails at the port `f` leaves every other reservation of the run as it was.
    pub mark_block_failed :
        (n p : ℕ) (block : List ℕ) (w : World S) (e : Error)
        → (mark_block S n p block w).0 ≡ err e
        → ((q : ℕ) → p ≤ q → q < p + n → is_marked w q ≡ false)
        → let w' = (mark_block S n p block w).1 in
          (w'.db ≡ w.db)
          × ((f : ℕ) × (p ≤ f)
              × (f < p + n)
              × Unadded f
              × ((q : ℕ) → q ≢ f → is_marked w' q ≡ (not (contains block q) && is_marked w q)))
    unfolding mark_block
    mark_block_failed zero p block w e h unmarked = cc
    mark_block_failed (suc n) p block w e h unmarked =
        elim (Result-cases (S.redis.s_add (ports_key S) p w.redis).0) [
          | inl (tt, done) ↦
              let step = mark_block-suc_ok n p block w done in
              let w₁ : World S = after_mark p w in
              let marks = s_add_marks p w.redis done in
              let rest =
                mark_block_failed n (p + 1) (block ++ p ∷ []) w₁ e (rw step at h)
                  (λ q a b. ground (arith, marks q, unmarked q)) in
              rw step (
                rest.0,
                (
                  rest.1.0,
                  omega arith,
                  omega arith,
                  rest.1.3,
                  λ q other.
                      rest.1.4 q other
                      ∙ ground (arith, marks q, contains-append block (p ∷ []) q, unmarked p),
                ),
              )
          | inr (e', failed) ↦
              let step = mark_block-suc_err n p block w e' failed in
              let w₁ : World S = after_mark p w in
              let rest = release_block_lem block w₁ in
              rw step (
                ground (arith, rest.0, rest.1),
                (
                  p,
                  omega arith,
                  omega arith,
                  (w.redis, e', failed),
                  λ q other. ground (
                    arith,
                    rest.1,
                    rest.2 q,
                    L.s_add_only (ports_key S) p w.redis (ports_key S) q
                        (ground (arith, eq_refl (ports_key S))),
                  ),
                ),
              )
        ]
