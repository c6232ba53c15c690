-- ===== src/Ports/Scan.antt =====
-- The scan for a free block (`isFree` and the two loops around it in internal/ports/allocator.go): it
-- reads, and what it answers agrees with a test on the tables and the set.
use goincus.Base.{
  ℕ, zero, suc, ◌+◌, ◌≤◌, ◌<◌, ◌≡◌, refl, sym, ap, ◌∙◌, ◌⊎◌, inl, inr, Bool, true, false, not, ◌&&◌,
  ◌||◌, List, [], ◌==◌, ℕ-Eq, contains, if◌then◌else◌, Bool-cases, arith,
}
use mathlib.Core.Path.{subst}
use goincus.Base.Result.{Error, Result, ok, err}
use goincus.System.{System, World, pure, bind_rule}
use goincus.Redis.{ports_key}
use goincus.Redis.Laws.{RedisLaws}
use goincus.Ports.{no_block, is_free, block_is_free, search_block, mark_block}

-- None of the `n` ports from `p` on passes the test `taken`.
abbrev pub run_free : (ℕ → Bool) → ℕ → ℕ → Bool
run_free taken zero p = true
run_free taken (suc n) p = not (taken p) && run_free taken n (p + 1)

pub run_free→free :
    (taken : ℕ → Bool) (n p q : ℕ) → run_free taken n p ≡ true → p ≤ q → q < p + n → taken q ≡ false
run_free→free taken zero p q free low high = absurd (omega arith)
run_free→free taken (suc n) p q free low high = elim (Bool-cases (p == q)) [
  | inl same ↦ ground arith
  | inr other ↦ ground (arith, run_free→free taken n (p + 1) q)
]

module _ (S : System) (L : RedisLaws S.redis) where
  -- A port that the database lists or that the set holds.
  abbrev pub is_taken : World S → List ℕ → ℕ → Bool
  is_taken w used q = contains used q || L.member w.redis (ports_key S) q

  -- The tables and the sets are as before.
  abbrev pub Unchanged : World S → World S → Type 0
  Unchanged w w' = (w'.db ≡ w.db) × (L.member w'.redis ≡ L.member w.redis)

  is_free_lem :
      (used : List ℕ) (port : ℕ) (w : World S)
      → Unchanged w (is_free S used port w).1
        × ((b : Bool) → (is_free S used port w).0 ≡ ok b → b ≡ not (is_taken w used port))
  unfolding is_free
  is_free_lem used port w = elim (Bool-cases (contains used port)) [
    | inl listed ↦ rw listed ((refl, refl), λ b e. ground arith)
    | inr unlisted ↦ (
      (ground arith, ground (arith, L.s_is_member_keeps (ports_key S) port w.redis)),
      λ b e. ground (arith, L.s_is_member_answers (ports_key S) port w.redis (not b)),
    )
  ]

  pub is_taken-eq :
      (w w' : World S) (used : List ℕ) → Unchanged w w' → is_taken w' used ≡ is_taken w used
  is_taken-eq w w' used same = ap (λ m q. contains used q || m (ports_key S) q) same.1

  -- A scan of `n` ports from `p` on that ends with an answer has looked at every port of them.
  abbrev pub Scanned : List ℕ → ℕ → ℕ → World S → Result Bool × World S → Type 0
  Scanned used n p w r =
      Unchanged w r.1 × ((b : Bool) → r.0 ≡ ok b → b ≡ run_free (is_taken w used) n p)

  Scanned-next :
      (used : List ℕ) (n p : ℕ) (w : World S) (free : Bool)
      → (is_free S used p w).0 ≡ ok free
      → Scanned used n
          (p + 1)
          (is_free S used p w).1
          (block_is_free S used n (p + 1) (is_free S used p w).1)
      → Scanned used
          (suc n)
          p
          w
          ((if free then block_is_free S used n (p + 1) else pure false) (is_free S used p w).1)
  Scanned-next used n p w true h rest =
      let step = is_free_lem used p w in
      (
        ground (arith, step, rest.0),
        λ b e.
            ground
              (arith, step.1 true h, rest.1 b e, is_taken-eq w (is_free S used p w).1 used step.0),
      )
  Scanned-next used n p w false h rest =
      let step = is_free_lem used p w in (step.0, λ b e. ground (arith, step.1 false h))

  pub block_is_free-Scanned :
      (used : List ℕ) (n p : ℕ) (w : World S) → Scanned used n p w (block_is_free S used n p w)
  unfolding block_is_free
  block_is_free-Scanned used zero p w = ((refl, refl), λ b e. ground arith)
  block_is_free-Scanned used (suc n) p w =
      bind_rule (is_free S used p)
        (λ free. if free then block_is_free S used n (p + 1) else pure false) w
        (Scanned used (suc n) p w)
        (λ free h.
          Scanned-next used n p w free h
            (block_is_free-Scanned used n (p + 1) (is_free S used p w).1))
        (λ e h. ((is_free_lem used p w).0, λ b h'. cc))

  -- A search that ends with a block: it starts at the lowest start, from `start` on, whose ports are all free.
  abbrev pub Lowest : (ℕ → Bool) → ℕ → ℕ → ℕ → ℕ → Type 0
  Lowest taken size rounds start found =
      (start ≤ found)
      × (found < start + rounds)
      × (run_free taken size found ≡ true)
      × ((s : ℕ) → start ≤ s → s < found → run_free taken size s ≡ false)

  -- How a search ends: with no block free, with a reading that failed, or in the marking of the lowest
  -- free block, in a world where nothing has changed.
  pub data Searched (used : List ℕ) (size rounds start : ℕ) (w : World S)
      (r : Result (List ℕ) × World S) : Type 0 where
    full :
        Unchanged w r.1
        → r.0 ≡ err (no_block S size)
        → ((s : ℕ) → start ≤ s → s < start + rounds → run_free (is_taken w used) size s ≡ false)
        → Searched used size rounds start w r
    broken : (e : Error) → Unchanged w r.1 → r.0 ≡ err e → Searched used size rounds start w r
    marking :
        (found : ℕ) (w' : World S)
        → Unchanged w w'
        → Lowest (is_taken w used) size rounds start found
        → r ≡ mark_block S size found [] w'
        → Searched used size rounds start w r

  below_or_at : (start s : ℕ) → start ≤ s → (start ≡ s) ⊎ (start + 1 ≤ s)
  below_or_at start s h = omega arith

  -- A start that is not free is passed over.
  Searched-next :
      (used : List ℕ) (size rounds start : ℕ) (w : World S) (r : Result (List ℕ) × World S)
      → run_free (is_taken w used) size start ≡ false
      → Searched used size rounds (start + 1) w r
      → Searched used size (suc rounds) start w r
  Searched-next used size rounds start w r not_here (full u e none) = full u e λ s low high.
      elim (below_or_at start s low) [
        | inl here ↦ subst (λ s. run_free (is_taken w used) size s ≡ false) here not_here
        | inr later ↦ none s later (omega arith)
      ]
  Searched-next used size rounds start w r not_here (broken e u h) = broken e u h
  Searched-next used size rounds start w r not_here (marking found w' u low e) =
      marking found w' u
        (
          omega arith,
          omega arith,
          low.2,
          λ s a b. elim (below_or_at start s a) [
            | inl here ↦ subst (λ s. run_free (is_taken w used) size s ≡ false) here not_here
            | inr later ↦ low.3 s later b
          ],
        )
        e

  Unchanged-trans : (u v w : World S) → Unchanged u v → Unchanged v w → Unchanged u w
  Unchanged-trans u v w p q = (cc, cc)

  -- The free start is the one that is marked.
  Searched-step :
      (used : List ℕ) (size rounds start : ℕ) (w w₁ : World S) (free : Bool)
      → Unchanged w w₁
      → free ≡ run_free (is_taken w used) size start
      → Searched used size rounds (start + 1) w (search_block S used size rounds (start + 1) w₁)
      → Searched used size (suc rounds) start w (
          (if free then mark_block S size start [] else search_block S used size rounds (start + 1))
            w₁)
  Searched-step used size rounds start w w₁ true u h rest =
      marking start w₁ u (omega arith, omega arith, sym h, λ s a b. absurd (omega arith)) refl
  Searched-step used size rounds start w w₁ false u h rest =
      Searched-next used size rounds start w _ (sym h) rest

  pub search_block-Searched :
      (used : List ℕ) (size rounds start : ℕ) (w w₀ : World S)
      → Unchanged w w₀
      → Searched used size rounds start w (search_block S used size rounds start w₀)
  unfolding search_block
  search_block-Searched used size zero start w w₀ u = full u refl (λ s a b. absurd (omega arith))
  search_block-Searched used size (suc rounds) start w w₀ u =
      bind_rule (block_is_free S used size start)
        (λ free.
          if free then mark_block S size start [] else search_block S used size rounds (start + 1))
        w₀ (Searched used size (suc rounds) start w)
        (λ free h.
          Searched-step used size rounds start w w₁ free same
            (scan.1 free h ∙ ap (λ t. run_free t size start) (is_taken-eq w w₀ used u))
            (search_block-Searched used size rounds (start + 1) w w₁ same))
        (λ e h. broken e same refl)
    where
      w₁ : World S
      w₁ = (block_is_free S used size start w₀).1

      scan : Scanned used size start w₀ (block_is_free S used size start w₀)
      scan = block_is_free-Scanned used size start w₀

      same : Unchanged w w₁
      same = Unchanged-trans w w₀ w₁ u scan.0
