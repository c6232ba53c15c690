-- ===== src/Ports/Allocate.antt =====
-- What `AllocateBlock` promises: the block is free, lies in the range, is the lowest such block, and is
-- reserved afterwards.
use goincus.Base.{
  ℕ, zero, suc, ◌+◌, ◌-◌, ◌≤◌, ◌<◌, ◌≡◌, refl, sym, ap, ◌∙◌, ◌⊎◌, inl, inr, Bool, true, false, ◌||◌,
  List, [], contains, ℕ-Eq, arith,
}
use goincus.Base.Int.{ℤ, pos, negsuc}
use goincus.Base.Result.{wrap, Result, ok}
use goincus.Store.Ports.{used_host_ports}
use goincus.System.{System, World}
use goincus.Redis.Laws.{RedisLaws}
use goincus.Ports.{allocate_block, allocate_locked, search_block, with_lock}
use goincus.Ports.Scan.{
  run_free, run_free→free, Searched, full, broken, marking, search_block-Searched,
}
use goincus.Ports.Mark.{
  block_of, contains-block_of_below, contains-block_of_above, is_marked, MarksOnly,
  mark_block-MarksOnly,
}
use goincus.Ports.Lock.{locked, unlocked, with_lock_ok, is_marked-locked, is_marked-unlocked}

range_cases : (start n q : ℕ) → (q < start) ⊎ ((start + n ≤ q) ⊎ ((start ≤ q) × (q < start + n)))
range_cases start n q = omega arith

module _ (S : System) (L : RedisLaws S.redis) where
  open S.cfg.ports use {host_range_start, host_range_end}

  -- A host port that a live instance holds in the database or that Redis has reserved.
  abbrev pub is_busy : World S → ℕ → Bool
  is_busy w q = contains (used_host_ports w.db) q || is_marked S L w q

  -- The block of `n` ports from `start` on is free in `w` and no block in the range starts lower.
  pub record LowestFree (w : World S) (n start : ℕ) : Type 0 where
    pub positive : 0 < n
    pub above : host_range_start ≤ start
    pub below : start + n ≤ host_range_end + 1
    pub free : run_free (is_busy w) n start ≡ true
    pub lowest : (s : ℕ) → host_range_start ≤ s → s < start → run_free (is_busy w) n s ≡ false

  abbrev pub rounds : ℕ → ℕ
  rounds n = host_range_end + 2 - (n + host_range_start)

  -- The allocation after the query of the database.
  abbrev pub searched : ℕ → World S → Result (List ℕ) × World S
  searched n w =
      search_block S (used_host_ports w.db) n (rounds n) host_range_start
        (record w { ticks = suc w.ticks })

  allocate_locked_ok :
      (n : ℕ) (w : World S) (b : List ℕ)
      → (allocate_locked S n w).0 ≡ ok b
      → allocate_locked S n w ≡ searched n w
  unfolding allocate_locked
  allocate_locked_ok n w b h = ground arith

  marked_block :
      (n : ℕ) (w : World S) (r : Result (List ℕ) × World S) (b : List ℕ)
      → 0 < n
      → Searched S L (used_host_ports w.db) n (rounds n) host_range_start w r
      → r.0 ≡ ok b
      → (start : ℕ) × LowestFree w n start × (b ≡ block_of n start) × MarksOnly S L b w r.1
  marked_block n w r b positive (full u e nowhere) h = cc
  marked_block n w r b positive (broken e u e') h = cc
  marked_block n w r b positive (marking found w' u low e) h =
      let marks = mark_block-MarksOnly S L n found [] w' b (ap (λ r. r.0) (sym e) ∙ h) in
      (
        found,
        record {
          positive = positive;
          above = low.0;
          below = omega arith;
          free = low.2;
          lowest = low.3;
        },
        marks.0,
        (ground (arith, marks.1.0), λ q. ground (arith, marks.0, marks.1.1 q)),
      )

  pub locked_busy : (w : World S) → is_busy (locked S w) ≡ is_busy w
  locked_busy w = ap (λ m q. contains (used_host_ports w.db) q || m q) (is_marked-locked S L w)

  LowestFree-locked :
      (w : World S) (n start : ℕ) → LowestFree (locked S w) n start → LowestFree w n start
  LowestFree-locked w n start f = record {
    positive = f.positive;
    above = f.above;
    below = f.below;
    free = rw (← locked_busy w) f.free;
    lowest = λ s a b. rw (← locked_busy w) (f.lowest s a b);
  }

  pub MarksOnly-unlocked :
      (b : List ℕ) (w w' : World S)
      → MarksOnly S L b (locked S w) w'
      → MarksOnly S L b w (unlocked S w')
  MarksOnly-unlocked b w w' m = (
    m.0,
    λ q.
        ap (λ f. f q) (is_marked-unlocked S L w')
        ∙ m.1 q
        ∙ ap (λ f. contains b q || f q) (is_marked-locked S L w),
  )

  locked_block :
      (n : ℕ) (w : World S) (b : List ℕ)
      → 0 < n
      → (with_lock S (wrap "acquire port lock") (allocate_locked S n) w).0 ≡ ok b
      → (start : ℕ) × LowestFree w n start
        × (b ≡ block_of n start)
        × MarksOnly S L b w (with_lock S (wrap "acquire port lock") (allocate_locked S n) w).1
  locked_block n w b positive h =
      let run = with_lock_ok S (wrap "acquire port lock") (allocate_locked S n) w b h in
      let same = allocate_locked_ok n (locked S w) b run.0 in
      let found =
        marked_block n (locked S w) (allocate_locked S n (locked S w)) b positive
          (rw same (
            search_block-Searched S L (used_host_ports w.db) n (rounds n) host_range_start
              (locked S w) _ (refl, refl)))
          run.0 in
      (
        found.0,
        LowestFree-locked w n found.0 found.1,
        found.2,
        rw run.1 (MarksOnly-unlocked b w (allocate_locked S n (locked S w)).1 found.3),
      )

  -- A busy port is in no free block.
  outside_busy :
      (w : World S) (n start q : ℕ)
      → run_free (is_busy w) n start ≡ true
      → is_busy w q ≡ true
      → contains (block_of n start) q ≡ false
  outside_busy w n start q free busy = elim (range_cases start n q) [
    | inl below ↦ contains-block_of_below n start q below
    | inr (inl above) ↦ contains-block_of_above n start q above
    | inr (inr inside) ↦ cc (run_free→free (is_busy w) n start q free inside.0 inside.1, busy)
  ]

  -- A block that `AllocateBlock` returns has the size that was asked for, lies in the configured range,
  -- held no port of a live instance and no reserved port, and no such block starts lower. Afterwards
  -- its ports, and no others, are reserved in addition, and the tables are as before.
  pub allocate_block_ok :
      (size : ℤ) (w : World S) (b : List ℕ)
      → (allocate_block S size w).0 ≡ ok b
      → (n start : ℕ) × (size ≡ pos n)
        × LowestFree w n start
        × (b ≡ block_of n start)
        × MarksOnly S L b w (allocate_block S size w).1
  unfolding allocate_block
  allocate_block_ok (pos zero) w b h = cc
  allocate_block_ok (negsuc n) w b h = ground arith
  allocate_block_ok (pos (suc n)) w b h =
      let r = locked_block (suc n) w b (omega arith) (ground arith) in
      (suc n, r.0, refl, r.1, r.2, ground (arith, r.3))

  -- Two blocks that are allocated one after the other have no port in common.
  pub allocate_block-disjoint :
      (size₁ size₂ : ℤ) (w : World S) (b₁ b₂ : List ℕ)
      → (allocate_block S size₁ w).0 ≡ ok b₁
      → (allocate_block S size₂ (allocate_block S size₁ w).1).0 ≡ ok b₂
      → (q : ℕ) → contains b₁ q ≡ true
      → contains b₂ q ≡ false
  allocate_block-disjoint size₁ size₂ w b₁ b₂ h₁ h₂ q listed =
      let w₁ : World S = (allocate_block S size₁ w).1 in
      let (n₁, s₁, _, _, _, m₁) = allocate_block_ok size₁ w b₁ h₁ in
      let (n₂, s₂, _, f₂, e₂, _) = allocate_block_ok size₂ w₁ b₂ h₂ in
      rw e₂ (outside_busy w₁ n₂ s₂ q f₂.free (ground (arith, m₁.1 q)))
