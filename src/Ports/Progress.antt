-- ===== src/Ports/Progress.antt =====
-- `AllocateBlock` finds a block whenever there is one and the servers answer.
use goincus.Base.{
  ℕ, zero, suc, ◌+◌, ◌≤◌, ◌<◌, ◌≡◌, refl, ap, ◌∙◌, ◌⊎◌, inl, inr, Bool, true, false, not, List, [],
  ◌∷◌, ◌++◌, none, contains, ℕ-Eq, if◌then◌else◌, arith, Bool-cases,
}
use goincus.Base.Int.{pos}
use goincus.Base.Result.{wrap, Result, ok}
use goincus.Store.Ports.{used_host_ports}
use goincus.System.{System, World, pure, bind_rule}
use goincus.Redis.{ports_key, lock_key}
use goincus.Redis.Laws.{RedisLaws}
use goincus.Ports.{
  allocate_block, allocate_locked, search_block, mark_block, block_is_free, is_free, with_lock,
  alloc_lock_ttl,
}
use goincus.Ports.Scan.{run_free, is_taken, Unchanged, is_taken-eq, block_is_free-Scanned}
use goincus.Ports.Mark.{mark_block-suc_ok, after_mark}
use goincus.Ports.Lock.{locked}
use goincus.Ports.Allocate.{is_busy, rounds, locked_busy}
use goincus.Ports.Failure.{allocate_locked-answered}

-- The call returns a value.
abbrev pub Returns {ℓ} : {A : Type ℓ} → Result A → Type ℓ
Returns {A} r = (a : A) × (r ≡ ok a)

-- The database answers every query, and Redis every command on the set of ports.
pub record Answers (S : System) : Type 0 where
  pub database : (t : ℕ) → S.readings.db_refuses t ≡ none
  pub lookup : (p : ℕ) (s : S.redis.State) → Returns (S.redis.s_is_member (ports_key S) p s).0
  pub insert : (p : ℕ) (s : S.redis.State) → (S.redis.s_add (ports_key S) p s).0 ≡ ok tt

-- No process holds the allocator's lock.
abbrev pub LockFree : (S : System) → World S → Type 0
LockFree S w = (S.redis.set_nx (lock_key S "port-alloc") "1" alloc_lock_ttl w.redis).0 ≡ ok true

module _ (S : System) (L : RedisLaws S.redis) (A : Answers S) where
  open S.cfg.ports use {host_range_start, host_range_end}

  is_free-Returns : (used : List ℕ) (p : ℕ) (w : World S) → Returns (is_free S used p w).0
  unfolding is_free
  is_free-Returns used p w = elim (Bool-cases (contains used p)) [
    | inl listed ↦ (false, ground arith)
    | inr unlisted ↦ let (b, e) = A.lookup p w.redis in (not b, ground arith)
  ]

  scan_rest : List ℕ → ℕ → ℕ → Bool → World S → Result Bool × World S
  scan_rest used n p free = if free then block_is_free S used n (p + 1) else pure false

  scan_rest-Returns :
      (used : List ℕ) (n p : ℕ) (free : Bool) (w : World S)
      → Returns (block_is_free S used n (p + 1) w).0
      → Returns (scan_rest used n p free w).0
  unfolding scan_rest
  scan_rest-Returns used n p true w h = h
  scan_rest-Returns used n p false w h = (false, refl)

  block_is_free-Returns :
      (used : List ℕ) (n p : ℕ) (w : World S) → Returns (block_is_free S used n p w).0
  unfolding block_is_free scan_rest
  block_is_free-Returns used zero p w = (true, refl)
  block_is_free-Returns used (suc n) p w =
      bind_rule (is_free S used p) (scan_rest used n p) w
        (λ (r : Result Bool × World S). Returns r.0)
        (λ free h.
          scan_rest-Returns used n p free (is_free S used p w).1
            (block_is_free-Returns used n (p + 1) (is_free S used p w).1))
        (λ e h. let (b, h') = is_free-Returns used p w in absurd (cc h'))

  mark_block-Returns :
      (n p : ℕ) (block : List ℕ) (w : World S) → Returns (mark_block S n p block w).0
  unfolding mark_block
  mark_block-Returns zero p block w = (block, refl)
  mark_block-Returns (suc n) p block w =
      rw (mark_block-suc_ok S L n p block w (A.insert p w.redis))
        (mark_block-Returns n (p + 1) (block ++ p ∷ []) (after_mark S L p w))

  here_or_later : (start s : ℕ) → start ≤ s → (start ≡ s) ⊎ (start + 1 ≤ s)
  here_or_later start s h = omega arith

  search_rest : List ℕ → ℕ → ℕ → ℕ → Bool → World S → Result (List ℕ) × World S
  search_rest used size rounds start free =
      if free then mark_block S size start [] else search_block S used size rounds (start + 1)

  search_rest-Returns :
      (used : List ℕ) (size rounds start : ℕ) (free : Bool) (w : World S)
      → (free ≡ false → Returns (search_block S used size rounds (start + 1) w).0)
      → Returns (search_rest used size rounds start free w).0
  unfolding search_rest
  search_rest-Returns used size rounds start true w later = mark_block-Returns size start [] w
  search_rest-Returns used size rounds start false w later = later refl

  search_block-Returns :
      (used : List ℕ) (size rounds start s : ℕ) (w : World S)
      → start ≤ s
      → s < start + rounds
      → run_free (is_taken S L w used) size s ≡ true
      → Returns (search_block S used size rounds start w).0
  unfolding search_block search_rest
  search_block-Returns used size zero start s w a b free = absurd (omega arith)
  search_block-Returns used size (suc rounds) start s w a b free =
      bind_rule (block_is_free S used size start) (search_rest used size rounds start) w
        (λ (r : Result (List ℕ) × World S). Returns r.0)
        (λ here h. search_rest-Returns used size rounds start here w₁ λ not_here.
          elim (here_or_later start s a) [
            | inl same ↦
                let here_free : run_free (is_taken S L w used) size start ≡ true = rw same free in
                absurd (cc (not_here, scan.1 here h, here_free))
            | inr later ↦
                search_block-Returns used size rounds (start + 1) s w₁ later (omega arith)
                  (ap (λ t. run_free t size s) (is_taken-eq S L w w₁ used scan.0) ∙ free)
          ])
        (λ e h. let (b, h') = block_is_free-Returns used size start w in absurd (cc h'))
    where
      w₁ : World S
      w₁ = (block_is_free S used size start w).1

      scan :
          Unchanged S L w w₁
          × ((b : Bool)
              → (block_is_free S used size start w).0 ≡ ok b
              → b ≡ run_free (is_taken S L w used) size start)
      scan = block_is_free-Scanned S L used size start w

  with_lock-Returns :
      (n : ℕ) (w : World S)
      → LockFree S w
      → Returns (allocate_locked S n (locked S w)).0
      → Returns (with_lock S (wrap "acquire port lock") (allocate_locked S n) w).0
  unfolding with_lock
  with_lock-Returns n w unheld (b, h) = (b, ground arith)

  -- Where the servers answer, the lock is free and the range has a free block of the size that is asked
  -- for, `AllocateBlock` returns a block.
  pub allocate_block-Returns :
      (n s : ℕ) (w : World S)
      → LockFree S w
      → 0 < n
      → host_range_start ≤ s
      → s + n ≤ host_range_end + 1
      → run_free (is_busy S L w) n s ≡ true
      → Returns (allocate_block S (pos n) w).0
  unfolding allocate_block
  allocate_block-Returns zero s w unheld h a b free = absurd (omega arith)
  allocate_block-Returns (suc n) s w unheld h a b free =
      let same = allocate_locked-answered S L (suc n) (locked S w) (A.database w.ticks) in
      let (block, e) =
        search_block-Returns (used_host_ports w.db) (suc n) (rounds S L (suc n)) host_range_start s
          (record (locked S w) { ticks = suc w.ticks }) a (omega arith)
          (ap (λ t. run_free t (suc n) s) (locked_busy S L w) ∙ free) in
      let (block', e') = with_lock-Returns (suc n) w unheld (block, ap (λ r. r.0) same ∙ e) in
      (block', ground arith)
