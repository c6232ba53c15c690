-- ===== src/Ports/Refine.antt =====
-- The allocator as a pool of ports: what its clients may rely on, without Redis, lock and database.
use goincus.Base.{
  inl, inr, ℕ, ◌+◌, ◌≤◌, ◌<◌, ◌≡◌, ◌≢◌, refl, sym, ◌∙◌, Bool, true, false, not, ◌&&◌, ◌||◌, List,
  [], ◌∷◌, contains, ℕ-Eq, arith,
}
use mathlib.Core.Path.{subst}
use goincus.Base.Int.{ℤ, pos}
use goincus.Base.Result.{Result, Error, ok, err}
use goincus.Store.Ports.{used_host_ports}
use goincus.System.{System, World, Call, pure, ◌>>◌}
use goincus.Redis.Laws.{RedisLaws}
use goincus.Ports.{allocate_block, release_block}
use goincus.Ports.Scan.{run_free}
use goincus.Ports.Mark.{block_of, is_marked, Removes, release_block_lem}
use goincus.Ports.Allocate.{allocate_block_ok}
use goincus.Ports.Failure.{allocate_block_failed}

-- A call of the allocator.
pub data PortCall : Type 0 where
  allocate : ℤ → PortCall
  release : List ℕ → PortCall

-- What a pool of the ports from `low` to `high` may do on a call, where the ports `held` are in use elsewhere and
-- `before` and `after` are the reserved ports: grant the lowest run of free ports, take ports back, or
-- fail, with at most one port left in another state.
pub data PoolStep (held : List ℕ) (low high : ℕ)
    : PortCall → Result (List ℕ) → (ℕ → Bool) → (ℕ → Bool) → Type 0 where
  granted :
      (n start : ℕ) (before after : ℕ → Bool)
      → 0 < n
      → low ≤ start
      → start + n ≤ high + 1
      → run_free (λ q. contains held q || before q) n start ≡ true
      → ((s : ℕ) → low ≤ s → s < start → run_free (λ q. contains held q || before q) n s ≡ false)
      → ((q : ℕ) → after q ≡ (contains (block_of n start) q || before q))
      → PoolStep held low high (allocate (pos n)) (ok (block_of n start)) before after
  returned :
      (ports : List ℕ) (before after : ℕ → Bool)
      → ((q : ℕ) → after q ≡ (not (contains ports q) && before q))
      → PoolStep held low high (release ports) (ok []) before after
  refused :
      (size : ℤ) (e : Error) (f : ℕ) (before after : ℕ → Bool)
      → ((q : ℕ) → q ≢ f → after q ≡ before q)
      → PoolStep held low high (allocate size) (err e) before after

-- One call after the other, with their replies.
pub data PoolRun (held : List ℕ) (low high : ℕ)
    : List PortCall → List (Result (List ℕ)) → (ℕ → Bool) → (ℕ → Bool) → Type 0 where
  done : (reserved : ℕ → Bool) → PoolRun held low high [] [] reserved reserved
  next :
      (c : PortCall) (r : Result (List ℕ)) (calls : List PortCall)
      (replies : List (Result (List ℕ))) (before middle after : ℕ → Bool)
      → PoolStep held low high c r before middle
      → PoolRun held low high calls replies middle after
      → PoolRun held low high (c ∷ calls) (r ∷ replies) before after

module _ (S : System) where
  -- A call of the allocator as it is.
  unfoldable pub answer_call : PortCall → Call S (List ℕ)
  unfolding allocate_block release_block
  answer_call (allocate size) = allocate_block S size
  answer_call (release ports) = do release_block S ports; pure []

  unfoldable pub answer_all : List PortCall → World S → List (Result (List ℕ)) × World S
  unfolding answer_call
  answer_all [] w = ([], w)
  answer_all (c ∷ calls) w =
      let (r, w') = answer_call c w in
      let (replies, after) = answer_all calls w' in (r ∷ replies, after)

module _ (S : System) (L : RedisLaws S.redis) (removes : Removes S L) where
  open S.cfg.ports use {host_range_start, host_range_end}

  abbrev Step : World S → PortCall → Result (List ℕ) × World S → Type 0
  Step w c (r, w') =
      (w'.db ≡ w.db)
      × PoolStep (used_host_ports w.db) host_range_start host_range_end c r (is_marked S L w)
          (is_marked S L w')

  allocate_block-Step : (size : ℤ) (w : World S) → Step w (allocate size) (allocate_block S size w)
  allocate_block-Step size w = go (allocate_block S size w).0 refl
    where
      go :
          (r : Result (List ℕ))
          → (allocate_block S size w).0 ≡ r
          → Step w (allocate size) (r, (allocate_block S size w).1)
      go (ok b) h =
          let (n, start, same, low, block, marks) = allocate_block_ok S L size w b h in
          (
            marks.0,
            subst
                (λ z.
                  PoolStep (used_host_ports w.db) host_range_start host_range_end (allocate z)
                    (ok b) (is_marked S L w) (is_marked S L (allocate_block S size w).1))
                (sym same)
                (subst
                  (λ x.
                    PoolStep (used_host_ports w.db) host_range_start host_range_end
                      (allocate (pos n)) (ok x) (is_marked S L w)
                      (is_marked S L (allocate_block S size w).1))
                  (sym block)
                  (granted n start _ _ low.positive low.above low.below low.free low.lowest
                    (λ q. rw (← block) (marks.1 q)))),
          )
      go (err e) h =
          let (same, restored) = allocate_block_failed S L removes size w e h in
          (
            same,
            elim restored [
              | inl all ↦ refused size e 0 _ _ (λ q _. all q)
              | inr (f, failed, others) ↦ refused size e f _ _ others
            ],
          )

  replies-nothing :
      (m : Call S (Unit {0})) (w : World S)
      → (m w).0 ≡ ok tt
      → (m >> pure {A = List ℕ} []) w ≡ (ok [], (m w).1)
  replies-nothing m w h = ground arith

  release_block-Step :
      (ports : List ℕ) (w : World S) → Step w (release ports) (answer_call S (release ports) w)
  unfolding answer_call
  release_block-Step ports w =
      let (same, answered, marks) = release_block_lem S L removes ports w in
      subst (λ r. Step w (release ports) r)
        (sym (replies-nothing (release_block S ports) w answered)) (same, returned ports _ _ marks)

  answer_call-Step : (c : PortCall) (w : World S) → Step w c (answer_call S c w)
  unfolding answer_call
  answer_call-Step (allocate size) w = allocate_block-Step size w
  answer_call-Step (release ports) w = release_block-Step ports w

  -- However the calls of `AllocateBlock` and `ReleaseBlock` follow each other, and wherever they fail, the
  -- reserved ports and the replies are those of a run of a pool, and no table changes. (`SREM` is taken
  -- to be carried out.)
  pub answer_all-PoolRun :
      (calls : List PortCall) (w : World S)
      → ((answer_all S calls w).1.db ≡ w.db)
        × PoolRun
            (used_host_ports w.db)
            host_range_start
            host_range_end
            calls
            (answer_all S calls w).0
            (is_marked S L w)
            (is_marked S L (answer_all S calls w).1)
  unfolding answer_all
  answer_all-PoolRun [] w = (refl, done _)
  answer_all-PoolRun (c ∷ calls) w =
      let (same, step) = answer_call-Step c w in
      let (same', run) = answer_all-PoolRun calls (answer_call S c w).1 in
      (
        same' ∙ same,
        next c _ calls _ _ _ _ step (
            subst
              (λ d.
                PoolRun (used_host_ports d) host_range_start host_range_end calls
                  (answer_all S calls (answer_call S c w).1).0 (is_marked S L (answer_call S c w).1)
                  (is_marked S L (answer_all S calls (answer_call S c w).1).1))
              same run),
      )
