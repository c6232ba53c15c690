-- ===== src/Ports/Reserve.antt =====
-- What `Reserve` promises for one port.
use goincus.Base.{ℕ, ◌≤◌, ◌≡◌, refl, sym, ap, ◌∙◌, false, [], ◌∷◌, ℕ-Eq, arith}
use goincus.Base.Int.{ℤ, pos, negsuc}
use goincus.Base.Result.{ok}
use goincus.System.{System, World}
use goincus.Redis.{ports_key}
use goincus.Redis.Laws.{RedisLaws}
use goincus.Ports.{reserve, reserve_locked}
use goincus.Ports.Mark.{is_marked, MarksOnly, s_add_marks}
use goincus.Ports.Lock.{locked, unlocked, with_lock_ok}
use goincus.Ports.Allocate.{is_busy, locked_busy, MarksOnly-unlocked}

module _ (S : System) (L : RedisLaws S.redis) where
  open S.cfg.ports use {host_range_start, host_range_end}

  reserve_locked_free :
      (p : ℕ) (w : World S) → (reserve_locked S p w).0 ≡ ok tt → is_busy S L w p ≡ false
  unfolding reserve_locked
  reserve_locked_free p w h = ground (arith, L.s_is_member_answers (ports_key S) p w.redis false)

  -- After a reservation that succeeds, the port is in the set.
  reserve_locked_marks :
      (p : ℕ) (w : World S)
      → (reserve_locked S p w).0 ≡ ok tt
      → MarksOnly S L (p ∷ []) w (reserve_locked S p w).1
  unfolding reserve_locked
  reserve_locked_marks p w h =
      let s = (S.redis.s_is_member (ports_key S) p w.redis).1 in
      (
        ground arith,
        λ q. ground (
          arith,
          s_add_marks S L p s (ground arith) q,
          ap (λ m. m (ports_key S) q) (L.s_is_member_keeps (ports_key S) p w.redis),
        ),
      )

  -- A port that `Reserve` grants lies in the configured range, and was neither held by a live instance
  -- nor reserved; afterwards it, and no other port in addition, is reserved, and the tables are as
  -- before.
  pub reserve_ok :
      (port : ℤ) (w : World S)
      → (reserve S port w).0 ≡ ok tt
      → (p : ℕ) × (port ≡ pos p)
        × (host_range_start ≤ p)
        × (p ≤ host_range_end)
        × (is_busy S L w p ≡ false)
        × MarksOnly S L (p ∷ []) w (reserve S port w).1
  unfolding reserve
  reserve_ok (negsuc n) w h = absurd (ground arith)
  reserve_ok (pos p) w h =
      let run = with_lock_ok S (λ e. e) (reserve_locked S p) w tt (ground arith) in
      let same : (reserve S (pos p) w).1 ≡ unlocked S (reserve_locked S p (locked S w)).1 =
        ground (arith, run.1) in
      let marks =
        MarksOnly-unlocked S L (p ∷ []) w (reserve_locked S p (locked S w)).1
          (reserve_locked_marks p (locked S w) run.0) in
      (
        p,
        refl,
        ground arith,
        ground arith,
        ap (λ t. t p) (sym (locked_busy S L w)) ∙ reserve_locked_free p (locked S w) run.0,
        (ap (λ v. v.db) same ∙ marks.0, λ q. ap (λ v. is_marked S L v q) same ∙ marks.1 q),
      )
