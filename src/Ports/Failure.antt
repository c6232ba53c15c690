-- ===== src/Ports/Failure.antt =====
-- What a failed `AllocateBlock` leaves behind, and when it cannot fail.
use goincus.Base.{
  ℕ, zero, suc, ◌+◌, ◌≤◌, ◌<◌, ◌≡◌, ◌≢◌, refl, sym, ap, ◌∙◌, ◌⊎◌, inl, inr, true, false, List, [],
  none, some, String, ℕ-Eq, arith, Option-cases,
}
use goincus.Base.Int.{ℤ, pos, negsuc}
use goincus.Base.Result.{wrap, Result, Error, err, failure}
use goincus.Store.Ports.{used_host_ports}
use goincus.System.{System, World}
use goincus.Redis.{ports_key}
use goincus.Redis.Laws.{RedisLaws}
use goincus.Ports.{allocate_block, allocate_locked, with_lock}
use goincus.Ports.Scan.{
  run_free, run_free→free, is_taken, Searched, full, broken, marking, search_block-Searched,
}
use goincus.Ports.Mark.{is_marked, Unadded, Removes, mark_block_failed}
use goincus.Ports.Lock.{locked, unlocked, with_lock_err, is_marked-locked, is_marked-unlocked}
use goincus.Ports.Allocate.{rounds, searched}

module _ (S : System) (L : RedisLaws S.redis) where
  pub allocate_locked-answered :
      (n : ℕ) (w : World S)
      → S.readings.db_refuses w.ticks ≡ none
      → allocate_locked S n w ≡ searched S L n w
  unfolding allocate_locked
  allocate_locked-answered n w h = ground arith

  allocate_locked-refused :
      (n : ℕ) (w : World S) (m : String)
      → S.readings.db_refuses w.ticks ≡ some m
      → allocate_locked S n w ≡ (err (failure m), record w { ticks = suc w.ticks })
  unfolding allocate_locked
  allocate_locked-refused n w m h = ground arith

module _ (S : System) (L : RedisLaws S.redis) (removes : Removes S L) where
  open S.cfg.ports use {host_range_start, host_range_end}

  -- The tables are as before, and so is every reservation, or all but that of a port whose `SADD` failed.
  abbrev pub Restored : World S → World S → Type 0
  Restored w w' =
      (w'.db ≡ w.db)
      × (((q : ℕ) → is_marked S L w' q ≡ is_marked S L w q)
          ⊎ ((f : ℕ) × Unadded S L f × ((q : ℕ) → q ≢ f → is_marked S L w' q ≡ is_marked S L w q)))

  Restored-map :
      (w w' v v' : World S)
      → v'.db ≡ v.db
      → ((q : ℕ) → is_marked S L w' q ≡ is_marked S L w q → is_marked S L v' q ≡ is_marked S L v q)
      → Restored w w'
      → Restored v v'
  Restored-map w w' v v' same onward (_, inl all) = (same, inl (λ q. onward q (all q)))
  Restored-map w w' v v' same onward (_, inr (f, failed, others)) =
      (same, inr (f, failed, λ q other. onward q (others q other)))

  free_of_run :
      (w : World S) (n found q : ℕ)
      → run_free (is_taken S L w (used_host_ports w.db)) n found ≡ true
      → found ≤ q
      → q < found + n
      → is_marked S L w q ≡ false
  free_of_run w n found q free a b =
      ground (arith, run_free→free (is_taken S L w (used_host_ports w.db)) n found q free a b)

  search_Restored :
      (n rounds start : ℕ) (w : World S) (r : Result (List ℕ) × World S) (e : Error)
      → Searched S L (used_host_ports w.db) n rounds start w r
      → r.0 ≡ err e
      → Restored w r.1
  search_Restored n rounds start w r e (full u e' nowhere) h =
      (u.0, inl (λ q. ap (λ m. m (ports_key S) q) u.1))
  search_Restored n rounds start w r e (broken e' u h') h =
      (u.0, inl (λ q. ap (λ m. m (ports_key S) q) u.1))
  search_Restored n rounds start w r e (marking found w' u low e') h =
      let failed =
        mark_block_failed S L removes n found [] w' e (ap (λ r. r.0) (sym e') ∙ h)
          (λ q a b. ap (λ m. m (ports_key S) q) u.1 ∙ free_of_run w n found q low.2 a b) in
      (
        ground (arith, failed.0),
        inr (failed.1.0, failed.1.3, λ q other. ground (arith, failed.1.4 q other)),
      )

  allocate_locked_failed :
      (n : ℕ) (w : World S) (e : Error)
      → (allocate_locked S n w).0 ≡ err e
      → Restored w (allocate_locked S n w).1
  allocate_locked_failed n w e h = elim (Option-cases (S.readings.db_refuses w.ticks)) [
    | inl answers ↦
        let same = allocate_locked-answered S L n w answers in
        rw same (
          search_Restored n (rounds S L n) host_range_start w (searched S L n w) e
            (search_block-Searched S L (used_host_ports w.db) n (rounds S L n) host_range_start w
              (record w { ticks = suc w.ticks }) (refl, refl))
            (rw same at h))
    | inr (m, refused) ↦ rw (allocate_locked-refused S L n w m refused) (refl, inl (λ q. refl))
  ]

  Restored-locked : (w : World S) → Restored w (locked S w)
  Restored-locked w = (refl, inl (λ q. ap (λ m. m q) (is_marked-locked S L w)))

  Restored-unlocked : (w w' : World S) → Restored (locked S w) w' → Restored w (unlocked S w')
  Restored-unlocked w w' r =
      Restored-map (locked S w) w' w (unlocked S w') r.0
        (λ q same.
          ap (λ m. m q) (is_marked-unlocked S L w') ∙ same ∙ ap (λ m. m q) (is_marked-locked S L w))
        r

  locked_failed :
      (n : ℕ) (w : World S) (e : Error)
      → (with_lock S (wrap "acquire port lock") (allocate_locked S n) w).0 ≡ err e
      → Restored w (with_lock S (wrap "acquire port lock") (allocate_locked S n) w).1
  locked_failed n w e h =
      elim (with_lock_err S (wrap "acquire port lock") (allocate_locked S n) w e h) [
        | inl same ↦ rw same (Restored-locked w)
        | inr (failed, same) ↦ rw same (
            Restored-unlocked w (allocate_locked S n (locked S w)).1
              (allocate_locked_failed n (locked S w) e failed))
      ]

  -- A call of `AllocateBlock` that fails, for whatever reason and at whatever step, has changed no
  -- table, and no reservation, or only that of a port whose `SADD` failed. (`SREM` is taken to be carried
  -- out.)
  pub allocate_block_failed :
      (size : ℤ) (w : World S) (e : Error)
      → (allocate_block S size w).0 ≡ err e
      → Restored w (allocate_block S size w).1
  unfolding allocate_block
  allocate_block_failed (pos zero) w e h = (refl, inl (λ q. refl))
  allocate_block_failed (negsuc n) w e h = (ground arith, inl (λ q. ground arith))
  allocate_block_failed (pos (suc n)) w e h =
      let r = locked_failed (suc n) w e (ground arith) in
      Restored-map w (with_lock S (wrap "acquire port lock") (allocate_locked S (suc n)) w).1 w
        (allocate_block S (pos (suc n)) w).1 (ground (arith, r.0)) (λ q same. ground (arith, same))
        r
