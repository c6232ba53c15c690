-- ===== src/Service/Provision/Settled.antt =====
-- Every run of `provision` (internal/service/service.go) comes to an end state.
use goincus.Base.{
  ℕ, zero, suc, ◌+◌, ◌<◌, ◌≡◌, refl, ap, ◌∙◌, String, Bool, true, false, not, ◌||◌, List, [], ◌∷◌,
  ◌==◌, ℕ-Eq, none, contains, select, arith,
}
use goincus.Base.Result.{Result, Error, ok, err, wrap, message}
use goincus.Models.{Instance, PortMapping, InstanceStatus, running, error}
use goincus.Store.Tables.{Db, update_rows}
use goincus.Store.Consistent.{every}
use goincus.System.{System, World, Call, ◌>>◌}
use goincus.Redis.Laws.{RedisLaws}
use goincus.Ports.{allocate_block, release_block}
use goincus.Ports.Mark.{block_of}
use goincus.Ports.Allocate.{allocate_block_ok}
use goincus.Service.Status.{write_status, hour, day}
use goincus.Service.Provision.{
  host_ports, block_size, fail_instance, release_all, release_missing, release_unused,
  finish_provision, after_set_up, after_create, build, after_allocate, provision,
}

abbrev is_end : InstanceStatus → Bool
is_end running = true
is_end error = true
is_end _ = false

-- Every row with the identifier is running or in error.
abbrev pub is_settled : ℕ → Db → Bool
is_settled id d = every (λ i. not (i.id == id) || is_end i.status) d.instances

written :
    (id now : ℕ) (status : InstanceStatus) (message : String) (rows : List Instance)
    → is_end status ≡ true
    → every
        (λ i. not (i.id == id) || is_end i.status)
        (update_rows id
          (λ i. record i { status = status; error_message = message; updated_at = now })
          rows)
      ≡ true
unfolding update_rows
written id now status message [] h = refl
written id now status message (i ∷ rows) h = ground (arith, written id now status message rows)

module _ (S : System) (answers : (t : ℕ) → S.readings.db_refuses t ≡ none) where
  write_status-is_settled :
      (id : ℕ) (status : InstanceStatus) (message : String) (ttl : ℕ) (w : World S)
      → is_end status ≡ true
      → is_settled id (write_status S id status message ttl w).1.db ≡ true
  unfolding write_status
  write_status-is_settled id status message ttl w h = ground (
    arith,
    answers w.ticks,
    written id (S.readings.time_at w.ticks) status message w.db.instances,
  )

  fail_instance-is_settled :
      (id : ℕ) (cause : Error) (w : World S)
      → is_settled id (fail_instance S id cause w).1.db ≡ true
  unfolding fail_instance
  fail_instance-is_settled id cause w = write_status-is_settled id error (message cause) hour w refl

  then_ok :
      {A B : Type 0} (m : Call S A) (k : Call S B) (w : World S) (a : A)
      → (m w).0 ≡ ok a
      → (m >> k) w ≡ k (m w).1
  then_ok m k w a h = ground arith

  release_block-ok : (ports : List ℕ) (w : World S) → (release_block S ports w).0 ≡ ok tt
  unfolding release_block
  release_block-ok [] w = refl
  release_block-ok (p ∷ ports) w = release_block-ok ports _

  release_all-ok : (ports : List ℕ) (w : World S) → (release_all S ports w).0 ≡ ok tt
  unfolding release_all
  release_all-ok [] w = refl
  release_all-ok (p ∷ ports) w = release_all-ok ports _

  release_missing-ok :
      (block : List ℕ) (r : Result (List PortMapping)) (w : World S)
      → (release_missing S block r w).0 ≡ ok tt
  unfolding release_missing
  release_missing-ok block (err _) w = release_block-ok block w
  release_missing-ok block (ok existing) w =
      release_all-ok (select (λ p. not (contains (host_ports existing) p)) block) w

  after_set_up-is_settled :
      (inst : Instance) (block : List ℕ) (r : Result (Unit {0})) (w : World S)
      → is_settled inst.id (after_set_up S inst block r w).1.db ≡ true
  unfolding after_set_up finish_provision release_unused
  after_set_up-is_settled inst block (ok _) w =
      write_status-is_settled inst.id running "" day w refl
  after_set_up-is_settled inst block (err e) w =
      ap (λ r. is_settled inst.id r.1.db)
        (then_ok (release_unused S inst.id block) (fail_instance S inst.id e) w tt
          (release_missing-ok block _ _))
      ∙ fail_instance-is_settled inst.id e (release_unused S inst.id block w).1

  after_create-is_settled :
      (inst : Instance) (block : List ℕ) (port : ℕ) (r : Result (Unit {0})) (w : World S)
      → is_settled inst.id (after_create S inst block port r w).1.db ≡ true
  unfolding after_create
  after_create-is_settled inst block port (ok _) w = after_set_up-is_settled inst block _ _
  after_create-is_settled inst block port (err e) w =
      let cause = wrap "create container" e in
      ap (λ r. is_settled inst.id r.1.db)
        (then_ok (release_block S block) (fail_instance S inst.id cause) w tt
          (release_block-ok block w))
      ∙ fail_instance-is_settled inst.id cause (release_block S block w).1

  build-is_settled :
      (inst : Instance) (p : ℕ) (block : List ℕ) (w : World S)
      → is_settled inst.id (build S inst (p ∷ block) w).1.db ≡ true
  unfolding build
  build-is_settled inst p block w = after_create-is_settled inst (p ∷ block) p _ _

  module _ (L : RedisLaws S.redis) where
    -- A block that is allocated for an instance has a first port.
    first_of_block :
        (w : World S) (b : List ℕ)
        → (allocate_block S (block_size S) w).0 ≡ ok b
        → (p : ℕ) × (rest : List ℕ) × (b ≡ p ∷ rest)
    first_of_block w b h =
        let (n, start, _, free, e, _) = allocate_block_ok S L (block_size S) w b h in
        first n start free.positive e
      where
        first :
            (n start : ℕ)
            → 0 < n
            → b ≡ block_of n start
            → (p : ℕ) × (rest : List ℕ) × (b ≡ p ∷ rest)
        first zero start positive e = absurd (omega arith)
        first (suc m) start positive e = (start, block_of m (start + 1), e)

    after_allocate-is_settled :
        (inst : Instance) (r : Result (List ℕ)) (w : World S)
        → ((b : List ℕ) → r ≡ ok b → (p : ℕ) × (rest : List ℕ) × (b ≡ p ∷ rest))
        → is_settled inst.id (after_allocate S inst r w).1.db ≡ true
    unfolding after_allocate
    after_allocate-is_settled inst (err e) w nonempty =
        fail_instance-is_settled inst.id (wrap "allocate port block" e) w
    after_allocate-is_settled inst (ok b) w nonempty =
        let (p, rest, e) = nonempty b refl in rw e (build-is_settled inst p rest w)

    -- If the database answers, `provision` leaves its instance running or in error, whatever Incus and
    -- Redis answer, and in particular where there is no free block or a step in the guest fails.
    pub provision-is_settled :
        (inst : Instance) (w : World S) → is_settled inst.id (provision S inst w).1.db ≡ true
    unfolding provision
    provision-is_settled inst w = after_allocate-is_settled inst _ _ (first_of_block _)
