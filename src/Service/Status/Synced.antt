-- ===== src/Service/Status/Synced.antt =====
-- What `syncStatusFromIncus` (internal/service/service.go) does to an instance.
use goincus.Base.{
  String, ◌≡◌, refl, Bool, true, false, String-Eq, some, ◌⊎◌, inl, inr, arith, if◌then◌else◌,
  Bool-cases,
}
use goincus.Base.Result.{Result, ok, err}
use goincus.Base.Text.{equal_fold}
use goincus.Models.{
  Instance, same_status, InstanceStatus, pending, creating, running, stopped, error, deleting,
  deleted,
}
use goincus.System.{attempt, incus_call, System, World, Call, pure}
use goincus.Service.Status.{
  up_to_date, write_status, sync_to, sync_power, read_power, sync_status_from_incus, synced,
  power_status,
}

-- An instance in creation or deletion.
abbrev pub in_transition : InstanceStatus → Bool
in_transition running = false
in_transition stopped = false
in_transition error = false
in_transition _ = true

-- The status and the error message that an instance has when Incus has replied: those for a running or a
-- stopped machine, or else the ones that it had. A running machine has no error.
abbrev pub reported : Instance → Result String → InstanceStatus × String
reported inst (err _) = (inst.status, inst.error_message)
reported inst (ok text) =
    if equal_fold text "Running"
    then (running, "")
    else (if equal_fold text "Stopped" then stopped else inst.status, inst.error_message)

-- The instance afterwards differs in these two fields at most.
abbrev pub Expected : Instance → Result String → Instance → Type 0
Expected inst reply inst' =
    ((inst'.status, inst'.error_message) ≡ reported inst reply)
    × (inst' ≡ record inst { status = inst'.status; error_message = inst'.error_message })

running_only : (s : InstanceStatus) → same_status s running ≡ true → s ≡ running
running_only running h = refl
running_only pending h = absurd (cc h)
running_only creating h = absurd (cc h)
running_only stopped h = absurd (cc h)
running_only error h = absurd (cc h)
running_only deleting h = absurd (cc h)
running_only deleted h = absurd (cc h)

stopped_only : (s : InstanceStatus) → same_status s stopped ≡ true → s ≡ stopped
stopped_only stopped h = refl
stopped_only pending h = absurd (cc h)
stopped_only creating h = absurd (cc h)
stopped_only running h = absurd (cc h)
stopped_only error h = absurd (cc h)
stopped_only deleting h = absurd (cc h)
stopped_only deleted h = absurd (cc h)

module _ (S : System) where
  -- What a synchronisation returns, with the status and the message that it has.
  abbrev Answered : Instance → InstanceStatus × String → Result Instance × World S → Type 0
  Answered inst fields r =
      (inst' : Instance) × (r.0 ≡ ok inst')
      × (((inst'.status, inst'.error_message) ≡ fields)
          × (inst' ≡ record inst { status = inst'.status; error_message = inst'.error_message }))

  sync_to-running :
      (inst : Instance) (w : World S)
      → Answered inst (running, "") (sync_to S inst (some running) w)
  unfolding sync_to write_status
  sync_to-running inst w = elim (Bool-cases (up_to_date inst running)) [
    | inl settled ↦
        let status : inst.status ≡ running = running_only inst.status (ground arith) in
        let message : inst.error_message ≡ "" =
          ground (arith, String-Eq.test_iff inst.error_message "") in
        (inst, ground arith, (cc (status, message), refl))
    | inr stale ↦ (synced inst running, ground arith, (refl, refl))
  ]

  sync_to-stopped :
      (inst : Instance) (w : World S)
      → Answered inst (stopped, inst.error_message) (sync_to S inst (some stopped) w)
  unfolding sync_to write_status
  sync_to-stopped inst w = elim (Bool-cases (up_to_date inst stopped)) [
    | inl settled ↦
        let status : inst.status ≡ stopped = stopped_only inst.status (ground arith) in
        (inst, ground arith, (cc status, refl))
    | inr stale ↦ (synced inst stopped, ground arith, (refl, refl))
  ]

  sync_power_lem :
      (inst : Instance) (reply : Result String) (w : World S)
      → Answered inst (reported inst reply) (sync_power S inst reply w)
  unfolding sync_power power_status sync_to
  sync_power_lem inst (err e) w = (inst, refl, (refl, refl))
  sync_power_lem inst (ok text) w = elim (Bool-cases (equal_fold text "Running")) [
    | inl up ↦ rw up (sync_to-running inst w)
    | inr other ↦ elim (Bool-cases (equal_fold text "Stopped")) [
      | inl down ↦ rw (other, down) (sync_to-stopped inst w)
      | inr neither ↦ rw (other, neither) (inst, refl, (refl, refl))
    ]
  ]

  read_power_lem :
      (inst : Instance) (w : World S)
      → Answered inst
          (reported inst (S.incus.get_status inst.incus_name w.incus).0)
          (read_power S inst w)
  unfolding read_power
  read_power_lem inst w =
      sync_power_lem inst (S.incus.get_status inst.incus_name w.incus).0
        (attempt (incus_call S (S.incus.get_status inst.incus_name)) w).1

  -- The synchronisation never fails. An instance in creation or deletion is returned as it is, and nothing
  -- in the world changes; another is returned with the status and the error message that go with the reply of
  -- Incus: running and no error, stopped, or else the ones that it had.
  pub sync_status_from_incus_lem :
      (inst : Instance) (w : World S)
      → ((in_transition inst.status ≡ true) × (sync_status_from_incus S inst w ≡ (ok inst, w)))
        ⊎ ((in_transition inst.status ≡ false)
            × ((inst' : Instance) × ((sync_status_from_incus S inst w).0 ≡ ok inst')
                × Expected inst (S.incus.get_status inst.incus_name w.incus).0 inst'))
  unfolding sync_status_from_incus
  sync_status_from_incus_lem inst w = by_status inst.status
    where
      by_status :
          (status : InstanceStatus)
          → let r =
              (elim status as (λ _. Call S Instance) [
                | pending ↦ pure inst
                | creating ↦ pure inst
                | deleting ↦ pure inst
                | deleted ↦ pure inst
                | running ↦ read_power S inst
                | stopped ↦ read_power S inst
                | error ↦ read_power S inst
              ])
                w in
            ((in_transition status ≡ true) × (r ≡ (ok inst, w)))
            ⊎ ((in_transition status ≡ false)
                × ((inst' : Instance) × (r.0 ≡ ok inst')
                    × Expected inst (S.incus.get_status inst.incus_name w.incus).0 inst'))
      by_status pending = inl (refl, refl)
      by_status creating = inl (refl, refl)
      by_status deleting = inl (refl, refl)
      by_status deleted = inl (refl, refl)
      by_status running = inr (refl, read_power_lem inst w)
      by_status stopped = inr (refl, read_power_lem inst w)
      by_status error = inr (refl, read_power_lem inst w)
