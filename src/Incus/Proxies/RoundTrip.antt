-- ===== src/Incus/Proxies/RoundTrip.antt =====
-- A proxy device that is added and removed again.
use mathlib.Core.Path.{subst}
use goincus.Base.{
  ℕ, String, ◌≡◌, ◌∙◌, refl, sym, ap, Bool, true, false, Option, none, some, ◌==◌, String-Eq,
  Bool-cases, inl, inr, if◌then◌else◌,
}
use goincus.Base.Maps.{
  Settings, Devices, value_at, has_key, without, with_value, value_at-without, value_at-with_value,
}
use goincus.Base.Result.{ok}
use goincus.System.{◌>>=◌, within, bind_succeeds, within_succeeds, pure}
use goincus.Incus.Daemon.{Daemon, Guest, Session, Request, request}
use goincus.Incus.Laws.{DaemonLaws}
use goincus.Incus.Proxies.{proxy_settings, add_proxy_device, remove_proxy_device}
use goincus.Incus.Proxies.Stored.{add_proxy_device_lem}

has_key-none : (m : Devices) (k : String) → has_key m k ≡ false → value_at m k ≡ none
has_key-none m k = go (value_at m k)
  where
    go :
        (o : Option Settings)
        → (elim o as (λ _. Bool) [ none ↦ false | some _ ↦ true ]) ≡ false
        → o ≡ none
    go none h = refl
    go (some v) h = absurd (cc h)

-- What is put under a free key and taken away leaves every key as it was.
restored :
    (m : Devices) (device : String) (v : Settings) (k : String)
    → value_at m device ≡ none
    → (if k == device then none else value_at (with_value m device v) k) ≡ value_at m k
restored m device v k absent = elim (Bool-cases (k == device)) [
  | inl same ↦ rw (same, (String-Eq.test_iff k device).0 same) (sym absent)
  | inr other ↦ rw (other, value_at-with_value m device k v, other) refl
]

module _ (D : Daemon) (L : DaemonLaws D) where
  -- The instance that is stored has these settings, and the devices `before` but for `device`.
  abbrev Removed : Session D → String → Guest → String → Type 0
  Removed s name before device =
      (g : Guest) × ((L.stored name s.server ≡ some g)
        × ((g.config ≡ before.config)
            × ((k : String)
                → value_at g.devices k
                  ≡ (if k == device then none else value_at before.devices k))))

  -- The second part of `RemoveProxyDevice`.
  abbrev drop_device : String → String → Guest → String → Request D (Unit {0})
  drop_device name device g etag =
      if has_key g.devices device
      then within "remove proxy device"
          (request D (D.update_instance name g.config (without g.devices device) etag))
        >>= (λ op. request D (D.wait op))
      else pure tt

  drop_device_lem :
      (name device : String) (g : Guest) (etag : String) (s : Session D)
      → L.stored name s.server ≡ some g
      → (drop_device name device g etag s).0 ≡ ok tt
      → Removed (drop_device name device g etag s).1 name g device
  drop_device_lem name device g etag s there = go (has_key g.devices device) refl
    where
      lookup_missing :
          (k : String)
          → value_at g.devices device ≡ none
          → value_at g.devices k ≡ (if k == device then none else value_at g.devices k)
      lookup_missing k absent = elim (Bool-cases (k == device)) [
        | inl same ↦ rw (same, (String-Eq.test_iff k device).0 same) absent
        | inr other ↦ rw other refl
      ]

      update : Request D D.Operation
      update = request D (D.update_instance name g.config (without g.devices device) etag)

      go :
          (b : Bool)
          → has_key g.devices device ≡ b
          → ((if b
                then within "remove proxy device" update >>= (λ op. request D (D.wait op))
                else pure tt)
              s).0
            ≡ ok tt
          → Removed
              ((if b
                  then within "remove proxy device" update >>= (λ op. request D (D.wait op))
                  else pure tt)
                s).1
              name
              g
              device
      go false missing h =
          (g, (there, (refl, λ k. lookup_missing k (has_key-none g.devices device missing))))
      go true found h =
          let (op, (accepted, whole)) =
            bind_succeeds (within "remove proxy device" update) (λ op. request D (D.wait op)) s tt
              h in
          let same = within_succeeds "remove proxy device" update s op accepted in
          let run = whole ∙ ap (λ r. request D (D.wait op) r.1) same in
          let (stored, (kept, (config, devices))) =
            L.update_instance_done name g.config (without g.devices device) etag s.server op
              (subst (λ r. r.0 ≡ ok op) same accepted) (subst (λ r. r.0 ≡ ok tt) run h) in
          (
            stored,
            (
              subst (λ r. L.stored name r.1.server ≡ some stored) (sym run) kept,
              (config, λ k. rw devices (value_at-without g.devices device k)),
            ),
          )

  -- `RemoveProxyDevice` that succeeds.
  remove_proxy_device_lem :
      (name device : String) (g : Guest) (s : Session D)
      → L.stored name s.server ≡ some g
      → (remove_proxy_device D name device s).0 ≡ ok tt
      → Removed (remove_proxy_device D name device s).1 name g device
  unfolding remove_proxy_device
  remove_proxy_device_lem name device g s there h =
      let get : Request D (Guest × String) = request D (D.get_instance name) in
      let ((read, etag), (answered, whole)) =
        bind_succeeds (within "get instance" get) (λ r. drop_device name device r.0 r.1) s tt h in
      let same = within_succeeds "get instance" get s (read, etag) answered in
      let run = whole ∙ ap (λ r. drop_device name device read etag r.1) same in
      let known =
        L.get_instance_answers name s.server read etag
          (subst (λ r. r.0 ≡ ok (read, etag)) same answered) in
      let is_g : read ≡ g = cc (known, there) in
      subst (λ before. Removed (remove_proxy_device D name device s).1 name before device) is_g
        (subst (λ r. Removed r.1 name read device) (sym run)
          (drop_device_lem name device read etag (get s).1
            (L.get_instance_keeps name s.server ∙ known) (subst (λ r. r.0 ≡ ok tt) run h)))

  -- A proxy device under a name that an instance does not use, when it was added and removed again, both without an
  -- error, leaves the settings and the devices that Incus stores for the instance as they were.
  pub remove_proxy_device-add_proxy_device :
      (name device protocol : String) (host internal : ℕ) (s : Session D) (g : Guest)
      → L.stored name s.server ≡ some g
      → value_at g.devices device ≡ none
      → let added = add_proxy_device D name device protocol host internal s in
        let removed = remove_proxy_device D name device added.1 in
        added.0 ≡ ok tt
        → removed.0 ≡ ok tt
        → (after : Guest) × ((L.stored name removed.1.server ≡ some after)
            × ((after.config ≡ g.config)
                × ((k : String) → value_at after.devices k ≡ value_at g.devices k)))
  remove_proxy_device-add_proxy_device name device protocol host internal s g there absent added
        removed =
      let (read, (known, (middle, (kept, (config, devices))))) =
        add_proxy_device_lem D L name device protocol host internal s added in
      let is_g : read ≡ g = cc (known, there) in
      let (after, (last, (config', lookups))) =
        remove_proxy_device_lem name device middle
          (add_proxy_device D name device protocol host internal s).1 kept removed in
      (
        after,
        (
          last,
          (
            cc (config', config, is_g),
            λ k.
                lookups k
                ∙ subst
                    (λ (m : Devices).
                      (if k == device then none else value_at m k) ≡ value_at g.devices k)
                    (sym (
                      devices
                      ∙ ap
                          (λ (x : Guest).
                            with_value x.devices device (proxy_settings protocol host internal))
                          is_g))
                    (restored g.devices device (proxy_settings protocol host internal) k absent),
          ),
        ),
      )
