-- ===== src/Incus/Proxies/Stored.antt =====
-- The devices that Incus stores after the proxy devices of an instance were changed.
use mathlib.Core.Path.{subst}
use goincus.Base.{ℕ, String, ◌≡◌, ◌∙◌, sym, some, String-Eq}
use goincus.Base.Maps.{Settings, Devices, with_value}
use goincus.Base.Result.{ok}
use goincus.System.{◌>>=◌, bind_succeeds, within_succeeds}
use goincus.Incus.Daemon.{Daemon, Guest, Session, Request, request}
use goincus.Incus.Laws.{DaemonLaws}
use goincus.Incus.Proxies.{proxy_settings, write_devices, add_proxy_device}

module _ (D : Daemon) (L : DaemonLaws D) where
  -- The instance that is stored in a session, with these settings and devices.
  abbrev pub HasDevices : Session D → String → Settings → Devices → Type 0
  HasDevices s name config devices =
      (g : Guest) × ((L.stored name s.server ≡ some g)
        × ((g.config ≡ config) × (g.devices ≡ devices)))

  write_devices_lem :
      (name : String) (config : Settings) (devices : Devices) (etag : String) (s : Session D)
      → (write_devices D name config devices etag s).0 ≡ ok tt
      → HasDevices (write_devices D name config devices etag s).1 name config devices
  write_devices_lem name config devices etag s h =
      let (op, (accepted, whole)) =
        bind_succeeds (request D (D.update_instance name config devices etag))
          (λ op. request D (D.wait op)) s tt h in
      let waited = subst (λ r. r.0 ≡ ok tt) whole h in
      subst (λ r. HasDevices r.1 name config devices) (sym whole)
        (L.update_instance_done name config devices etag s.server op accepted waited)

  -- A call that reads the instance first.
  after_get :
      {B : Type 0} (name : String) (f : Guest × String → Request D B) (s : Session D) (b : B)
      → ((request D (D.get_instance name) >>= f) s).0 ≡ ok b
      → (g : Guest) × (etag : String) × (after : Session D) × ((L.stored name s.server ≡ some g)
          × ((L.stored name after.server ≡ some g)
              × ((request D (D.get_instance name) >>= f) s ≡ f (g, etag) after)))
  after_get name f s b h =
      let ((g, etag), (answered, whole)) =
        bind_succeeds (request D (D.get_instance name)) f s b h in
      let there = L.get_instance_answers name s.server g etag answered in
      (
        g,
        etag,
        (request D (D.get_instance name) s).1,
        (there, (L.get_instance_keeps name s.server ∙ there, whole)),
      )

  -- `AddProxyDevice` that succeeds.
  pub add_proxy_device_lem :
      (name device protocol : String) (host internal : ℕ) (s : Session D)
      → (add_proxy_device D name device protocol host internal s).0 ≡ ok tt
      → (g : Guest) × ((L.stored name s.server ≡ some g)
          × HasDevices
              (add_proxy_device D name device protocol host internal s).1
              name
              g.config
              (with_value g.devices device (proxy_settings protocol host internal)))
  unfolding add_proxy_device
  add_proxy_device_lem name device protocol host internal s h =
      let inner : Request D (Unit {0}) = request D (D.get_instance name) >>= (λ r.
        write_devices D name r.0.config
          (with_value r.0.devices device (proxy_settings protocol host internal)) r.1) in
      let same = within_succeeds "add proxy device" inner s tt h in
      let done = subst (λ r. r.0 ≡ ok tt) same h in
      let (g, etag, after, (before, (_, whole))) =
        after_get name
          (λ r.
            write_devices D name r.0.config
              (with_value r.0.devices device (proxy_settings protocol host internal)) r.1)
          s tt done in
      (
        g,
        (
          before,
          subst
              (λ r.
                HasDevices r.1 name g.config
                  (with_value g.devices device (proxy_settings protocol host internal)))
              (sym (same ∙ whole))
              (write_devices_lem name g.config
                (with_value g.devices device (proxy_settings protocol host internal)) etag after
                (subst (λ r. r.0 ≡ ok tt) whole done)),
        ),
      )
