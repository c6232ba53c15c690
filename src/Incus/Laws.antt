-- ===== src/Incus/Laws.antt =====
-- What Incus documents of its instances, as hypotheses about a daemon: a request for an instance answers with
-- what is stored and changes nothing stored, and a change that was accepted and waited for without an
-- error is what is stored then.
use goincus.Base.{String, ◌≡◌, Option, some}
use goincus.Base.Maps.{Settings, Devices}
use goincus.Base.Result.{ok}
use goincus.Incus.Daemon.{Daemon, Guest}

pub record DaemonLaws (D : Daemon) : Type 0 where
  pub stored : String → D.State → Option Guest
  pub get_instance_keeps : (n : String) (s : D.State) → stored n (D.get_instance n s).1 ≡ stored n s
  pub get_instance_answers :
      (n : String) (s : D.State) (g : Guest) (etag : String)
      → (D.get_instance n s).0 ≡ ok (g, etag)
      → stored n s ≡ some g
  pub update_instance_done :
      (n : String) (config : Settings) (devices : Devices) (etag : String) (s : D.State)
      (op : D.Operation)
      → (D.update_instance n config devices etag s).0 ≡ ok op
      → (D.wait op (D.update_instance n config devices etag s).1).0 ≡ ok tt
      → (g : Guest) × ((stored n (D.wait op (D.update_instance n config devices etag s).1).1
            ≡ some g)
          × ((g.config ≡ config) × (g.devices ≡ devices)))
