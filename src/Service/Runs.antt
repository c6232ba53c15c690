-- ===== src/Service/Runs.antt =====
-- Runs of the service: the requests of the API and the background jobs (the start of an instance that
-- was created, the reconcile pass, the hourly sample), one after the other in any order.
use goincus.Base.{ℕ, String}
use goincus.Models.{
  Instance, CreateInstanceRequest, AddPortRequest, UpdatePortRequest, ResetPasswordRequest,
}
use goincus.Store.Consistent.{IsConsistent}
use goincus.System.{System, World, Call, ignore}
use goincus.Service.Keeping.{Keeping, ignore-Keeping}
use goincus.Service.Create.{create}
use goincus.Service.Provision.{provision}
use goincus.Service.Start.{start_instance, reset_root_password}
use goincus.Service.Status.{
  get_instance, list_instances, resolve_instance, stop_instance, restart_instance, delete_instance,
}
use goincus.Service.Mappings.{add_port_mapping, remove_port_mapping, update_port_mapping}
use goincus.Service.Traffic.{reconcile_traffic}
use goincus.Service.Hourly.{sample_all_hourly_metrics}
use goincus.Service.Hourly.Consistent.{sample_all_hourly_metrics-Keeping}
use goincus.Service.Create.Consistent.{create-Keeping}
use goincus.Service.Provision.Consistent.{provision-Keeping}
use goincus.Service.Start.Consistent.{start_instance-Keeping, reset_root_password-Keeping}
use goincus.Service.Status.Consistent.{
  get_instance-Keeping, list_instances-Keeping, resolve_instance-Keeping, stop_instance-Keeping,
  restart_instance-Keeping, delete_instance-Keeping,
}
use goincus.Service.Mappings.Consistent.{
  add_port_mapping-Keeping, remove_port_mapping-Keeping, update_port_mapping-Keeping,
}
use goincus.Service.Traffic.Consistent.{reconcile_traffic-Keeping}

pub data Operation : Type 0 where
  creates : CreateInstanceRequest → Operation
  provisions : Instance → Operation
  starts stops restarts deletes gets : ℕ → Operation
  lists reconciles samples : Operation
  resolves : String → Operation
  resets_password : ℕ → ResetPasswordRequest → Operation
  adds_port : ℕ → AddPortRequest → Operation
  removes_port : ℕ → ℕ → Operation
  updates_port : ℕ → ℕ → UpdatePortRequest → Operation

module _ (S : System) where
  -- The operation's effect; its result goes to the client or the log.
  unfoldable pub perform : Operation → Call S (Unit {0})
  unfolding create provision start_instance stop_instance restart_instance delete_instance
      get_instance list_instances reconcile_traffic resolve_instance reset_root_password
      add_port_mapping remove_port_mapping update_port_mapping sample_all_hourly_metrics
  perform (creates req) = ignore (create S req)
  perform (provisions inst) = ignore (provision S inst)
  perform (starts id) = ignore (start_instance S id)
  perform (stops id) = ignore (stop_instance S id)
  perform (restarts id) = ignore (restart_instance S id)
  perform (deletes id) = ignore (delete_instance S id)
  perform (gets id) = ignore (get_instance S id)
  perform lists = ignore (list_instances S)
  perform reconciles = ignore (reconcile_traffic S)
  perform samples = ignore (sample_all_hourly_metrics S)
  perform (resolves text) = ignore (resolve_instance S text)
  perform (resets_password id req) = ignore (reset_root_password S id req)
  perform (adds_port id req) = ignore (add_port_mapping S id req)
  perform (removes_port instance_id id) = ignore (remove_port_mapping S instance_id id)
  perform (updates_port instance_id id req) = ignore (update_port_mapping S instance_id id req)

  -- The worlds that the service can come to from `w₀`.
  pub data Reachable (w₀ : World S) : World S → Type 0 where
    start : Reachable w₀ w₀
    next : (op : Operation) (w : World S) → Reachable w₀ w → Reachable w₀ (perform op w).1

  perform-Keeping : (op : Operation) → Keeping S (perform op)
  unfolding perform
  perform-Keeping (creates req) = ignore-Keeping S _ (create-Keeping S req)
  perform-Keeping (provisions inst) = ignore-Keeping S _ (provision-Keeping S inst)
  perform-Keeping (starts id) = ignore-Keeping S _ (start_instance-Keeping S id)
  perform-Keeping (stops id) = ignore-Keeping S _ (stop_instance-Keeping S id)
  perform-Keeping (restarts id) = ignore-Keeping S _ (restart_instance-Keeping S id)
  perform-Keeping (deletes id) = ignore-Keeping S _ (delete_instance-Keeping S id)
  perform-Keeping (gets id) = ignore-Keeping S _ (get_instance-Keeping S id)
  perform-Keeping lists = ignore-Keeping S _ (list_instances-Keeping S)
  perform-Keeping reconciles = ignore-Keeping S _ (reconcile_traffic-Keeping S)
  perform-Keeping samples = ignore-Keeping S _ (sample_all_hourly_metrics-Keeping S)
  perform-Keeping (resolves text) = ignore-Keeping S _ (resolve_instance-Keeping S text)
  perform-Keeping (resets_password id req) =
      ignore-Keeping S _ (reset_root_password-Keeping S id req)
  perform-Keeping (adds_port id req) = ignore-Keeping S _ (add_port_mapping-Keeping S id req)
  perform-Keeping (removes_port instance_id id) =
      ignore-Keeping S _ (remove_port_mapping-Keeping S instance_id id)
  perform-Keeping (updates_port instance_id id req) =
      ignore-Keeping S _ (update_port_mapping-Keeping S instance_id id req)

  -- From consistent tables of instances, mappings and daily samples, whatever operations follow and however
  -- the database, Redis and Incus answer, these tables stay consistent: identifiers and names of instances
  -- are unique, no host port is mapped twice under one protocol, every mapping and every daily sample has
  -- its instance, and every row of the three tables passes its checks.
  pub Reachable-IsConsistent :
      (w₀ w : World S) → IsConsistent w₀.db → Reachable w₀ w → IsConsistent w.db
  Reachable-IsConsistent w₀ w c start = c
  Reachable-IsConsistent w₀ w c (next op w' r) =
      (perform-Keeping op).keeps w' (Reachable-IsConsistent w₀ w' c r)
