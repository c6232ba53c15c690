-- ===== src/Service/Status/Consistent.antt =====
-- The operations of Service/Status keep the tables consistent.
use goincus.Base.{ℕ, String, List, [], ◌∷◌, Option, none, some}
use goincus.Base.Result.{Result, ok, err}
use goincus.Models.{
  Instance, PortMapping, InstanceStatus, pending, creating, running, stopped, error, deleting,
  deleted,
}
use goincus.Store.Consistent.Instances.{update_instance_status-Keeps, soft_delete_instance-Keeps}
use goincus.Store.Consistent.Mappings.{delete_port-Keeps}
use goincus.Store.Calls.Consistent.{
  get_instance-Keeping as row-Keeping, list_instances-Keeping as rows-Keeping,
  get_instance_by_name-Keeping as named-Keeping,
}
use goincus.Store.Ports.{delete_port}
use goincus.System.{System, pure}
use goincus.Service.Keeping.{Keeping, keeping, query-Keeping, collect-Keeping}
use goincus.Service.Status.{
  write_status, sync_to, sync_power, read_power, sync_status_from_incus, get_instance, sync_all,
  list_instances, resolve, resolve_instance, stop_instance, restart_instance, drop_mappings,
  delete_instance,
}

module _ (S : System) where
  pub write_status-Keeping :
      (id : ℕ) (status : InstanceStatus) (message : String) (ttl : ℕ)
      → Keeping S (write_status S id status message ttl)
  unfolding write_status
  write_status-Keeping id status message ttl = search (keeping, update_instance_status-Keeps)

  sync_to-Keeping :
      (inst : Instance) (next : Option InstanceStatus) → Keeping S (sync_to S inst next)
  unfolding sync_to
  sync_to-Keeping inst none = search keeping
  sync_to-Keeping inst (some next) = search (keeping, write_status-Keeping)

  sync_power-Keeping : (inst : Instance) (r : Result String) → Keeping S (sync_power S inst r)
  unfolding sync_power
  sync_power-Keeping inst (ok text) = search sync_to-Keeping
  sync_power-Keeping inst (err e) = search keeping

  read_power-Keeping : (inst : Instance) → Keeping S (read_power S inst)
  unfolding read_power
  read_power-Keeping inst = search (keeping, sync_power-Keeping)

  sync_by :
      (inst : Instance) (status : InstanceStatus)
      → Keeping S (elim status [
        | pending ↦ pure inst
        | creating ↦ pure inst
        | deleting ↦ pure inst
        | deleted ↦ pure inst
        | running ↦ read_power S inst
        | stopped ↦ read_power S inst
        | error ↦ read_power S inst
      ])
  sync_by inst pending = search keeping
  sync_by inst creating = search keeping
  sync_by inst deleting = search keeping
  sync_by inst deleted = search keeping
  sync_by inst running = read_power-Keeping inst
  sync_by inst stopped = read_power-Keeping inst
  sync_by inst error = read_power-Keeping inst

  pub sync_status_from_incus-Keeping : (inst : Instance) → Keeping S (sync_status_from_incus S inst)
  unfolding sync_status_from_incus
  sync_status_from_incus-Keeping inst = sync_by inst inst.status

  pub get_instance-Keeping : (id : ℕ) → Keeping S (get_instance S id)
  unfolding get_instance
  get_instance-Keeping id = search (keeping, row-Keeping, sync_status_from_incus-Keeping)

  sync_all-Keeping : (list : List Instance) → Keeping S (sync_all S list)
  unfolding sync_all
  sync_all-Keeping [] = search keeping
  sync_all-Keeping (inst ∷ list) =
      collect-Keeping S (sync_status_from_incus S inst) (sync_all S list) (λ i. i)
        (sync_status_from_incus-Keeping inst) (sync_all-Keeping list)

  pub list_instances-Keeping : Keeping S (list_instances S)
  unfolding list_instances
  list_instances-Keeping = search (keeping, rows-Keeping, sync_all-Keeping)

  resolve-Keeping : (text : String) (id : Option ℕ) → Keeping S (resolve S text id)
  unfolding resolve
  resolve-Keeping text none = search (keeping, named-Keeping, sync_status_from_incus-Keeping)
  resolve-Keeping text (some id) = get_instance-Keeping id

  pub resolve_instance-Keeping : (text : String) → Keeping S (resolve_instance S text)
  unfolding resolve_instance
  resolve_instance-Keeping text = resolve-Keeping text _

  pub stop_instance-Keeping : (id : ℕ) → Keeping S (stop_instance S id)
  unfolding stop_instance
  stop_instance-Keeping id = search (keeping, get_instance-Keeping, write_status-Keeping)

  pub restart_instance-Keeping : (id : ℕ) → Keeping S (restart_instance S id)
  unfolding restart_instance
  restart_instance-Keeping id = search (keeping, get_instance-Keeping, write_status-Keeping)

  drop_mappings-Keeping :
      (name : String) (ports : List PortMapping) → Keeping S (drop_mappings S name ports)
  unfolding drop_mappings
  drop_mappings-Keeping name [] = search keeping
  drop_mappings-Keeping name (p ∷ ports) = record {
    keeps = λ w c.
        (drop_mappings-Keeping name ports).keeps _
          ((query-Keeping S (delete_port p.id) (delete_port-Keeps p.id)).keeps _ c);
  }

  pub delete_instance-Keeping : (id : ℕ) → Keeping S (delete_instance S id)
  unfolding delete_instance
  delete_instance-Keeping id =
      search
        (
          keeping, get_instance-Keeping, write_status-Keeping, drop_mappings-Keeping,
          soft_delete_instance-Keeps,
        )
        depth 12
