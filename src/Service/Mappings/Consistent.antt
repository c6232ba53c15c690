-- ===== src/Service/Mappings/Consistent.antt =====
-- The operations of Service/Mappings keep the tables consistent.
use goincus.Base.{ℕ, zero, suc, String, Bool, true, false}
use goincus.Base.Int.{ℤ, pos, negsuc}
use goincus.Base.Result.{Result, ok, err}
use goincus.Models.{Instance, PortMapping, AddPortRequest, UpdatePortRequest}
use goincus.Store.Ports.{get_port}
use goincus.Store.Consistent.{Keeps}
use goincus.Store.Consistent.Mappings.{
  add_port-Keeps, delete_port-Keeps, update_port_protocol-Keeps,
}
use goincus.System.{System, ProxySpec}
use goincus.Service.Keeping.{Keeping, keeping}
use goincus.Service.Status.Consistent.{get_instance-Keeping}
use goincus.Service.Mappings.{
  unique_device, prefer_same, reserve_wanted, choose_host_port, after_row, after_device, map_port,
  add_port_mapping, remove_port_mapping, after_update, change_protocol, update_port_mapping,
}
use goincus.Ports.Keeping.{allocate-Keeping, reserve-Keeping}

module _ (S : System) where
  unique_device-Keeping : (b : Bool) (device : String) → Keeping S (unique_device S b device)
  unfolding unique_device
  unique_device-Keeping true device = search keeping
  unique_device-Keeping false device = search keeping

  prefer_same-Keeping : (p : ℕ) (r : Result (Unit {0})) → Keeping S (prefer_same S p r)
  unfolding prefer_same
  prefer_same-Keeping p (ok _) = search keeping
  prefer_same-Keeping p (err _) = allocate-Keeping S

  reserve_wanted-Keeping : (p : ℤ) (r : Result (Unit {0})) → Keeping S (reserve_wanted S p r)
  unfolding reserve_wanted
  reserve_wanted-Keeping p (ok _) = search keeping
  reserve_wanted-Keeping p (err _) = search keeping

  choose_host_port-Keeping : (wanted : ℤ) (p : ℕ) → Keeping S (choose_host_port S wanted p)
  unfolding choose_host_port
  choose_host_port-Keeping (pos zero) p = search (keeping, reserve-Keeping, prefer_same-Keeping)
  choose_host_port-Keeping (pos (suc n)) p =
      search (keeping, reserve-Keeping, reserve_wanted-Keeping)
  choose_host_port-Keeping (negsuc n) p = search (keeping, reserve-Keeping, reserve_wanted-Keeping)

  after_row-Keeping :
      (inst : Instance) (pm : PortMapping) (r : Result (Unit {0}))
      → Keeping S (after_row S inst pm r)
  unfolding after_row
  after_row-Keeping inst pm (ok _) = search keeping
  after_row-Keeping inst pm (err e) = record { keeps = λ w c. c }

  after_device-Keeping :
      (inst : Instance) (proto : String) (s : ProxySpec) (r : Result (Unit {0}))
      → Keeping S (after_device S inst proto s r)
  unfolding after_device
  after_device-Keeping inst proto s (err e) = record { keeps = λ w c. c }
  after_device-Keeping inst proto s (ok _) =
      search (keeping, add_port-Keeps, after_row-Keeping) depth 12

  map_port-Keeping :
      (inst : Instance) (proto : String) (internal host : ℕ)
      → Keeping S (map_port S inst proto internal host)
  unfolding map_port
  map_port-Keeping inst proto internal host =
      search (keeping, unique_device-Keeping, after_device-Keeping) depth 12

  pub add_port_mapping-Keeping :
      (id : ℕ) (req : AddPortRequest) → Keeping S (add_port_mapping S id req)
  unfolding add_port_mapping
  add_port_mapping-Keeping id req =
      search (keeping, get_instance-Keeping, choose_host_port-Keeping, map_port-Keeping) depth 12

  get_port-Keeps : (instance_id id : ℕ) → Keeps (get_port instance_id id)
  get_port-Keeps instance_id id now d c = c

  pub remove_port_mapping-Keeping :
      (instance_id id : ℕ) → Keeping S (remove_port_mapping S instance_id id)
  unfolding remove_port_mapping
  remove_port_mapping-Keeping instance_id id =
      search (keeping, get_instance-Keeping, get_port-Keeps, delete_port-Keeps) depth 12

  after_update-Keeping :
      (inst : Instance) (pm new : PortMapping) (r : Result (Unit {0}))
      → Keeping S (after_update S inst pm new r)
  unfolding after_update
  after_update-Keeping inst pm new (ok _) = search keeping
  after_update-Keeping inst pm new (err e) = record { keeps = λ w c. c }

  change_protocol-Keeping :
      (inst : Instance) (pm : PortMapping) (proto : String)
      → Keeping S (change_protocol S inst pm proto)
  unfolding change_protocol
  change_protocol-Keeping inst pm proto =
      search (keeping, unique_device-Keeping, update_port_protocol-Keeps, after_update-Keeping)
        depth 12

  pub update_port_mapping-Keeping :
      (instance_id id : ℕ) (req : UpdatePortRequest)
      → Keeping S (update_port_mapping S instance_id id req)
  unfolding update_port_mapping
  update_port_mapping-Keeping instance_id id req =
      search (keeping, get_instance-Keeping, get_port-Keeps, change_protocol-Keeping) depth 12
