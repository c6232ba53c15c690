-- ===== src/Store/Calls/Consistent.antt =====
-- The calls that read an instance together with its ports change nothing (internal/db/store.go).
use goincus.Base.{ℕ, String, List, [], ◌∷◌}
use goincus.Models.{Instance}
use goincus.Store.Tables.{select_instance, select_instance_by_name, select_instances}
use goincus.Store.Ports.{list_ports}
use goincus.Store.Consistent.{Keeps}
use goincus.Store.Calls.{
  with_ports, all_with_ports, get_instance, get_instance_by_name, list_instances,
}
use goincus.System.{System}
use goincus.Service.Keeping.{Keeping, keeping, collect-Keeping}

module _ (S : System) where
  list_ports-Keeps : (id : ℕ) → Keeps (list_ports id)
  list_ports-Keeps id now d c = c

  with_ports-Keeping : (inst : Instance) → Keeping S (with_ports S inst)
  unfolding with_ports
  with_ports-Keeping inst = search (keeping, list_ports-Keeps)

  select_instance-Keeps : (id : ℕ) → Keeps (select_instance id)
  select_instance-Keeps id now d c = c

  pub get_instance-Keeping : (id : ℕ) → Keeping S (get_instance S id)
  unfolding get_instance
  get_instance-Keeping id = search (keeping, select_instance-Keeps, with_ports-Keeping)

  select_instance_by_name-Keeps : (name : String) → Keeps (select_instance_by_name name)
  select_instance_by_name-Keeps name now d c = c

  pub get_instance_by_name-Keeping : (name : String) → Keeping S (get_instance_by_name S name)
  unfolding get_instance_by_name
  get_instance_by_name-Keeping name =
      search (keeping, select_instance_by_name-Keeps, with_ports-Keeping)

  all_with_ports-Keeping : (rows : List Instance) → Keeping S (all_with_ports S rows)
  unfolding all_with_ports
  all_with_ports-Keeping [] = search keeping
  all_with_ports-Keeping (inst ∷ rows) =
      collect-Keeping S (with_ports S inst) (all_with_ports S rows) (λ i. i)
        (with_ports-Keeping inst) (all_with_ports-Keeping rows)

  select_instances-Keeps : Keeps select_instances
  select_instances-Keeps now d c = c

  pub list_instances-Keeping : Keeping S (list_instances S)
  unfolding list_instances
  list_instances-Keeping = search (keeping, select_instances-Keeps, all_with_ports-Keeping)
