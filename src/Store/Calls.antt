-- ===== src/Store/Calls.antt =====
-- The methods of internal/db/store.go that read an instance together with its ports: two queries each.
pub mod Consistent
use goincus.Base.{ℕ, String, List, [], ◌∷◌}
use goincus.Models.{Instance}
use goincus.Store.Tables.{select_instance, select_instance_by_name, select_instances}
use goincus.Store.Ports.{list_ports}
use goincus.System.{System, Call, query, pure, ◌>>=◌}

module _ (S : System) where
  with_ports : Instance → Call S Instance
  with_ports inst = do ports ← query S (list_ports inst.id); pure (record inst { ports = ports })

  -- `GetInstance`
  unfoldable pub get_instance : ℕ → Call S Instance
  unfolding with_ports
  get_instance id = do with_ports (← query S (select_instance id))

  -- `GetInstanceByName`
  unfoldable pub get_instance_by_name : String → Call S Instance
  unfolding with_ports
  get_instance_by_name name = do with_ports (← query S (select_instance_by_name name))

  -- `ListInstances`: the ports are read row by row.
  all_with_ports : List Instance → Call S (List Instance)
  unfolding with_ports
  all_with_ports [] = pure []
  all_with_ports (inst ∷ rows) = do
    inst' ← with_ports inst
    rest ← all_with_ports rows
    pure (inst' ∷ rest)

  unfoldable pub list_instances : Call S (List Instance)
  unfolding all_with_ports
  list_instances = do all_with_ports (← query S select_instances)
