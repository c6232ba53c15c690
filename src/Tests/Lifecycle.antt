-- ===== src/Tests/Lifecycle.antt =====
-- The tables and the operations of the service on the small servers.
use goincus.Base.{◌≡◌, refl, true, false}
use goincus.Base.Int.{pos}
use goincus.Base.Decimal.{decimal}
use goincus.Base.Result.{ok}
use goincus.Models.{Instance, PortMapping, AddPortRequest, pending}
use goincus.Store.Tables.{DailyUsageRow, create_instance, update_traffic_accounting, valid_row}
use goincus.Store.Ports.{add_port, update_port_protocol, by_port}
use goincus.Store.Usage.{upsert_daily_usage}
use goincus.Store.Consistent.{IsConsistent}
use goincus.Store.Consistent.Instances.{create_instance-Keeps}
use goincus.Store.Consistent.Traffic.{update_traffic_accounting-Keeps}
use goincus.Store.Consistent.Mappings.{add_port-Keeps, update_port_protocol-Keeps}
use goincus.Store.Consistent.Usage.{upsert_daily_usage-Keeps}
use goincus.System.{System, World}
use goincus.Redis.{ports_key, lock_key, state_key, key}
use goincus.Service.Status.{delete_instance}
use goincus.Service.Status.Deletion.{is_gone, delete_instance-is_gone}
use goincus.Service.Mappings.{add_port_mapping}
use goincus.Service.Mappings.Added.{is_stored, add_port_mapping-is_stored}
use goincus.Service.Mappings.Requested.{IsRequested, add_port_mapping-IsRequested}
use goincus.Service.Provision.{provision}
use goincus.Service.Provision.Settled.{is_settled, provision-is_settled}
use goincus.Service.Runs.{
  perform, Reachable, start, next, adds_port, deletes, Reachable-IsConsistent,
}
use goincus.Service.Status.{sync_status_from_incus}
use goincus.Service.Status.Synced.{in_transition, Expected, sync_status_from_incus_lem}
use goincus.Base.{◌⊎◌}
use goincus.Models.{stopped}
use goincus.Tests.Servers.{
  small_system, small_world, small_laws, small_db, all_work, machine, one_port,
}

abbrev system : System
system = small_system all_work

abbrev world : World system
world = small_world all_work

pub small_db-IsConsistent : IsConsistent small_db
unfolding valid_row decimal
small_db-IsConsistent = record {
  instances_distinct = refl;
  instances_valid = refl;
  mappings_distinct = refl;
  mappings_valid = refl;
  mappings_owned = refl;
  usage_distinct = refl;
  usage_valid = refl;
  usage_owned = refl;
}

after_new_instance :
    IsConsistent (create_instance (machine 3 "mail" pending) 1_791_151_200 small_db).1
after_new_instance =
    create_instance-Keeps (machine 3 "mail" pending) 1_791_151_200 small_db small_db-IsConsistent

after_traffic_count :
    IsConsistent
      (update_traffic_accounting 1
        (pos 1_073_500_000)
        (pos 4_500_000)
        "2026-10"
        false
        1_791_151_200
        small_db).1
after_traffic_count =
    update_traffic_accounting-Keeps 1 (pos 1_073_500_000) (pos 4_500_000) "2026-10" false
      1_791_151_200 small_db small_db-IsConsistent

after_new_mapping : IsConsistent (add_port (one_port 13 20002) 1_791_151_200 small_db).1
after_new_mapping = add_port-Keeps (one_port 13 20002) 1_791_151_200 small_db small_db-IsConsistent

after_protocol_change :
    IsConsistent (update_port_protocol 11 "udp" "proxy-udp-20000" 1_791_151_200 small_db).1
after_protocol_change =
    update_port_protocol-Keeps 11 "udp" "proxy-udp-20000" 1_791_151_200 small_db
      small_db-IsConsistent

abbrev pub sample : DailyUsageRow
sample = record {
  instance_id = 1;
  day = 20_730;
  disk_used_bytes = pos 2_000_000_000;
  disk_total_bytes = pos 10_737_418_240;
  bandwidth_bytes = pos 500_000;
  bandwidth_baseline_bytes = pos 1_073_000_000;
}

after_daily_sample : IsConsistent (upsert_daily_usage sample 1_791_151_200 small_db).1
after_daily_sample = upsert_daily_usage-Keeps sample 1_791_151_200 small_db small_db-IsConsistent

abbrev port_request : AddPortRequest
port_request = record { protocol = "TCP"; internal_port = pos 8080; host_port = pos 0 }

two_operations :
    Reachable system world
      (perform system (deletes 1) (perform system (adds_port 1 port_request) world).1).1
two_operations = next (deletes 1) _ (next (adds_port 1 port_request) world start)

after_two_operations :
    IsConsistent
      (perform system (deletes 1) (perform system (adds_port 1 port_request) world).1).1.db
after_two_operations = Reachable-IsConsistent system world _ small_db-IsConsistent two_operations

deletion_works : (delete_instance system 1 world).0 ≡ ok tt
unfolding delete_instance key state_key ports_key by_port
deletion_works = refl

delete_instance-is_gone_example : is_gone 1 (delete_instance system 1 world).1.db ≡ true
delete_instance-is_gone_example = delete_instance-is_gone system 1 world deletion_works

-- The guest's port 8080 is outside the range of host ports, so the lowest free one is taken.
abbrev web_mapping : PortMapping
web_mapping = record {
  id = 103;
  instance_id = 1;
  protocol = "tcp";
  host_port = 20002;
  internal_port = 8080;
  device_name = "proxy-tcp-8080";
  created_at = 1_791_151_440;
}

mapping_works : (add_port_mapping system 1 port_request world).0 ≡ ok web_mapping
unfolding add_port_mapping key state_key ports_key lock_key by_port decimal add_port
mapping_works = refl

add_port_mapping-is_stored_example :
    is_stored web_mapping (add_port_mapping system 1 port_request world).1.db ≡ true
add_port_mapping-is_stored_example =
    add_port_mapping-is_stored system 1 port_request world web_mapping mapping_works

add_port_mapping-IsRequested_example :
    IsRequested system (small_laws all_work) port_request web_mapping
add_port_mapping-IsRequested_example =
    add_port_mapping-IsRequested system (small_laws all_work) 1 port_request world web_mapping
      mapping_works

provision-is_settled_example :
    is_settled 2 (provision system (machine 2 "db" pending) world).1.db ≡ true
provision-is_settled_example =
    provision-is_settled system (λ t. refl) (small_laws all_work) (machine 2 "db" pending) world

sync_status_from_incus_lem_example :
    ((in_transition stopped ≡ true)
      × (sync_status_from_incus system (machine 2 "db" stopped) world
          ≡ (ok (machine 2 "db" stopped), world)))
    ⊎ ((in_transition stopped ≡ false)
        × ((inst' : Instance) × ((sync_status_from_incus system (machine 2 "db" stopped) world).0
              ≡ ok inst')
            × Expected (machine 2 "db" stopped) (ok "Running") inst'))
sync_status_from_incus_lem_example =
    sync_status_from_incus_lem system (machine 2 "db" stopped) world
