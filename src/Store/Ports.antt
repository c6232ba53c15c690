-- ===== src/Store/Ports.antt =====
-- The table `port_mappings`: the queries of internal/db/store.go on it.
use goincus.Base.{
  ℕ, String, Bool, not, ◌&&◌, ◌||◌, List, [], ◌∷◌, ◌++◌, map, Option, none, some, ◌==◌, ℕ-Eq,
  String-Eq, leb, ltb, if◌then◌else◌, any, find, select,
}
use goincus.Base.Result.{Result, ok, err, not_found, failure}
use goincus.Models.{Instance, PortMapping, is_live}
use goincus.Store.Tables.{Db, Query}

-- The `CHECK` constraints of `port_mappings`.
abbrev pub valid_mapping : PortMapping → Bool
valid_mapping p =
    (p.protocol == "tcp" || p.protocol == "udp")
    && (ltb 0 p.host_port && leb p.host_port 65535)
    && (ltb 0 p.internal_port && leb p.internal_port 65535)

-- Two rows that `UNIQUE (host_port, protocol)` or `UNIQUE (instance_id, device_name)` tells apart.
abbrev pub clash : PortMapping → PortMapping → Bool
clash p q =
    (p.host_port == q.host_port && p.protocol == q.protocol)
    || (p.instance_id == q.instance_id && p.device_name == q.device_name)

unfoldable pub add_port : PortMapping → Query (Unit {0})
add_port p now d =
    if not (any (λ i. i.id == p.instance_id) d.instances)
    then (err (failure "insert violates foreign key constraint"), d)
    else if any (λ q. p.id == q.id || clash p q) d.port_mappings
    then (err (failure "duplicate key value violates unique constraint"), d)
    else if valid_mapping p
    then (ok tt, record d { port_mappings = d.port_mappings ++ p ∷ [] })
    else (err (failure "new row violates check constraint"), d)

-- `ORDER BY host_port`
unfoldable pub insert_by_port : PortMapping → List PortMapping → List PortMapping
insert_by_port p [] = p ∷ []
insert_by_port p (q ∷ qs) =
    if ltb q.host_port p.host_port then q ∷ insert_by_port p qs else p ∷ q ∷ qs

unfoldable pub by_port : List PortMapping → List PortMapping
unfolding insert_by_port
by_port [] = []
by_port (p ∷ ps) = insert_by_port p (by_port ps)

abbrev pub list_ports : ℕ → Query (List PortMapping)
list_ports instance_id now d =
    (ok (by_port (select (λ p. p.instance_id == instance_id) d.port_mappings)), d)

abbrev port_row : Option PortMapping → Result PortMapping
port_row none = err not_found
port_row (some p) = ok p

abbrev pub get_port : ℕ → ℕ → Query PortMapping
get_port instance_id port_id now d =
    (port_row (find (λ p. p.id == port_id && p.instance_id == instance_id) d.port_mappings), d)

abbrev pub delete_port : ℕ → Query (Unit {0})
delete_port id now d =
    (ok tt, record d { port_mappings = select (λ p. not (p.id == id)) d.port_mappings })

unfoldable pub set_protocol : ℕ → String → String → List PortMapping → List PortMapping
set_protocol id protocol device_name [] = []
set_protocol id protocol device_name (p ∷ ps) =
    (if p.id == id then record p { protocol = protocol; device_name = device_name } else p)
    ∷ set_protocol id protocol device_name ps

-- `UPDATE port_mappings SET protocol, device_name`: it fails where the new row clashes with another
-- or breaks a `CHECK`.
unfoldable pub update_port_protocol : ℕ → String → String → Query (Unit {0})
unfolding set_protocol
update_port_protocol id protocol device_name now d = elim (find (λ p. p.id == id) d.port_mappings) [
  | none ↦ (ok tt, d)
  | some p ↦
      let new = record p { protocol = protocol; device_name = device_name } in
      if any (λ q. not (q.id == id) && clash new q) d.port_mappings
      then (err (failure "duplicate key value violates unique constraint"), d)
      else if valid_mapping new
      then (
        ok tt,
        record d { port_mappings = set_protocol id protocol device_name d.port_mappings },
      )
      else (err (failure "new row violates check constraint"), d)
]

-- The mapping belongs to an instance that is not deleted.
abbrev pub is_held : List Instance → PortMapping → Bool
is_held instances p = any (λ i. i.id == p.instance_id && is_live i.status) instances

abbrev pub used_host_ports : Db → List ℕ
used_host_ports d = map (λ p. p.host_port) (select (is_held d.instances) d.port_mappings)

abbrev pub list_used_host_ports : Query (List ℕ)
list_used_host_ports now d = (ok (used_host_ports d), d)
