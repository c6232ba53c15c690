-- ===== src/Store/Consistent/Mappings.antt =====
-- The statements on `port_mappings` keep the tables consistent.
use goincus.Base.{
  ℕ, String, ◌≡◌, true, false, not, ◌&&◌, [], ◌∷◌, ◌++◌, some, ◌==◌, ℕ-Eq, String-Eq, any, find,
  arith,
}
use goincus.Models.{PortMapping}
use goincus.Store.Ports.{
  valid_mapping, clash, add_port, delete_port, set_protocol, update_port_protocol,
}
use goincus.Store.Consistent.{Keeps, Kept, same_mapping, has_instance, IsConsistent}
use goincus.Store.Consistent.Rows.{
  every-append, distinct-append, every-select, distinct-select, if-rule, option-rule,
}
use goincus.Store.Consistent.Protocol.{
  same_mapping_comm, changed, has_id, every-found, every-set_protocol, distinct-set_protocol,
}

-- Consistent tables stay consistent when a mapping is inserted, or refused because its instance is
-- missing, its host port and protocol or its device are taken, or a value breaks a check.
pub add_port-Keeps : (p : PortMapping) → Keeps (add_port p)
unfolding add_port
add_port-Keeps p now d c =
    if-rule Kept (not (has_instance d.instances p.instance_id)) _ _ (λ missing. c)
      λ owned.
        if-rule Kept (any (same_mapping p) d.port_mappings) _ _ (λ taken. c)
          λ fresh.
            if-rule Kept (valid_mapping p) _ _ (λ valid. inserted owned fresh valid) λ invalid. c
  where
    inserted :
        not (has_instance d.instances p.instance_id) ≡ false
        → any (same_mapping p) d.port_mappings ≡ false
        → valid_mapping p ≡ true
        → IsConsistent (record d { port_mappings = d.port_mappings ++ p ∷ [] })
    inserted owned fresh valid = record {
      instances_distinct = c.instances_distinct;
      instances_valid = c.instances_valid;
      usage_distinct = c.usage_distinct;
      usage_valid = c.usage_valid;
      usage_owned = c.usage_owned;
      mappings_distinct =
          distinct-append same_mapping same_mapping_comm d.port_mappings p c.mappings_distinct
            fresh;
      mappings_valid = every-append valid_mapping d.port_mappings p c.mappings_valid valid;
      mappings_owned =
          every-append (λ q. has_instance d.instances q.instance_id) d.port_mappings p
            c.mappings_owned (ground arith);
    }

pub delete_port-Keeps : (id : ℕ) → Keeps (delete_port id)
delete_port-Keeps id now d c = record {
  instances_distinct = c.instances_distinct;
  instances_valid = c.instances_valid;
  mappings_distinct =
      distinct-select same_mapping (λ p. not (p.id == id)) d.port_mappings c.mappings_distinct;
  mappings_valid = every-select valid_mapping _ d.port_mappings c.mappings_valid;
  mappings_owned =
      every-select (λ p. has_instance d.instances p.instance_id) _ d.port_mappings c.mappings_owned;
  usage_distinct = c.usage_distinct;
  usage_valid = c.usage_valid;
  usage_owned = c.usage_owned;
}

-- Consistent tables stay consistent when a mapping gets another protocol and device, or is refused them
-- because another mapping has them.
pub update_port_protocol-Keeps :
    (id : ℕ) (protocol device : String) → Keeps (update_port_protocol id protocol device)
unfolding update_port_protocol
update_port_protocol-Keeps id protocol device now d c =
    option-rule Kept (find (has_id id) d.port_mappings) _ _ (λ missing. c)
      λ p found.
        if-rule Kept
          (any (λ q. not (q.id == id) && clash (changed protocol device p) q) d.port_mappings) _ _
          (λ taken. c)
          λ free.
            if-rule Kept (valid_mapping (changed protocol device p)) _ _
              (λ valid. written p found free valid) λ invalid. c
  where
    written :
        (p : PortMapping)
        → find (has_id id) d.port_mappings ≡ some p
        → any (λ q. not (q.id == id) && clash (changed protocol device p) q) d.port_mappings ≡ false
        → valid_mapping (changed protocol device p) ≡ true
        → IsConsistent
            (record d { port_mappings = set_protocol id protocol device d.port_mappings })
    written p found free valid = record {
      instances_distinct = c.instances_distinct;
      instances_valid = c.instances_valid;
      mappings_distinct =
          distinct-set_protocol id protocol device p d.port_mappings c.mappings_distinct found free;
      mappings_valid =
          every-set_protocol id protocol device valid_mapping p d.port_mappings c.mappings_distinct
            found c.mappings_valid valid;
      mappings_owned =
          every-set_protocol id protocol device (λ q. has_instance d.instances q.instance_id) p
            d.port_mappings c.mappings_distinct found c.mappings_owned
            (every-found (λ q. has_instance d.instances q.instance_id) id p d.port_mappings
              c.mappings_owned found);
      usage_distinct = c.usage_distinct;
      usage_valid = c.usage_valid;
      usage_owned = c.usage_owned;
    }
