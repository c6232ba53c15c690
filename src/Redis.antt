-- ===== src/Redis.antt =====
-- internal/redisstore/client.go: locks, the set of allocated ports, and the state of an instance.
pub mod Laws
use goincus.Base.{ℕ, String, ◌<>◌, Bool, List, [], ◌∷◌}
use goincus.Models.{InstanceStatus, status_text}
use goincus.System.{System, Call, redis_call, PipeCommand, del, s_add}

-- `key`: the prefix and the parts, joined by colons.
join_colon : List String → String
join_colon [] = ""
join_colon (part ∷ []) = part
join_colon (part ∷ next ∷ parts) = part <> (":" <> join_colon (next ∷ parts))

unfoldable pub key : String → List String → String
unfolding join_colon
key prefix parts = prefix <> join_colon parts

module _ (S : System) where
  unfoldable pub lock_key : String → String
  lock_key name = key S.key_prefix ("lock" ∷ name ∷ [])

  unfoldable pub ports_key : String
  ports_key = key S.key_prefix ("ports" ∷ "allocated" ∷ [])

  unfoldable pub state_key : ℕ → String
  state_key id = key S.key_prefix ("instance" ∷ S.readings.uuid_text id ∷ "state" ∷ [])

  -- Times to live are in seconds.
  abbrev pub acquire_lock : String → ℕ → Call S Bool
  acquire_lock name ttl = redis_call S (S.redis.set_nx (lock_key name) "1" ttl)

  abbrev pub release_lock : String → Call S (Unit {0})
  release_lock name = redis_call S (S.redis.del (lock_key name))

  abbrev pub mark_port_allocated : ℕ → Call S (Unit {0})
  mark_port_allocated port = redis_call S (S.redis.s_add ports_key port)

  abbrev pub release_port : ℕ → Call S (Unit {0})
  release_port port = redis_call S (S.redis.s_rem ports_key port)

  abbrev pub is_port_allocated : ℕ → Call S Bool
  is_port_allocated port = redis_call S (S.redis.s_is_member ports_key port)

  -- `SyncAllocatedPorts`: one transaction empties the set and fills it.
  abbrev refill : List ℕ → List PipeCommand
  refill [] = del ports_key ∷ []
  refill (p ∷ ports) = del ports_key ∷ s_add ports_key (p ∷ ports) ∷ []

  abbrev pub sync_allocated_ports : List ℕ → Call S (Unit {0})
  sync_allocated_ports ports = redis_call S (S.redis.tx_pipeline (refill ports))

  abbrev pub set_instance_state : ℕ → InstanceStatus → ℕ → Call S (Unit {0})
  set_instance_state id status ttl =
      redis_call S (S.redis.set (state_key id) (status_text status) ttl)

  abbrev pub delete_instance_state : ℕ → Call S (Unit {0})
  delete_instance_state id = redis_call S (S.redis.del (state_key id))
