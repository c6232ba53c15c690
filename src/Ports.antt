-- ===== src/Ports.antt =====
-- internal/ports/allocator.go: the allocator of host ports. The database says which ports are used, and
-- a set in Redis reserves ports before they are written there. `mu` keeps the calls of one process
-- apart, which here run one after the other; the lock in Redis is modelled.
pub mod Keeping
pub mod Scan
pub mod Mark
pub mod Lock
pub mod Allocate
pub mod Failure
pub mod Progress
pub mod Reserve
pub mod Refine
use goincus.Base.{
  ℕ, zero, suc, ◌+◌, ◌-◌, String, ◌<>◌, Bool, true, false, not, ◌&&◌, ◌||◌, List, [], ◌∷◌, ◌++◌,
  leb, ltb, length, select, contains, ℕ-Eq, ◌==◌, if◌then◌else◌,
}
use goincus.Base.Int.{ℤ, pos, negsuc, pos_part, ltb_ℤ}
use goincus.Base.Decimal.{decimal, decimal_ℤ}
use goincus.Base.Result.{Result, ok, err, Error, failure, wrap}
use goincus.Store.Ports.{list_used_host_ports}
use goincus.System.{
  System, Call, query, pure, fail, ◌>>=◌, ◌>>◌, ignore, attempt, raise_if, finally, within,
  map_error,
}
use goincus.Redis.{
  acquire_lock, release_lock, mark_port_allocated, release_port, is_port_allocated,
  sync_allocated_ports,
}

-- `errors.New("port allocator busy")`
abbrev pub busy : Error
busy = failure "port allocator busy"

abbrev pub already_allocated : ℕ → Error
already_allocated port = failure ("host port " <> decimal port <> " already allocated")

-- `allocLockTTL`
abbrev pub alloc_lock_ttl : ℕ
alloc_lock_ttl = 10

module _ (S : System) where
  -- `Sync`
  unfoldable pub sync : Call S (Unit {0})
  sync = do
    ports ← within "list used ports" (query S list_used_host_ports)
    within "sync redis ports" (sync_allocated_ports S ports)

  -- `isFree`, over the ports that the database lists.
  unfoldable pub is_free : List ℕ → ℕ → Call S Bool
  is_free used port =
      if contains used port
      then pure false
      else do allocated ← is_port_allocated S port; pure (not allocated)

  -- The loop over `p` in [start, start + size) that stops at the first port that is not free.
  unfoldable pub block_is_free : List ℕ → ℕ → ℕ → Call S Bool
  unfolding is_free
  block_is_free used zero p = pure true
  block_is_free used (suc n) p = do
    free ← is_free used p
    if free then block_is_free used n (p + 1) else pure false

  -- `ReleaseBlock`
  unfoldable pub release_block : List ℕ → Call S (Unit {0})
  release_block [] = pure tt
  release_block (p ∷ ports) = do ignore (release_port S p); release_block ports

  -- The loop that marks the block; where it fails, what it has marked is released.
  unfoldable pub mark_block : ℕ → ℕ → List ℕ → Call S (List ℕ)
  unfolding release_block
  mark_block zero p block = pure block
  mark_block (suc n) p block = do
    marked ← attempt (mark_port_allocated S p)
    elim marked [
      | ok _ ↦ mark_block n (p + 1) (block ++ p ∷ [])
      | err e ↦ release_block block >> fail e
    ]

  unfoldable pub no_block : ℕ → Error
  no_block size = failure (
      "no free contiguous "
      <> decimal size
      <> "-port block in range "
      <> decimal host_range_start
      <> "-"
      <> decimal host_range_end)
    where
      open S.cfg.ports use {host_range_start, host_range_end}

  outside : ℤ → Error
  outside port = failure (
      "host port "
      <> decimal_ℤ port
      <> " outside allowed range "
      <> decimal host_range_start
      <> "-"
      <> decimal host_range_end)
    where
      open S.cfg.ports use {host_range_start, host_range_end}

  -- The loop over `start`, with the rounds that are left.
  unfoldable pub search_block : List ℕ → ℕ → ℕ → ℕ → Call S (List ℕ)
  unfolding block_is_free mark_block
  search_block used size zero start = fail (no_block size)
  search_block used size (suc rounds) start = do
    free ← block_is_free used size start
    if free then mark_block size start [] else search_block used size rounds (start + 1)

  -- `AllocateBlock` under the lock. The starts run from `HostRangeStart` to `HostRangeEnd - size + 1`.
  unfoldable pub allocate_locked : ℕ → Call S (List ℕ)
  unfolding search_block
  allocate_locked size = do
    used ← query S list_used_host_ports
    search_block used size (host_range_end + 2 - (size + host_range_start)) host_range_start
    where
      open S.cfg.ports use {host_range_start, host_range_end}

  -- The lock around a call, and what becomes of Redis' error in taking it.
  unfoldable pub with_lock : {A : Type 0} → (Error → Error) → Call S A → Call S A
  with_lock context body = do
    taken ← map_error context (acquire_lock S "port-alloc" alloc_lock_ttl)
    raise_if (not taken) busy
    finally body (release_lock S "port-alloc")

  unfoldable pub allocate_block : ℤ → Call S (List ℕ)
  unfolding allocate_locked with_lock
  allocate_block size = do
    raise_if (ltb_ℤ size (pos 1)) (failure "block size must be >= 1")
    with_lock (wrap "acquire port lock") (allocate_locked (pos_part size))

  abbrev pub first_port : List ℕ → Call S ℕ
  first_port [] = fail (failure "index out of range")
  first_port (p ∷ ports) = pure p

  -- `Allocate`
  unfoldable pub allocate : Call S ℕ
  unfolding allocate_block
  allocate = do first_port (← allocate_block (pos 1))

  -- `Reserve` under the lock.
  unfoldable pub reserve_locked : ℕ → Call S (Unit {0})
  reserve_locked port = do
    used ← query S list_used_host_ports
    raise_if (contains used port) (already_allocated port)
    allocated ← is_port_allocated S port
    raise_if allocated (already_allocated port)
    mark_port_allocated S port

  unfoldable pub reserve : ℤ → Call S (Unit {0})
  unfolding reserve_locked with_lock outside
  reserve port = do
    raise_if (ltb_ℤ port (pos host_range_start) || ltb_ℤ (pos host_range_end) port) (outside port)
    with_lock (λ e. e) (reserve_locked (pos_part port))
    where
      open S.cfg.ports use {host_range_start, host_range_end}

  -- `Release`
  abbrev pub release : ℕ → Call S (Unit {0})
  release port = release_port S port

-- `Stats`
pub record PortStats : Type 0 where
  pub range_start : ℕ
  pub range_end : ℕ
  pub ports_per_instance : ℤ
  pub total : ℕ
  pub used : ℕ
  pub free : ℕ

module _ (S : System) where
  open S.cfg.ports use {host_range_start, host_range_end, ports_per_instance}

  abbrev in_range : ℕ → Bool
  in_range p = leb host_range_start p && leb p host_range_end

  -- Both differences are set to 0 where they would be negative, as `-` does.
  unfoldable pub stats : Call S PortStats
  stats = do
    used_ports ← query S list_used_host_ports
    let total = host_range_end + 1 - host_range_start
    let used = length (select in_range used_ports)
    pure (record {
      range_start = host_range_start;
      range_end = host_range_end;
      ports_per_instance = ports_per_instance;
      total = total;
      used = used;
      free = total - used;
    })
