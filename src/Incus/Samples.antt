-- ===== src/Incus/Samples.antt =====
-- internal/incusclient/client.go: the counters of a container, with `int64` sums. A sum over a map of
-- disks or interfaces does not depend on the order.
use goincus.Base.{String, [], ◌∷◌, none, some, ◌==◌, String-Eq, if◌then◌else◌}
use goincus.Base.Int.{ℤ, pos, negsuc, ◌+ℤ◌, wrap64}
use goincus.Base.Maps.{Map, value_at}
use goincus.System.{ResourceSample, no_sample, pure, ◌>>=◌}
use goincus.Incus.Daemon.{Daemon, Request, Counters, request}

-- `nonNeg`
abbrev pub non_neg : ℤ → ℤ
non_neg (pos n) = pos n
non_neg (negsuc n) = pos 0

abbrev pub add64 : ℤ → ℤ → ℤ
add64 a b = wrap64 (a +ℤ b)

-- The sums of the parts of each disk.
unfoldable pub disk_sum : Map (ℤ × ℤ) → ℤ × ℤ
disk_sum [] = (pos 0, pos 0)
disk_sum ((name, (usage, total)) ∷ disks) =
    let (used, all) = disk_sum disks in (add64 used (non_neg usage), add64 all (non_neg total))

-- The sum over the interfaces but "lo"; `clean` treats each counter.
unfoldable pub nic_sum : (clean : ℤ → ℤ) → Map (ℤ × ℤ) → ℤ
nic_sum clean [] = pos 0
nic_sum clean ((name, (received, sent)) ∷ nics) =
    let rest = nic_sum clean nics in
    if name == "lo" then rest else add64 rest (add64 (clean received) (clean sent))

abbrev nic_total : (clean : ℤ → ℤ) → Map (ℤ × ℤ) → ℤ
nic_total clean nics = elim (value_at nics "eth0") [
  | some (received, sent) ↦ add64 (clean received) (clean sent)
  | none ↦ nic_sum clean nics
]

-- The sample of a state of an instance, as `ResourceSample` builds it.
unfoldable pub sample_of : Counters → ResourceSample
unfolding disk_sum nic_sum
sample_of st =
    let disk : ℤ × ℤ = elim (value_at st.disks "root") [
      | some (usage, total) ↦ (non_neg usage, non_neg total)
      | none ↦ disk_sum st.disks
    ] in
    record {
      cpu_usage_ns = non_neg st.cpu_usage;
      memory_used_bytes = non_neg st.memory_usage;
      memory_total_bytes = non_neg st.memory_total;
      disk_used_bytes = disk.0;
      disk_total_bytes = disk.1;
      net_bytes_total = nic_total non_neg st.networks;
    }

module _ (D : Daemon) where
  -- `ResourceSample`
  unfoldable pub resource_sample : String → Request D ResourceSample
  unfolding sample_of
  resource_sample name = do
    st ← request D (D.get_instance_state name)
    pure (elim st [ none ↦ no_sample | some counters ↦ sample_of counters ])

  -- `NetworkBytesTotal`
  unfoldable pub network_bytes_total : String → Request D ℤ
  unfolding nic_sum
  network_bytes_total name = do
    st ← request D (D.get_instance_state name)
    pure (elim st [ none ↦ pos 0 | some counters ↦ nic_total (λ v. v) counters.networks ])

  -- `DiskUsageBytes`
  unfoldable pub disk_usage_bytes : String → Request D (ℤ × ℤ)
  unfolding resource_sample
  disk_usage_bytes name = do
    sample ← resource_sample name
    pure (sample.disk_used_bytes, sample.disk_total_bytes)
