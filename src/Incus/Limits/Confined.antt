-- ===== src/Incus/Limits/Confined.antt =====
-- A container is confined: its profiles and its settings.
use mathlib.Core.Path.{subst}
use goincus.Base.{
  ℕ, ◌%◌, ◌<>◌, ℕ-Eq, contains-All, String, ◌≡◌, ◌≢◌, refl, Bool, true, false, not, ◌&&◌, ◌||◌, inl,
  inr, none, some, List, [], ◌∷◌, ◌==◌, String-Eq, contains, contains-append, arith, Bool-cases,
  if◌then◌else◌,
}
use goincus.Base.Int.{ℤ}
use goincus.Base.Maps.{
  value_at, without, with_value, overlay, value_at-with_value, value_at-overlay,
}
use goincus.Base.Decimal.{decimal}
use goincus.Store.Consistent.Rows.{eq_comm}
use goincus.System.{CreateArgs}
use goincus.Incus.Create.{container_config}
use goincus.Incus.Limits.{
  unprivileged_profile, pinned, quota_ms, at_least, add_name, add_names, sanitize_profiles,
  hardened_instance_config, resource_config, merge_config,
}

-- A name that `add` does not pass over for itself.
abbrev pub is_named : String → Bool
is_named n = not (n == "") && not (n == "default")

contains-add_name :
    (out : List String) (name n : String)
    → contains (add_name out name) n ≡ (contains out n || (is_named name && name == n))
unfolding add_name
contains-add_name out name n =
    ground (arith, contains-append out (name ∷ []) n, String-Eq.test_iff name n)

contains-add_names :
    (out names : List String) (n : String)
    → contains (add_names out names) n ≡ (contains out n || (is_named n && contains names n))
unfolding add_names
contains-add_names out [] n = ground arith
contains-add_names out (name ∷ names) n = ground (
  arith,
  contains-add_names (add_name out name) names n,
  contains-add_name out name n,
  String-Eq.test_iff name n,
)

all_names :
    (profiles : List String) (n : String)
    → contains (add_names (add_name [] unprivileged_profile) profiles) n
      ≡ (unprivileged_profile == n || (is_named n && contains profiles n))
all_names profiles n = ground (
  arith,
  contains-add_names (add_name [] unprivileged_profile) profiles n,
  contains-add_name [] unprivileged_profile n,
)

-- The profiles of a container: the hardened one, and what was asked for without the default profile and empty
-- names; nothing else, and nothing that was asked for is lost.
pub contains-sanitize_profiles :
    (profiles : List String) (n : String)
    → contains (sanitize_profiles profiles) n
      ≡ (unprivileged_profile == n || (is_named n && contains profiles n))
unfolding sanitize_profiles
contains-sanitize_profiles profiles n =
    go (add_names (add_name [] unprivileged_profile) profiles) refl
  where
    go :
        (out : List String)
        → add_names (add_name [] unprivileged_profile) profiles ≡ out
        → contains
            (elim out as (λ _. List String) [
              | [] ↦ unprivileged_profile ∷ []
              | p ∷ rest ↦ p ∷ rest
            ])
            n
          ≡ (unprivileged_profile == n || (is_named n && contains profiles n))
    go [] e =
        let none_there : contains [] unprivileged_profile ≡ true =
          subst (λ (out : List String). contains out unprivileged_profile ≡ true) e
            (all_names profiles unprivileged_profile) in
        absurd (cc none_there)
    go (p ∷ rest) e =
        subst
          (λ (out : List String).
            contains out n ≡ (unprivileged_profile == n || (is_named n && contains profiles n)))
          e (all_names profiles n)

-- The settings that `ResourceConfig` writes.
abbrev pub limit_keys : List String
limit_keys =
    "limits.cpu" ∷ "limits.memory" ∷ "limits.memory.swap" ∷ "limits.processes"
    ∷ "limits.cpu.allowance" ∷ []

-- A map of the shape that `ResourceConfig` gives.
limits_none :
    (whole : Bool) (cpu memory processes allowance : String) (k : String)
    → contains limit_keys k ≡ false
    → value_at
        (let cfg =
            ("limits.cpu", cpu)
            ∷ ("limits.memory", memory)
            ∷ ("limits.memory.swap", "false")
            ∷ ("limits.processes", processes)
            ∷ [] in
          if whole then cfg else with_value cfg "limits.cpu.allowance" allowance)
        k
      ≡ none
unfolding value_at without
limits_none whole cpu memory processes allowance k h = ground (
  arith,
  eq_comm k "limits.cpu",
  eq_comm k "limits.memory",
  eq_comm k "limits.memory.swap",
  eq_comm k "limits.processes",
  eq_comm k "limits.cpu.allowance",
)

resource_config-none :
    (cpu mem procs : ℤ) (k : String)
    → contains limit_keys k ≡ false
    → value_at (resource_config cpu mem procs) k ≡ none
unfolding resource_config
resource_config-none cpu mem procs k h =
    limits_none (quota_ms (at_least 100_000_000 cpu) % 100 == 0)
      (decimal (pinned (at_least 100_000_000 cpu))) (decimal (at_least 64 mem) <> "MiB")
      (decimal (at_least 64 procs)) (decimal (quota_ms (at_least 100_000_000 cpu)) <> "ms/100ms") k
      h

hardened-none :
    (k : String) → contains limit_keys k ≡ true → value_at hardened_instance_config k ≡ none
unfolding hardened_instance_config value_at
hardened-none k h =
    contains-All (λ k. value_at hardened_instance_config k ≡ none) limit_keys k
      (refl, (refl, (refl, (refl, (refl, tt))))) h

user_data_free :
    (k v : String)
    → value_at hardened_instance_config k ≡ some v
    → (k == "cloud-init.user-data") ≢ true
unfolding hardened_instance_config value_at
user_data_free k v h same =
    let found : value_at hardened_instance_config "cloud-init.user-data" ≡ some v =
      subst (λ (j : String). value_at hardened_instance_config j ≡ some v)
        ((String-Eq.test_iff k "cloud-init.user-data").0 same) h in
    cc found

-- A hardened setting of a container stays what it is, whatever limits and password are asked for: unprivileged, no nesting, an isolated
-- id map, no guest API, the system call filters, no kernel modules, and the hidden host disks.
pub container_config_hardened :
    (user_data : String → ℕ → String) (args : CreateArgs) (k v : String)
    → value_at hardened_instance_config k ≡ some v
    → value_at (container_config user_data args) k ≡ some v
unfolding container_config
container_config_hardened user_data args k v h =
    let hardened : value_at (overlay [] hardened_instance_config) k ≡ some v =
      rw (value_at-overlay [] hardened_instance_config k, h) refl in
    let no_limit : contains limit_keys k ≡ false = elim (Bool-cases (contains limit_keys k)) [
      | inl limit ↦ absurd (cc (h, hardened-none k limit))
      | inr other ↦ other
    ] in
    let no_data : (k == "cloud-init.user-data") ≡ false =
      elim (Bool-cases (k == "cloud-init.user-data")) [
        | inl same ↦ absurd (user_data_free k v h same)
        | inr other ↦ other
      ] in
    let merged : value_at
          (merge_config hardened_instance_config
            (resource_config args.cpu_cores args.memory_mb args.processes))
          k
        ≡ some v =
      rw
        (
          value_at-overlay (overlay [] hardened_instance_config)
              (resource_config args.cpu_cores args.memory_mb args.processes) k,
          resource_config-none args.cpu_cores args.memory_mb args.processes k no_limit,
        )
        hardened in
    elim (Bool-cases (args.root_password == "")) [
      | inl no_password ↦ rw no_password merged
      | inr password ↦
          rw
            (
              password,
              value_at-with_value
                  (merge_config hardened_instance_config
                    (resource_config args.cpu_cores args.memory_mb args.processes))
                  "cloud-init.user-data" k (user_data args.root_password args.ssh_port),
              no_data,
            )
            merged
    ]
