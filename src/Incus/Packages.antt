-- ===== src/Incus/Packages.antt =====
-- internal/incusclient/netboot.go: the OpenSSH packages of a guest's distribution, from the texts of its package indexes. Fetching
-- and unpacking an index, and the download of the files, are not modelled.
pub mod Index
pub mod Finish
pub mod Closed
pub mod Parsed
use goincus.Base.{
  ℕ, zero, suc, ◌+◌, String, ◌<>◌, Bool, true, false, not, ◌&&◌, ◌||◌, Option, none, some, List, [],
  ◌∷◌, ◌++◌, ◌==◌, String-Eq, starts_with, contains, select, length, if◌then◌else◌,
}
use goincus.Base.Text.{trim_space, first_field}
use goincus.Base.Split.{cut, split_on}
use goincus.Base.Maps.{Map, value_at}

-- `debPkg`
pub record DebPkg : Type 0 where
  pub name : String
  pub version : String
  pub filename : String
  pub depends : String
  pub pre_dep : String
  pub mirror : String

-- The name that a part between commas of a dependency line stands for: the first alternative, without its
-- version. `none` where the part has none, which `strings.Fields(part)[0]` answers with a panic.
unfoldable pub dep_name : String → Option String
dep_name part =
    let first = trim_space (cut b'|' part).0 in
    if first == "" then none else some (first_field first)

dep_parts : List String → Option (List String)
unfolding dep_name
dep_parts [] = some []
dep_parts (part ∷ parts) =
    let rest = dep_parts parts in
    if trim_space part == "" then rest else elim (dep_name (trim_space part)) [
      | none ↦ none
      | some name ↦ elim rest [ none ↦ none | some names ↦ some (name ∷ names) ]
    ]

-- `parseDepNames`
unfoldable pub parse_dep_names : String → Option (List String)
unfolding dep_parts
parse_dep_names s = if s == "" then some [] else dep_parts (split_on b',' s)

-- The dependencies of a package, as `resolveOpenSSHDebs` reads them.
abbrev pub dep_names : DebPkg → Option (List String)
dep_names pkg = parse_dep_names (pkg.depends <> ("," <> pkg.pre_dep))

-- `baseDebSkip`
abbrev pub base_deb_skip : List String
base_deb_skip =
    "libc6" ∷ "libgcc-s1" ∷ "base-files" ∷ "bash" ∷ "coreutils" ∷ "debianutils" ∷ "sed" ∷ "grep"
    ∷ "awk" ∷ "perl" ∷ "perl-base" ∷ "init-system-helpers" ∷ "libpam0g" ∷ "libpam-modules"
    ∷ "libpam-runtime" ∷ "libselinux1" ∷ "libaudit1" ∷ "libcrypt1" ∷ "zlib1g" ∷ "adduser" ∷ "passwd"
    ∷ "login" ∷ "util-linux" ∷ "libsystemd0" ∷ "libudev1" ∷ "ucf" ∷ "debconf" ∷ "lsb-base"
    ∷ "sysvinit-utils" ∷ "libgssapi-krb5-2" ∷ "libkrb5-3" ∷ "libkeyutils1" ∷ "libnsl2" ∷ "libtirpc3"
    ∷ "libbsd0" ∷ "libedit2" ∷ "libmd0" ∷ "libssl3" ∷ "libssl3t64" ∷ "libcap-ng0"
    ∷ "libkrb5support0" ∷ "libk5crypto3" ∷ []

unfoldable pub is_base : String → Bool
is_base name = contains base_deb_skip name

-- A package without which there is no server.
unfoldable pub is_required : String → Bool
is_required name = contains ("openssh-server" ∷ "openssh-client" ∷ "openssh-sftp-server" ∷ []) name

-- What one round of the loop of `resolveOpenSSHDebs` does with a name.
pub data Verdict : Type 0 where
  pass missing panics : Verdict
  take : DebPkg → List String → Verdict

abbrev pub new_deps : List String → List String → List String
new_deps seen deps = select (λ d. not (contains seen d) && not (is_base d)) deps

unfoldable pub deps_verdict :
    (seen : List String) → String → DebPkg → Option (List String) → Verdict
deps_verdict seen name pkg none = panics
deps_verdict seen name pkg (some deps) = take pkg (new_deps (name ∷ seen) deps)

unfoldable pub found_verdict : (seen : List String) → String → Option DebPkg → Verdict
unfolding deps_verdict
found_verdict seen name none = if is_required name then missing else pass
found_verdict seen name (some pkg) = deps_verdict seen name pkg (dep_names pkg)

-- Names that are passed over: those seen already, those of the base system, and the C library.
unfoldable pub is_passed : (seen : List String) → String → Bool
is_passed seen name = contains seen name || is_base name || starts_with name "libc6"

unfoldable pub visit : Map DebPkg → (seen : List String) → String → Verdict
unfolding is_passed found_verdict
visit index seen name =
    if is_passed seen name then pass else found_verdict seen name (value_at index name)

-- How `resolveOpenSSHDebs` ends.
pub data Resolution : Type 0 where
  resolved : List DebPkg → Resolution
  not_in_index : String → Resolution
  panicked out_of_fuel : Resolution

-- The loop, on fuel.
unfoldable pub resolve :
    Map DebPkg → ℕ → (need seen : List String) → (out : List DebPkg) → Resolution
unfolding visit
resolve index fuel [] seen out = resolved out
resolve index zero (name ∷ need) seen out = out_of_fuel
resolve index (suc fuel) (name ∷ need) seen out = elim (visit index seen name) [
  | pass ↦ resolve index fuel need seen out
  | missing ↦ not_in_index name
  | panics ↦ panicked
  | take pkg deps ↦ resolve index fuel (need ++ deps) (name ∷ seen) (out ++ pkg ∷ [])
]

abbrev pub first_needs : List String
first_needs = "openssh-server" ∷ "openssh-client" ∷ "openssh-sftp-server" ∷ "libwrap0" ∷ []

-- How many names a package can put on the list.
unfoldable pub dep_count : DebPkg → ℕ
dep_count pkg = elim (dep_names pkg) [ none ↦ 0 | some deps ↦ length deps ]

unfoldable pub total_deps : Map DebPkg → ℕ
unfolding dep_count
total_deps [] = 0
total_deps ((name, pkg) ∷ index) = dep_count pkg + total_deps index

-- `resolveOpenSSHDebs`: the fuel is the number of names that can come onto the list.
unfoldable pub resolve_openssh_debs : Map DebPkg → Resolution
unfolding resolve total_deps
resolve_openssh_debs index = resolve index (4 + total_deps index) first_needs [] []
