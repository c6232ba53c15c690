-- ===== src/Incus/Packages/Index.antt =====
-- internal/incusclient/netboot.go: the guest's distribution, its mirrors, and the reading of a package index.
use Prim.Native.Char.{code}
use goincus.Base.{
  String, ◌<>◌, Bool, true, false, ◌&&◌, ◌||◌, none, some, List, [], ◌∷◌, ◌==◌, ℕ-Eq, String-Eq,
  ltb, starts_with, if◌then◌else◌,
}
use goincus.Base.Int.{ℤ, pos, ltb_ℤ, leb_ℤ}
use goincus.Base.Text.{trim_space, has_infix}
use goincus.Base.Split.{cut, scan_number}
use goincus.Base.Maps.{Map, value_at, with_value}
use goincus.Base.Result.{Result, ok, err, failure}
use goincus.Incus.Packages.{DebPkg}

-- `guestOS`
pub record GuestOs : Type 0 where
  pub id : String
  pub codename : String
  pub arch : String

-- `cacheDir`, for parts without slashes.
unfoldable pub cache_dir : GuestOs → String
cache_dir g =
    "/var/cache/goincus/debs/"
    <> ((if g.id == "" then "unknown" else g.id)
        <> ("-"
            <> ((if g.codename == "" then "unknown" else g.codename)
                <> ("-" <> (if g.arch == "" then "amd64" else g.arch)))))

-- `guestMirrorRoots`
unfoldable pub guest_mirror_roots : GuestOs → Result (List String)
guest_mirror_roots g =
    if g.id == "ubuntu"
    then if g.arch == "arm64" || g.arch == "armhf"
      then ok ("http://ports.ubuntu.com/ubuntu-ports" ∷ [])
      else ok ("http://archive.ubuntu.com/ubuntu" ∷ "http://security.ubuntu.com/ubuntu" ∷ [])
    else if g.id == "debian"
    then ok ("http://deb.debian.org/debian" ∷ "http://security.debian.org/debian-security" ∷ [])
    else err (failure ("unsupported guest os \"" <> (g.id <> "\" for offline openssh install")))

index_url : (arch root suite comp : String) → String
index_url arch root suite comp =
    root <> ("/dists/" <> (suite <> ("/" <> (comp <> ("/binary-" <> (arch <> "/Packages.gz"))))))

ubuntu_urls : GuestOs → List String → List String
unfolding index_url
ubuntu_urls g [] = []
ubuntu_urls g (root ∷ roots) =
    index_url g.arch root g.codename "main"
    ∷ index_url g.arch root g.codename "universe"
    ∷ index_url g.arch root (g.codename <> "-updates") "main"
    ∷ index_url g.arch root (g.codename <> "-updates") "universe"
    ∷ index_url g.arch root (g.codename <> "-security") "main"
    ∷ index_url g.arch root (g.codename <> "-security") "universe"
    ∷ ubuntu_urls g roots

-- The security archive of Debian has one suite, with its own name.
debian_urls : GuestOs → List String → List String
unfolding index_url
debian_urls g [] = []
debian_urls g (root ∷ roots) =
    let rest = debian_urls g roots in
    if has_infix "security" root
    then index_url g.arch root (g.codename <> "-security") "main" ∷ rest
    else index_url g.arch root g.codename "main"
      ∷ index_url g.arch root (g.codename <> "-updates") "main"
      ∷ rest

-- `guestIndexURLs`
unfoldable pub guest_index_urls : GuestOs → Result (List String)
unfolding ubuntu_urls debian_urls guest_mirror_roots
guest_index_urls g = elim (guest_mirror_roots g) [
  | err e ↦ err e
  | ok roots ↦ ok (if g.id == "ubuntu" then ubuntu_urls g roots else debian_urls g roots)
]

-- `splitEpoch`
unfoldable pub split_epoch : String → ℤ × String
split_epoch v =
    let (head, rest) = cut b':' v in
    elim rest [
      | none ↦ (pos 0, v)
      | some version ↦ (elim (scan_number head) [ none ↦ pos 0 | some e ↦ e ], version)
    ]

-- The order of Go's texts: by the first place where they differ.
unfoldable pub text_lt : String → String → Bool
text_lt s String.[] = false
text_lt String.[] (String.◌∷◌ d t) = true
text_lt (String.◌∷◌ c s) (String.◌∷◌ d t) =
    let rest = text_lt s t in if code c == code d then rest else ltb (code c) (code d)

-- `debVersionPrefer`
unfoldable pub deb_version_prefer : String → String → Bool
unfolding split_epoch text_lt
deb_version_prefer a b =
    let (epoch_a, rest_a) = split_epoch a in
    let (epoch_b, rest_b) = split_epoch b in
    if a == b
    then false
    else if leb_ℤ epoch_a epoch_b && leb_ℤ epoch_b epoch_a
    then text_lt rest_b rest_a
    else ltb_ℤ epoch_b epoch_a

abbrev pub no_pkg : DebPkg
no_pkg = record { name = ""; version = ""; filename = ""; depends = ""; pre_dep = ""; mirror = "" }

-- `flush` of `parsePackages`: the package read so far is kept if it has a name and a file.
unfoldable pub flush : DebPkg → Map DebPkg → Map DebPkg
flush cur out = if cur.name == "" || cur.filename == "" then out else with_value out cur.name cur

-- A field of the package that is being read; the field "Package" is treated by the caller.
unfoldable pub set_field : (key val : String) → DebPkg → DebPkg
set_field key val cur =
    if key == "Version"
    then record cur { version = val }
    else if key == "Filename"
    then record cur { filename = val }
    else if key == "Depends"
    then record cur { depends = val }
    else if key == "Pre-Depends"
    then record cur { pre_dep = val }
    else cur

-- One line of an index.
unfoldable pub read_line : String → DebPkg × Map DebPkg → DebPkg × Map DebPkg
unfolding flush set_field
read_line line (cur, out) =
    let (key, rest) = cut b':' line in
    if line == ""
    then (no_pkg, flush cur out)
    else if starts_with line " " || starts_with line "\t"
    then (cur, out)
    else elim rest [
      | none ↦ (cur, out)
      | some val ↦
          if key == "Package"
          then (
            record (if cur.name == "" then cur else no_pkg) { name = trim_space val },
            if cur.name == "" then out else flush cur out,
          )
          else (set_field key (trim_space val) cur, out)
    ]

unfoldable pub read_lines : List String → DebPkg × Map DebPkg → Map DebPkg
unfolding read_line
read_lines [] (cur, out) = flush cur out
read_lines (line ∷ lines) state = read_lines lines (read_line line state)

-- `parsePackages`, of the lines of an index.
unfoldable pub parse_packages : List String → Map DebPkg
unfolding read_lines
parse_packages lines = read_lines lines (no_pkg, [])

-- The loop of `loadPackagesIndex` over the packages of one index: a package is added, or replaces an
-- older version. The keys of an index are different, so the order does not matter.
unfoldable pub merge_index : (mirror : String) → Map DebPkg → Map DebPkg → Map DebPkg
unfolding deb_version_prefer
merge_index mirror out [] = out
merge_index mirror out ((name, pkg) ∷ pkgs) =
    let rest = merge_index mirror out pkgs in
    elim (value_at rest name) [
      | none ↦ with_value rest name (record pkg { mirror = mirror })
      | some prev ↦
          if deb_version_prefer pkg.version prev.version
          then with_value rest name (record pkg { mirror = mirror })
          else rest
    ]
