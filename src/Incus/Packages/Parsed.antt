-- ===== src/Incus/Packages/Parsed.antt =====
-- Every package of a parsed index stands under its own name.
use goincus.Base.{
  String, ◌≡◌, Bool, true, false, ◌||◌, Option, none, some, List, [], ◌∷◌, ◌==◌, String-Eq,
  Bool-cases, inl, inr, starts_with, if◌then◌else◌,
}
use goincus.Base.Split.{cut}
use goincus.Base.Text.{trim_space}
use goincus.Base.Maps.{Map, value_at, with_value, value_at-with_value}
use goincus.Store.Consistent.Rows.{if-rule}
use goincus.Incus.Packages.{DebPkg}
use goincus.Incus.Packages.Closed.{IsIndexed}
use goincus.Incus.Packages.Index.{flush, read_line, read_lines, parse_packages, no_pkg, set_field}

with_value-IsIndexed :
    (out : Map DebPkg) (pkg : DebPkg) → IsIndexed out → IsIndexed (with_value out pkg.name pkg)
with_value-IsIndexed out pkg indexed name found h = elim (Bool-cases (name == pkg.name)) [
  | inl same ↦
      let is_pkg : pkg ≡ found = cc (value_at-with_value out pkg.name name pkg, same, h) in
      cc (is_pkg, (String-Eq.test_iff name pkg.name).0 same)
  | inr other ↦ indexed name found (cc (value_at-with_value out pkg.name name pkg, other, h))
]

flush-IsIndexed : (cur : DebPkg) (out : Map DebPkg) → IsIndexed out → IsIndexed (flush cur out)
unfolding flush
flush-IsIndexed cur out indexed = go (cur.name == "" || cur.filename == "")
  where
    go : (b : Bool) → IsIndexed (if b then out else with_value out cur.name cur)
    go true = indexed
    go false = with_value-IsIndexed out cur indexed

-- The second part of a state of the reader is an index.
abbrev Reading : DebPkg × Map DebPkg → Type 0
Reading state = IsIndexed state.1

read_line-Reading :
    (line : String) (state : DebPkg × Map DebPkg) → Reading state → Reading (read_line line state)
unfolding read_line
read_line-Reading line (cur, out) indexed =
    if-rule Reading (line == "") _ _ (λ e. flush-IsIndexed cur out indexed)
      λ e.
        if-rule Reading (starts_with line " " || starts_with line "\t") _ _ (λ e. indexed)
          λ e. field (cut b':' line).1
  where
    field :
        (rest : Option String)
        → Reading (elim rest as (λ _. DebPkg × Map DebPkg) [
          | none ↦ (cur, out)
          | some val ↦
              if (cut b':' line).0 == "Package"
              then (
                record (if cur.name == "" then cur else no_pkg) { name = trim_space val },
                if cur.name == "" then out else flush cur out,
              )
              else (set_field (cut b':' line).0 (trim_space val) cur, out)
        ])
    field none = indexed
    field (some val) =
        if-rule Reading ((cut b':' line).0 == "Package") _ _
          (λ e.
            if-rule IsIndexed (cur.name == "") _ _ (λ e. indexed)
              λ e. flush-IsIndexed cur out indexed)
          (λ e. indexed)

read_lines-IsIndexed :
    (lines : List String) (state : DebPkg × Map DebPkg)
    → Reading state
    → IsIndexed (read_lines lines state)
unfolding read_lines
read_lines-IsIndexed [] (cur, out) indexed = flush-IsIndexed cur out indexed
read_lines-IsIndexed (line ∷ lines) state indexed =
    read_lines-IsIndexed lines (read_line line state) (read_line-Reading line state indexed)

-- The lines of a package index, whatever they are, give a map in which every package stands under its own name.
pub parse_packages-IsIndexed : (lines : List String) → IsIndexed (parse_packages lines)
unfolding parse_packages value_at
parse_packages-IsIndexed lines = read_lines-IsIndexed lines (no_pkg, []) empty
  where
    empty : IsIndexed []
    empty name pkg h = absurd (cc h)
