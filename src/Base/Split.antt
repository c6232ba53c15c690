-- ===== src/Base/Split.antt =====
-- `strings.Split`, `strings.Join`, `strings.Cut`, `strings.HasSuffix` for one character, and `strconv.Atoi`.
use Prim.Native.Char.{code}
use goincus.Base.{
  ℕ, zero, suc, ◌+◌, ◌-◌, ◌*◌, String, ◌<>◌, ◌≡◌, refl, Bool, true, false, Option, none, some, List,
  [], ◌∷◌, ◌==◌, ℕ-Eq, String-Eq, ltb, if◌then◌else◌,
}
use goincus.Base.Int.{ℤ, pos, negsuc, half_range}
use goincus.Base.Text.{is_digit_code}

-- The text before the first `sep`, and what follows it, if there is one.
unfoldable pub cut : (sep : ℕ) → String → String × Option String
cut sep String.[] = ("", none)
cut sep (String.◌∷◌ c s) =
    let (head, rest) = cut sep s in
    if code c == sep then ("", some s) else (String.◌∷◌ c head, rest)

-- `strings.Split(s, sep)`: never empty.
unfoldable pub split_on : (sep : ℕ) → String → List String
split_on sep String.[] = "" ∷ []
split_on sep (String.◌∷◌ c s) =
    let parts = split_on sep s in
    if code c == sep then "" ∷ parts else elim parts [ [] ↦ [] | p ∷ ps ↦ String.◌∷◌ c p ∷ ps ]

unfoldable pub join : (sep : String) → List String → String
join sep [] = ""
join sep (p ∷ ps) = elim ps [ [] ↦ p | q ∷ qs ↦ p <> (sep <> join sep ps) ]

-- `strings.HasSuffix(s, "c")`
unfoldable pub ends_with : (c : ℕ) → String → Bool
ends_with c String.[] = false
ends_with c (String.◌∷◌ d s) = if s == "" then code d == c else ends_with c s

-- `s[n:]` of an ASCII text.
unfoldable pub drop_chars : ℕ → String → String
drop_chars zero s = s
drop_chars (suc n) String.[] = ""
drop_chars (suc n) (String.◌∷◌ c s) = drop_chars n s

digits_from : ℕ → String → Option ℕ
digits_from n String.[] = some n
digits_from n (String.◌∷◌ c s) =
    let rest = digits_from (10 * n + (code c - b'0')) s in
    if is_digit_code (code c) then rest else none

-- A decimal number: at least one digit.
unfoldable pub parse_digits : String → Option ℕ
unfolding digits_from
parse_digits String.[] = none
parse_digits (String.◌∷◌ c s) = digits_from 0 (String.◌∷◌ c s)

negate : ℕ → ℤ
negate n = if n == 0 then pos 0 else negsuc (n - 1)

signed_digits : String → Option ℤ
unfolding parse_digits
signed_digits s = elim (parse_digits s) [ none ↦ none | some n ↦ some (pos n) ]

-- The number that the text spells, of any size.
unfoldable pub parse_integer : String → Option ℤ
unfolding parse_digits signed_digits negate
parse_integer String.[] = none
parse_integer (String.◌∷◌ c s) =
    if code c == b'-'
    then elim (parse_digits s) [ none ↦ none | some n ↦ some (negate n) ]
    else if code c == b'+'
    then signed_digits s
    else signed_digits (String.◌∷◌ c s)

-- `strconv.Atoi`, which refuses what does not fit into 64 bits.
unfoldable pub atoi : String → Option ℤ
unfolding parse_integer
atoi s = elim (parse_integer s) [
  | none ↦ none
  | some (pos n) ↦ if ltb n half_range then some (pos n) else none
  | some (negsuc n) ↦ if ltb n half_range then some (negsuc n) else none
]

split_parts : split_on b':' "root:1000000:65536" ≡ "root" ∷ "1000000" ∷ "65536" ∷ []
unfolding split_on
split_parts = refl

atoi_reads : atoi "-42" ≡ some (negsuc 41)
unfolding atoi
atoi_reads = refl

leading_digits : ℕ → Bool → String → Option ℕ
leading_digits n some_read String.[] = if some_read then some n else none
leading_digits n some_read (String.◌∷◌ c s) =
    let rest = leading_digits (10 * n + (code c - b'0')) true s in
    if is_digit_code (code c) then rest else if some_read then some n else none

-- `fmt.Sscanf(s, "%d", &n)`: blanks, a sign, and as many digits as there are.
unfoldable pub scan_number : String → Option ℤ
unfolding leading_digits negate
scan_number String.[] = none
scan_number (String.◌∷◌ c s) =
    let later = scan_number s in
    if code c == 32
    then later
    else if code c == b'-'
    then elim (leading_digits 0 false s) [ none ↦ none | some n ↦ some (negate n) ]
    else elim (leading_digits 0 false (if code c == b'+' then s else String.◌∷◌ c s)) [
      | none ↦ none
      | some n ↦ some (pos n)
    ]
