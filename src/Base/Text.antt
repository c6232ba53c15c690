-- ===== src/Base/Text.antt =====
-- `strings.ToLower`, `strings.TrimSpace` and `strings.EqualFold`, on the ASCII letters and blanks.
use Prim.Native.Char.{Char, code}
use goincus.Base.{
  ℕ, String, arith, ◌≡◌, refl, Bool, ◌&&◌, ◌||◌, List, [], ◌∷◌, ◌==◌, ℕ-Eq, String-Eq, leb,
  starts_with, if◌then◌else◌,
}

-- The code points of a text: its bytes, if it is ASCII.
abbrev pub codes : String → List ℕ
codes String.[] = []
codes (String.◌∷◌ c s) = code c ∷ codes s

abbrev pub is_lower_code : ℕ → Bool
is_lower_code c = leb b'a' c && leb c b'z'

abbrev pub is_digit_code : ℕ → Bool
is_digit_code c = leb b'0' c && leb c b'9'

-- The letter of the second alphabet at the place of `c` in the first.
letter_for : Char → String → String → Char
letter_for c String.[] lower = c
letter_for c (String.◌∷◌ u upper) String.[] = c
letter_for c (String.◌∷◌ u upper) (String.◌∷◌ l lower) =
    if code c == code u then l else letter_for c upper lower

unfoldable pub to_lower : String → String
unfolding letter_for
to_lower String.[] = ""
to_lower (String.◌∷◌ c s) =
    String.◌∷◌ (letter_for c "ABCDEFGHIJKLMNOPQRSTUVWXYZ" "abcdefghijklmnopqrstuvwxyz") (to_lower s)

is_space_code : ℕ → Bool
is_space_code c = c == 32 || (leb 9 c && leb c 13) || c == 0x85 || c == 0xa0

trim_left : String → String
unfolding is_space_code
trim_left String.[] = ""
trim_left (String.◌∷◌ c s) = if is_space_code (code c) then trim_left s else String.◌∷◌ c s

-- A blank goes if nothing but blanks follows it.
trim_right : String → String
unfolding is_space_code
trim_right String.[] = ""
trim_right (String.◌∷◌ c s) =
    let rest = trim_right s in
    if is_space_code (code c) && rest == "" then "" else String.◌∷◌ c rest

unfoldable pub trim_space : String → String
unfolding trim_left trim_right
trim_space s = trim_right (trim_left s)

unfoldable pub equal_fold : String → String → Bool
unfolding to_lower
equal_fold s t = to_lower s == to_lower t

trim_and_lower : to_lower (trim_space " Web-01 \n") ≡ "web-01"
unfolding to_lower trim_space
trim_and_lower = refl

-- `strings.Contains(text, part)`.
unfoldable pub has_infix : String → String → Bool
has_infix part String.[] = part == ""
has_infix part (String.◌∷◌ c s) = starts_with (String.◌∷◌ c s) part || has_infix part s

-- `strings.Fields(s)[0]`, of a text that does not start with a blank.
unfoldable pub first_field : String → String
unfolding is_space_code
first_field String.[] = ""
first_field (String.◌∷◌ c s) =
    let rest = first_field s in if is_space_code (code c) then "" else String.◌∷◌ c rest

trim_right_idem : (s : String) → trim_right (trim_right s) ≡ trim_right s
unfolding trim_right
trim_right_idem String.[] = refl
trim_right_idem (String.◌∷◌ c s) =
    ground (arith, trim_right_idem s, String-Eq.test_iff (trim_right s) "")

trim_left-trim_right :
    (s : String) → trim_left (trim_right (trim_left s)) ≡ trim_right (trim_left s)
unfolding trim_left trim_right
trim_left-trim_right String.[] = refl
trim_left-trim_right (String.◌∷◌ c s) = ground (arith, trim_left-trim_right s)

-- What is trimmed has no blanks to trim.
pub trim_space_idem : (s : String) → trim_space (trim_space s) ≡ trim_space s
unfolding trim_space
trim_space_idem s = rw (trim_left-trim_right s, trim_right_idem (trim_left s)) refl
