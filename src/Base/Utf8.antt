-- ===== src/Base/Utf8.antt =====
-- `[]byte(s)`: the UTF-8 code of a text.
use Prim.Native.Char.{code}
use goincus.Base.{
  ℕ, ◌+◌, ◌/◌, ◌%◌, String, List, [], ◌∷◌, ◌++◌, ltb, length, if◌then◌else◌, ◌≡◌, refl,
}

utf8_char : ℕ → List ℕ
utf8_char c =
    if ltb c 0x80
    then c ∷ []
    else if ltb c 0x800
    then (0xc0 + c / 64) ∷ (0x80 + c % 64) ∷ []
    else if ltb c 0x10000
    then (0xe0 + c / 4_096) ∷ (0x80 + c / 64 % 64) ∷ (0x80 + c % 64) ∷ []
    else (0xf0 + c / 262_144)
      ∷ (0x80 + c / 4_096 % 64)
      ∷ (0x80 + c / 64 % 64)
      ∷ (0x80 + c % 64)
      ∷ []

unfoldable pub utf8 : String → List ℕ
unfolding utf8_char
utf8 String.[] = []
utf8 (String.◌∷◌ c s) = utf8_char (code c) ++ utf8 s

-- `len(s)`
unfoldable pub byte_count : String → ℕ
unfolding utf8
byte_count s = length (utf8 s)

three_bytes : byte_count "aé" ≡ 3
unfolding byte_count
three_bytes = refl
