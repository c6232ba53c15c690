-- ===== src/Incus/CloudInit/Quoted.antt =====
-- A password cannot change the shell command that it is put into.
use Prim.Native.Char.{Char, code}
use goincus.Base.{
  ℕ, zero, suc, ◌+◌, ◌*◌, ◌/◌, ◌%◌, String, ◌<>◌, ◌≡◌, refl, ap, ◌∙◌, ◌++◌, sym, Bool, true, false,
  ◌||◌, List, [], ◌∷◌, ◌==◌, ℕ-Eq, arith, if◌then◌else◌,
}
use goincus.Base.Utf8.{utf8}
use text.Mathlib.TextLemmas.{nil-append, cons-append}
use goincus.Incus.CloudInit.{
  alphabet, char_at, sextet, base64, encode_to_string, cloud_init_user_data,
}

abbrev pub has_char : ℕ → String → Bool
has_char c String.[] = false
has_char c (String.◌∷◌ d s) = c == code d || has_char c s

-- A character that Base64 writes.
abbrev pub is_base64 : Char → Bool
is_base64 c = has_char (code c) (String.◌∷◌ "A" alphabet) || code c == b'='

-- The characters of a text that Base64 does not write: quotes, blanks, the ends of lines and more.
unfoldable pub outside_base64 : String → List Char
outside_base64 String.[] = []
outside_base64 (String.◌∷◌ c s) =
    let rest = outside_base64 s in if is_base64 c then rest else c ∷ rest

has_char-char_at :
    (n : ℕ) (c : Char) (s : String) → has_char (code (char_at n c s)) (String.◌∷◌ c s) ≡ true
unfolding char_at
has_char-char_at zero c s = ground arith
has_char-char_at (suc n) c String.[] = ground arith
has_char-char_at (suc n) c (String.◌∷◌ d s) = ground (arith, has_char-char_at n d s)

sextet-is_base64 : (n : ℕ) → is_base64 (sextet n) ≡ true
unfolding sextet
sextet-is_base64 n = rw (has_char-char_at n "A" alphabet) refl

outside_base64-sextet :
    (n : ℕ) (s : String) (rest : List Char)
    → outside_base64 s ≡ rest
    → outside_base64 (String.◌∷◌ (sextet n) s) ≡ rest
unfolding outside_base64
outside_base64-sextet n s rest h = rw (sextet-is_base64 n) h

outside_base64-empty : outside_base64 "" ≡ []
unfolding outside_base64
outside_base64-empty = refl

outside_base64-padding : (outside_base64 "=" ≡ []) × (outside_base64 "==" ≡ [])
unfolding outside_base64
outside_base64-padding = (refl, refl)

outside_base64-base64 : (bytes : List ℕ) → outside_base64 (base64 bytes) ≡ []
unfolding base64
outside_base64-base64 [] = outside_base64-empty
outside_base64-base64 (a ∷ []) =
    outside_base64-sextet (a / 4) _ _
      (outside_base64-sextet (a % 4 * 16) _ _ outside_base64-padding.1)
outside_base64-base64 (a ∷ b ∷ []) = outside_base64-sextet (a / 4) _ _ (
    outside_base64-sextet (a % 4 * 16 + b / 16) _ _
      (outside_base64-sextet (b % 16 * 4) _ _ outside_base64-padding.0))
outside_base64-base64 (a ∷ b ∷ c ∷ bytes) = outside_base64-sextet (a / 4) _ _ (
    outside_base64-sextet (a % 4 * 16 + b / 16) _ _ (
      outside_base64-sextet (b % 16 * 4 + c / 64) _ _
        (outside_base64-sextet (c % 64) _ _ (outside_base64-base64 bytes))))

outside_base64-append :
    (s t : String) → outside_base64 (s <> t) ≡ outside_base64 s ++ outside_base64 t
unfolding outside_base64
outside_base64-append String.[] t = ap outside_base64 (nil-append t)
outside_base64-append (String.◌∷◌ c s) t =
    rw (cons-append c s t) (by_case (is_base64 c) (outside_base64-append s t))
  where
    by_case :
        (b : Bool)
        → outside_base64 (s <> t) ≡ outside_base64 s ++ outside_base64 t
        → (if b then outside_base64 (s <> t) else c ∷ outside_base64 (s <> t))
          ≡ (if b then outside_base64 s else c ∷ outside_base64 s) ++ outside_base64 t
    by_case true h = h
    by_case false h = ap (λ r. c ∷ r) h

-- A text of Base64 within another text is not seen outside of it.
outside_base64-insert :
    (s secret t : String)
    → outside_base64 secret ≡ []
    → outside_base64 (s <> (secret <> t)) ≡ outside_base64 (s <> t)
outside_base64-insert s secret t h =
    rw
      (
        outside_base64-append s (secret <> t),
        outside_base64-append secret t,
        h,
        outside_base64-append s t,
      )
      refl

-- Whatever the password is, the cloud-config has the same characters outside the alphabet of Base64, in the same order:
-- no password adds a quote, a blank, a `$` or a line end to the shell command that it stands in.
pub cloud_init_user_data_quoted :
    (password : String) (port : ℕ)
    → outside_base64 (cloud_init_user_data password port)
      ≡ outside_base64 (cloud_init_user_data "" port)
unfolding cloud_init_user_data encode_to_string
cloud_init_user_data_quoted password port =
    outside_base64-insert _ _ _ (outside_base64-base64 (utf8 password))
    ∙ sym (outside_base64-insert _ _ _ (outside_base64-base64 (utf8 "")))
