-- ===== src/Api/Auth/Headers.antt =====
-- internal/api/auth.go: the key and the client's address, from the headers of a request.
use goincus.Base.{
  String, ◌<>◌, ◌≡◌, refl, Bool, ◌&&◌, ◌||◌, Option, none, some, List, [], ◌∷◌, true, false, not,
  ◌==◌, String-Eq, ℕ-Eq, length, Bool-cases, inl, inr, starts_with, if◌then◌else◌,
}
use mathlib.Core.Path.{subst}
use text.Mathlib.TextPositions.{starts_with-append}
use text.Mathlib.TextLemmas.{nil-append, cons-append}
use goincus.Base.Text.{codes, trim_space, trim_space_idem, has_infix}
use goincus.Base.Split.{cut, split_on, drop_chars}

-- The headers that are read, empty where they are missing.
pub record Headers : Type 0 where
  pub x_api_key : String
  pub authorization : String
  pub x_real_ip : String
  pub x_forwarded_for : String

-- `extractAPIKey`
unfoldable pub extract_api_key : Headers → String
extract_api_key h =
    if not (h.x_api_key == "")
    then trim_space h.x_api_key
    else if h.authorization == ""
    then ""
    else if starts_with h.authorization "Bearer "
    then trim_space (drop_chars 7 h.authorization)
    else ""

-- `net.SplitHostPort`, the host: the text before the only colon, or the one in brackets.
split_host : String → Option String
unfolding has_infix split_on cut drop_chars
split_host address =
    if starts_with address "["
    then in_brackets (cut b']' (drop_chars 1 address))
    else before_colon (split_on b':' address)
  where
    is_port : String → Bool
    is_port rest =
        starts_with rest ":"
        && not (has_infix ":" (drop_chars 1 rest))
        && not (has_infix "[" rest)
        && not (has_infix "]" rest)

    in_brackets : String × Option String → Option String
    in_brackets (host, none) = none
    in_brackets (host, some rest) =
        if is_port rest && not (has_infix "[" host) then some host else none

    before_colon : List String → Option String
    before_colon (host ∷ port ∷ []) =
        if has_infix "[" address || has_infix "]" address then none else some host
    before_colon _ = none

-- `clientIP`
unfoldable pub client_ip : Headers → (remote_addr : String) → String
unfolding split_host
client_ip h remote_addr =
    if not (h.x_real_ip == "")
    then trim_space h.x_real_ip
    else if not (h.x_forwarded_for == "")
    then trim_space (cut b',' h.x_forwarded_for).0
    else elim (split_host remote_addr) [ none ↦ remote_addr | some host ↦ host ]

-- What `apicli.Client.do` sends with a key.
abbrev pub client_headers : (api_key : String) → Headers
client_headers api_key = record {
  x_api_key = "";
  authorization = "Bearer " <> api_key;
  x_real_ip = "";
  x_forwarded_for = "";
}

drop_chars-append : (s t : String) → drop_chars (length (codes s)) (s <> t) ≡ t
unfolding drop_chars
drop_chars-append String.[] t = nil-append t
drop_chars-append (String.◌∷◌ c s) t = rw (cons-append c s t) (drop_chars-append s t)

not_empty : (k : String) → (("Bearer " <> k) == "") ≡ false
not_empty k = elim (Bool-cases (("Bearer " <> k) == "")) [
  | inr other ↦ other
  | inl same ↦
      let prefix : starts_with "" "Bearer " ≡ true =
        subst (λ (x : String). starts_with x "Bearer " ≡ true)
          ((String-Eq.test_iff ("Bearer " <> k) "").0 same) (starts_with-append "Bearer " k) in
      absurd (cc prefix)
]

-- The server reads from the headers of the client exactly the key that the client has, which it trimmed when it was made.
pub extract_api_key-client_headers :
    (key : String) → extract_api_key (client_headers (trim_space key)) ≡ trim_space key
unfolding extract_api_key
extract_api_key-client_headers key =
    rw
      (
        not_empty (trim_space key),
        starts_with-append "Bearer " (trim_space key),
        drop_chars-append "Bearer " (trim_space key),
        trim_space_idem key,
      )
      refl
