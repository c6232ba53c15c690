-- ===== src/Base/Result.antt =====
-- The two ways in which a call of the program ends.
use goincus.Base.{◌≡◌, refl, ◌⊎◌, inl, inr, String, ◌<>◌}

-- The errors that the API tells apart (`service.ErrNotFound`, `ErrInvalidInput`, `ErrConflict`),
-- and all others; the text is the message.
pub data Error : Type 0 where
  not_found : Error
  invalid_input : String → Error
  conflict : String → Error
  failure : String → Error

pub data Result {ℓ} (A : Type ℓ) : Type ℓ where
  ok : A → Result A
  err : Error → Result A

pub Result-cases {ℓ} :
    {A : Type ℓ} (r : Result A) → ((a : A) × (r ≡ ok a)) ⊎ ((e : Error) × (r ≡ err e))
Result-cases (ok a) = inl (a, refl)
Result-cases (err e) = inr (e, refl)

-- `err.Error()`
abbrev pub message : Error → String
message not_found = "not found"
message (invalid_input text) = "invalid input: " <> text
message (conflict text) = "conflict: " <> text
message (failure text) = text

-- `fmt.Errorf("context: %w", err)`: `errors.Is` still finds what is wrapped.
abbrev pub wrap : String → Error → Error
wrap context not_found = not_found
wrap context (invalid_input text) = invalid_input (context <> ": " <> text)
wrap context (conflict text) = conflict (context <> ": " <> text)
wrap context (failure text) = failure (context <> ": " <> text)
