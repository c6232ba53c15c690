-- ===== src/System/Monad.antt =====
-- State and errors: what a call has done stays done when it fails later.
use goincus.Base.{String, ◌≡◌, refl, sym, ap, Bool, true, false}
use goincus.Base.Result.{Error, Result, ok, err, wrap}

abbrev pub M : Type 0 → Type 0 → Type 0
M W A = W → Result A × W

module _ {W A : Type 0} where
  abbrev pub pure : A → M W A
  pure a w = (ok a, w)

  abbrev pub fail : Error → M W A
  fail e w = (err e, w)

  -- `_ = call`: the call's error is dropped.
  abbrev pub ignore : M W A → M W (Unit {0})
  ignore m w = (ok tt, (m w).1)

  -- The call's result as a value, where the caller looks at the error itself.
  abbrev pub attempt : M W A → M W (Result A)
  attempt m w = (ok (m w).0, (m w).1)

  -- A result that was looked at, returned.
  abbrev pub settle : Result A → M W A
  settle r w = (r, w)

  -- `defer`: the clean-up runs however the call ends, and its own error is dropped.
  abbrev pub finally : {B : Type 0} → M W A → M W B → M W A
  finally m cleanup w = ((m w).0, (cleanup (m w).1).1)

  -- The error of a call, changed.
  abbrev pub map_error : (Error → Error) → M W A → M W A
  map_error f m w = elim (m w).0 [ ok a ↦ (ok a, (m w).1) | err e ↦ (err (f e), (m w).1) ]

  -- `return fmt.Errorf("context: %w", err)`
  abbrev pub within : String → M W A → M W A
  within context m w = elim (m w).0 [
    | ok a ↦ (ok a, (m w).1)
    | err e ↦ (err (wrap context e), (m w).1)
  ]

infixl 5 ◌>>=◌ ◌>>◌
abbrev pub ◌>>=◌ : {W A B : Type 0} → M W A → (A → M W B) → M W B
◌>>=◌ m f w = let (r, w') = m w in elim r [ ok a ↦ f a w' | err e ↦ (err e, w') ]

abbrev pub ◌>>◌ : {W A B : Type 0} → M W A → M W B → M W B
m >> k = m >>= λ _. k

abbrev pub raise_if : {W : Type 0} → Bool → Error → M W (Unit {0})
raise_if true e w = (err e, w)
raise_if false e w = (ok tt, w)

-- A call in two parts: what holds of every way in which the first ends holds of both.
pub bind_rule {κ} :
    {W A B : Type 0} (m : M W A) (f : A → M W B) (w : W) (P : Result B × W → Type κ)
    → ((a : A) → (m w).0 ≡ ok a → P (f a (m w).1))
    → ((e : Error) → (m w).0 ≡ err e → P (err e, (m w).1))
    → P ((m >>= f) w)
bind_rule {A} m f w P done failed = go (m w).0 refl
  where
    go : (r : Result A) → (m w).0 ≡ r → P (elim r [ ok a ↦ f a (m w).1 | err e ↦ (err e, (m w).1) ])
    go (ok a) h = done a h
    go (err e) h = failed e h

-- A call in two parts that succeeds: its first part does, and it ends as the second part does.
pub bind_succeeds :
    {W A B : Type 0} (m : M W A) (f : A → M W B) (w : W) (b : B)
    → ((m >>= f) w).0 ≡ ok b
    → (a : A) × (((m w).0 ≡ ok a) × ((m >>= f) w ≡ f a (m w).1))
bind_succeeds {W} {A} {B} m f w b = go (m w).0 refl
  where
    go :
        (r : Result A)
        → (m w).0 ≡ r
        → (elim r as (λ _. Result B × W) [ ok a ↦ f a (m w).1 | err e ↦ (err e, (m w).1) ]).0 ≡ ok b
        → (a : A) × (((m w).0 ≡ ok a)
            × (elim r as (λ _. Result B × W) [ ok a ↦ f a (m w).1 | err e ↦ (err e, (m w).1) ]
                ≡ f a (m w).1))
    go (ok a) h e = (a, (h, refl))
    go (err x) h e = absurd (cc e)

-- A call that succeeds does so with any context for its errors.
pub within_succeeds :
    {W A : Type 0} (context : String) (m : M W A) (w : W) (a : A)
    → (within context m w).0 ≡ ok a
    → within context m w ≡ m w
within_succeeds {W} {A} context m w a = go (m w).0 refl
  where
    go :
        (r : Result A)
        → (m w).0 ≡ r
        → (elim r as (λ _. Result A × W) [
          | ok a ↦ (ok a, (m w).1)
          | err e ↦ (err (wrap context e), (m w).1)
        ]).0
          ≡ ok a
        → elim r as (λ _. Result A × W) [
          | ok a ↦ (ok a, (m w).1)
          | err e ↦ (err (wrap context e), (m w).1)
        ]
          ≡ m w
    go (ok x) h e = ap (λ r. (r, (m w).1)) (sym h)
    go (err x) h e = absurd (cc e)
