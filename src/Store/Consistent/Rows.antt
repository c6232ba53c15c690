-- ===== src/Store/Consistent/Rows.antt =====
-- Lists of rows under the changes that statements make: appending, selecting, replacing.
use goincus.Base.{
  ◌≡◌, refl, sym, ap, ◌∙◌, inl, inr, Bool, true, false, ◌||◌, List, [], ◌∷◌, ◌++◌, Option, none,
  some, ◌==◌, Eq, ℕ-Eq, String-Eq, any, select, if◌then◌else◌, arith, Bool-cases,
}
use goincus.Store.Consistent.{distinct, every}

module _ {ℓ} {A : Type ℓ} where
  pub any-append : (p : A → Bool) (xs : List A) (x : A) → any p (xs ++ x ∷ []) ≡ (any p xs || p x)
  any-append p [] x = ground arith
  any-append p (y ∷ xs) x = ground (arith, any-append p xs x)

  pub every-append :
      (p : A → Bool) (xs : List A) (x : A)
      → every p xs ≡ true
      → p x ≡ true
      → every p (xs ++ x ∷ []) ≡ true
  every-append p [] x h hx = ground arith
  every-append p (y ∷ xs) x h hx = ground (arith, every-append p xs x)

  -- A row that collides with none can be added at the end.
  pub distinct-append :
      (r : A → A → Bool) (symmetric : (a b : A) → r a b ≡ r b a) (xs : List A) (x : A)
      → distinct r xs ≡ true
      → any (r x) xs ≡ false
      → distinct r (xs ++ x ∷ []) ≡ true
  distinct-append r symmetric [] x h hx = refl
  distinct-append r symmetric (y ∷ xs) x h hx =
      ground (arith, distinct-append r symmetric xs x, any-append (r y) xs x, symmetric x y)

  any-select : (p q : A → Bool) (xs : List A) → any p xs ≡ false → any p (select q xs) ≡ false
  any-select p q [] h = refl
  any-select p q (x ∷ xs) h = ground (arith, any-select p q xs)

  pub every-select :
      (p q : A → Bool) (xs : List A) → every p xs ≡ true → every p (select q xs) ≡ true
  every-select p q [] h = refl
  every-select p q (x ∷ xs) h = ground (arith, every-select p q xs)

  pub distinct-select :
      (r : A → A → Bool) (q : A → Bool) (xs : List A)
      → distinct r xs ≡ true
      → distinct r (select q xs) ≡ true
  distinct-select r q [] h = refl
  distinct-select r q (x ∷ xs) h = ground (arith, distinct-select r q xs, any-select (r x) q xs)

  -- A weaker check holds of every row of which the stronger holds.
  pub every-weaken :
      (p q : A → Bool) (xs : List A)
      → ((x : A) → p x ≡ true → q x ≡ true)
      → every p xs ≡ true
      → every q xs ≡ true
  every-weaken p q [] w h = refl
  every-weaken p q (x ∷ xs) w h = ground (arith, w x, every-weaken p q xs w)

module _ {ℓ} {A : Type ℓ} ⦃e : Eq A⦄ where
  pub eq_comm : (a b : A) → (a == b) ≡ (b == a)
  eq_comm a b = elim (Bool-cases (a == b)) [
    | inl same ↦
        ap (λ x. x == b) ((e.test_iff a b).0 same)
        ∙ ap (λ x. b == x) (sym ((e.test_iff a b).0 same))
    | inr other ↦ elim (Bool-cases (b == a)) [
      | inl same ↦
          ap (λ x. x == b) (sym ((e.test_iff b a).0 same))
          ∙ ap (λ x. b == x) ((e.test_iff b a).0 same)
      | inr other' ↦ other ∙ sym other'
    ]
  ]

-- A test decides.
pub if-rule {κ} :
    {A : Type 0} (P : A → Type κ) (b : Bool) (x y : A)
    → (b ≡ true → P x)
    → (b ≡ false → P y)
    → P (if b then x else y)
if-rule P true x y then_case else_case = then_case refl
if-rule P false x y then_case else_case = else_case refl

-- A row is found or not.
pub option-rule {κ} :
    {A B : Type 0} (P : B → Type κ) (o : Option A) (x : B) (f : A → B)
    → (o ≡ none → P x)
    → ((a : A) → o ≡ some a → P (f a))
    → P (elim o [ none ↦ x | some a ↦ f a ])
option-rule P none x f missing found = missing refl
option-rule P (some a) x f missing found = found a refl
