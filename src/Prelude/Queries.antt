-- ===== src/Prelude/Queries.antt =====
-- What a query says of the rows of a table: select, find and any.
use Prim.Native.Nat.{◌≤◌}
use mathlib.Core.Path.{◌≡◌, refl, ap, subst}
use mathlib.Core.Bool.{Bool, true, false}
use mathlib.Core.Logic.{inl, inr, ◌⊎◌}
use mathlib.Core.List.{List, [], ◌∷◌, ◌++◌}
use mathlib.Core.Option.{none, some, some-injective}
use native.Mathlib.Omega.{arith}
use chat_doc.Prelude.Tests.{Bool-cases}
use chat_doc.Prelude.Lists.{All, In, any, find, is_empty, length, select, update_where}

pub is_empty→nil {ℓ} : {A : Type ℓ} (xs : List A) → is_empty xs ≡ true → xs ≡ []
is_empty→nil [] h = refl
is_empty→nil (x ∷ xs) h = cc

-- The row that a query returns passes its test.
pub find_passes {ℓ} :
    {A : Type ℓ} (p : A → Bool) (xs : List A) {a : A} → find p xs ≡ some a → p a ≡ true
find_passes p [] e = cc
find_passes p (x ∷ xs) e = elim (Bool-cases (p x)) [
  | inl t ↦ subst (λ y. p y ≡ true) (some-injective _ _ (rw t at e)) t
  | inr t ↦ find_passes p xs (rw t at e)
]

-- A query that returns nothing has refused every row.
pub find-none {ℓ} :
    {A : Type ℓ} (p : A → Bool) (xs : List A) → find p xs ≡ none → All (λ x. p x ≡ false) xs
find-none p [] e = tt
find-none p (x ∷ xs) e = elim (Bool-cases (p x)) [
  | inl t ↦ absurd (cc (rw t at e))
  | inr t ↦ (t, find-none p xs (rw t at e))
]

pub any-false {ℓ} :
    {A : Type ℓ} (p : A → Bool) (xs : List A) → any p xs ≡ false → All (λ x. p x ≡ false) xs
any-false p [] e = tt
any-false p (x ∷ xs) e = (ground arith, any-false p xs (ground arith))

module _ {ℓ} {A : Type ℓ} where
  pub select-append :
      (p : A → Bool) (xs ys : List A) → select p (xs ++ ys) ≡ select p xs ++ select p ys
  select-append p [] ys = refl
  select-append p (x ∷ xs) ys = elim (Bool-cases (p x)) [
    | inl t ↦ rw t (ap (◌∷◌ x) (select-append p xs ys))
    | inr t ↦ rw t (select-append p xs ys)
  ]

  -- What is selected passes the test.
  pub select_passes : (p : A → Bool) (xs : List A) → All (λ x. p x ≡ true) (select p xs)
  select_passes p [] = tt
  select_passes p (x ∷ xs) = elim (Bool-cases (p x)) [
    | inl t ↦ rw t (t, select_passes p xs)
    | inr t ↦ rw t (select_passes p xs)
  ]

  pub select-nil : (p : A → Bool) (xs : List A) → select p xs ≡ [] → All (λ x. p x ≡ false) xs
  select-nil p [] e = tt
  select-nil p (x ∷ xs) e = elim (Bool-cases (p x)) [
    | inl t ↦ cc (rw t at e)
    | inr t ↦ (t, select-nil p xs (rw t at e))
  ]

  pub select-of_none : (p : A → Bool) (xs : List A) → All (λ x. p x ≡ false) xs → select p xs ≡ []
  select-of_none p [] h = refl
  select-of_none p (x ∷ xs) h = rw h.0 (select-of_none p xs h.1)

  -- A second query sees the same rows where the first keeps all that it would return.
  pub select-select :
      (p q : A → Bool)
      → ((x : A) → q x ≡ true → p x ≡ true)
      → (xs : List A) → select q (select p xs) ≡ select q xs
  select-select p q imp [] = refl
  select-select p q imp (x ∷ xs) = elim (Bool-cases (p x)) [
    | inl t ↦ rw t (rw (select-select p q imp xs))
    | inr t ↦ elim (Bool-cases (q x)) [
      | inl u ↦ cc (imp x u)
      | inr u ↦ rw (t, u) (select-select p q imp xs)
    ]
  ]

  -- A query sees nothing of an update of rows that it does not return, before or after.
  pub select-update_where :
      (p q : A → Bool) (f : A → A)
      → ((x : A) → p x ≡ true → (q x ≡ false) × (q (f x) ≡ false))
      → (xs : List A) → select q (update_where p f xs) ≡ select q xs
  select-update_where p q f away [] = refl
  select-update_where p q f away (x ∷ xs) = elim (Bool-cases (p x)) [
    | inl t ↦ rw (t, (away x t).0, (away x t).1) (select-update_where p q f away xs)
    | inr t ↦ rw t (rw (select-update_where p q f away xs))
  ]

  pub length-select-le : (p : A → Bool) (xs : List A) → length (select p xs) ≤ length xs
  length-select-le p [] = omega arith
  length-select-le p (x ∷ xs) = ground (arith, length-select-le p xs)

module _ {ℓ} {A : Type ℓ} (p : A → Bool) where
  -- A row that was appended is found where no earlier row passes.
  pub find-last :
      (xs : List A) (x : A) → any p xs ≡ false → p x ≡ true → find p (xs ++ x ∷ []) ≡ some x
  find-last [] x none_of h = rw h refl
  find-last (y ∷ xs) x none_of h = elim (Bool-cases (p y)) [
    | inl t ↦ cc (rw t at none_of)
    | inr t ↦ rw t (find-last xs x (rw t at none_of) h)
  ]

  pub any-last : (xs : List A) (x : A) → p x ≡ true → any p (xs ++ x ∷ []) ≡ true
  any-last [] x h = rw h refl
  any-last (y ∷ xs) x h = ground (arith, any-last xs x h)

  pub any-of_none : (xs : List A) → All (λ x. p x ≡ false) xs → any p xs ≡ false
  any-of_none [] h = refl
  any-of_none (x ∷ xs) h = rw h.0 (any-of_none xs h.1)

module _ {A : Type 0} where
  -- What a query returns stands in the table and passes the test.
  pub In-select : (p : A → Bool) (a : A) (xs : List A) → In a (select p xs) → In a xs × (p a ≡ true)
  In-select p a [] m = absurd m
  In-select p a (x ∷ xs) m = elim (Bool-cases (p x)) [
    | inl e ↦ here e (In-select p a xs) (rw e at m)
    | inr e ↦ let (later, t) = In-select p a xs (rw e at m) in (inr later, t)
  ]
    where
      here :
          p x ≡ true
          → (In a (select p xs) → In a xs × (p a ≡ true))
          → (x ≡ a) ⊎ In a (select p xs)
          → ((x ≡ a) ⊎ In a xs) × (p a ≡ true)
      here e deeper (inl same) = (inl same, subst (λ y. p y ≡ true) same e)
      here e deeper (inr m) = let (later, t) = deeper m in (inr later, t)
