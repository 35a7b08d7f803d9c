-- ===== src/Negatives/Sound.antt =====
-- What the negatives of eval/build_negatives.py are worth: where the gold figure does not stand, and
-- which document is served.
use chat_doc.Floats.{Floats}
use chat_doc.Negatives.{
  gold_figure_variants, sorted_texts, leaks_elsewhere, leaks_from, element, choice, text_lt,
  insert_text,
}
use chat_doc.Normalize.Search.{bounded_search}
use chat_doc.Normalize.Occurs.{bounded_search_iff, Occurs}
use chat_doc.Prelude.{
  All, All-imp, Bool, Bool-cases, In, List, Option, Text, [], any, any-false, arith, false, inl,
  inr, is_digit, is_empty, is_empty→nil, length, map, none, refl, some, some-injective, subst, suc,
  sym, true, zero, ℕ, ◌%◌, ◌+◌, ◌==◌, ◌||◌, ◌∷◌, ◌≡◌, ◌⊎◌,
}

abbrev pub page : List Text → ℕ → Option Text
page [] i = none
page (t ∷ pages) zero = some t
page (t ∷ pages) (suc i) = page pages i

pub In-map :
    {A B : Type 0} (f : A → B) (b : B) (xs : List A)
    → In b (map f xs)
    → (a : A) × In a xs × (f a ≡ b)
In-map f b [] m = absurd m
In-map f b (x ∷ xs) (inl e) = (x, inl refl, e)
In-map f b (x ∷ xs) (inr m) = let (a, deep, e) = In-map f b xs m in (a, inr deep, e)

-- What is sorted was there, and what is chosen is one of the choices.
In-insert_text : (a t : Text) (xs : List Text) → In a (insert_text t xs) → (t ≡ a) ⊎ In a xs
unfolding insert_text
In-insert_text a t [] m = m
In-insert_text a t (x ∷ xs) m = elim (Bool-cases (text_lt x t)) [
  | inl e ↦ past (In-insert_text a t xs) (rw e at m)
  | inr e ↦ rw e at m
]
  where
    past :
        (In a (insert_text t xs) → (t ≡ a) ⊎ In a xs)
        → (x ≡ a) ⊎ In a (insert_text t xs)
        → (t ≡ a) ⊎ ((x ≡ a) ⊎ In a xs)
    past deeper (inl same) = inr (inl same)
    past deeper (inr m) = elim (deeper m) [ inl e ↦ inl e | inr later ↦ inr (inr later) ]

pub In-sorted_texts : (a : Text) (xs : List Text) → In a (sorted_texts xs) → In a xs
unfolding sorted_texts
In-sorted_texts a [] m = m
In-sorted_texts a (x ∷ xs) m = elim (In-insert_text a x (sorted_texts xs) m) [
  | inl e ↦ inl e
  | inr later ↦ inr (In-sorted_texts a xs later)
]

In-element : (a : Text) (xs : List Text) (i : ℕ) → element xs i ≡ some a → In a xs
In-element a [] i e = cc
In-element a (x ∷ xs) zero e = inl (some-injective _ _ e)
In-element a (x ∷ xs) (suc i) e = inr (In-element a xs i e)

pub In-choice : (drawn : ℕ) (a : Text) (xs : List Text) → choice drawn xs ≡ some a → In a xs
unfolding choice
In-choice drawn a [] e = cc
In-choice drawn a (x ∷ xs) e = In-element a (x ∷ xs) (drawn % length (x ∷ xs)) e

module _ (fl : Floats) where
  open fl use {F}

  -- No form of the figure that is specific enough stands on a page that is not left out.
  abbrev pub NoFigure : F → List Text → List ℕ → Type 0
  NoFigure gold_value pages excluded =
      (i : ℕ) (text : Text)
      → page pages i ≡ some text
      → any (λ p. p == i) excluded ≡ false
      → All (λ v. ¬ Occurs is_digit false v text) (gold_figure_variants fl gold_value)

  absent :
      (variants : List Text) (text : Text)
      → any (λ v. bounded_search is_digit v text) variants ≡ false
      → All (λ v. ¬ Occurs is_digit false v text) variants
  absent variants text h =
      All-imp (λ v. bounded_search is_digit v text ≡ false) (λ v. ¬ Occurs is_digit false v text)
        (λ v e o. let found = (bounded_search_iff is_digit v text).1 o in cc) variants
        (any-false (λ v. bounded_search is_digit v text) variants h)

  leaks_from-false :
      (variants : List Text) (first : ℕ) (pages : List Text) (excluded : List ℕ)
      → leaks_from fl variants first pages excluded ≡ false
      → (i : ℕ) (text : Text) → page pages i ≡ some text
      → any (λ p. p == first + i) excluded ≡ false
      → All (λ v. ¬ Occurs is_digit false v text) variants
  unfolding leaks_from
  leaks_from-false variants first [] excluded h i text e k = cc
  leaks_from-false variants first (t ∷ pages) excluded h zero text e k =
      let at_first : first + 0 ≡ first = omega arith in
      let same : t ≡ text = some-injective _ _ e in
      absent variants text (searched (rw at_first at k) same)
    where
      neither :
          (any (λ v. bounded_search is_digit v t) variants
              || leaks_from fl variants (first + 1) pages excluded)
            ≡ false
          → any (λ v. bounded_search is_digit v t) variants ≡ false
      neither e = ground arith

      searched :
          any (λ p. p == first) excluded ≡ false
          → t ≡ text
          → any (λ v. bounded_search is_digit v text) variants ≡ false
      searched k same =
          subst (λ u. any (λ v. bounded_search is_digit v u) variants ≡ false) same
            (neither (rw k at h))
  leaks_from-false variants first (t ∷ pages) excluded h (suc i) text e k =
      leaks_from-false variants (first + 1) pages excluded later i text e
        (subst (λ n. any (λ p. p == n) excluded ≡ false) (step first i) k)
    where
      step : (a b : ℕ) → a + suc b ≡ a + 1 + b
      step a b = omega arith

      right_false :
          (b : Bool)
          → (b || leaks_from fl variants (first + 1) pages excluded) ≡ false
          → leaks_from fl variants (first + 1) pages excluded ≡ false
      right_false true e = cc
      right_false false e = e

      later : leaks_from fl variants (first + 1) pages excluded ≡ false
      later = elim (Bool-cases (any (λ p. p == first) excluded)) [
        | inl x ↦ rw x at h
        | inr x ↦ right_false (any (λ v. bounded_search is_digit v t) variants) (rw x at h)
      ]

  pub leaks_elsewhere-NoFigure :
      (gold_value : F) (pages : List Text) (excluded : List ℕ)
      → leaks_elsewhere fl gold_value pages excluded ≡ false
      → NoFigure gold_value pages excluded
  unfolding leaks_elsewhere
  leaks_elsewhere-NoFigure gold_value pages excluded h i text e k =
      elim (Bool-cases (is_empty (gold_figure_variants fl gold_value))) [
        | inl none_left ↦
            subst (All (λ v. ¬ Occurs is_digit false v text))
              (sym (is_empty→nil (gold_figure_variants fl gold_value) none_left)) tt
        | inr some_left ↦
            leaks_from-false (gold_figure_variants fl gold_value) 0 pages excluded
              (rw some_left at h) i text e
              (subst (λ n. any (λ p. p == n) excluded ≡ false) (from_zero i) k)
      ]
    where
      from_zero : (n : ℕ) → n ≡ 0 + n
      from_zero n = omega arith
