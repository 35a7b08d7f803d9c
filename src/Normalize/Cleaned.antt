-- ===== src/Normalize/Cleaned.antt =====
-- What eval/normalize.py drops of a piece of number before float() reads it.
use chat_doc.Normalize.{cleaned, is_bracket}
use chat_doc.Prelude.{
  ==_iff, Bool, Bool-cases, Text, [], ap, arith, false, if◌then◌else◌, inl, inr, is_digit,
  lstrip_of, no_text, not, refl, remove_code, rstrip_of, select, select-select, subst, sym, true, ℕ,
  ◌&&◌, ◌==◌, ◌||◌, ◌∙◌, ◌∷◌, ◌≡◌,
}

-- A character that is neither a comma nor a bracket.
abbrev pub plain : ℕ → Bool
plain c = not (c == b',' || c == b'(' || c == b')')

module _ (p : ℕ → Bool) where
  select-remove_code : (d : ℕ) (t : Text) → p d ≡ false → select p (remove_code d t) ≡ select p t
  unfolding remove_code
  select-remove_code d [] h = refl
  select-remove_code d (c ∷ t) h = elim (Bool-cases (c == d)) [
    | inl e ↦
        let dropped = subst (λ x. p x ≡ false) (sym ((==_iff c d).0 e)) h in
        rw (e, dropped) (select-remove_code d t h)
    | inr e ↦ rw (e, select-remove_code d t h) refl
  ]

  select-lstrip_of :
      (q : ℕ → Bool) (t : Text)
      → ((c : ℕ) → q c ≡ true → p c ≡ false)
      → select p (lstrip_of q t) ≡ select p t
  unfolding lstrip_of
  select-lstrip_of q [] h = refl
  select-lstrip_of q (c ∷ t) h = elim (Bool-cases (q c)) [
    | inl e ↦ rw (e, h c e) (select-lstrip_of q t h)
    | inr e ↦ rw e refl
  ]

  select-rstrip_of :
      (q : ℕ → Bool) (t : Text)
      → ((c : ℕ) → q c ≡ true → p c ≡ false)
      → select p (rstrip_of q t) ≡ select p t
  unfolding rstrip_of
  select-rstrip_of q [] h = refl
  select-rstrip_of q (c ∷ t) h = ends (rstrip_of q t) (select-rstrip_of q t h) (q c) refl
    where
      ends :
          (rest : Text)
          → select p rest ≡ select p t
          → (b : Bool) → q c ≡ b
          → select p (if b && no_text rest then [] else c ∷ rest) ≡ select p (c ∷ t)
      ends [] same true e = rw (h c e, sym same) refl
      ends (d ∷ rest) same true e = rw (h c e) same
      ends rest same false e = rw same refl

-- Cleaning drops commas and brackets only.
pub select-cleaned : (raw : Text) → select plain (cleaned raw) ≡ select plain raw
unfolding cleaned
select-cleaned raw =
    let outer : (c : ℕ) → is_bracket c ≡ true → plain c ≡ false = λ c h. ground arith in
    select-remove_code plain b',' (rstrip_of is_bracket (lstrip_of is_bracket raw)) refl
    ∙ select-rstrip_of plain is_bracket (lstrip_of is_bracket raw) outer
    ∙ select-lstrip_of plain is_bracket raw outer

pub digits_of-plain :
    (t u : Text) → select plain t ≡ select plain u → select is_digit t ≡ select is_digit u
digits_of-plain t u same =
    let inside : (c : ℕ) → is_digit c ≡ true → plain c ≡ true = λ c h. ground arith in
    sym (select-select plain is_digit inside t)
    ∙ ap (select is_digit) same
    ∙ select-select plain is_digit inside u
