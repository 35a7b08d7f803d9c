-- ===== src/Normalize/Pieces.antt =====
-- The numbers that _NUMBER_RE finds in a text (eval/normalize.py).
use chat_doc.Normalize.{after_digit, digits_from, number_at, findall, span, optional}
use chat_doc.Prelude.{
  Bool, Bool-cases, List, Option-cases, Text, [], ap, append_assoc, arith, false, inl, inr,
  is_digit, length, length-append, none, refl, select, select-append, some, some-injective, subst,
  suc, sym, zero, ℕ, ◌++◌, ◌<◌, ◌==◌, ◌||◌, ◌∙◌, ◌∷◌, ◌≡◌, ◌≤◌,
}

span-append : (p : ℕ → Bool) (t : Text) → (span p t).0 ++ (span p t).1 ≡ t
span-append p [] = refl
span-append p (c ∷ t) = elim (Bool-cases (p c)) [
  | inl e ↦ rw e (ap (λ x. c ∷ x) (span-append p t))
  | inr e ↦ rw e refl
]

optional-append : (c : ℕ) (t : Text) → (optional c t).0 ++ (optional c t).1 ≡ t
optional-append c [] = refl
optional-append c (d ∷ t) = elim (Bool-cases (d == c)) [ inl e ↦ rw e refl | inr e ↦ rw e refl ]

span-length : (p : ℕ → Bool) (t : Text) → length (span p t).1 ≤ length t
span-length p t =
    omega (arith, length-append (span p t).0 (span p t).1, ap length (span-append p t))

optional-length : (c : ℕ) (t : Text) → length (optional c t).1 ≤ length t
optional-length c t =
    omega (arith, length-append (optional c t).0 (optional c t).1, ap length (optional-append c t))

glue : (a b c : Text) {d : Text} → b ++ c ≡ d → (a ++ b) ++ c ≡ a ++ d
glue a b c e = append_assoc a b c ∙ ap (λ x. a ++ x) e

-- What the expression takes and what it leaves is the text.
after_digit-append :
    (before t : Text) → (after_digit before t).0 ++ (after_digit before t).1 ≡ before ++ t
unfolding after_digit
after_digit-append before t =
    let s₁ = span (λ c. is_digit c || c == b',') t in
    let s₂ = optional b'.' s₁.1 in
    let s₃ = span is_digit s₂.1 in
    let s₄ = optional b')' s₃.1 in
    glue (before ++ s₁.0 ++ s₂.0 ++ s₃.0) s₄.0 s₄.1 (optional-append b')' s₃.1)
    ∙ glue (before ++ s₁.0 ++ s₂.0) s₃.0 s₃.1 (span-append is_digit s₂.1)
    ∙ glue (before ++ s₁.0) s₂.0 s₂.1 (optional-append b'.' s₁.1)
    ∙ glue before s₁.0 s₁.1 (span-append (λ c. is_digit c || c == b',') t)

after_digit-length : (before t : Text) → length (after_digit before t).1 ≤ length t
unfolding after_digit
after_digit-length before t =
    let s₁ = span (λ c. is_digit c || c == b',') t in
    let s₂ = optional b'.' s₁.1 in
    let s₃ = span is_digit s₂.1 in
    omega (
      arith,
      span-length (λ c. is_digit c || c == b',') t,
      optional-length b'.' s₁.1,
      span-length is_digit s₂.1,
      optional-length b')' s₃.1,
    )

-- A match is a part of the text, with what is left shorter by at least the first digit.
digits_from-some :
    (before t m rest : Text)
    → digits_from before t ≡ some (m, rest)
    → (m ++ rest ≡ before ++ t) × (length rest < length t)
unfolding digits_from
digits_from-some before [] m rest h = cc
digits_from-some before (d ∷ t) m rest h = elim (Bool-cases (is_digit d)) [
  | inl e ↦
      let same : after_digit (before ++ d ∷ []) t ≡ (m, rest) = some-injective _ _ (rw e at h) in
      let m_is = ap (λ (x : Text × Text). x.0) same in
      let rest_is = ap (λ (x : Text × Text). x.1) same in
      let parts = after_digit-append (before ++ d ∷ []) t in
      let short = after_digit-length (before ++ d ∷ []) t in
      (
        subst (λ (x : Text × Text). x.0 ++ x.1 ≡ before ++ d ∷ t) same
            (parts ∙ append_assoc before (d ∷ []) t),
        omega (arith, ap length rest_is),
      )
  | inr e ↦ cc (rw e at h)
]

number_at-some :
    (t m rest : Text) → number_at t ≡ some (m, rest) → (m ++ rest ≡ t) × (length rest < length t)
unfolding number_at
number_at-some t m rest h =
    let a = optional b'-' t in
    let b = optional b'(' a.1 in
    let (parts, short) = digits_from-some (a.0 ++ b.0) b.1 m rest h in
    (
      parts ∙ glue a.0 b.0 b.1 (optional-append b'(' a.1) ∙ optional-append b'-' t,
      omega (arith, optional-length b'-' t, optional-length b'(' a.1),
    )

-- Where no number starts there is no digit.
number_at-none : (c : ℕ) (t : Text) → number_at (c ∷ t) ≡ none → is_digit c ≡ false
unfolding number_at digits_from
number_at-none c t h = elim (Bool-cases (is_digit c)) [
  | inl e ↦
      let minus : (c == b'-') ≡ false = ground arith in
      let bracket : (c == b'(') ≡ false = ground arith in cc (rw (minus, bracket, e) at h)
  | inr e ↦ e
]

-- The matches one after the other.
abbrev pub all_joined : List Text → Text
all_joined [] = []
all_joined (m ∷ ms) = m ++ all_joined ms

-- Enough fuel: the matches have all the digits of the text.
pub findall-digits :
    (fuel : ℕ) (t : Text)
    → length t ≤ fuel
    → select is_digit (all_joined (findall fuel t)) ≡ select is_digit t
unfolding findall
findall-digits zero [] h = refl
findall-digits zero (c ∷ t) h = absurd (omega arith)
findall-digits (suc fuel) [] h = refl
findall-digits (suc fuel) (c ∷ t) h = elim (Option-cases (number_at (c ∷ t))) [
  | inl n ↦ rw (n, findall, number_at-none c t n) (findall-digits fuel t (omega arith))
  | inr ((m, rest), e) ↦
      let (parts, short) = number_at-some (c ∷ t) m rest e in
      rw (e, findall)
        (select-append is_digit m (all_joined (findall fuel rest))
          ∙ ap (λ x. select is_digit m ++ x) (findall-digits fuel rest (omega arith))
          ∙ sym (select-append is_digit m rest)
          ∙ ap (select is_digit) parts)
]
