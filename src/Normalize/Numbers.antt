-- ===== src/Normalize/Numbers.antt =====
-- What eval/normalize.py normalize_numeric_answer reads off an answer.
use chat_doc.Normalize.Pieces.{findall-digits, all_joined}
use chat_doc.Normalize.Cleaned.{plain, select-cleaned, digits_of-plain}
use chat_doc.Normalize.{
  cleaned, bracketed, first_scale, scale_words, NormalizedNumber, normalize_numeric_answer, Floats,
  findall,
}
use chat_doc.Prelude.{
  List, Option-cases, Text, [], any, ap, append-nil, arith, if◌then◌else◌, inl, inr, is_digit,
  length, lower, refl, select, some, some-injective, strip, subst, sym, ◌==◌, ◌∙◌, ◌∷◌, ◌≡◌, ◌⊎◌,
}

pieces-cases :
    (ms : List Text)
    → (ms ≡ [])
      ⊎ (((raw : Text) × (ms ≡ raw ∷ []))
          ⊎ ((a : Text) × (b : Text) × (rest : List Text) × (ms ≡ a ∷ b ∷ rest)))
pieces-cases [] = inl refl
pieces-cases (raw ∷ []) = inr (inl (raw, refl))
pieces-cases (a ∷ b ∷ rest) = inr (inr (a, b, rest, refl))

module _ (fl : Floats) where
  open fl use {F}

  -- How a number is read off an answer: the answer has one piece of number, and float() reads the
  -- value off a numeral with every digit of the answer, in order, which differs from the piece by
  -- commas and brackets only. A piece in brackets is negative; the scale word multiplies the value
  -- unless the answer is a percentage.
  pub record Read (text : Text) (n : NormalizedNumber fl) : Type 0 where
    pub piece : Text
    pub numeral : Text
    pub parsed : F
    pub only : findall (length (strip text)) (strip text) ≡ piece ∷ []
    pub cleaned_only : select plain numeral ≡ select plain piece
    pub every_digit : select is_digit numeral ≡ select is_digit (strip text)
    pub parses : fl.parse numeral ≡ some parsed
    pub percent : n.is_percent ≡ any (λ c. c == b'%') (strip text)
    pub value :
        let signed = if bracketed piece then fl.neg parsed else parsed in
        n.value ≡ (
          if n.is_percent
          then signed
          else fl.mul signed (fl.literal (first_scale (lower (strip text)) scale_words) 0))

  Read-some :
      (text raw : Text) (n : NormalizedNumber fl) (parsed : F)
      → findall (length (strip text)) (strip text) ≡ raw ∷ []
      → fl.parse (cleaned raw) ≡ some parsed
      → n.is_percent ≡ any (λ c. c == b'%') (strip text)
      → (let signed = if bracketed raw then fl.neg parsed else parsed in
          n.value ≡ (
            if n.is_percent
            then signed
            else fl.mul signed (fl.literal (first_scale (lower (strip text)) scale_words) 0)))
      → Read text n
  Read-some text raw n parsed one parses percent value = record {
    piece = raw;
    numeral = cleaned raw;
    parsed = parsed;
    only = one;
    cleaned_only = select-cleaned raw;
    every_digit =
        digits_of-plain (cleaned raw) raw (select-cleaned raw)
        ∙ ap (select is_digit) (sym (append-nil raw))
        ∙ ap (λ ms. select is_digit (all_joined ms)) (sym one)
        ∙ findall-digits (length (strip text)) (strip text) (omega arith);
    parses = parses;
    percent = percent;
    value = value;
  }

  -- Where the normaliser gives a number for an answer, the answer has one piece of number, so that
  -- an answer with two, such as a range, has none; and the number is what float() reads off a
  -- numeral that has every digit of the answer in order and differs from the piece by commas and
  -- brackets only, negated if the piece stands in brackets, and times the scale word unless the
  -- answer is a percentage.
  pub normalize_numeric_answer-digits :
      (text : Text) (n : NormalizedNumber fl)
      → normalize_numeric_answer fl text ≡ some n
      → Read text n
  unfolding normalize_numeric_answer
  normalize_numeric_answer-digits text n h =
      let s = strip text in
      elim (pieces-cases (findall (length s) s)) [
        | inl e ↦ cc (rw (e, normalize_numeric_answer) at h)
        | inr (inl (raw, e)) ↦ elim (Option-cases (fl.parse (cleaned raw))) [
          | inl refused ↦ cc (rw (e, refused, normalize_numeric_answer) at h)
          | inr (parsed, parses) ↦
              let made = some-injective _ _ (rw (e, parses, normalize_numeric_answer) at h) in
              subst (Read text) made (Read-some text raw _ parsed e parses refl refl)
        ]
        | inr (inr (a, b, rest, e)) ↦ cc (rw (e, normalize_numeric_answer) at h)
      ]
