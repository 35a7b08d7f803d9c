-- ===== src/Normalize.antt =====
-- eval/normalize.py: scale words, the one number of a free-text answer, and tolerance.
pub mod Search
pub mod Occurs
pub mod Pieces
pub mod Cleaned
pub mod Numbers
use chat_doc.Floats.{Floats}
use Search.{bounded_search}
use chat_doc.Prelude.{
  Bool, List, Option, Text, [], any, codes, false, if◌then◌else◌, is_digit, is_word, length, lower,
  lstrip_of, none, not, remove_code, rstrip_of, some, starts_in, strip, suc, zero, ℕ, ◌&&◌, ◌++◌,
  ◌==◌, ◌||◌, ◌∷◌,
}

-- `_SCALE_WORDS`, in order: each word and the number of its zeros.
abbrev pub scale_words : List (Text × ℕ)
scale_words =
    (codes "thousand", 1_000)
    ∷ (codes "thousands", 1_000)
    ∷ (codes "million", 1_000_000)
    ∷ (codes "millions", 1_000_000)
    ∷ (codes "mm", 1_000_000)
    ∷ (codes "billion", 1_000_000_000)
    ∷ (codes "billions", 1_000_000_000)
    ∷ (codes "bn", 1_000_000_000)
    ∷ (codes "trillion", 1_000_000_000_000)
    ∷ (codes "trillions", 1_000_000_000_000)
    ∷ []

-- The multiplier of the first word that stands in the text, at word boundaries.
unfoldable pub first_scale : Text → List (Text × ℕ) → ℕ
unfolding bounded_search
first_scale t [] = 1
first_scale t ((word, multiplier) ∷ rest) =
    if bounded_search is_word word t then multiplier else first_scale t rest

-- `_NUMBER_RE` at the start of a text: the match and what follows it. No part of the expression
-- ever has to give back what it took, so each is taken greedily.
abbrev pub optional : ℕ → Text → Text × Text
optional c [] = ([], [])
optional c (d ∷ t) = if d == c then (d ∷ [], t) else ([], d ∷ t)

abbrev pub span : (ℕ → Bool) → Text → Text × Text
span p [] = ([], [])
span p (c ∷ t) = let (a, b) = span p t in if p c then (c ∷ a, b) else ([], c ∷ t)

-- What follows the first digit.
unfoldable pub after_digit : Text → Text → Text × Text
after_digit before t =
    let (ds, t₁) = span (λ c. is_digit c || c == b',') t in
    let (dot, t₂) = optional b'.' t₁ in
    let (fs, t₃) = span is_digit t₂ in
    let (close, t₄) = optional b')' t₃ in (before ++ ds ++ dot ++ fs ++ close, t₄)

unfoldable pub digits_from : Text → Text → Option (Text × Text)
unfolding after_digit
digits_from before [] = none
digits_from before (d ∷ t) = if is_digit d then some (after_digit (before ++ d ∷ []) t) else none

unfoldable pub number_at : Text → Option (Text × Text)
unfolding digits_from
number_at t =
    let (minus, t₁) = optional b'-' t in
    let (bracket, t₂) = optional b'(' t₁ in digits_from (minus ++ bracket) t₂

-- `_NUMBER_RE.findall`, on fuel: the length of the text is enough.
unfoldable pub findall : ℕ → Text → List Text
unfolding number_at
findall zero t = []
findall (suc fuel) [] = []
findall (suc fuel) (c ∷ t) = elim (number_at (c ∷ t)) [
  | none ↦ findall fuel t
  | some (m, rest) ↦ m ∷ findall fuel rest
]

abbrev pub is_bracket : ℕ → Bool
is_bracket c = c == b'(' || c == b')'

abbrev pub ends_in : (ℕ → Bool) → Text → Bool
ends_in p [] = false
ends_in p (c ∷ []) = p c
ends_in p (c ∷ d ∷ t) = ends_in p (d ∷ t)

-- Accountants write a negative number in brackets.
unfoldable pub bracketed : Text → Bool
bracketed raw = starts_in (λ c. c == b'(') raw && ends_in (λ c. c == b')') raw

-- `raw.strip("()").replace(",", "")`
unfoldable pub cleaned : Text → Text
unfolding lstrip_of rstrip_of remove_code
cleaned raw = remove_code b',' (rstrip_of is_bracket (lstrip_of is_bracket raw))

module _ (fl : Floats) where
  open fl use {F}

  pub record NormalizedNumber : Type 0 where
    pub value : F
    pub is_percent : Bool

  unfoldable pub scale_multiplier : Option Text → F
  unfolding strip lower first_scale
  scale_multiplier none = fl.literal 1 0
  scale_multiplier (some scale) = fl.literal (first_scale (lower (strip scale)) scale_words) 0

  -- The one number of an answer, or none if it has none, several, or one that float() refuses.
  unfoldable pub normalize_numeric_answer : Text → Option NormalizedNumber
  unfolding strip lower first_scale findall bracketed cleaned
  normalize_numeric_answer text =
      let stripped = strip text in
      let is_percent = any (λ c. c == b'%') stripped in
      let scale = fl.literal (first_scale (lower stripped) scale_words) 0 in
      elim (findall (length stripped) stripped) [
        | [] ↦ none
        | _ ∷ _ ∷ _ ↦ none
        | raw ∷ [] ↦ elim (fl.parse (cleaned raw)) [
          | none ↦ none
          | some parsed ↦
              let signed = if bracketed raw then fl.neg parsed else parsed in
              some (record {
                value = if is_percent then signed else fl.mul signed scale;
                is_percent = is_percent;
              })
        ]
      ]

  abbrev greater : F → F → F
  greater a b = if fl.lt a b then b else a

  -- Within one percent of the larger magnitude.
  unfoldable pub numbers_match : F → F → Bool
  numbers_match a b =
      let denom = greater (greater (fl.abs a) (fl.abs b)) (fl.literal 1 9) in
      fl.eq a b || not (fl.lt (fl.literal 1 2) (fl.div (fl.abs (fl.sub a b)) denom))
