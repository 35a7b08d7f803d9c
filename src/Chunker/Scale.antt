-- ===== src/Chunker/Scale.antt =====
-- The scale and currency patterns of ingest/chunker.py (_SCALE_RE, _CURRENCY_RE), both case-blind.
use chat_doc.Normalize.{span, optional}
use chat_doc.Prelude.{
  Bool, List, Option, Text, [], codes, false, if◌then◌else◌, is_space, is_word, length, lower_code,
  no_text, none, not, some, starts_in, suc, take, zero, ℕ, ◌&&◌, ◌++◌, ◌==◌, ◌>>=◌, ◌||◌, ◌∷◌,
}

-- The text behind a lower-case prefix, whatever the case it has.
abbrev pub literal_at : Text → Text → Option Text
literal_at [] t = some t
literal_at (c ∷ v) [] = none
literal_at (c ∷ v) (d ∷ t) = if lower_code d == c then literal_at v t else none

-- [^.\n]{0,n}
abbrev pub until_stop : ℕ → Text → Text
until_stop zero t = []
until_stop (suc n) [] = []
until_stop (suc n) (c ∷ t) =
    let rest = until_stop n t in if c == b'.' || c == b'\n' then [] else c ∷ rest

-- The optional tail of the pattern: what it matches.
unfoldable pub except_tail : Text → Text
except_tail t =
    let (s₁, t₁) = span is_space t in
    let (comma, t₂) = optional b',' t₁ in
    let (s₂, t₃) = span is_space t₂ in
    elim (literal_at (codes "except") t₃) [
      | none ↦ []
      | some t₄ ↦
          let (s₃, t₅) = span is_space t₄ in
          if no_text s₃ then [] else s₁ ++ comma ++ s₂ ++ take 6 t₃ ++ s₃ ++ until_stop 80 t₅
    ]

-- (thousands|millions|billions)\b and the tail, behind what has matched before.
unfoldable pub scale_word : Text → List Text → Text → Option (Text × Text)
unfolding except_tail
scale_word before [] t = none
scale_word before (w ∷ words) t = elim (literal_at w t) [
  | none ↦ scale_word before words t
  | some rest ↦
      if starts_in is_word rest
      then scale_word before words t
      else some (w, before ++ take (length w) t ++ except_tail rest)
]

abbrev behind_spaces : Text → Text × Text → Option (Text × Text)
behind_spaces t ([], rest) = none
behind_spaces t (c ∷ s, rest) =
    scale_word (take 2 t ++ c ∷ s) (codes "thousands" ∷ codes "millions" ∷ codes "billions" ∷ [])
      rest

-- _SCALE_RE at the start of a text: the word and the whole match.
unfoldable pub scale_at : Text → Option (Text × Text)
unfolding scale_word
scale_at t = literal_at (codes "in") t >>= (λ rest. behind_spaces t (span is_space rest))

unfoldable pub scale_search : Text → Option (Text × Text)
unfolding scale_at
scale_search [] = none
scale_search (c ∷ t) =
    let later = scale_search t in elim (scale_at (c ∷ t)) [ none ↦ later | some found ↦ some found ]

abbrev ends_word : Option Text → Bool
ends_word none = false
ends_word (some rest) = not (starts_in is_word rest)

-- Behind the dollar sign a boundary needs a word character.
abbrev before_word : Option Text → Bool
before_word none = false
before_word (some rest) = starts_in is_word rest

abbrev dollars : Option Text → Option Text
dollars none = none
dollars (some t) = literal_at (codes "dollars") (span is_space t).1

unfoldable pub currency_at : Text → Bool
currency_at t =
    ends_word (literal_at (codes "usd") t)
    || before_word (literal_at (codes "us$") t)
    || ends_word (dollars (literal_at (codes "u.s.") t))

-- _CURRENCY_RE.search: whether the character before is a word character is remembered.
unfoldable pub currency_search : Bool → Text → Bool
unfolding currency_at
currency_search before [] = false
currency_search before (c ∷ t) = not before && currency_at (c ∷ t) || currency_search (is_word c) t

pub record Detected : Type 0 where
  pub scale : Option Text
  pub currency : Option Text
  pub note : Option Text

-- `_detect_scale`
unfoldable pub detect_scale : Text → Detected
unfolding scale_search currency_search
detect_scale text =
    let currency = if currency_search false text then some (codes "USD") else none in
    elim (scale_search text) [
      | none ↦ record { scale = none; currency = currency; note = none }
      | some (word, whole) ↦ record { scale = some word; currency = currency; note = some whole }
    ]
