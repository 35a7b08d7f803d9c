-- ===== src/Gate/Figures.antt =====
-- eval/gate.py _value_found_in_text: whether a figure stands on a page, in one of its forms.
use chat_doc.Floats.{Floats}
use chat_doc.Normalize.{scale_multiplier}
use chat_doc.Normalize.Search.{bounded_search}
use chat_doc.Prelude.{
  Bool, List, Option, Text, [], any, if◌then◌else◌, is_digit, leb, length, remove_code, rstrip_of,
  select, ◌&&◌, ◌++◌, ◌==◌, ◌∷◌,
}

module _ (fl : Floats) where
  open fl use {F}

  -- The forms in which a number may stand on a page.
  unfoldable pub forms : F → List Text
  unfolding rstrip_of remove_code
  forms v =
      let s = rstrip_of (λ c. c == b'.') (rstrip_of (λ c. c == b'0') (fl.format2 v)) in
      s ∷ remove_code b',' s ∷ fl.format0 v ∷ remove_code b',' (fl.format0 v) ∷ []

  -- The figure as it stands on the page, un-scaled.
  unfoldable pub raw_figure : F → Option Text → F
  raw_figure value scale =
      let mult = scale_multiplier fl scale in
      if fl.eq mult (fl.literal 0 0) then value else fl.div value mult

  unfoldable pub variants : F → Option Text → List Text
  unfolding forms raw_figure
  variants value scale =
      let raw = raw_figure value scale in forms raw ++ forms (fl.round raw) ++ forms (fl.round2 raw)

  -- A form of one digit is too common to count.
  unfoldable pub significant : Text → Bool
  significant v = leb 2 (length (select is_digit v))

  unfoldable pub value_found_in_text : F → Option Text → Text → Bool
  value_found_in_text value scale text =
      any (λ v. significant v && bounded_search is_digit v text) (variants value scale)
