-- ===== src/Normalize/Search.antt =====
-- `re.compile(rf"(?<!\d){re.escape(v)}(?!\d)").search(text)` and `re.search(rf"\b{word}\b", text)`:
-- a needle that is not extended on either side by a character of the class.
-- The search goes from left to right and remembers whether the character before was in the class.
use chat_doc.Prelude.{
  Bool, Text, [], false, none, not, some, starts_in, strip_prefix, ℕ, ◌&&◌, ◌||◌, ◌∷◌,
}

-- The needle stands at the start of the text, and no character of the class follows it.
unfoldable pub matches_at : (ℕ → Bool) → Text → Text → Bool
unfolding strip_prefix
matches_at cls v t = elim (strip_prefix v t) [ none ↦ false | some rest ↦ not (starts_in cls rest) ]

unfoldable pub search_from : (ℕ → Bool) → Bool → Text → Text → Bool
unfolding matches_at
search_from cls before v [] = not before && matches_at cls v []
search_from cls before v (c ∷ t) =
    not before && matches_at cls v (c ∷ t) || search_from cls (cls c) v t

unfoldable pub bounded_search : (ℕ → Bool) → Text → Text → Bool
unfolding search_from
bounded_search cls v t = search_from cls false v t
