-- ===== src/Prelude/Texts.antt =====
-- Texts as lists of code points: their equality, the ASCII character classes and the str methods
-- that the code calls. Outside ASCII no letter has a case, no character is a digit or a space.
use Prim.Native.Nat.{ℕ, ◌+◌}
use Prim.Native.Char.{code}
use Prim.Native.String.{String}
use mathlib.Core.Path.{◌≡◌, refl, ap₂}
use mathlib.Core.Bool.{Bool, true, false, ◌&&◌, ◌||◌}
use mathlib.Core.List.{List, [], ◌∷◌, map}
use mathlib.Core.Option.{Option, none, some}
use native.Mathlib.Omega.{arith}
use chat_doc.Prelude.Tests.{leb, ◌==◌, if◌then◌else◌}

-- A text that the code walks: its code points.
abbrev pub Text : Type 0
Text = List ℕ

-- The code points of a text literal.
abbrev pub codes : String → Text
codes String.[] = []
codes (String.◌∷◌ c s) = code c ∷ codes s

unfoldable pub text_eq : Text → Text → Bool
text_eq [] [] = true
text_eq [] (d ∷ t) = false
text_eq (c ∷ s) [] = false
text_eq (c ∷ s) (d ∷ t) = c == d && text_eq s t

pub text_eq→eq : (s t : Text) → text_eq s t ≡ true → s ≡ t
unfolding text_eq
text_eq→eq [] [] h = refl
text_eq→eq [] (d ∷ t) h = cc
text_eq→eq (c ∷ s) [] h = cc
text_eq→eq (c ∷ s) (d ∷ t) h = ground (arith, text_eq→eq s t)

pub text_eq_refl : (s : Text) → text_eq s s ≡ true
unfolding text_eq
text_eq_refl [] = refl
text_eq_refl (c ∷ s) = ground (arith, text_eq_refl s)

-- str.lower
abbrev pub lower_code : ℕ → ℕ
lower_code c = if leb b'A' c && leb c b'Z' then c + 32 else c

unfoldable pub lower : Text → Text
lower = map lower_code

pub lower_idem : (s : Text) → lower (lower s) ≡ lower s
unfolding lower
lower_idem [] = refl
lower_idem (c ∷ s) =
    let same : lower_code (lower_code c) ≡ lower_code c = ground arith in
    ap₂ ◌∷◌ same (lower_idem s)

abbrev pub is_digit : ℕ → Bool
is_digit c = leb b'0' c && leb c b'9'

-- str.isspace of one character: tab to carriage return, the four separators, and the blank.
abbrev pub is_space : ℕ → Bool
is_space c = leb 9 c && leb c 13 || leb 28 c && leb c 32

abbrev pub no_text : Text → Bool
no_text [] = true
no_text (c ∷ s) = false

-- str.rstrip of the characters in a class.
unfoldable pub rstrip_of : (ℕ → Bool) → Text → Text
rstrip_of p [] = []
rstrip_of p (c ∷ s) = let rest = rstrip_of p s in if p c && no_text rest then [] else c ∷ rest

-- str.lstrip of the characters in a class.
unfoldable pub lstrip_of : (ℕ → Bool) → Text → Text
lstrip_of p [] = []
lstrip_of p (c ∷ s) = let rest = lstrip_of p s in if p c then rest else c ∷ s

-- str.strip()
unfoldable pub strip : Text → Text
unfolding rstrip_of lstrip_of
strip s = rstrip_of is_space (lstrip_of is_space s)

-- str.replace of one character by nothing.
unfoldable pub remove_code : ℕ → Text → Text
remove_code d [] = []
remove_code d (c ∷ s) = let rest = remove_code d s in if c == d then rest else c ∷ rest

-- The part of a text behind a prefix, if it has the prefix.
unfoldable pub strip_prefix : Text → Text → Option Text
strip_prefix [] t = some t
strip_prefix (c ∷ v) [] = none
strip_prefix (c ∷ v) (d ∷ t) = if c == d then strip_prefix v t else none

abbrev pub starts_in : (ℕ → Bool) → Text → Bool
starts_in p [] = false
starts_in p (c ∷ t) = p c

-- The word characters of a regular expression.
abbrev pub is_word : ℕ → Bool
is_word c = is_digit c || leb b'A' c && leb c b'Z' || leb b'a' c && leb c b'z' || c == b'_'
