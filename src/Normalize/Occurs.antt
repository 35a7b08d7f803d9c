-- ===== src/Normalize/Occurs.antt =====
-- The bounded search of eval/gate.py and eval/normalize.py against what its expressions say.
use chat_doc.Normalize.Search.{matches_at, search_from, bounded_search}
use chat_doc.Prelude.{
  &&_iff, ==_iff, Bool, Bool-cases, Option-cases, Text, [], ap, arith, false, inl, inr, not, refl,
  some, some-injective, starts_in, strip_prefix, true, ℕ, ◌&&◌, ◌++◌, ◌==◌, ◌||◌, ◌↔◌, ◌∷◌, ◌≡◌,
}

strip_prefix_sound : (v t rest : Text) → strip_prefix v t ≡ some rest → t ≡ v ++ rest
unfolding strip_prefix
strip_prefix_sound [] t rest h = some-injective _ _ h
strip_prefix_sound (c ∷ v) [] rest h = cc
strip_prefix_sound (c ∷ v) (d ∷ t) rest h = elim (Bool-cases (c == d)) [
  | inl e ↦ rw ((==_iff c d).0 e) (ap (λ x. d ∷ x) (strip_prefix_sound v t rest (rw e at h)))
  | inr e ↦ cc (rw e at h)
]

strip_prefix_complete : (v rest : Text) → strip_prefix v (v ++ rest) ≡ some rest
unfolding strip_prefix
strip_prefix_complete [] rest = refl
strip_prefix_complete (c ∷ v) rest = rw ((==_iff c c).1 refl) (strip_prefix_complete v rest)

-- Whether what stands before the rest is a character of the class, after a further text.
abbrev pub before_after : (ℕ → Bool) → Bool → Text → Bool
before_after cls before [] = before
before_after cls before (c ∷ t) = before_after cls (cls c) t

-- The needle stands in the text with no character of the class on either side of it.
abbrev pub Occurs : (ℕ → Bool) → Bool → Text → Text → Type 0
Occurs cls before v t =
    (left : Text) × (right : Text) × (t ≡ left ++ (v ++ right))
    × (before_after cls before left ≡ false)
    × (starts_in cls right ≡ false)

matches_at_sound :
    (cls : ℕ → Bool) (v t : Text)
    → matches_at cls v t ≡ true
    → (right : Text) × (t ≡ v ++ right) × (starts_in cls right ≡ false)
unfolding matches_at
matches_at_sound cls v t h = elim (Option-cases (strip_prefix v t)) [
  | inl n ↦ cc (rw (n, matches_at) at h)
  | inr (rest, e) ↦
      let follows : not (starts_in cls rest) ≡ true = rw (e, matches_at) at h in
      (rest, strip_prefix_sound v t rest e, ground arith)
]

search_from_sound :
    (cls : ℕ → Bool) (before : Bool) (v t : Text)
    → search_from cls before v t ≡ true
    → Occurs cls before v t
unfolding search_from
search_from_sound cls before v [] h =
    let (first, found) = (&&_iff (not before) (matches_at cls v [])).0 h in
    let (right, e, follows) = matches_at_sound cls v [] found in
    ([], right, e, ground arith, follows)
search_from_sound cls before v (c ∷ t) h =
    elim (Bool-cases (not before && matches_at cls v (c ∷ t))) [
      | inl here ↦
          let (first, found) = (&&_iff (not before) (matches_at cls v (c ∷ t))).0 here in
          let (right, e, follows) = matches_at_sound cls v (c ∷ t) found in
          ([], right, e, ground arith, follows)
      | inr there ↦
          let (left, right, e, hb, hr) = search_from_sound cls (cls c) v t (rw there at h) in
          (c ∷ left, right, ap (λ x. c ∷ x) e, hb, hr)
    ]

search_from_complete :
    (cls : ℕ → Bool) (before : Bool) (v left right : Text)
    → before_after cls before left ≡ false
    → starts_in cls right ≡ false
    → search_from cls before v (left ++ (v ++ right)) ≡ true
unfolding search_from matches_at
search_from_complete cls before v [] right hb hr =
    here (v ++ right) (rw (strip_prefix_complete v right, matches_at, hr) refl)
  where
    here : (t : Text) → matches_at cls v t ≡ true → search_from cls before v t ≡ true
    here [] m = rw (hb, m) refl
    here (c ∷ t) m = rw (hb, m) refl
search_from_complete cls before v (c ∷ left) right hb hr =
    let later = search_from_complete cls (cls c) v left right hb hr in
    or_true (not before && matches_at cls v (c ∷ (left ++ (v ++ right)))) later
  where
    or_true : (a : Bool) {b : Bool} → b ≡ true → (a || b) ≡ true
    or_true true h = refl
    or_true false h = h

-- The search finds exactly what its expression says: the needle stands somewhere in the text with no
-- character of the class right before it and none right after it. For the figures of an answer the
-- class is the digits, so that 234 is not found in 1234; for scale words it is the word characters.
pub bounded_search_iff :
    (cls : ℕ → Bool) (v t : Text) → (bounded_search cls v t ≡ true) ↔ Occurs cls false v t
unfolding bounded_search
bounded_search_iff cls v t = (
  search_from_sound cls false v t,
  λ (left, right, e, hb, hr). rw e (search_from_complete cls false v left right hb hr),
)
