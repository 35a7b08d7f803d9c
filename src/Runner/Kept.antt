-- ===== src/Runner/Kept.antt =====
-- What eval/runner_v2.py keeps of the chunks that an answer cites.
use chat_doc.Floats.{Floats}
use chat_doc.Gate.{insert_sorted, sorted_set}
use chat_doc.Retrieval.{RetrievedChunk}
use chat_doc.Runner.{of_cited}
use chat_doc.Prelude.{
  ==_iff, Bool, Bool-cases, Dict, In, List, Option-cases, [], dict_from, dict_get,
  dict_get-dict_set, dict_set, false, if◌then◌else◌, inl, inr, ltb, map, none, refl, some, sym,
  true, ℕ, ◌==◌, ◌>>=◌, ◌∙◌, ◌∷◌, ◌≡◌, ◌⊎◌,
}

-- The set of the cited ids has every one of them.
In-insert_sorted : (i a : ℕ) (xs : List ℕ) → (a ≡ i) ⊎ In i xs → In i (insert_sorted a xs)
unfolding insert_sorted
In-insert_sorted i a [] (inl e) = inl e
In-insert_sorted i a [] (inr m) = absurd m
In-insert_sorted i a (b ∷ xs) m = elim (Bool-cases (ltb a b)) [
  | inl lt ↦ rw lt m
  | inr ge ↦ elim (Bool-cases (a == b)) [
    | inl e ↦ rw (ge, e) (at_head i a b xs ((==_iff a b).0 e) m)
    | inr e ↦ rw (ge, e) (deeper i a b xs m (In-insert_sorted i a xs))
  ]
]
  where
    at_head : (i a b : ℕ) (xs : List ℕ) → a ≡ b → (a ≡ i) ⊎ In i (b ∷ xs) → In i (b ∷ xs)
    at_head i a b xs e (inl f) = inl (sym e ∙ f)
    at_head i a b xs e (inr m) = m

    deeper :
        (i a b : ℕ) (xs : List ℕ)
        → (a ≡ i) ⊎ In i (b ∷ xs)
        → ((a ≡ i) ⊎ In i xs → In i (insert_sorted a xs))
        → In i (b ∷ insert_sorted a xs)
    deeper i a b xs (inl f) k = inr (k (inl f))
    deeper i a b xs (inr (inl f)) k = inl f
    deeper i a b xs (inr (inr m)) k = inr (k (inr m))

pub In-sorted_set : (i : ℕ) (xs : List ℕ) → In i xs → In i (sorted_set xs)
unfolding sorted_set
In-sorted_set i [] m = m
In-sorted_set i (x ∷ xs) (inl e) = In-insert_sorted i x (sorted_set xs) (inl e)
In-sorted_set i (x ∷ xs) (inr m) = In-insert_sorted i x (sorted_set xs) (inr (In-sorted_set i xs m))

module _ (fl : Floats) where
  -- What is kept of the cited chunks is what the dict of all chunks gives.
  module _ {V : Type 0} (value : RetrievedChunk fl → V) (by_id : Dict (RetrievedChunk fl)) where
    of_cited-none :
        (ids : List ℕ) (i : ℕ)
        → dict_get i by_id ≡ none
        → dict_get i (of_cited fl value ids by_id) ≡ none
    unfolding of_cited
    of_cited-none [] i n = refl
    of_cited-none (j ∷ ids) i n = elim (Option-cases (dict_get j by_id)) [
      | inl m ↦ rw (m, of_cited) (of_cited-none ids i n)
      | inr (c, e) ↦ elim (Bool-cases (j == i)) [
        | inl s ↦ absurd (cc (rw ((==_iff j i).0 s) at e))
        | inr s ↦
            rw (e, of_cited)
              (dict_get-dict_set j i (value c) (of_cited fl value ids by_id)
                ∙ rw s (of_cited-none ids i n))
      ]
    ]

    pub of_cited-In :
        (ids : List ℕ) (i : ℕ)
        → In i ids
        → dict_get i (of_cited fl value ids by_id) ≡ (dict_get i by_id >>= (λ c. some (value c)))
    unfolding of_cited
    of_cited-In [] i m = absurd m
    of_cited-In (j ∷ ids) i (inl s) = elim (Option-cases (dict_get j by_id)) [
      | inl n ↦ let n' = rw s at n in rw (n, of_cited, n') (of_cited-none ids i n')
      | inr (c, e) ↦
          let e' = rw s at e in
          rw (e, of_cited, e')
            (dict_get-dict_set j i (value c) (of_cited fl value ids by_id)
              ∙ rw ((==_iff j i).1 s) refl)
    ]
    of_cited-In (j ∷ ids) i (inr m) = elim (Option-cases (dict_get j by_id)) [
      | inl n ↦ rw (n, of_cited) (of_cited-In ids i m)
      | inr (c, e) ↦ elim (Bool-cases (j == i)) [
        | inl s ↦
            let e' = rw ((==_iff j i).0 s) at e in
            rw (e, of_cited, e')
              (dict_get-dict_set j i (value c) (of_cited fl value ids by_id) ∙ rw s refl)
        | inr s ↦
            rw (e, of_cited)
              (dict_get-dict_set j i (value c) (of_cited fl value ids by_id)
                ∙ rw s (of_cited-In ids i m))
      ]
    ]

    -- The dict of the values is the dict of the chunks, value by value.
    pub dict_from-map :
        (cs : List (RetrievedChunk fl)) (d : Dict (RetrievedChunk fl)) (e : Dict V) (i : ℕ)
        → ((k : ℕ) → dict_get k e ≡ (dict_get k d >>= (λ c. some (value c))))
        → dict_get i (dict_from (map (λ (c : RetrievedChunk fl). (c.chunk_id, value c)) cs) e) ≡ (
            dict_get i (dict_from (map (λ (c : RetrievedChunk fl). (c.chunk_id, c)) cs) d)
            >>= (λ c. some (value c)))
    dict_from-map [] d e i h = h i
    dict_from-map (c ∷ cs) d e i h =
        dict_from-map cs (dict_set c.chunk_id c d) (dict_set c.chunk_id (value c) e) i (λ k.
          rw (dict_get-dict_set c.chunk_id k (value c) e, dict_get-dict_set c.chunk_id k c d)
            (both (c.chunk_id == k) k (h k)))
      where
        both :
            (b : Bool) (k : ℕ)
            → dict_get k e ≡ (dict_get k d >>= (λ c. some (value c)))
            → (if b then some (value c) else dict_get k e)
              ≡ ((if b then some c else dict_get k d) >>= (λ c. some (value c)))
        both true k h = refl
        both false k h = h
