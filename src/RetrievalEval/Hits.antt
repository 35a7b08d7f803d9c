-- ===== src/RetrievalEval/Hits.antt =====
-- The measures of eval/run_retrieval_eval.py and eval/run_retrieval_eval_v2.py evaluate_question.
use chat_doc.RetrievalEval.{first_hit, recall_at, evaluate_question}
use chat_doc.Floats.{Floats}
use chat_doc.Negatives.{Answerable}
use chat_doc.Prelude.{
  All, Bool, Bool-cases, List, [], any, ap, arith, false, inl, inr, length, refl, some,
  some-injective, suc, take, true, zero, ℕ, ◌++◌, ◌+◌, ◌==◌, ◌∷◌, ◌≡◌, ◌≤◌,
}

-- The page has evidence.
abbrev pub on_evidence : List ℕ → ℕ → Bool
on_evidence evidence page = any (λ p. p == page) evidence

-- The ranks count from `rank` on: those up to `rank + k` are the first k + 1 of the list.
recall_at-first_hit :
    (evidence : List ℕ) (rank k : ℕ) (pages : List ℕ)
    → recall_at (k + rank) (first_hit evidence (rank + 1) pages)
      ≡ any (on_evidence evidence) (take k pages)
unfolding first_hit
recall_at-first_hit evidence rank zero [] = refl
recall_at-first_hit evidence rank (suc k) [] = refl
recall_at-first_hit evidence rank zero (page ∷ pages) =
    elim (Bool-cases (on_evidence evidence page)) [
      | inl hit ↦ rw hit (ground arith)
      | inr miss ↦ rw miss (early (rank + 1 + 1) pages (omega arith))
    ]
  where
    -- No rank behind the limit counts.
    early :
        (r : ℕ) (pages : List ℕ)
        → rank + 1 ≤ r
        → recall_at (0 + rank) (first_hit evidence r pages) ≡ false
    early r [] h = refl
    early r (p ∷ pages) h = elim (Bool-cases (on_evidence evidence p)) [
      | inl hit ↦ rw hit (ground arith)
      | inr miss ↦ rw miss (early (r + 1) pages (omega arith))
    ]
recall_at-first_hit evidence rank (suc k) (page ∷ pages) =
    elim (Bool-cases (on_evidence evidence page)) [
      | inl hit ↦ rw hit (ground arith)
      | inr miss ↦
          let same : suc k + rank ≡ k + (rank + 1) = omega arith in
          rw (miss, same) (recall_at-first_hit evidence (rank + 1) k pages)
    ]

-- What a rank says of the list: a page with evidence at that place, and none before it.
abbrev pub IsFirst : List ℕ → List ℕ → ℕ → Type 0
IsFirst evidence pages n =
    (before : List ℕ) × (page : ℕ) × (behind : List ℕ) × (pages ≡ before ++ page ∷ behind)
    × (on_evidence evidence page ≡ true)
    × All (λ p. on_evidence evidence p ≡ false) before
    × (length before ≡ n)

first_hit-IsFirst :
    (evidence : List ℕ) (rank r : ℕ) (pages : List ℕ)
    → first_hit evidence rank pages ≡ some r
    → (n : ℕ) × (n + rank ≡ r) × IsFirst evidence pages n
unfolding first_hit
first_hit-IsFirst evidence rank r [] e = cc
first_hit-IsFirst evidence rank r (page ∷ pages) e = elim (Bool-cases (on_evidence evidence page)) [
  | inl hit ↦
      let same : rank ≡ r = some-injective _ _ (rw hit at e) in
      (0, omega arith, ([], page, pages, refl, hit, tt, refl))
  | inr miss ↦
      let (n, place, there) = first_hit-IsFirst evidence (rank + 1) r pages (rw miss at e) in
      let (before, found, behind, split, hit, misses, many) = there in
      (
        suc n,
        omega arith,
        (
          page ∷ before,
          found,
          behind,
          ap (λ ps. page ∷ ps) split,
          hit,
          (miss, misses),
          omega arith,
        ),
      )
]

module _ (fl : Floats) where
  -- The measures of a question are what they say: recall at 1, 5 and 10 is true exactly if one of
  -- the first 1, 5 and 10 ranked chunks is on a page with evidence, and the rank of the first hit is
  -- that of the first such chunk.
  pub evaluate_question_lem :
      (r : Answerable fl) (ranked : List ℕ)
      → let m = evaluate_question fl r ranked in
        (m.recall_at_1 ≡ any (on_evidence r.evidence_pages) (take 1 ranked))
        × (m.recall_at_5 ≡ any (on_evidence r.evidence_pages) (take 5 ranked))
        × (m.recall_at_10 ≡ any (on_evidence r.evidence_pages) (take 10 ranked))
        × ((rank : ℕ)
            → m.rank_of_first_hit ≡ some rank
            → (n : ℕ) × (n + 1 ≡ rank) × IsFirst r.evidence_pages ranked n)
  unfolding evaluate_question
  evaluate_question_lem r ranked = (
    recall_at-first_hit r.evidence_pages 0 1 ranked,
    recall_at-first_hit r.evidence_pages 0 5 ranked,
    recall_at-first_hit r.evidence_pages 0 10 ranked,
    λ rank e. first_hit-IsFirst r.evidence_pages 1 rank ranked e,
  )
