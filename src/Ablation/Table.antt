-- ===== src/Ablation/Table.antt =====
-- How the configurations of eval/ablation.py compare: what a layer takes away, and what it leaves.
use chat_doc.Floats.{Floats}
use chat_doc.Gate.{Layers, GateResult}
use chat_doc.Ablation.{
  l1_margin, count_where, is_hallucinated, graded, is_correct, decide, GradedRow, refused,
  Generation, passed, has_passed, EvalRecord, grade_one,
}
use chat_doc.Gate.Live.{apply_gate_monotone, Within}
use chat_doc.Prelude.{
  &&_iff, All, All-of, Bool, Bool-cases, List, Text, [], ap, arith, false, inl, inr, length, map,
  refl, select, true, ◌↔◌, ◌∙◌, ◌∷◌, ◌≡◌, ◌≤◌,
}

module _ {ℓ} {A : Type ℓ} where
  length-select_mono :
      {B : Type ℓ} (f g : A → B) (p : B → Bool) (xs : List A)
      → All (λ x. p (f x) ≡ true → p (g x) ≡ true) xs
      → length (select p (map f xs)) ≤ length (select p (map g xs))
  length-select_mono f g p [] h = omega arith
  length-select_mono f g p (x ∷ xs) h = elim (Bool-cases (p (f x))) [
    | inl e ↦ rw (e, h.0 e) (omega (arith, length-select_mono f g p xs h.1))
    | inr e ↦ elim (Bool-cases (p (g x))) [
      | inl e' ↦ rw (e, e') (omega (arith, length-select_mono f g p xs h.1))
      | inr e' ↦ rw (e, e') (length-select_mono f g p xs h.1)
    ]
  ]

module _ (fl : Floats) (rerank : Text → List Text → List (fl.F)) where
  open fl use {F}

  has_passed_iff : (g : GateResult fl) → (has_passed fl g ≡ true) ↔ (g ≡ passed)
  has_passed_iff passed = ((λ _. refl), λ _. refl)
  has_passed_iff (refused r) = ((λ h. cc), λ h. cc)

  -- A gate that passes less keeps fewer answers, with the verdict that they had.
  grade_one_mono :
      (r : EvalRecord fl) (raw : Generation fl) (strict lax : GateResult fl) (is_gold : Bool)
      → (strict ≡ passed → lax ≡ passed)
      → (grade_one fl r raw strict is_gold).answered ≡ true
      → grade_one fl r raw lax is_gold ≡ record (grade_one fl r raw strict is_gold) { gate = lax }
  unfolding grade_one
  grade_one_mono r raw (refused _) lax is_gold imp h = cc
  grade_one_mono r raw passed lax is_gold imp h = rw (imp refl) refl

  -- A verdict that counts is of an answered question.
  correct-answered :
      (r : EvalRecord fl) (raw : Generation fl) (gate : GateResult fl) (is_gold : Bool)
      → is_correct fl (grade_one fl r raw gate is_gold) ≡ true
      → (grade_one fl r raw gate is_gold).answered ≡ true
  unfolding grade_one
  correct-answered r raw gate true h = ((&&_iff _ _).0 h).0
  correct-answered r raw gate false h = cc

  hallucinated-answered :
      (r : EvalRecord fl) (raw : Generation fl) (gate : GateResult fl) (is_gold : Bool)
      → is_hallucinated fl (grade_one fl r raw gate is_gold) ≡ true
      → (grade_one fl r raw gate is_gold).answered ≡ true
  unfolding grade_one
  hallucinated-answered r raw gate true h = cc
  hallucinated-answered r raw gate false h = h

  -- The rows of a split under one way to decide.
  abbrev pub rows_by :
      (Generation fl → GateResult fl)
      → Bool
      → List (EvalRecord fl × Generation fl)
      → List (GradedRow fl)
  rows_by by is_gold =
      map (λ (p : EvalRecord fl × Generation fl). grade_one fl p.0 p.1 (by p.1) is_gold)

  -- The first way answers only what the second answers, with the same verdict, and so counts at most
  -- as many answered, correct and hallucinated questions.
  abbrev pub Restricts :
      (Generation fl → GateResult fl)
      → (Generation fl → GateResult fl)
      → Bool
      → List (EvalRecord fl × Generation fl)
      → Type 0
  Restricts strict lax is_gold cached =
      All
        (λ p.
          (grade_one fl p.0 p.1 (strict p.1) is_gold).answered ≡ true
          → ((grade_one fl p.0 p.1 (lax p.1) is_gold).answered ≡ true)
            × ((grade_one fl p.0 p.1 (lax p.1) is_gold).verdict
                ≡ (grade_one fl p.0 p.1 (strict p.1) is_gold).verdict))
        cached
      × (count_where fl (λ r. r.answered) (rows_by strict is_gold cached)
          ≤ count_where fl (λ r. r.answered) (rows_by lax is_gold cached))
      × (count_where fl (is_correct fl) (rows_by strict is_gold cached)
          ≤ count_where fl (is_correct fl) (rows_by lax is_gold cached))
      × (count_where fl (is_hallucinated fl) (rows_by strict is_gold cached)
          ≤ count_where fl (is_hallucinated fl) (rows_by lax is_gold cached))

  pub rows_by-Restricts :
      (strict lax : Generation fl → GateResult fl) (is_gold : Bool)
      (cached : List (EvalRecord fl × Generation fl))
      → ((raw : Generation fl) → strict raw ≡ passed → lax raw ≡ passed)
      → Restricts strict lax is_gold cached
  rows_by-Restricts strict lax is_gold cached imp = (
    All-of _ (λ p h. let e = same p h in (ap (λ r. r.answered) e ∙ h, ap (λ r. r.verdict) e))
        cached,
    length-select_mono (row strict) (row lax) (λ r. r.answered) cached
        (All-of _ (λ p h. ap (λ r. r.answered) (same p h) ∙ h) cached),
    length-select_mono (row strict) (row lax) (is_correct fl) cached (
        All-of _
          (λ p h. ap (is_correct fl) (same p (correct-answered p.0 p.1 (strict p.1) is_gold h)) ∙ h)
          cached),
    length-select_mono (row strict) (row lax) (is_hallucinated fl) cached (
        All-of _
          (λ p h.
            ap (is_hallucinated fl) (same p (hallucinated-answered p.0 p.1 (strict p.1) is_gold h))
            ∙ h)
          cached),
  )
    where
      row : (Generation fl → GateResult fl) → EvalRecord fl × Generation fl → GradedRow fl
      row by p = grade_one fl p.0 p.1 (by p.1) is_gold

      same :
          (p : EvalRecord fl × Generation fl)
          → (row strict p).answered ≡ true
          → row lax p ≡ record (row strict p) { gate = lax p.1 }
      same p h = grade_one_mono p.0 p.1 (strict p.1) (lax p.1) is_gold (imp p.1) h

  -- On the same cached generations, a configuration with more layers answers only questions that
  -- the one with fewer layers answers too, and each of these with the same verdict. So its counts
  -- of answered, of correct and of hallucinated questions are at most as large.
  pub graded_monotone :
      (fewer more : Layers) (l1_threshold : F) (is_gold : Bool)
      (cached : List (EvalRecord fl × Generation fl))
      → Within fl rerank fewer more
      → (graded fl rerank more l1_threshold is_gold cached
          ≡ rows_by (λ raw. decide fl rerank raw more (fl.literal 0 0) l1_threshold) is_gold cached)
        × Restricts
            (λ raw. decide fl rerank raw more (fl.literal 0 0) l1_threshold)
            (λ raw. decide fl rerank raw fewer (fl.literal 0 0) l1_threshold)
            is_gold
            cached
  unfolding graded decide
  graded_monotone fewer more t is_gold cached w = (
    refl,
    rows_by-Restricts (λ raw. decide fl rerank raw more (fl.literal 0 0) t)
        (λ raw. decide fl rerank raw fewer (fl.literal 0 0) t) is_gold cached
        (λ raw.
          apply_gate_monotone fl rerank raw.parsed raw.retrieved_chunk_ids raw.chunk_text_by_id
            raw.chunk_scale_by_id (fl.literal 0 0) t (l1_margin fl raw) fewer more w),
  )
