-- ===== src/Ablation/Threshold.antt =====
-- What a higher L1 threshold does in the sweep of eval/ablation.py.
use chat_doc.Floats.{Floats}
use chat_doc.Gate.{
  check_l3b_prose, check_l3a_numeric, check_l2, and_then, check_l1, layer, apply_gate,
  check_l1_margin,
}
use chat_doc.Retrieval.Ranking.{Ordered}
use chat_doc.Ablation.{l1_l2_l3, graded, l1_margin, EvalRecord, passed, Layers, Generation, decide}
use chat_doc.Ablation.Table.{rows_by, rows_by-Restricts, Restricts}
use chat_doc.Gate.Live.{and_then_iff}
use chat_doc.Prelude.{
  Bool, Bool-cases, List, Option, Text, false, inl, inr, lower, none, refl, some, true, ◌≡◌,
}

module _ (fl : Floats) (rerank : Text → List Text → List (fl.F)) where
  open fl use {F}

  -- A higher threshold refuses all that a lower one refuses.
  apply_gate-threshold :
      Ordered fl
      → (raw : Generation fl) (layers : Layers) (l3b t t' : F) → fl.lt t' t ≡ false
      → decide fl rerank raw layers l3b t' ≡ passed
      → decide fl rerank raw layers l3b t ≡ passed
  unfolding decide apply_gate check_l1 check_l1_margin
  apply_gate-threshold ord raw layers l3b t t' above h =
      let rest = and_then fl (layer fl layers.l2 (check_l2 fl raw.parsed raw.retrieved_chunk_ids)) (
        and_then fl
          (layer fl layers.l3
            (check_l3a_numeric fl raw.parsed raw.chunk_text_by_id raw.chunk_scale_by_id))
          (layer fl layers.l3 (check_l3b_prose fl rerank raw.parsed raw.chunk_text_by_id l3b))) in
      let (first, others) =
        (and_then_iff fl rerank (layer fl layers.l1 (check_l1 fl (l1_margin fl raw) t')) rest).0
          h in
      (and_then_iff fl rerank (layer fl layers.l1 (check_l1 fl (l1_margin fl raw) t)) rest).1
        (layer_threshold layers.l1 (l1_margin fl raw) first, others)
    where
      margin_threshold :
          (top1 : F) (top2 : Option F)
          → check_l1_margin fl top1 top2 t' ≡ passed
          → check_l1_margin fl top1 top2 t ≡ passed
      margin_threshold top1 top2 p =
          let m = fl.sub top1 (elim top2 [ none ↦ fl.literal 0 0 | some s ↦ s ]) in
          elim (Bool-cases (fl.lt m t')) [
            | inl low ↦ cc (rw (low, check_l1_margin) at p)
            | inr high ↦ rw (ord.ge_trans m t' t high above, check_l1_margin) refl
          ]

      layer_threshold :
          (on : Bool) (margin : Option (F × Option F))
          → layer fl on (check_l1 fl margin t') ≡ passed
          → layer fl on (check_l1 fl margin t) ≡ passed
      layer_threshold false margin p = refl
      layer_threshold true none p = p
      layer_threshold true (some (top1, top2)) p = margin_threshold top1 top2 p

  -- Where floats are ordered, the rows of the sweep at a higher L1 threshold answer only questions
  -- that the rows at a lower one answer too, and with the same verdict; so their counts of answered,
  -- of correct and of hallucinated questions are at most as large.
  pub threshold_monotone :
      (ord : Ordered fl) (lower higher : F) (is_gold : Bool)
      (cached : List (EvalRecord fl × Generation fl))
      → fl.lt higher lower ≡ false
      → (graded fl rerank l1_l2_l3 higher is_gold cached
          ≡ rows_by fl rerank
              (λ raw. decide fl rerank raw l1_l2_l3 (fl.literal 0 0) higher)
              is_gold
              cached)
        × Restricts fl rerank
            (λ raw. decide fl rerank raw l1_l2_l3 (fl.literal 0 0) higher)
            (λ raw. decide fl rerank raw l1_l2_l3 (fl.literal 0 0) lower)
            is_gold
            cached
  unfolding graded
  threshold_monotone ord lower higher is_gold cached above = (
    refl,
    rows_by-Restricts fl rerank (λ raw. decide fl rerank raw l1_l2_l3 (fl.literal 0 0) higher)
        (λ raw. decide fl rerank raw l1_l2_l3 (fl.literal 0 0) lower) is_gold cached
        (λ raw. apply_gate-threshold ord raw l1_l2_l3 (fl.literal 0 0) lower higher above),
  )
