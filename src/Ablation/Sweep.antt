-- ===== src/Ablation/Sweep.antt =====
-- The sweep of the L1 threshold in eval/ablation.py (risk_coverage_sweep), and what a higher
-- threshold does.
use chat_doc.Floats.{Floats}
use chat_doc.Ablation.{
  count_where, is_correct, ratio_or_zero, GradedRow, l1_l2_l3, graded, Generation,
}
use chat_doc.Dataset.{EvalRecord}
use chat_doc.Prelude.{
  List, Option, String, Text, [], false, if◌then◌else◌, length, map, none, not, select, some, true,
  ◌++◌, ◌>>=◌, ◌∷◌,
}

module _ (fl : Floats) where
  open fl use {F}

  -- raw["top1_score"] - (raw["top2_score"] or 0.0), where there is a top score.
  unfoldable pub margin_of : Generation fl → Option F
  margin_of raw =
      raw.top1_score
      >>= (λ top1. some (fl.sub top1 (elim raw.top2_score [ none ↦ fl.literal 0 0 | some s ↦ s ])))

  -- sorted({…}): each value once, ascending.
  unfoldable pub insert_margin : F → List F → List F
  insert_margin a [] = a ∷ []
  insert_margin a (b ∷ rest) =
      let later = insert_margin a rest in
      if fl.lt a b then a ∷ b ∷ rest else if fl.eq a b then b ∷ rest else b ∷ later

  unfoldable pub margins_of : List (EvalRecord fl × Generation fl) → List F
  unfolding insert_margin margin_of
  margins_of [] = []
  margins_of ((r, raw) ∷ cached) =
      let rest = margins_of cached in
      elim (margin_of raw) [ none ↦ rest | some m ↦ insert_margin m rest ]

  unfoldable pub thresholds_of : List F → List F
  thresholds_of [] = fl.literal 0 0 ∷ []
  thresholds_of (m ∷ margins) = fl.sub m (fl.literal 1 6) ∷ m ∷ margins

  pub record GoldPoint : Type 0 where
    pub threshold : F
    pub coverage : F
    pub risk : F

  pub record NegativePoint : Type 0 where
    pub threshold : F
    pub hallucination_rate : F

  -- sorted(points, key=…): stable, ascending.
  unfoldable pub insert_point : F × F → List (F × F) → List (F × F)
  insert_point p [] = p ∷ []
  insert_point p (q ∷ rest) =
      let later = insert_point p rest in if fl.lt q.0 p.0 then q ∷ later else p ∷ q ∷ rest

  unfoldable pub sort_points : List (F × F) → List (F × F)
  unfolding insert_point
  sort_points [] = []
  sort_points (p ∷ rest) = insert_point p (sort_points rest)

  unfoldable pub trapezoids : F → List (F × F) → F
  trapezoids area [] = area
  trapezoids area (a ∷ []) = area
  trapezoids area (a ∷ b ∷ rest) =
      trapezoids (fl.add area (fl.div (fl.mul (fl.sub b.0 a.0) (fl.add a.1 b.1)) (fl.literal 2 0)))
        (b ∷ rest)

  unfoldable pub area_under : List (F × F) → F
  unfolding sort_points trapezoids
  area_under points = trapezoids (fl.literal 0 0) (sort_points points)

  module _ (rerank : Text → List Text → List F) where
    unfoldable pub points_for_gold : List F → List (EvalRecord fl × Generation fl) → List GoldPoint
    unfolding graded
    points_for_gold thresholds cached =
        map
          (λ t.
            let rows = graded fl rerank l1_l2_l3 t true cached in
            let answered = select (λ (r : GradedRow fl). r.answered) rows in
            record {
              threshold = t;
              coverage = ratio_or_zero fl (length answered) (length rows);
              risk =
                  ratio_or_zero fl
                    (length (select (λ (r : GradedRow fl). not (is_correct fl r)) answered))
                    (length answered);
            })
          thresholds

    unfoldable pub points_for_negative :
        List F → List (EvalRecord fl × Generation fl) → List NegativePoint
    unfolding graded
    points_for_negative thresholds cached =
        map
          (λ t.
            let rows = graded fl rerank l1_l2_l3 t false cached in
            record {
              threshold = t;
              hallucination_rate =
                  ratio_or_zero fl (count_where fl (λ r. r.answered) rows) (length rows);
            })
          thresholds

    pub record Curve : Type 0 where
      pub gold_points : List GoldPoint
      pub aurc : F
      pub tiers : List (String × List NegativePoint × F)

    abbrev pub all_cached :
        List (EvalRecord fl × Generation fl)
        → List (String × List (EvalRecord fl × Generation fl))
        → List (EvalRecord fl × Generation fl)
    all_cached gold [] = gold
    all_cached gold (t ∷ tiers) = all_cached (gold ++ t.1) tiers

    -- The sweep over the cached generations of the splits.
    unfoldable pub risk_coverage_sweep :
        List (EvalRecord fl × Generation fl)
        → List (String × List (EvalRecord fl × Generation fl))
        → Curve
    unfolding margins_of thresholds_of points_for_gold points_for_negative area_under
    risk_coverage_sweep gold_cached neg_cached =
        let thresholds = thresholds_of (margins_of (all_cached gold_cached neg_cached)) in
        let gold_points = points_for_gold thresholds gold_cached in
        record {
          gold_points = gold_points;
          aurc = area_under (map (λ (p : GoldPoint). (p.coverage, p.risk)) gold_points);
          tiers =
              map
                (λ (tier : String × List (EvalRecord fl × Generation fl)).
                  let points = points_for_negative thresholds tier.1 in
                  (
                    tier.0,
                    points,
                    area_under
                        (map (λ (p : NegativePoint). (p.threshold, p.hallucination_rate)) points),
                  ))
                neg_cached;
        }
