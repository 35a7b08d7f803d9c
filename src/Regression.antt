-- ===== src/Regression.antt =====
-- scripts/check_eval_regression.py: the gate of the continuous integration, on the committed cache.
pub mod Accepts
use chat_doc.Floats.{Floats}
use chat_doc.Ablation.{
  l2_l3, summarize_config, GradedRow, graded, load_cached, Generation, gold, negative, Summary,
}
use chat_doc.Cache.{CacheTables}
use chat_doc.Dataset.{load_split, EvalRecord}
use chat_doc.Prelude.{
  Bool, List, Option, String, Text, [], codes, false, if◌then◌else◌, is_empty, none, some, true, ℕ,
  ◌>>=◌, ◌∷◌,
}

abbrev pub gold_run : String
gold_run = "answerable-gate-2026-08-14"

module _ (fl : Floats) where
  open fl use {F}

  -- BASELINE and the tolerances.
  abbrev pub baseline_accuracy : F
  baseline_accuracy = fl.literal 945_945_945_945_946 16

  abbrev pub tolerance : F
  tolerance = fl.literal 3 2

  -- A negative split: its name, its run and its baseline rate.
  pub record NegativeSplit : Type 0 where
    pub split : Text
    pub run_id : String
    pub baseline_rate : F

  abbrev pub negative_splits : List NegativeSplit
  negative_splits =
      record { split = codes "n0"; run_id = "n0-gate-2026-08-14"; baseline_rate = fl.literal 0 0 }
      ∷ record {
        split = codes "n1";
        run_id = "n1-gate-2026-08-14";
        baseline_rate = fl.literal 8_771_929_824_561_403 17;
      }
      ∷ record {
        split = codes "n2";
        run_id = "n2-gate-2026-08-15";
        baseline_rate = fl.literal 34_482_758_620_689_655 18;
      }
      ∷ record { split = codes "n3"; run_id = "n3-gate-2026-08-15"; baseline_rate = fl.literal 0 0 }
      ∷ []

  -- The two figures of a summary that are read; a summary without them is not reached.
  abbrev pub accuracy_overall : Summary fl → F
  accuracy_overall (gold n coverage on_answered overall) = overall
  accuracy_overall s = fl.literal 0 0

  abbrev pub hallucination_rate : Summary fl → F
  hallucination_rate (negative n rate count) = rate
  hallucination_rate s = fl.literal 0 0

  -- A line of the report.
  pub data Regressed : Type 0 where
    accuracy : F → Regressed
    rate : Text → F → Regressed

  -- none where a split has no cached generation, and main returns 1 at once.
  abbrev pub add_failure : Bool → Regressed → Option (List Regressed) → Option (List Regressed)
  add_failure failed f rest = if failed then (rest >>= (λ fs. some (f ∷ fs))) else rest

  module _ (rerank : Text → List Text → List F) {K : Type 0} (key_eq : K → K → Bool)
      (cache : CacheTables K (Generation fl)) where
    -- The rows of a split, at the layers L2+L3 and thresholds of 0.0.
    abbrev pub split_rows : String → Bool → List (EvalRecord fl) → List (GradedRow fl)
    split_rows run_id is_gold records =
        graded fl rerank l2_l3 (fl.literal 0 0) is_gold (load_cached fl key_eq cache run_id records)

    unfoldable pub check_negatives :
        List (EvalRecord fl) → List (EvalRecord fl) → List NegativeSplit → Option (List Regressed)
    unfolding load_split load_cached graded summarize_config
    check_negatives answerable negatives [] = some []
    check_negatives answerable negatives (s ∷ splits) =
        let rest = check_negatives answerable negatives splits in
        elim (load_split fl answerable negatives s.split) [
          | none ↦ none
          | some records ↦
              let rows = split_rows s.run_id false records in
              let actual = hallucination_rate (summarize_config fl rows false) in
              if is_empty rows
              then none
              else add_failure (fl.lt (fl.add s.baseline_rate tolerance) actual)
                  (rate s.split actual) rest
        ]

    -- The failures of both parts, or none where main returns 1 before it has them all.
    unfoldable pub check_all : List (EvalRecord fl) → List (EvalRecord fl) → Option (List Regressed)
    unfolding load_cached graded summarize_config check_negatives
    check_all answerable negatives =
        let rows = split_rows gold_run true answerable in
        let actual = accuracy_overall (summarize_config fl rows true) in
        let rest = check_negatives answerable negatives negative_splits in
        if is_empty rows
        then none
        else add_failure (fl.lt actual (fl.sub baseline_accuracy tolerance)) (accuracy actual) rest

    -- The exit code.
    unfoldable pub main : Bool → List (EvalRecord fl) → List (EvalRecord fl) → ℕ
    unfolding check_all
    main cache_is_file answerable negatives =
        if cache_is_file
        then elim (check_all answerable negatives) [
          | none ↦ 1
          | some failures ↦ if is_empty failures then 0 else 1
        ]
        else 1
