-- ===== src/Ablation.antt =====
-- eval/ablation.py: the gate configurations, replayed on cached generations.
pub mod Table
pub mod Sweep
pub mod Threshold
use chat_doc.Floats.{Floats}
use chat_doc.Normalize.{numbers_match}
use chat_doc.Cache.{get_run_result, CacheTables}
use chat_doc.Dataset.{EvalRecord}
use chat_doc.Gate.{passed, text_of, refused, apply_gate, GateResult, GateAnswer, Layers}
use chat_doc.Prelude.{
  Bool, Dict, List, Option, String, Text, [], false, if◌then◌else◌, is_some, length, map, no_text,
  none, not, select, some, true, ℕ, ◌&&◌, ◌==◌, ◌>>=◌, ◌||◌, ◌∷◌,
}

-- CONFIGS
abbrev pub no_layers : Layers
no_layers = record { l1 = false; l2 = false; l3 = false }

abbrev pub l2_only : Layers
l2_only = record { l1 = false; l2 = true; l3 = false }

abbrev pub l2_l3 : Layers
l2_l3 = record { l1 = false; l2 = true; l3 = true }

abbrev pub l1_l2_l3 : Layers
l1_l2_l3 = record { l1 = true; l2 = true; l3 = true }

abbrev pub configs : List (String × Layers)
configs = ("none", no_layers) ∷ ("L2", l2_only) ∷ ("L2+L3", l2_l3) ∷ ("L1+L2+L3", l1_l2_l3) ∷ []

module _ (fl : Floats) where
  open fl use {F}

  -- What the runner has cached for one question (generate_for_record of eval/runner_v2.py), with the
  -- keys of its dicts as numbers and its answer as the model that it validates to.
  pub record Generation : Type 0 where
    pub parsed : GateAnswer fl
    pub retrieved_chunk_ids : List ℕ
    pub chunk_text_by_id : Dict Text
    pub chunk_scale_by_id : Dict (Option Text)
    pub top1_score : Option F
    pub top2_score : Option F

  pub data Verdict : Type 0 where
    correct : Bool → Verdict
    hallucinated : Bool → Verdict

  pub record GradedRow : Type 0 where
    pub financebench_id : String
    pub answered : Bool
    pub gate : GateResult fl
    pub verdict : Verdict

  -- {"n": 0}, or the summary of a split.
  pub data Summary : Type 0 where
    no_rows : Summary
    gold : ℕ → F → F → F → Summary
    negative : ℕ → F → ℕ → Summary

  unfoldable pub load_cached :
      {K : Type 0}
      → (K → K → Bool)
      → CacheTables K Generation
      → String
      → List (EvalRecord fl)
      → List (EvalRecord fl × Generation)
  load_cached key_eq cache run_id [] = []
  load_cached key_eq cache run_id (r ∷ records) =
      let rest = load_cached key_eq cache run_id records in
      elim (get_run_result key_eq run_id r.financebench_id cache) [
        | none ↦ rest
        | some raw ↦ (r, raw) ∷ rest
      ]

  -- The scores for L1, if the top one is there.
  unfoldable pub l1_margin : Generation → Option (F × Option F)
  l1_margin raw = raw.top1_score >>= (λ top1. some (top1, raw.top2_score))

  unfoldable pub decide : (Text → List Text → List F) → Generation → Layers → F → F → GateResult fl
  unfolding l1_margin
  decide rerank raw layers l3b_threshold l1_threshold =
      apply_gate fl rerank raw.parsed raw.retrieved_chunk_ids raw.chunk_text_by_id
        raw.chunk_scale_by_id layers l3b_threshold (l1_margin raw) l1_threshold

  unfoldable pub has_content : GateAnswer fl → Bool
  has_content parsed = is_some parsed.value || not (no_text (text_of parsed.answer_text))

  abbrev pub has_passed : GateResult fl → Bool
  has_passed passed = true
  has_passed (refused r) = false

  abbrev pub matches_gold : F → Option F → Bool
  matches_gold gold_value none = false
  matches_gold gold_value (some v) = numbers_match fl gold_value v

  unfoldable pub grade_one : EvalRecord fl → Generation → GateResult fl → Bool → GradedRow
  unfolding has_content
  grade_one r raw gate is_gold =
      let answered = has_passed gate && has_content raw.parsed in
      record {
        financebench_id = r.financebench_id;
        answered = answered;
        gate = gate;
        verdict =
            if is_gold
            then correct (answered && matches_gold r.gold_value raw.parsed.value)
            else hallucinated answered;
      }

  -- r["correct"] and r["hallucinated"]: each is read only from the rows that have it.
  abbrev pub is_correct : GradedRow → Bool
  is_correct row = elim row.verdict [ correct b ↦ b | hallucinated b ↦ false ]

  abbrev pub is_hallucinated : GradedRow → Bool
  is_hallucinated row = elim row.verdict [ correct b ↦ false | hallucinated b ↦ b ]

  abbrev pub count_where : (GradedRow → Bool) → List GradedRow → ℕ
  count_where p rows = length (select p rows)

  -- The quotient of two counts.
  abbrev pub ratio : ℕ → ℕ → F
  ratio a b = fl.div (fl.literal a 0) (fl.literal b 0)

  abbrev pub ratio_or_zero : ℕ → ℕ → F
  ratio_or_zero a b = if b == 0 then fl.literal 0 0 else ratio a b

  unfoldable pub summarize_config : List GradedRow → Bool → Summary
  summarize_config rows is_gold =
      let n = length rows in
      let n_answered = count_where (λ r. r.answered) rows in
      let n_correct = count_where is_correct rows in
      let n_halluc = count_where is_hallucinated rows in
      if n == 0
      then no_rows
      else if is_gold
      then gold n (ratio n_answered n) (ratio_or_zero n_correct n_answered) (ratio n_correct n)
      else negative n (ratio n_halluc n) n_halluc

  module _ (rerank : Text → List Text → List F) where
    -- DEFAULT_L3B_THRESHOLD and the L1 threshold of the table are 0.0.
    unfoldable pub graded : Layers → F → Bool → List (EvalRecord fl × Generation) → List GradedRow
    unfolding grade_one decide
    graded layers l1_threshold is_gold cached =
        map
          (λ (p : EvalRecord fl × Generation).
            grade_one p.0 p.1 (decide rerank p.1 layers (fl.literal 0 0) l1_threshold) is_gold)
          cached

    pub record TableEntry : Type 0 where
      pub config_name : String
      pub answerable : Summary
      pub tiers : List (String × Summary)

    unfoldable pub table_entry :
        List (EvalRecord fl × Generation)
        → List (String × List (EvalRecord fl × Generation))
        → String × Layers
        → TableEntry
    unfolding graded summarize_config
    table_entry gold_cached neg_cached (config_name, layers) = record {
      config_name = config_name;
      answerable = summarize_config (graded layers (fl.literal 0 0) true gold_cached) true;
      tiers =
          map
            (λ (t : String × List (EvalRecord fl × Generation)).
              (t.0, summarize_config (graded layers (fl.literal 0 0) false t.1) false))
            neg_cached;
    }

    -- The run id of each tier stands beside its records.
    unfoldable pub run_ablation_table :
        {K : Type 0}
        → (K → K → Bool)
        → CacheTables K Generation
        → String
        → List (EvalRecord fl)
        → List (String × String × List (EvalRecord fl))
        → List TableEntry
    unfolding table_entry load_cached
    run_ablation_table key_eq cache gold_run gold_records neg_records =
        map
          (table_entry (load_cached key_eq cache gold_run gold_records) (
            map
              (λ (t : String × String × List (EvalRecord fl)).
                (t.0, load_cached key_eq cache t.1 t.2))
              neg_records))
          configs
