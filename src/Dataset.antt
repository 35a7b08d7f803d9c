-- ===== src/Dataset.antt =====
-- The records of eval/data/*.jsonl, as the evaluation reads them, and the splits of
-- eval/runner_v2.py. A key that a record lacks is none, and reading it is a KeyError.
use chat_doc.Floats.{Floats}
use chat_doc.Prelude.{
  List, Option, String, Text, [], any, codes, if◌then◌else◌, lower, none, select, some, text_eq, ℕ,
  ◌∷◌,
}

module _ (fl : Floats) where
  open fl use {F}

  pub record EvalRecord : Type 0 where
    pub financebench_id : String
    pub question : Text
    pub gold_value : F
    pub tier : Text
    pub doc_name : Option Text
    pub served_doc_name : Option Text
    pub ablated_pages : Option (List ℕ)

  -- The lines of the two files: the split's records, or none for an unknown split.
  unfoldable pub load_split : List EvalRecord → List EvalRecord → Text → Option (List EvalRecord)
  unfolding lower text_eq
  load_split answerable negatives split =
      if text_eq split (codes "answerable")
      then some answerable
      else if any (text_eq split) (codes "n0" ∷ codes "n1" ∷ codes "n2" ∷ codes "n3" ∷ [])
      then some (select (λ n. text_eq (lower n.tier) split) negatives)
      else none
