-- ===== src/Gate.antt =====
-- eval/gate_schema.py and eval/gate.py: the grounding gate over an answer of the model.
pub mod Figures
pub mod Grounded
pub mod Live
use chat_doc.Floats.{Floats}
use chat_doc.Gate.Figures.{value_found_in_text}
use chat_doc.Prelude.{
  Bool, Dict, List, Option, Text, [], any, dict_get, false, if◌then◌else◌, is_empty, ltb, map,
  no_text, none, not, select, some, true, ℕ, ◌++◌, ◌==◌, ◌||◌, ◌∷◌,
}

-- `sorted` of a set of ids: each once, ascending.
unfoldable pub insert_sorted : ℕ → List ℕ → List ℕ
insert_sorted a [] = a ∷ []
insert_sorted a (b ∷ rest) =
    let later = insert_sorted a rest in
    if ltb a b then a ∷ b ∷ rest else if a == b then b ∷ rest else b ∷ later

unfoldable pub sorted_set : List ℕ → List ℕ
unfolding insert_sorted
sorted_set [] = []
sorted_set (a ∷ rest) = insert_sorted a (sorted_set rest)

-- The layers that a configuration runs: the members of the frozenset that the gate asks for.
pub record Layers : Type 0 where
  pub l1 : Bool
  pub l2 : Bool
  pub l3 : Bool

-- The value of a dict whose values may be None.
abbrev pub flat : Option (Option Text) → Option Text
flat none = none
flat (some s) = s

-- `a or b` for two texts: an absent or empty first gives the second.
abbrev pub or_else : Option Text → Option Text → Option Text
or_else none b = b
or_else (some []) b = b
or_else (some (c ∷ s)) b = some (c ∷ s)

abbrev pub text_of : Option Text → Text
text_of none = []
text_of (some t) = t

module _ (fl : Floats) where
  open fl use {F}

  pub record Operand : Type 0 where
    pub value : F
    pub citation_chunk_id : ℕ

  pub record Citation : Type 0 where
    pub chunk_id : ℕ
    pub quote : Text

  pub record GateAnswer : Type 0 where
    pub sufficient : Bool
    pub value : Option F
    pub unit : Option Text
    pub scale : Option Text
    pub operands : List Operand
    pub answer_text : Option Text
    pub citations : List Citation

  -- The reasons, with the values that their texts show.
  pub data Reason : Type 0 where
    insufficient : Reason
    unretrieved : List ℕ → Reason
    operand_unknown : ℕ → Reason
    operand_not_found : F → ℕ → Reason
    value_not_found : F → Reason
    no_citations : Reason
    no_chunk_text : Reason
    unsupported : F → F → Reason
    low_margin : F → F → Reason
    no_scores : Reason

  -- GateResult: passed with no reason, or refused with one.
  pub data GateResult : Type 0 where
    passed : GateResult
    refused : Reason → GateResult

  unfoldable pub cited_ids : GateAnswer → List ℕ
  cited_ids answer =
      map (λ (c : Citation). c.chunk_id) answer.citations
      ++ map (λ (o : Operand). o.citation_chunk_id) answer.operands

  unfoldable pub unknown_ids : GateAnswer → List ℕ → List ℕ
  unfolding cited_ids
  unknown_ids answer retrieved = select (λ i. not (any (λ r. r == i) retrieved)) (cited_ids answer)

  unfoldable pub refuse_unknown : List ℕ → GateResult
  unfolding sorted_set
  refuse_unknown [] = passed
  refuse_unknown (i ∷ rest) = refused (unretrieved (sorted_set (i ∷ rest)))

  unfoldable pub check_l2 : GateAnswer → List ℕ → GateResult
  unfolding unknown_ids refuse_unknown
  check_l2 answer retrieved =
      if answer.sufficient
      then refuse_unknown (unknown_ids answer retrieved)
      else refused insufficient

  -- The loop over the operands.
  unfoldable pub check_operands : List Operand → Dict Text → Dict (Option Text) → GateResult
  check_operands [] texts scales = passed
  check_operands (op ∷ rest) texts scales =
      let others = check_operands rest texts scales in
      elim (dict_get op.citation_chunk_id texts) [
        | none ↦ refused (operand_unknown op.citation_chunk_id)
        | some text ↦
            if value_found_in_text fl op.value (flat (dict_get op.citation_chunk_id scales)) text
            then others
            else refused (operand_not_found op.value op.citation_chunk_id)
      ]

  -- The loop over the citations: whether the value stands in one of their chunks.
  unfoldable pub found_in_cited :
      F → Option Text → List Citation → Dict Text → Dict (Option Text) → Bool
  found_in_cited value scale [] texts scales = false
  found_in_cited value scale (c ∷ rest) texts scales =
      let others = found_in_cited value scale rest texts scales in
      elim (dict_get c.chunk_id texts) [
        | none ↦ others
        | some text ↦
            value_found_in_text fl value (or_else (flat (dict_get c.chunk_id scales)) scale) text
            || others
      ]

  -- A derived figure is checked by its operands, a direct one by itself.
  unfoldable pub check_numbers :
      List Operand
      → Option F
      → Option Text
      → List Citation
      → Dict Text
      → Dict (Option Text)
      → GateResult
  check_numbers (op ∷ ops) value scale citations texts scales =
      check_operands (op ∷ ops) texts scales
  check_numbers [] none scale citations texts scales = passed
  check_numbers [] (some value) scale citations texts scales =
      if found_in_cited value scale citations texts scales
      then passed
      else refused (value_not_found value)

  unfoldable pub check_l3a_numeric : GateAnswer → Dict Text → Dict (Option Text) → GateResult
  unfolding check_numbers
  check_l3a_numeric answer texts scales =
      check_numbers answer.operands answer.value answer.scale answer.citations texts scales

  -- The texts of the cited chunks that are known.
  unfoldable pub cited_texts : List Citation → Dict Text → List Text
  cited_texts [] texts = []
  cited_texts (c ∷ rest) texts =
      let others = cited_texts rest texts in
      elim (dict_get c.chunk_id texts) [ none ↦ others | some text ↦ text ∷ others ]

  -- max(scores)
  unfoldable pub greatest : F → List F → F
  greatest best [] = best
  greatest best (x ∷ rest) = greatest (if fl.lt best x then x else best) rest

  -- max(scores) if scores else 0.0
  unfoldable pub best_score : List F → F
  unfolding greatest
  best_score [] = fl.literal 0 0
  best_score (x ∷ rest) = greatest x rest

  -- A falsy second score stands for 0.0.
  unfoldable pub check_l1_margin : F → Option F → F → GateResult
  check_l1_margin top1 top2 threshold =
      let margin = fl.sub top1 (elim top2 [ none ↦ fl.literal 0 0 | some s ↦ s ]) in
      if fl.lt margin threshold then refused (low_margin margin threshold) else passed

  abbrev pub and_then : GateResult → GateResult → GateResult
  and_then passed next = next
  and_then (refused r) next = refused r

  abbrev pub layer : Bool → GateResult → GateResult
  layer true result = result
  layer false result = passed

  unfoldable pub check_l1 : Option (F × Option F) → F → GateResult
  unfolding check_l1_margin
  check_l1 none threshold = refused no_scores
  check_l1 (some (top1, top2)) threshold = check_l1_margin top1 top2 threshold

  -- The cross-encoder (ingest/reranker.py): a score for each text.
  module _ (rerank : Text → List Text → List F) where
    unfoldable pub support : Text → List Text → F → GateResult
    unfolding best_score
    support claim [] threshold = refused no_chunk_text
    support claim (t ∷ texts) threshold =
        let best = best_score (rerank claim (t ∷ texts)) in
        if fl.lt best threshold then refused (unsupported best threshold) else passed

    unfoldable pub check_l3b_prose : GateAnswer → Dict Text → F → GateResult
    unfolding support
    check_l3b_prose answer texts threshold =
        if no_text (text_of answer.answer_text)
        then passed
        else if is_empty answer.citations
        then refused no_citations
        else support (text_of answer.answer_text) (cited_texts answer.citations texts) threshold

    unfoldable pub apply_gate :
        GateAnswer
        → List ℕ
        → Dict Text
        → Dict (Option Text)
        → Layers
        → F
        → Option (F × Option F)
        → F
        → GateResult
    apply_gate answer retrieved texts scales layers l3b_threshold l1_margin l1_threshold =
        and_then (layer layers.l1 (check_l1 l1_margin l1_threshold)) (
          and_then (layer layers.l2 (check_l2 answer retrieved)) (
            and_then (layer layers.l3 (check_l3a_numeric answer texts scales))
              (layer layers.l3 (check_l3b_prose answer texts l3b_threshold))))
