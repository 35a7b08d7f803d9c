-- ===== src/Runner.antt =====
-- eval/runner_v2.py: what is served for a record, what is kept of its generation, and the loop that
-- can be stopped and resumed.
pub mod Agree
pub mod Kept
pub mod Replay
pub mod Results
pub mod Resumed
pub mod Resume
pub mod Ends
use chat_doc.Floats.{Floats}
use chat_doc.Dataset.{EvalRecord}
use chat_doc.Quota.{
  unfinished, error_raised, rate_limit_raised, quota_exceeded, planned, got, call, CallResult,
  GuardConfig, GuardState, Attempt,
}
use chat_doc.Retrieval.{RetrievedChunk}
use chat_doc.Gate.{GateAnswer, cited_ids, sorted_set}
use chat_doc.Cache.{record_generation, already_has_run_result}
use chat_doc.Ablation.{Generation}
use chat_doc.Prelude.{
  Bool, Dict, List, Option, String, Text, [], codes, dict_from, dict_get, dict_set, false,
  if◌then◌else◌, ltb, map, none, some, suc, text_eq, true, zero, ℕ, ◌%◌, ◌++◌, ◌+◌, ◌/◌, ◌>>=◌, ◌∷◌,
}

-- str(n)
unfoldable pub decimal_from : ℕ → ℕ → Text → Text
decimal_from zero n out = out
decimal_from (suc fuel) n out =
    let more = decimal_from fuel (n / 10) ((b'0' + n % 10) ∷ out) in
    if ltb n 10 then (b'0' + n) ∷ out else more

unfoldable pub decimal : ℕ → Text
unfolding decimal_from
decimal n = decimal_from (suc n) n []

-- "-".join(…)
unfoldable pub joined : List Text → Text
joined [] = []
joined (t ∷ []) = t
joined (t ∷ u ∷ rest) = t ++ b'-' ∷ joined (u ∷ rest)

unfoldable pub ablated_doc_key : Text → List ℕ → Text
unfolding sorted_set decimal joined
ablated_doc_key doc_name [] = doc_name
ablated_doc_key doc_name (p ∷ pages) =
    doc_name ++ (codes "__ablate_" ++ joined (map decimal (sorted_set (p ∷ pages))))

module _ (fl : Floats) where
  open fl use {F}

  -- The document to serve and the pages to leave out of it.
  unfoldable pub served_doc_and_exclusions : EvalRecord fl → Text → Option (Text × List ℕ)
  unfolding text_eq
  served_doc_and_exclusions r split =
      if text_eq split (codes "answerable")
      then (r.doc_name >>= (λ d. some (d, [])))
      else if text_eq split (codes "n1")
      then (r.served_doc_name >>= (λ d. r.ablated_pages >>= (λ pages. some (d, pages))))
      else (r.served_doc_name >>= (λ d. some (d, [])))

  -- {cid: value(chunk_by_id[cid]) for cid in cited_ids if cid in chunk_by_id}
  unfoldable pub of_cited :
      {V : Type 0} → (RetrievedChunk fl → V) → List ℕ → Dict (RetrievedChunk fl) → Dict V
  of_cited value [] by_id = []
  of_cited value (i ∷ ids) by_id =
      let rest = of_cited value ids by_id in
      elim (dict_get i by_id) [ none ↦ rest | some c ↦ dict_set i (value c) rest ]

  abbrev pub first_score : List (RetrievedChunk fl × F) → Option F
  first_score [] = none
  first_score (p ∷ rest) = some p.1

  abbrev pub second_score : List (RetrievedChunk fl × F) → Option F
  second_score [] = none
  second_score (p ∷ rest) = first_score rest

  -- generate_for_record, once the chunks are retrieved and the model has answered.
  unfoldable pub generate_for_record : List (RetrievedChunk fl × F) → GateAnswer fl → Generation fl
  unfolding of_cited sorted_set cited_ids
  generate_for_record scored parsed =
      let chunks = map (λ (p : RetrievedChunk fl × F). p.0) scored in
      let ids = sorted_set (cited_ids fl parsed) in
      let chunk_by_id = dict_from (map (λ (c : RetrievedChunk fl). (c.chunk_id, c)) chunks) [] in
      record {
        parsed = parsed;
        retrieved_chunk_ids = map (λ (c : RetrievedChunk fl). c.chunk_id) chunks;
        chunk_text_by_id = of_cited (λ c. c.text) ids chunk_by_id;
        chunk_scale_by_id = of_cited (λ c. c.unit_scale) ids chunk_by_id;
        top1_score = first_score scored;
        top2_score = second_score scored;
      }

-- A record of the split: its question, the key under which its generation is stored, the date on
-- which its turn comes, and how the API answers its requests.
pub record Task (K J : Type 0) : Type 0 where
  pub question_id : String
  pub key : K
  pub day : ℕ
  pub answers : List (List ℕ × Attempt J)

-- How the loop ends: with the last record, on a QuotaExceeded, by an exception that it does not
-- catch, or waiting for an answer.
pub data RunEnd : Type 0 where
  finished : RunEnd
  stopped : RunEnd
  crashed : RunEnd
  waiting : RunEnd

module _ {K J : Type 0} (key_eq : K → K → Bool) where
  -- cache.record of a fresh generation.
  abbrev pub stored : GuardConfig → Task K J → J → GuardState K J → GuardState K J
  stored g t raw st = record st {
    tables = record_generation key_eq g.run_id t.question_id t.key raw false st.tables;
  }

  abbrev pub more_sent : ℕ → RunEnd × ℕ × GuardState K J → RunEnd × ℕ × GuardState K J
  more_sent n (how, sent, st) = (how, n + sent, st)

  -- What follows a guarded call; `rest` is the loop on the records that are left.
  unfoldable pub follow :
      GuardConfig
      → Task K J
      → (GuardState K J → RunEnd × ℕ × GuardState K J)
      → CallResult J × ℕ × GuardState K J
      → RunEnd × ℕ × GuardState K J
  follow g t rest (got raw, sent, st) = more_sent sent (rest (stored g t raw st))
  follow g t rest (planned, sent, st) = more_sent sent (rest st)
  follow g t rest (quota_exceeded, sent, st) = (stopped, sent, st)
  follow g t rest (rate_limit_raised, sent, st) = (crashed, sent, st)
  follow g t rest (error_raised, sent, st) = (crashed, sent, st)
  follow g t rest (unfinished, sent, st) = (waiting, sent, st)

  -- The loop of main: how it ends, the requests that it sends, and what it leaves.
  unfoldable pub run_split :
      GuardConfig → List (Task K J) → GuardState K J → RunEnd × ℕ × GuardState K J
  unfolding follow
  run_split g [] st = (finished, 0, st)
  run_split g (t ∷ tasks) st =
      elim (already_has_run_result key_eq g.run_id t.question_id st.tables) [
        | true ↦ run_split g tasks st
        | false ↦
            follow g t (λ st'. run_split g tasks st')
              (call key_eq g t.question_id t.day t.answers st)
      ]
