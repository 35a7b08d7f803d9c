-- ===== src/Query.antt =====
-- api/query_service.py and api/routes_query.py: the retrieval context and the event stream of an
-- answer. The stream's worker thread, the queue and the client are the sequence of what the loop
-- meets at each turn.
pub mod Stream
pub mod Answers
pub mod Thread
pub mod Planned
pub mod Conserved
pub mod Delivery
pub mod Steps
pub mod Teardown
use chat_doc.Floats.{Floats}
use chat_doc.Gate.{passed, refused}
use chat_doc.Retrieval.{RetrievedChunk}
use chat_doc.Gate.{refused, apply_gate, GateResult, Reason, GateAnswer, Citation}
use chat_doc.Gate.Live.{live_gate_layers}
use chat_doc.Prelude.{
  Bool, Dict, List, Option, String, Text, [], dict_from, dict_get, if◌then◌else◌, is_empty, length,
  ltb, map, none, some, ℕ, ◌++◌, ◌-◌, ◌∷◌,
}

-- HEARTBEAT_SECONDS, in milliseconds.
abbrev pub heartbeat_interval : ℕ
heartbeat_interval = 15_000

abbrev pub heartbeat_due : ℕ → ℕ → Bool
heartbeat_due now last_heartbeat = ltb heartbeat_interval (now - last_heartbeat)

module _ (fl : Floats) where
  open fl use {F}

  pub record RetrievalContext : Type 0 where
    pub scored : List (RetrievedChunk fl × F)

  unfoldable pub chunks : RetrievalContext → List (RetrievedChunk fl)
  chunks ctx = map (λ (p : RetrievedChunk fl × F). p.0) ctx.scored

  unfoldable pub chunk_ids : RetrievalContext → List ℕ
  unfolding chunks
  chunk_ids ctx = map (λ (c : RetrievedChunk fl). c.chunk_id) (chunks ctx)

  unfoldable pub text_by_id : RetrievalContext → Dict Text
  unfolding chunks
  text_by_id ctx = dict_from (map (λ (c : RetrievedChunk fl). (c.chunk_id, c.text)) (chunks ctx)) []

  unfoldable pub scale_by_id : RetrievalContext → Dict (Option Text)
  unfolding chunks
  scale_by_id ctx =
      dict_from (map (λ (c : RetrievedChunk fl). (c.chunk_id, c.unit_scale)) (chunks ctx)) []

  abbrev pub top_scores : List (RetrievedChunk fl × F) → F × Option F
  top_scores [] = (fl.literal 0 0, none)
  top_scores ((c, s) ∷ []) = (s, none)
  top_scores ((c, s) ∷ (d, t) ∷ rest) = (s, some t)

  unfoldable pub top1_top2_scores : RetrievalContext → F × Option F
  top1_top2_scores ctx = top_scores ctx.scored

  -- A citation of the answer event.
  pub record CitedPlace : Type 0 where
    pub chunk_id : ℕ
    pub page : Option ℕ
    pub quote : Text
    pub bbox : Option (F × Option F × Option F × Option F)

  pub data RefusalReason : Type 0 where
    nothing_retrieved : RefusalReason
    gate : Reason fl → RefusalReason

  pub data Failure : Type 0 where
    retrieval_failed : Failure
    model_failed : String → Failure
    malformed : Failure

  -- What the stream sends, in the order in which it is sent.
  pub data Event : Type 0 where
    padding : Event
    heartbeat : Event
    retrieval : List (ℕ × ℕ) → Event
    delta : ℕ → Event
    error : Failure → Event
    refusal : RefusalReason → List (ℕ × ℕ) → Event
    answer : Option F → Option Text → Option Text → Option Text → List CitedPlace → Event
    done : Event

  -- One turn of the loop: the client has gone, the wait for the queue timed out (and what the
  -- clock then reads), or the queue gave what the worker thread put into it.
  pub data Turn : Type 0 where
    client_gone : Turn
    timeout : ℕ → Turn
    got_delta : Text → Turn
    got_error : String → Turn
    got_end : Turn

  -- How the loop was left, with the text that the model had sent.
  pub data Left : Type 0 where
    complete : Text → Left
    failed : String → Left
    disconnected : Left
    waiting : Left

  -- The loop: the text so far, and when the last heartbeat was sent.
  unfoldable pub receive : List Turn → Text → ℕ → List Event × Left
  receive [] text last_heartbeat = ([], waiting)
  receive (client_gone ∷ turns) text last_heartbeat = ([], disconnected)
  receive (timeout now ∷ turns) text last_heartbeat =
      let due = heartbeat_due now last_heartbeat in
      let (events, left) = receive turns text (if due then now else last_heartbeat) in
      (if due then heartbeat ∷ events else events, left)
  receive (got_delta t ∷ turns) text last_heartbeat =
      let (events, left) = receive turns (text ++ t) last_heartbeat in
      (delta (length (text ++ t)) ∷ events, left)
  receive (got_error message ∷ turns) text last_heartbeat = ([], failed message)
  receive (got_end ∷ turns) text last_heartbeat = ([], complete text)

  -- chunks_by_id.get(id): the last chunk with the id.
  unfoldable pub chunks_by_id : RetrievalContext → Dict (RetrievedChunk fl)
  unfolding chunks
  chunks_by_id ctx = dict_from (map (λ (c : RetrievedChunk fl). (c.chunk_id, c)) (chunks ctx)) []

  abbrev pub bbox_of : RetrievedChunk fl → Option (F × Option F × Option F × Option F)
  bbox_of c = elim c.bbox_x0 [ none ↦ none | some x ↦ some (x, c.bbox_y0, c.bbox_x1, c.bbox_y1) ]

  unfoldable pub cited_place : Dict (RetrievedChunk fl) → Citation fl → CitedPlace
  cited_place by_id c = record {
    chunk_id = c.chunk_id;
    page = elim (dict_get c.chunk_id by_id) [ none ↦ none | some d ↦ some d.page_num ];
    quote = c.quote;
    bbox = elim (dict_get c.chunk_id by_id) [ none ↦ none | some d ↦ bbox_of d ];
  }

  abbrev pub searched_of : List (RetrievedChunk fl) → List (ℕ × ℕ)
  searched_of = map (λ (c : RetrievedChunk fl). (c.chunk_id, c.page_num))

  -- The cross-encoder, and `GateAnswer.model_validate(json.loads(…))` with none for an exception.
  module _ (rerank : Text → List Text → List F) (parse : Text → Option (GateAnswer fl)) where
    -- The answer or the refusal, once the gate has decided.
    unfoldable pub verdict : RetrievalContext → GateAnswer fl → GateResult fl → Event
    unfolding chunks chunks_by_id cited_place
    verdict ctx parsed (refused reason) = refusal (gate reason) (searched_of (chunks ctx))
    verdict ctx parsed passed =
        answer parsed.value parsed.unit parsed.scale parsed.answer_text
          (map (cited_place (chunks_by_id ctx)) parsed.citations)

    unfoldable pub check_answer : RetrievalContext → GateAnswer fl → GateResult fl
    unfolding chunk_ids text_by_id scale_by_id top1_top2_scores
    check_answer ctx parsed =
        apply_gate fl rerank parsed (chunk_ids ctx) (text_by_id ctx) (scale_by_id ctx)
          live_gate_layers (fl.literal 0 0) (some (top1_top2_scores ctx)) (fl.literal 0 0)

    abbrev judged : RetrievalContext → Option (GateAnswer fl) → List Event
    judged ctx none = error malformed ∷ done ∷ []
    judged ctx (some parsed) = verdict ctx parsed (check_answer ctx parsed) ∷ done ∷ []

    -- What follows the loop.
    unfoldable pub finish : RetrievalContext → Left → List Event
    unfolding verdict check_answer
    finish ctx (complete text) = judged ctx (parse text)
    finish ctx (failed message) = error (model_failed message) ∷ done ∷ []
    finish ctx disconnected = []
    finish ctx waiting = []

    abbrev converse : RetrievalContext → List Event × Left → List Event
    converse ctx (events, left) = events ++ finish ctx left

    -- After the search has returned.
    unfoldable pub with_context : RetrievalContext → List Turn → ℕ → List Event
    unfolding chunks receive finish
    with_context ctx turns opened =
        retrieval (searched_of (chunks ctx))
        ∷ (if is_empty (chunks ctx)
            then refusal nothing_retrieved (searched_of (chunks ctx)) ∷ done ∷ []
            else converse ctx (receive turns [] opened))

    unfoldable pub event_stream : Option RetrievalContext → List Turn → ℕ → List Event
    unfolding with_context
    event_stream none turns opened = padding ∷ error retrieval_failed ∷ done ∷ []
    event_stream (some ctx) turns opened = padding ∷ with_context ctx turns opened
