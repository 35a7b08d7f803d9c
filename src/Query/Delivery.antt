-- ===== src/Query/Delivery.antt =====
-- What the loop of api/routes_query.py makes of the model's stream, whatever the order in which it and
-- the worker thread take turns.
use chat_doc.Floats.{Floats}
use chat_doc.Query.Thread.{Act, Arrival, run_live, opened_stream}
use chat_doc.Query.Answers.{answer_iff_grounded, is_answer, delivered}
use chat_doc.Query.{scale_by_id, text_by_id, chunk_ids, event_stream, chunks, RetrievalContext}
use chat_doc.Query.Stream.{event_stream_finishes, Finished, closed}
use chat_doc.Gate.{GateAnswer}
use chat_doc.Gate.Live.{Grounded}
use chat_doc.Query.Planned.{delivered-planned, delivered-real, delivered-append, real-planned, sent}
use chat_doc.Query.Conserved.{coming, run_live-Whole, Whole}
use chat_doc.Prelude.{
  Bool, List, Option, Text, any, ap, false, is_empty, refl, some, sym, true, ℕ, ◌++◌, ◌↔◌, ◌∙◌, ◌≡◌,
}

module _ (fl : Floats) where
  -- When the loop is left because the thread ended or failed, its turns have delivered what the model
  -- has sent: the whole text of its chunks, in their order, or nothing if its stream broke; however
  -- the thread and the loop have taken turns.
  turns-delivered :
      (arrivals : List Arrival) (acts : List Act)
      → let st = run_live fl acts (opened_stream fl arrivals) in
        closed fl st.turns ≡ true → delivered fl st.turns ≡ sent arrivals
  turns-delivered arrivals acts h =
      let st = run_live fl acts (opened_stream fl arrivals) in
      let w = run_live-Whole fl arrivals acts (opened_stream fl arrivals) (record {
        conserved = λ up. real-planned fl arrivals;
        running = λ l. refl;
        gone = λ g. cc;
        left = λ g. cc;
      }) in
      let rest = coming fl st in
      sym (delivered-append fl st.turns rest h)
      ∙ sym (delivered-real fl (st.turns ++ rest))
      ∙ ap (delivered fl) (w.conserved (up w h st.stop_event refl))
      ∙ delivered-planned fl arrivals
    where
      up :
          Whole fl arrivals (run_live fl acts (opened_stream fl arrivals))
          → closed fl (run_live fl acts (opened_stream fl arrivals)).turns ≡ true
          → (b : Bool) → (run_live fl acts (opened_stream fl arrivals)).stop_event ≡ b
          → (run_live fl acts (opened_stream fl arrivals)).stop_event ≡ false
      up w h true e = let open_still = w.gone e in cc
      up w h false e = e

  module _ (rerank : Text → List Text → List (fl.F)) (parse : Text → Option (GateAnswer fl)) where
    -- Whatever the order in which the worker thread and the loop take turns: once the loop is left
    -- because the thread ended or failed, the stream of events is progress events, exactly one
    -- outcome and done; and, where chunks were retrieved, the outcome is an answer exactly if the
    -- model's stream did not break and the whole text that it sent is a valid answer that is grounded
    -- in the chunks retrieved.
    pub live_stream_iff :
        (ctx : RetrievalContext fl) (arrivals : List Arrival) (acts : List Act) (opened : ℕ)
        → is_empty (chunks fl ctx) ≡ false
        → closed fl (run_live fl acts (opened_stream fl arrivals)).turns ≡ true
        → let turns = (run_live fl acts (opened_stream fl arrivals)).turns in
          Finished fl (event_stream fl rerank parse (some ctx) turns opened)
          × ((any (is_answer fl) (event_stream fl rerank parse (some ctx) turns opened) ≡ true) ↔ (
              (text : Text) × (parsed : GateAnswer fl) × (sent arrivals ≡ some text)
              × (parse text ≡ some parsed)
              × Grounded fl rerank parsed
                  (chunk_ids fl ctx)
                  (text_by_id fl ctx)
                  (scale_by_id fl ctx)
                  (fl.literal 0 0)))
    live_stream_iff ctx arrivals acts opened found h =
        let turns = (run_live fl acts (opened_stream fl arrivals)).turns in
        let same = turns-delivered arrivals acts h in
        let (to, back) = answer_iff_grounded fl rerank parse ctx turns opened found in
        (
          event_stream_finishes fl rerank parse (some ctx) turns opened h,
          (
            (λ a.
                let (text, parsed, whole, valid, grounded) = to a in
                (text, parsed, sym same ∙ whole, valid, grounded)),
            λ (text, parsed, whole, valid, grounded).
                back (text, parsed, same ∙ whole, valid, grounded),
          ),
        )
