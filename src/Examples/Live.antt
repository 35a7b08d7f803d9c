-- ===== src/Examples/Live.antt =====
-- One question with its worker thread.
use chat_doc.Query.Thread.{
  chunk, callback, run_callback, check_stop, thread, loop, Act, Arrival, run_live, act, thread_step,
  loop_turn, take_item, next_arrival, opened_stream,
}
use chat_doc.Examples.Numbers.{counting, thousandths}
use chat_doc.Query.Stream.{Finished, closed}
use chat_doc.Query.Steps.{in_hand}
use chat_doc.Query.Teardown.{disconnect_tears_down, thread_steps}
use chat_doc.Query.{scale_by_id, text_by_id, chunk_ids, event_stream}
use chat_doc.Examples.Answers.{small_context-found, small_context, parse_reply}
use chat_doc.Query.Answers.{is_answer}
use chat_doc.Gate.{GateAnswer}
use chat_doc.Query.Planned.{sent}
use chat_doc.Gate.Live.{Grounded}
use chat_doc.Query.Delivery.{live_stream_iff}
use chat_doc.Prelude.{
  List, Text, [], any, codes, false, length, refl, some, true, ◌+◌, ◌↔◌, ◌∷◌, ◌≡◌, ◌≤◌,
}

abbrev reply : List Arrival
reply = chunk (codes "{") ∷ chunk [] ∷ chunk (codes "}") ∷ []

-- The loop waits once; the thread is ahead, and its callbacks run late.
abbrev order : List Act
order =
    loop false 1_000
    ∷ thread
    ∷ thread
    ∷ thread
    ∷ thread
    ∷ loop false 2_000
    ∷ callback
    ∷ thread
    ∷ loop false 3_000
    ∷ thread
    ∷ thread
    ∷ thread
    ∷ callback
    ∷ thread
    ∷ thread
    ∷ thread
    ∷ callback
    ∷ loop false 4_000
    ∷ loop false 5_000
    ∷ []

order-closed :
    closed thousandths (run_live thousandths order (opened_stream thousandths reply)).turns ≡ true
unfolding run_live act thread_step run_callback loop_turn take_item next_arrival check_stop
order-closed = refl

live_stream_iff_example :
    let turns = (run_live thousandths order (opened_stream thousandths reply)).turns in
    Finished thousandths
      (event_stream thousandths counting parse_reply (some small_context) turns 0)
    × ((any
            (is_answer thousandths)
            (event_stream thousandths counting parse_reply (some small_context) turns 0)
          ≡ true)
        ↔ ((text : Text) × (parsed : GateAnswer thousandths) × (sent reply ≡ some text)
            × (parse_reply text ≡ some parsed)
            × Grounded thousandths counting parsed
                (chunk_ids thousandths small_context)
                (text_by_id thousandths small_context)
                (scale_by_id thousandths small_context)
                0))
live_stream_iff_example =
    live_stream_iff thousandths counting parse_reply small_context reply order 0 small_context-found
      order-closed

-- The client goes when the first text has passed the test of the event.
abbrev left_early : List Act
left_early = thread ∷ thread ∷ loop true 1_000 ∷ []

left_early-stopped :
    (run_live thousandths left_early (opened_stream thousandths reply)).stop_event ≡ true
unfolding run_live act thread_step run_callback loop_turn take_item next_arrival check_stop
left_early-stopped = refl

abbrev afterwards : List Act
afterwards = loop false 2_000 ∷ thread ∷ callback ∷ thread ∷ thread ∷ thread ∷ []

disconnect_tears_down_example :
    let st = run_live thousandths left_early (opened_stream thousandths reply) in
    let st' = run_live thousandths afterwards st in
    (st'.turns ≡ st.turns)
    × (st'.yielded ≤ st.yielded + in_hand thousandths st.phase)
    × (length st.arrivals ≤ length st'.arrivals + 1)
    × (4 ≤ thread_steps thousandths afterwards → st'.upstream_closed ≡ true)
disconnect_tears_down_example =
    disconnect_tears_down thousandths reply left_early afterwards left_early-stopped

-- That text is still handed over.
one_more :
    (run_live thousandths afterwards
      (run_live thousandths left_early (opened_stream thousandths reply))).yielded
    ≡ 1
unfolding run_live act thread_step run_callback loop_turn take_item next_arrival check_stop
one_more = refl
