-- ===== src/Query/Teardown.antt =====
-- What a client that goes away does to the model's stream (api/routes_query.py with
-- eval/gemini_client.py stream_structured).
use chat_doc.Query.Steps.{steps_left, in_hand, reads_left, Sound, act-Sound, run_live-Sound}
use chat_doc.Floats.{Floats}
use chat_doc.Query.Thread.{
  opened_stream, loop_turn, thread_step, act, run_live, chunk, broken, thread, callback, loop, Act,
  Arrival, Live, Phase, receiving, checking, yielding, closing, leaving, next_arrival, check_stop,
  run_callback,
}
use chat_doc.Query.{Turn}
use chat_doc.Prelude.{
  List, [], arith, length, refl, subst, suc, true, ℕ, ◌+◌, ◌-◌, ◌∙◌, ◌∷◌, ◌≡◌, ◌≤◌,
}

module _ (fl : Floats) where
  -- The steps of the thread in a run.
  abbrev pub thread_steps : List Act → ℕ
  thread_steps [] = 0
  thread_steps (thread ∷ acts) = suc (thread_steps acts)
  thread_steps (callback ∷ acts) = thread_steps acts
  thread_steps (loop gone now ∷ acts) = thread_steps acts

  -- What a run of `n` steps of the thread does once the event is set.
  abbrev pub Stopped : ℕ → Live fl → Live fl → Type 0
  Stopped n st st' =
      (steps_left fl st'.phase ≤ steps_left fl st.phase - n)
      × (st'.yielded + in_hand fl st'.phase ≤ st.yielded + in_hand fl st.phase)
      × (length st.arrivals + reads_left fl st'.phase
          ≤ length st'.arrivals + reads_left fl st.phase)
      × (st'.turns ≡ st.turns)
      × (st'.stop_event ≡ true)

  next_arrival-Stopped :
      (arrivals : List Arrival) (st : Live fl)
      → st.stop_event ≡ true
      → Stopped 1
          (record st { phase = receiving; arrivals = arrivals })
          (next_arrival fl arrivals st)
  unfolding next_arrival
  next_arrival-Stopped [] st h = (omega arith, omega arith, omega arith, refl, h)
  next_arrival-Stopped (chunk text ∷ rest) st h = (omega arith, omega arith, omega arith, refl, h)
  next_arrival-Stopped (broken m ∷ rest) st h = (omega arith, omega arith, omega arith, refl, h)

  thread_step-Stopped :
      (phase : Phase fl) (st : Live fl)
      → st.stop_event ≡ true
      → Stopped 1 (record st { phase = phase }) (thread_step fl phase st)
  unfolding thread_step check_stop
  thread_step-Stopped receiving st h = next_arrival-Stopped st.arrivals st h
  thread_step-Stopped (checking text) st h =
      rw h ((omega arith, omega arith, omega arith, refl, refl))
  thread_step-Stopped (yielding text) st h = (omega arith, omega arith, omega arith, refl, h)
  thread_step-Stopped (closing items) st h = (omega arith, omega arith, omega arith, refl, h)
  thread_step-Stopped (leaving []) st h = (omega arith, omega arith, omega arith, refl, h)
  thread_step-Stopped (leaving (item ∷ items)) st h =
      (omega arith, omega arith, omega arith, refl, h)

  run_callback-Stopped :
      (items : List (Turn fl)) (st : Live fl)
      → st.stop_event ≡ true
      → Stopped 0 st (run_callback fl items st)
  unfolding run_callback
  run_callback-Stopped [] st h = (omega arith, omega arith, omega arith, refl, h)
  run_callback-Stopped (item ∷ items) st h = (omega arith, omega arith, omega arith, refl, h)

  act-Stopped :
      (a : Act) (st : Live fl)
      → Sound fl st
      → st.stop_event ≡ true
      → Stopped (thread_steps (a ∷ [])) st (act fl a st)
  unfolding act loop_turn
  act-Stopped thread st s h = thread_step-Stopped st.phase st h
  act-Stopped callback st s h = run_callback-Stopped st.scheduled st h
  act-Stopped (loop gone now) st s h =
      simp (s.stop_left h) ((omega arith, omega arith, omega arith, refl, h))

  Stopped-trans :
      (n m : ℕ) (st st' st'' : Live fl)
      → Stopped n st st'
      → Stopped m st' st''
      → Stopped (n + m) st st''
  Stopped-trans n m st st' st'' (nearer, handed, read, turns, _)
        (nearer', handed', read', turns', still) =
      (omega arith, omega arith, omega arith, turns' ∙ turns, still)

  run_live-Stopped :
      (acts : List Act) (st : Live fl)
      → Sound fl st
      → st.stop_event ≡ true
      → Stopped (thread_steps acts) st (run_live fl acts st)
  unfolding run_live
  run_live-Stopped [] st s h = (omega arith, omega arith, omega arith, refl, h)
  run_live-Stopped (a ∷ acts) st s h =
      let now = act-Stopped a st s h in
      let later = run_live-Stopped acts (act fl a st) (act-Sound fl a st s) now.4 in
      subst (λ n. Stopped n st (run_live fl acts (act fl a st))) (counted a)
        (Stopped-trans (thread_steps (a ∷ [])) (thread_steps acts) st (act fl a st)
          (run_live fl acts (act fl a st)) now later)
    where
      counted : (b : Act) → thread_steps (b ∷ []) + thread_steps acts ≡ thread_steps (b ∷ acts)
      counted thread = omega arith
      counted callback = omega arith
      counted (loop gone now) = omega arith

  -- However the thread, its callbacks and the loop have taken turns: once the loop has seen that the
  -- client is gone and has set the event, then in any further run the loop takes no turn; the thread
  -- hands over no text but one that had passed the test of the event before, and reads at most one
  -- chunk more of the model's stream; and after at most four steps of the thread the stream is closed.
  pub disconnect_tears_down :
      (arrivals : List Arrival) (before after : List Act)
      → (run_live fl before (opened_stream fl arrivals)).stop_event ≡ true
      → let st = run_live fl before (opened_stream fl arrivals) in
        let st' = run_live fl after st in
        (st'.turns ≡ st.turns)
        × (st'.yielded ≤ st.yielded + in_hand fl st.phase)
        × (length st.arrivals ≤ length st'.arrivals + 1)
        × (4 ≤ thread_steps after → st'.upstream_closed ≡ true)
  disconnect_tears_down arrivals before after h =
      let st = run_live fl before (opened_stream fl arrivals) in
      let sound =
        run_live-Sound fl before (opened_stream fl arrivals)
          (record { closed_behind = λ e. absurd (omega arith); stop_left = λ e. cc }) in
      let (nearer, handed, read, turns, _) = run_live-Stopped after st sound h in
      let closed = (run_live-Sound fl after st sound).closed_behind in
      let most = steps_left-le st.phase in
      let once = reads_left-le st.phase in
      (turns, omega arith, omega arith, λ enough. closed (omega arith))
    where
      steps_left-le : (p : Phase fl) → steps_left fl p ≤ 4
      steps_left-le (yielding text) = omega arith
      steps_left-le receiving = omega arith
      steps_left-le (checking text) = omega arith
      steps_left-le (closing items) = omega arith
      steps_left-le (leaving items) = omega arith

      reads_left-le : (p : Phase fl) → reads_left fl p ≤ 1
      reads_left-le (yielding text) = omega arith
      reads_left-le receiving = omega arith
      reads_left-le (checking text) = omega arith
      reads_left-le (closing items) = omega arith
      reads_left-le (leaving items) = omega arith
