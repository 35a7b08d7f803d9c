-- ===== src/Query/Steps.antt =====
-- How far the worker thread of api/routes_query.py (eval/gemini_client.py stream_structured) is from
-- closing the model's stream.
use chat_doc.Floats.{Floats}
use chat_doc.Query.Thread.{
  loop_turn, thread_step, act, run_live, take_item, chunk, broken, thread, callback, loop, Act,
  Arrival, Live, Phase, receiving, checking, yielding, closing, leaving, next_arrival, check_stop,
  behind_check, run_callback,
}
use chat_doc.Query.{got_end, timeout, got_delta, client_gone, got_error, Turn}
use chat_doc.Prelude.{
  Bool, Bool-cases, List, Text, [], arith, false, if◌then◌else◌, inl, inr, refl, true, ℕ, ◌++◌, ◌∷◌,
  ◌≡◌,
}

module _ (fl : Floats) where
  -- The steps of the thread up to the closing of the stream, once the event is set.
  abbrev pub steps_left : Phase fl → ℕ
  steps_left (yielding text) = 4
  steps_left receiving = 3
  steps_left (checking text) = 2
  steps_left (closing items) = 1
  steps_left (leaving items) = 0

  -- A text has passed the test of the event and has not been handed over yet.
  abbrev pub in_hand : Phase fl → ℕ
  in_hand (yielding text) = 1
  in_hand receiving = 0
  in_hand (checking text) = 0
  in_hand (closing items) = 0
  in_hand (leaving items) = 0

  -- The thread reads the stream once more before it tests the event.
  abbrev pub reads_left : Phase fl → ℕ
  reads_left (yielding text) = 1
  reads_left receiving = 1
  reads_left (checking text) = 0
  reads_left (closing items) = 0
  reads_left (leaving items) = 0

  -- The stream is closed behind `close()`, and the loop has left when the event is set.
  pub record Sound (st : Live fl) : Type 0 where
    pub closed_behind : steps_left st.phase ≡ 0 → st.upstream_closed ≡ true
    pub stop_left : st.stop_event ≡ true → st.loop_left ≡ true

  next_arrival-Sound :
      (arrivals : List Arrival) (st : Live fl)
      → (st.stop_event ≡ true → st.loop_left ≡ true)
      → Sound (next_arrival fl arrivals st)
  unfolding next_arrival
  next_arrival-Sound [] st s = record { closed_behind = λ e. absurd (omega arith); stop_left = s }
  next_arrival-Sound (chunk text ∷ rest) st s = record {
    closed_behind = λ e. absurd (omega arith);
    stop_left = s;
  }
  next_arrival-Sound (broken m ∷ rest) st s = record {
    closed_behind = λ e. absurd (omega arith);
    stop_left = s;
  }

  check_stop-Sound :
      (text : Text) (st : Live fl)
      → (st.stop_event ≡ true → st.loop_left ≡ true)
      → Sound (check_stop fl text st)
  unfolding check_stop
  check_stop-Sound text st s = elim (Bool-cases st.stop_event) [
    | inl on ↦ rw on (record { closed_behind = λ e. absurd (omega arith); stop_left = λ _. s on })
    | inr off ↦ rw off (record { closed_behind = through text; stop_left = λ h. cc })
  ]
    where
      through : (t : Text) → steps_left (behind_check fl t) ≡ 0 → st.upstream_closed ≡ true
      through [] e = absurd (omega arith)
      through (c ∷ t) e = absurd (omega arith)

  thread_step-Sound :
      (phase : Phase fl) (st : Live fl)
      → Sound (record st { phase = phase })
      → Sound (thread_step fl phase st)
  unfolding thread_step
  thread_step-Sound receiving st s = next_arrival-Sound st.arrivals st s.stop_left
  thread_step-Sound (checking text) st s = check_stop-Sound text st s.stop_left
  thread_step-Sound (yielding text) st s = record {
    closed_behind = λ e. absurd (omega arith);
    stop_left = s.stop_left;
  }
  thread_step-Sound (closing items) st s = record {
    closed_behind = λ e. refl;
    stop_left = s.stop_left;
  }
  thread_step-Sound (leaving []) st s = record {
    closed_behind = s.closed_behind;
    stop_left = s.stop_left;
  }
  thread_step-Sound (leaving (item ∷ items)) st s = record {
    closed_behind = s.closed_behind;
    stop_left = s.stop_left;
  }

  run_callback-Sound :
      (items : List (Turn fl)) (st : Live fl) → Sound st → Sound (run_callback fl items st)
  unfolding run_callback
  run_callback-Sound [] st s = s
  run_callback-Sound (item ∷ items) st s = record {
    closed_behind = s.closed_behind;
    stop_left = s.stop_left;
  }

  take_item-Sound :
      (queue : List (Turn fl)) (now : ℕ) (st : Live fl)
      → st.stop_event ≡ false
      → Sound st
      → Sound (take_item fl queue now st)
  unfolding take_item
  take_item-Sound [] now st up s = record { closed_behind = s.closed_behind; stop_left = λ h. cc }
  take_item-Sound (got_end ∷ queue) now st up s = record {
    closed_behind = s.closed_behind;
    stop_left = λ h. refl;
  }
  take_item-Sound (got_error m ∷ queue) now st up s = record {
    closed_behind = s.closed_behind;
    stop_left = λ h. refl;
  }
  take_item-Sound (got_delta t ∷ queue) now st up s = record {
    closed_behind = s.closed_behind;
    stop_left = λ h. cc;
  }
  take_item-Sound (client_gone ∷ queue) now st up s = record {
    closed_behind = s.closed_behind;
    stop_left = λ h. cc;
  }
  take_item-Sound (timeout n ∷ queue) now st up s = record {
    closed_behind = s.closed_behind;
    stop_left = λ h. cc;
  }

  pub act-Sound : (a : Act) (st : Live fl) → Sound st → Sound (act fl a st)
  unfolding act loop_turn
  act-Sound thread st s = thread_step-Sound st.phase st s
  act-Sound callback st s = run_callback-Sound st.scheduled st s
  act-Sound (loop gone now) st s = elim (Bool-cases st.loop_left) [
    | inl l ↦ simp l s
    | inr l ↦ simp l (turn gone l)
  ]
    where
      up : st.loop_left ≡ false → (b : Bool) → st.stop_event ≡ b → st.stop_event ≡ false
      up l true e = let gone = s.stop_left e in cc
      up l false e = e

      turn :
          (gone : Bool)
          → st.loop_left ≡ false
          → Sound (
              if gone
              then record st {
                turns = st.turns ++ client_gone ∷ [];
                stop_event = true;
                loop_left = true;
              }
              else take_item fl st.queue now st)
      turn true l = record { closed_behind = s.closed_behind; stop_left = λ h. refl }
      turn false l = take_item-Sound st.queue now st (up l st.stop_event refl) s

  pub run_live-Sound : (acts : List Act) (st : Live fl) → Sound st → Sound (run_live fl acts st)
  unfolding run_live
  run_live-Sound [] st s = s
  run_live-Sound (a ∷ acts) st s = run_live-Sound acts (act fl a st) (act-Sound a st s)
