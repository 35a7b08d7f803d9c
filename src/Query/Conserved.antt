-- ===== src/Query/Conserved.antt =====
-- What the worker thread and the loop of api/routes_query.py keep, whatever the order of their steps:
-- nothing that the model sent is lost, doubled or moved.
use chat_doc.Floats.{Floats}
use chat_doc.Query.Thread.{
  chunk, broken, thread, loop, Act, Arrival, Live, next_arrival, run_live, callback, Phase,
  receiving, checking, yielding, closing, leaving, check_stop, behind_check, run_callback, act,
  thread_step, loop_turn, take_item,
}
use chat_doc.Query.{client_gone, got_delta, timeout, got_error, got_end, Turn}
use chat_doc.Query.Stream.{closed}
use chat_doc.Query.Planned.{closed-append, real-append, pending, planned, real}
use chat_doc.Prelude.{
  Bool, Bool-cases, List, Text, [], ap, append_assoc, false, if◌then◌else◌, inl, inr, refl, sym,
  true, ℕ, ◌++◌, ◌∙◌, ◌∷◌, ◌≡◌,
}

module _ (fl : Floats) where
  -- What waits and what is to come.
  abbrev pub coming : Live fl → List (Turn fl)
  coming st = st.queue ++ (st.scheduled ++ pending fl st.phase st.arrivals)

  -- What was taken and what is to come is what the model sent; the turns are not closed before the
  -- loop is left, nor where the client is gone.
  pub record Whole (total : List Arrival) (st : Live fl) : Type 0 where
    pub conserved : st.stop_event ≡ false → real fl (st.turns ++ coming st) ≡ planned fl total
    pub running : st.loop_left ≡ false → closed fl st.turns ≡ false
    pub gone : st.stop_event ≡ true → closed fl st.turns ≡ false
    pub left : st.stop_event ≡ true → st.loop_left ≡ true

  -- What a step of the thread or a callback leaves to the loop.
  record SameLoop (st st' : Live fl) : Type 0 where
    turns_same : st'.turns ≡ st.turns
    event_same : st'.stop_event ≡ st.stop_event
    left_same : st'.loop_left ≡ st.loop_left
    coming_same : st.stop_event ≡ false → coming st' ≡ coming st

  Whole-SameLoop :
      (total : List Arrival) (st st' : Live fl) → SameLoop st st' → Whole total st → Whole total st'
  Whole-SameLoop total st st' s w = record {
    conserved = λ up.
        let off = sym s.event_same ∙ up in
        ap (λ ts. real fl (ts ++ coming st')) s.turns_same
        ∙ ap (λ c. real fl (st.turns ++ c)) (s.coming_same off)
        ∙ w.conserved off;
    running = λ l. ap (closed fl) s.turns_same ∙ w.running (sym s.left_same ∙ l);
    gone = λ g. ap (closed fl) s.turns_same ∙ w.gone (sym s.event_same ∙ g);
    left = λ g. s.left_same ∙ w.left (sym s.event_same ∙ g);
  }

  next_arrival-coming :
      (arrivals : List Arrival) (st : Live fl)
      → SameLoop
          (record st { phase = receiving; arrivals = arrivals })
          (next_arrival fl arrivals st)
  unfolding next_arrival
  next_arrival-coming [] st = record {
    turns_same = refl;
    event_same = refl;
    left_same = refl;
    coming_same = λ _. refl;
  }
  next_arrival-coming (chunk t ∷ rest) st = record {
    turns_same = refl;
    event_same = refl;
    left_same = refl;
    coming_same = λ _. refl;
  }
  next_arrival-coming (broken m ∷ rest) st = record {
    turns_same = refl;
    event_same = refl;
    left_same = refl;
    coming_same = λ _. refl;
  }

  check_stop-coming :
      (text : Text) (st : Live fl)
      → SameLoop (record st { phase = checking text }) (check_stop fl text st)
  unfolding check_stop
  check_stop-coming text st = elim (Bool-cases st.stop_event) [
    | inl on ↦
        rw on (record {
          turns_same = refl;
          event_same = refl;
          left_same = refl;
          coming_same = λ off. cc;
        })
    | inr off ↦ rw off (record {
      turns_same = refl;
      event_same = refl;
      left_same = refl;
      coming_same = λ _. through text;
    })
  ]
    where
      through :
          (t : Text)
          → coming (record st { phase = behind_check fl t })
            ≡ coming (record st { phase = checking t })
      through [] = refl
      through (c ∷ t) = refl

  thread_step-coming :
      (phase : Phase fl) (st : Live fl)
      → SameLoop (record st { phase = phase }) (thread_step fl phase st)
  unfolding thread_step
  thread_step-coming receiving st = next_arrival-coming st.arrivals st
  thread_step-coming (checking text) st = check_stop-coming text st
  thread_step-coming (yielding text) st = record {
    turns_same = refl;
    event_same = refl;
    left_same = refl;
    coming_same = λ _.
        ap (λ q. st.queue ++ q)
          (append_assoc st.scheduled (got_delta text ∷ []) (planned fl st.arrivals));
  }
  thread_step-coming (closing items) st = record {
    turns_same = refl;
    event_same = refl;
    left_same = refl;
    coming_same = λ _. refl;
  }
  thread_step-coming (leaving []) st = record {
    turns_same = refl;
    event_same = refl;
    left_same = refl;
    coming_same = λ _. refl;
  }
  thread_step-coming (leaving (item ∷ items)) st = record {
    turns_same = refl;
    event_same = refl;
    left_same = refl;
    coming_same = λ _. ap (λ q. st.queue ++ q) (append_assoc st.scheduled (item ∷ []) items);
  }

  run_callback-coming :
      (items : List (Turn fl)) (st : Live fl)
      → SameLoop
          (record st { scheduled = items })
          (run_callback fl items (record st { scheduled = items }))
  unfolding run_callback
  run_callback-coming [] st = record {
    turns_same = refl;
    event_same = refl;
    left_same = refl;
    coming_same = λ _. refl;
  }
  run_callback-coming (item ∷ items) st = record {
    turns_same = refl;
    event_same = refl;
    left_same = refl;
    coming_same = λ _. append_assoc st.queue (item ∷ []) (items ++ pending fl st.phase st.arrivals);
  }

  -- The loop takes the head of the queue, or waits.
  take_item-Whole :
      (total : List Arrival) (queue : List (Turn fl)) (now : ℕ) (st : Live fl)
      → st.loop_left ≡ false
      → st.stop_event ≡ false
      → real fl (st.turns ++ (queue ++ (st.scheduled ++ pending fl st.phase st.arrivals)))
        ≡ planned fl total
      → Whole total st
      → Whole total (take_item fl queue now st)
  unfolding take_item
  take_item-Whole total [] now st l up c w = record {
    conserved = λ _. waited c;
    running = λ _. closed-append fl st.turns (timeout now) (w.running l) refl;
    gone = λ h. cc;
    left = λ h. cc;
  }
    where
      waited :
          real fl (st.turns ++ (st.scheduled ++ pending fl st.phase st.arrivals)) ≡ planned fl total
          → real fl
              ((st.turns ++ timeout now ∷ []) ++ (st.scheduled ++ pending fl st.phase st.arrivals))
            ≡ planned fl total
      waited e =
          ap (real fl) (
            append_assoc st.turns (timeout now ∷ [])
              ((st.scheduled ++ pending fl st.phase st.arrivals)))
          ∙ real-append fl st.turns
              (timeout now ∷ (st.scheduled ++ pending fl st.phase st.arrivals))
          ∙ sym (real-append fl st.turns ((st.scheduled ++ pending fl st.phase st.arrivals)))
          ∙ e
  take_item-Whole total (u ∷ queue) now st l up c w = by_kind u c
    where
      moved :
          (u : Turn fl)
          → real fl (st.turns ++ ((u ∷ queue) ++ (st.scheduled ++ pending fl st.phase st.arrivals)))
            ≡ planned fl total
          → real fl
              ((st.turns ++ u ∷ []) ++ (queue ++ (st.scheduled ++ pending fl st.phase st.arrivals)))
            ≡ planned fl total
      moved u e =
          ap (real fl) (
            append_assoc st.turns (u ∷ [])
              (queue ++ (st.scheduled ++ pending fl st.phase st.arrivals)))
          ∙ e

      by_kind :
          (u : Turn fl)
          → real fl (st.turns ++ ((u ∷ queue) ++ (st.scheduled ++ pending fl st.phase st.arrivals)))
            ≡ planned fl total
          → Whole total (take_item fl (u ∷ queue) now st)
      by_kind got_end e = record {
        conserved = λ _. moved got_end e;
        running = λ h. cc;
        gone = λ h. cc;
        left = λ h. cc;
      }
      by_kind (got_error m) e = record {
        conserved = λ _. moved (got_error m) e;
        running = λ h. cc;
        gone = λ h. cc;
        left = λ h. cc;
      }
      by_kind (got_delta t) e = record {
        conserved = λ _. moved (got_delta t) e;
        running = λ _. closed-append fl st.turns (got_delta t) (w.running l) refl;
        gone = λ h. cc;
        left = λ h. cc;
      }
      by_kind client_gone e = record {
        conserved = λ _. moved client_gone e;
        running = λ _. closed-append fl st.turns client_gone (w.running l) refl;
        gone = λ h. cc;
        left = λ h. cc;
      }
      by_kind (timeout n) e = record {
        conserved = λ _. moved (timeout n) e;
        running = λ _. closed-append fl st.turns (timeout n) (w.running l) refl;
        gone = λ h. cc;
        left = λ h. cc;
      }

  act-Whole :
      (total : List Arrival) (a : Act) (st : Live fl) → Whole total st → Whole total (act fl a st)
  unfolding act loop_turn
  act-Whole total thread st w =
      Whole-SameLoop total st (thread_step fl st.phase st) (thread_step-coming st.phase st) w
  act-Whole total callback st w =
      Whole-SameLoop total st (run_callback fl st.scheduled st)
        (run_callback-coming st.scheduled st) w
  act-Whole total (loop gone now) st w = elim (Bool-cases st.loop_left) [
    | inl l ↦ simp l w
    | inr l ↦ simp l (turn gone l)
  ]
    where
      up : st.loop_left ≡ false → (b : Bool) → st.stop_event ≡ b → st.stop_event ≡ false
      up l true e = let gone_too = w.left e in cc
      up l false e = e

      turn :
          (gone : Bool)
          → st.loop_left ≡ false
          → Whole total (
              if gone
              then record st {
                turns = st.turns ++ client_gone ∷ [];
                stop_event = true;
                loop_left = true;
              }
              else take_item fl st.queue now st)
      turn true l = record {
        conserved = λ h. cc;
        running = λ h. cc;
        gone = λ h. closed-append fl st.turns client_gone (w.running l) refl;
        left = λ h. refl;
      }
      turn false l =
          let off = up l st.stop_event refl in
          take_item-Whole total st.queue now st l off (w.conserved off) w

  pub run_live-Whole :
      (total : List Arrival) (acts : List Act) (st : Live fl)
      → Whole total st
      → Whole total (run_live fl acts st)
  unfolding run_live
  run_live-Whole total [] st w = w
  run_live-Whole total (a ∷ acts) st w =
      run_live-Whole total acts (act fl a st) (act-Whole total a st w)
