-- ===== src/Query/Thread.antt =====
-- The worker thread of api/routes_query.py and stream_structured of eval/gemini_client.py, beside the
-- loop that sends the events. The thread reads the model's stream and hands what it gets to
-- call_soon_threadsafe; asyncio runs these callbacks in their order, and each fills the queue; the
-- loop empties it, and the stop event goes from the loop to the thread. Each reading of the stream,
-- each test of the event, each hand-over and each closing is a step of its own, so that the loop can
-- set the event between any two of them.
use chat_doc.Floats.{Floats}
use chat_doc.Query.{got_error, got_end, got_delta, client_gone, timeout, Turn}
use chat_doc.Prelude.{Bool, List, String, Text, [], false, if◌then◌else◌, true, ℕ, ◌++◌, ◌+◌, ◌∷◌}

-- What the model's stream gives next: a chunk with its text, or an exception with its message.
pub data Arrival : Type 0 where
  chunk : Text → Arrival
  broken : String → Arrival

-- A step of the thread, a callback that asyncio runs, or a turn of the loop: what
-- request.is_disconnected() says, and the clock.
pub data Act : Type 0 where
  thread : Act
  callback : Act
  loop : Bool → ℕ → Act

module _ (fl : Floats) where
  open fl use {F}

  -- Where the thread stands: at the `for`, with a chunk before `stop_event.is_set()`, with a text
  -- before its hand-over, before `close()` with what an exception hands over behind it, or behind
  -- it, with what is still to be handed over.
  pub data Phase : Type 0 where
    receiving : Phase
    checking : Text → Phase
    yielding : Text → Phase
    closing : List (Turn fl) → Phase
    leaving : List (Turn fl) → Phase

  pub record Live : Type 0 where
    pub arrivals : List Arrival
    pub phase : Phase
    -- The callbacks that wait, by what they put into the queue.
    pub scheduled : List (Turn fl)
    pub queue : List (Turn fl)
    pub stop_event : Bool
    pub upstream_closed : Bool
    -- The deltas handed over so far.
    pub yielded : ℕ
    -- The turns of the loop so far, and whether it has been left.
    pub turns : List (Turn fl)
    pub loop_left : Bool

  -- The stream is open and nothing has arrived.
  abbrev pub opened_stream : List Arrival → Live
  opened_stream arrivals = record {
    arrivals = arrivals;
    phase = receiving;
    scheduled = [];
    queue = [];
    stop_event = false;
    upstream_closed = false;
    yielded = 0;
    turns = [];
    loop_left = false;
  }

  unfoldable pub next_arrival : List Arrival → Live → Live
  next_arrival [] st = record st { phase = closing [] }
  next_arrival (chunk text ∷ rest) st = record st { arrivals = rest; phase = checking text }
  next_arrival (broken message ∷ rest) st = record st {
    arrivals = rest;
    phase = closing (got_error message ∷ []);
  }

  -- `if chunk.text: yield chunk.text`
  abbrev pub behind_check : Text → Phase
  behind_check [] = receiving
  behind_check (c ∷ t) = yielding (c ∷ t)

  unfoldable pub check_stop : Text → Live → Live
  check_stop text st =
      if st.stop_event
      then record st { phase = closing [] }
      else record st { phase = behind_check text }

  -- The hand-overs of `except` and `finally`.
  abbrev pub leave_thread : List (Turn fl) → Live → Live
  leave_thread [] st = record st { phase = leaving [] }
  leave_thread (item ∷ items) st = record st {
    scheduled = st.scheduled ++ item ∷ [];
    phase = leaving items;
  }

  unfoldable pub thread_step : Phase → Live → Live
  unfolding next_arrival check_stop
  thread_step receiving st = next_arrival st.arrivals st
  thread_step (checking text) st = check_stop text st
  thread_step (yielding text) st = record st {
    scheduled = st.scheduled ++ got_delta text ∷ [];
    phase = receiving;
    yielded = st.yielded + 1;
  }
  thread_step (closing items) st = record st {
    upstream_closed = true;
    phase = leaving (items ++ got_end ∷ []);
  }
  thread_step (leaving items) st = leave_thread items st

  -- `queue.put_nowait` of the first callback that waits.
  unfoldable pub run_callback : List (Turn fl) → Live → Live
  run_callback [] st = st
  run_callback (item ∷ items) st = record st { scheduled = items; queue = st.queue ++ item ∷ [] }

  -- What the loop does with the head of the queue.
  abbrev pub took : Turn fl → List (Turn fl) → Bool → Live → Live
  took turn queue left st = record st {
    queue = queue;
    turns = st.turns ++ turn ∷ [];
    loop_left = left;
  }

  unfoldable pub take_item : List (Turn fl) → ℕ → Live → Live
  take_item [] now st = took (timeout now) [] false st
  take_item (got_end ∷ queue) now st = took got_end queue true st
  take_item (got_error message ∷ queue) now st = took (got_error message) queue true st
  take_item (item ∷ queue) now st = took item queue false st

  unfoldable pub loop_turn : Bool → ℕ → Live → Live
  unfolding take_item
  loop_turn gone now st =
      if st.loop_left
      then st
      else if gone
      then record st { turns = st.turns ++ client_gone ∷ []; stop_event = true; loop_left = true }
      else take_item st.queue now st

  unfoldable pub act : Act → Live → Live
  unfolding thread_step run_callback loop_turn
  act thread st = thread_step st.phase st
  act callback st = run_callback st.scheduled st
  act (loop gone now) st = loop_turn gone now st

  -- Any interleaving of them.
  unfoldable pub run_live : List Act → Live → Live
  unfolding act
  run_live [] st = st
  run_live (a ∷ acts) st = run_live acts (act a st)
