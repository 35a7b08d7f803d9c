-- ===== src/Query/Stream.antt =====
-- The events that end a stream of api/routes_query.py.
use chat_doc.Floats.{Floats}
use chat_doc.Gate.{GateResult, GateAnswer, passed, refused}
use chat_doc.Query.{
  heartbeat_due, got_end, waiting, disconnected, client_gone, nothing_retrieved, retrieval,
  searched_of, model_failed, check_answer, retrieval_failed, got_error, chunks, malformed, answer,
  padding, with_context, failed, refusal, RetrievalContext, got_delta, error, timeout, complete,
  verdict, event_stream, done, finish, Left, receive, Event, Turn,
}
use chat_doc.Prelude.{
  All, All-append, Bool, Bool-cases, List, Option, Option-cases, Text, [], ap, append_assoc, false,
  if◌then◌else◌, inl, inr, is_empty, none, refl, some, sym, true, ℕ, ◌++◌, ◌∙◌, ◌∷◌, ◌≡◌,
}

module _ (fl : Floats) where
  open fl use {F}

  -- The worker thread ends or fails before the client goes.
  abbrev pub closed : List (Turn fl) → Bool
  closed [] = false
  closed (client_gone ∷ turns) = false
  closed (timeout now ∷ turns) = closed turns
  closed (got_delta t ∷ turns) = closed turns
  closed (got_error message ∷ turns) = true
  closed (got_end ∷ turns) = true

  abbrev pub is_done : Event fl → Bool
  is_done done = true
  is_done e = false

  -- The events that tell the outcome.
  abbrev pub is_outcome : Event fl → Bool
  is_outcome (error f) = true
  is_outcome (refusal r s) = true
  is_outcome (answer v u s t cs) = true
  is_outcome e = false

  -- Progress alone: neither an outcome nor the end.
  abbrev pub Progress : List (Event fl) → Type 0
  Progress = All (λ e. (is_done e ≡ false) × (is_outcome e ≡ false))

  -- Progress, then one outcome, then done, and nothing else.
  abbrev pub Finished : List (Event fl) → Type 0
  Finished events =
      (progress : List (Event fl)) × (outcome : Event fl) × (events
        ≡ progress ++ outcome ∷ done ∷ [])
      × Progress progress
      × (is_outcome outcome ≡ true)

  abbrev settled : Left fl → Bool
  settled (complete t) = true
  settled (failed m) = true
  settled disconnected = false
  settled waiting = false

  receive-settled :
      (turns : List (Turn fl)) (text : Text) (last : ℕ)
      → settled (receive fl turns text last).1 ≡ closed turns
  unfolding receive
  receive-settled [] text last = refl
  receive-settled (client_gone ∷ turns) text last = refl
  receive-settled (timeout now ∷ turns) text last =
      receive-settled turns text (if heartbeat_due now last then now else last)
  receive-settled (got_delta t ∷ turns) text last = receive-settled turns (text ++ t) last
  receive-settled (got_error message ∷ turns) text last = refl
  receive-settled (got_end ∷ turns) text last = refl

  pub receive-Progress :
      (turns : List (Turn fl)) (text : Text) (last : ℕ) → Progress (receive fl turns text last).0
  unfolding receive
  receive-Progress [] text last = tt
  receive-Progress (client_gone ∷ turns) text last = tt
  receive-Progress (timeout now ∷ turns) text last = elim (Bool-cases (heartbeat_due now last)) [
    | inl e ↦ rw e ((refl, refl), receive-Progress turns text now)
    | inr e ↦ rw e (receive-Progress turns text last)
  ]
  receive-Progress (got_delta t ∷ turns) text last =
      ((refl, refl), receive-Progress turns (text ++ t) last)
  receive-Progress (got_error message ∷ turns) text last = tt
  receive-Progress (got_end ∷ turns) text last = tt

  Finished-prefix :
      (start : List (Event fl)) (events : List (Event fl))
      → Progress start
      → Finished events
      → Finished (start ++ events)
  Finished-prefix start events hs (progress, outcome, e, hp, ho) = (
    start ++ progress,
    outcome,
    ap (λ rest. start ++ rest) e ∙ sym (append_assoc start progress (outcome ∷ done ∷ [])),
    All-append (λ e. (is_done e ≡ false) × (is_outcome e ≡ false)) start progress hs hp,
    ho,
  )

  module _ (rerank : Text → List Text → List F) (parse : Text → Option (GateAnswer fl)) where
    verdict-outcome :
        (ctx : RetrievalContext fl) (parsed : GateAnswer fl) (r : GateResult fl)
        → is_outcome (verdict fl rerank parse ctx parsed r) ≡ true
    unfolding verdict
    verdict-outcome ctx parsed passed = refl
    verdict-outcome ctx parsed (refused reason) = refl

    finish-Finished :
        (ctx : RetrievalContext fl) (left : Left fl)
        → settled left ≡ true
        → Finished (finish fl rerank parse ctx left)
    unfolding finish
    finish-Finished ctx (complete text) h = elim (Option-cases (parse text)) [
      | inl n ↦ rw n ([], error malformed, refl, tt, refl)
      | inr (parsed, e) ↦ rw e (
        [],
        verdict fl rerank parse ctx parsed (check_answer fl rerank parse ctx parsed),
        refl,
        tt,
        verdict-outcome ctx parsed (check_answer fl rerank parse ctx parsed),
      )
    ]
    finish-Finished ctx (failed message) h = ([], error (model_failed message), refl, tt, refl)
    finish-Finished ctx disconnected h = cc
    finish-Finished ctx waiting h = cc

    finish-unsettled :
        (ctx : RetrievalContext fl) (left : Left fl)
        → settled left ≡ false
        → finish fl rerank parse ctx left ≡ []
    unfolding finish
    finish-unsettled ctx (complete text) h = cc
    finish-unsettled ctx (failed message) h = cc
    finish-unsettled ctx disconnected h = refl
    finish-unsettled ctx waiting h = refl

    -- Whenever the worker thread ends or fails before the client goes, and also when the search
    -- fails or finds nothing, the stream is progress events, then exactly one answer, refusal or
    -- error, then done, which is the last event and the only one of its kind.
    pub event_stream_finishes :
        (ctx : Option (RetrievalContext fl)) (turns : List (Turn fl)) (opened : ℕ)
        → closed turns ≡ true
        → Finished (event_stream fl rerank parse ctx turns opened)
    unfolding event_stream with_context
    event_stream_finishes none turns opened h =
        (padding ∷ [], error retrieval_failed, refl, ((refl, refl), tt), refl)
    event_stream_finishes (some ctx) turns opened h =
        let searched = searched_of fl (chunks fl ctx) in
        elim (Bool-cases (is_empty (chunks fl ctx))) [
          | inl e ↦ rw e (
            padding ∷ retrieval searched ∷ [],
            refusal nothing_retrieved searched,
            refl,
            ((refl, refl), ((refl, refl), tt)),
            refl,
          )
          | inr e ↦ rw e (
              Finished-prefix (padding ∷ retrieval searched ∷ (receive fl turns [] opened).0)
                (finish fl rerank parse ctx (receive fl turns [] opened).1)
                ((refl, refl), ((refl, refl), receive-Progress turns [] opened))
                (finish-Finished ctx (receive fl turns [] opened).1
                  (receive-settled turns [] opened ∙ h)))
        ]
