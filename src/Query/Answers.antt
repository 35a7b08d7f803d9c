-- ===== src/Query/Answers.antt =====
-- When a stream of api/routes_query.py carries an answer, and where its citations lead.
use chat_doc.Floats.{Floats}
use chat_doc.Gate.{GateResult, GateAnswer, passed, refused}
use chat_doc.Query.{
  heartbeat_due, done, heartbeat, padding, refusal, error, delta, chunks, retrieval, with_context,
  top1_top2_scores, event_stream, scale_by_id, text_by_id, chunk_ids, check_answer, finish, answer,
  RetrievalContext, verdict, Event, receive, Turn, Left, complete, failed, disconnected, waiting,
  got_end, got_error, got_delta, timeout, client_gone,
}
use chat_doc.Query.Stream.{is_outcome, is_done, receive-Progress}
use chat_doc.Gate.Live.{live_gate_iff, Grounded}
use chat_doc.Prelude.{
  All, Bool, List, Option, Option-cases, Text, [], any, ap, append-nil, append_assoc, arith, false,
  if◌then◌else◌, inl, inr, is_empty, none, refl, some, some-injective, subst, sym, true, ℕ, ◌++◌,
  ◌>>=◌, ◌↔◌, ◌∙◌, ◌∷◌, ◌≡◌,
}

module _ (fl : Floats) where
  open fl use {F}

  -- The text that the model sends until it ends, if it ends before it fails or the client goes.
  abbrev pub delivered : List (Turn fl) → Option Text
  delivered [] = none
  delivered (client_gone ∷ turns) = none
  delivered (timeout now ∷ turns) = delivered turns
  delivered (got_delta t ∷ turns) = delivered turns >>= (λ u. some (t ++ u))
  delivered (got_error message ∷ turns) = none
  delivered (got_end ∷ turns) = some []

  abbrev completed : Left fl → Option Text
  completed (complete t) = some t
  completed left = none

  receive-delivered :
      (turns : List (Turn fl)) (text : Text) (last : ℕ)
      → completed (receive fl turns text last).1 ≡ (delivered turns >>= (λ u. some (text ++ u)))
  unfolding receive
  receive-delivered [] text last = refl
  receive-delivered (client_gone ∷ turns) text last = refl
  receive-delivered (timeout now ∷ turns) text last =
      receive-delivered turns text (if heartbeat_due now last then now else last)
  receive-delivered (got_delta t ∷ turns) text last = elim (Option-cases (delivered turns)) [
    | inl n ↦ rw n (rw n at (receive-delivered turns (text ++ t) last))
    | inr (u, e) ↦
        rw e
          ((rw e at (receive-delivered turns (text ++ t) last)) ∙ ap some (append_assoc text t u))
  ]
  receive-delivered (got_error message ∷ turns) text last = refl
  receive-delivered (got_end ∷ turns) text last = ap some (sym (append-nil text))

  receive-all :
      (turns : List (Turn fl)) (opened : ℕ)
      → completed (receive fl turns [] opened).1 ≡ delivered turns
  receive-all turns opened = elim (Option-cases (delivered turns)) [
    | inl n ↦ rw n (rw n at (receive-delivered turns [] opened))
    | inr (u, e) ↦ rw e (rw e at (receive-delivered turns [] opened))
  ]

  abbrev pub is_answer : Event fl → Bool
  is_answer (answer v u s t cs) = true
  is_answer e = false

  module _ (rerank : Text → List Text → List F) (parse : Text → Option (GateAnswer fl)) where
    -- The answer that the model's whole text stands for, and that passes the live gate on the
    -- chunks retrieved.
    abbrev pub GroundedAnswer : RetrievalContext fl → List (Turn fl) → Type 0
    GroundedAnswer ctx turns =
        (text : Text) × (parsed : GateAnswer fl) × (delivered turns ≡ some text)
        × (parse text ≡ some parsed)
        × Grounded fl rerank parsed (chunk_ids fl ctx) (text_by_id fl ctx) (scale_by_id fl ctx)
            (fl.literal 0 0)

    verdict-answer :
        (ctx : RetrievalContext fl) (parsed : GateAnswer fl) (r : GateResult fl)
        → (is_answer (verdict fl rerank parse ctx parsed r) ≡ true) ↔ (r ≡ passed)
    unfolding verdict
    verdict-answer ctx parsed passed = ((λ _. refl), λ _. refl)
    verdict-answer ctx parsed (refused reason) = ((λ h. cc), λ h. cc)

    finish-answer :
        (ctx : RetrievalContext fl) (left : Left fl)
        → (any is_answer (finish fl rerank parse ctx left) ≡ true) ↔ (
            (text : Text) × (parsed : GateAnswer fl) × (completed left ≡ some text)
            × (parse text ≡ some parsed)
            × (check_answer fl rerank parse ctx parsed ≡ passed))
    unfolding finish
    finish-answer ctx (complete text) = elim (Option-cases (parse text)) [
      | inl n ↦ (
        (λ h. cc (rw n at h)),
        λ (t, parsed, e, p, g).
            cc (subst (λ x. parse x ≡ some parsed) (sym (some-injective _ _ e)) p),
      )
      | inr (parsed, e) ↦
          let (out, back) = verdict-answer ctx parsed (check_answer fl rerank parse ctx parsed) in
          (
            (λ h. (text, parsed, refl, e, out (ground (arith, rw e at h)))),
            λ (t, other, s, p, g).
                let same : parsed ≡ other =
                  some-injective _ _
                    (sym e ∙ subst (λ x. parse x ≡ some other) (sym (some-injective _ _ s)) p) in
                rw (e, back (subst (λ x. check_answer fl rerank parse ctx x ≡ passed) (sym same) g))
                  refl,
          )
    ]
    finish-answer ctx (failed message) = ((λ h. cc), λ (t, p, e, q, r). cc)
    finish-answer ctx disconnected = ((λ h. cc), λ (t, p, e, q, r). cc)
    finish-answer ctx waiting = ((λ h. cc), λ (t, p, e, q, r). cc)

    check_answer-Grounded :
        (ctx : RetrievalContext fl) (parsed : GateAnswer fl)
        → (check_answer fl rerank parse ctx parsed ≡ passed)
          ↔ Grounded fl rerank parsed
              (chunk_ids fl ctx)
              (text_by_id fl ctx)
              (scale_by_id fl ctx)
              (fl.literal 0 0)
    unfolding check_answer
    check_answer-Grounded ctx parsed =
        live_gate_iff fl rerank parsed (chunk_ids fl ctx) (text_by_id fl ctx) (scale_by_id fl ctx)
          (fl.literal 0 0) (fl.literal 0 0) (some (top1_top2_scores fl ctx))

    progress-silent :
        (events rest : List (Event fl))
        → All (λ e. (is_done fl e ≡ false) × (is_outcome fl e ≡ false)) events
        → any is_answer (events ++ rest) ≡ any is_answer rest
    progress-silent [] rest h = refl
    progress-silent (e ∷ events) rest h = rw (quiet e h.0.1) (progress-silent events rest h.1)
      where
        quiet : (e : Event fl) → is_outcome fl e ≡ false → is_answer e ≡ false
        quiet padding h = refl
        quiet heartbeat h = refl
        quiet (retrieval s) h = refl
        quiet (delta n) h = refl
        quiet (error f) h = refl
        quiet (refusal r s) h = refl
        quiet (answer v u s t cs) h = cc
        quiet done h = refl

    -- With chunks retrieved, the stream carries an answer exactly if the model's text arrives whole,
    -- is a valid answer, and that answer is grounded in the chunks retrieved.
    pub answer_iff_grounded :
        (ctx : RetrievalContext fl) (turns : List (Turn fl)) (opened : ℕ)
        → is_empty (chunks fl ctx) ≡ false
        → (any is_answer (event_stream fl rerank parse (some ctx) turns opened) ≡ true)
          ↔ GroundedAnswer ctx turns
    unfolding event_stream with_context
    answer_iff_grounded ctx turns opened found =
        let events = (receive fl turns [] opened).0 in
        let left = (receive fl turns [] opened).1 in
        let silent =
          progress-silent events (finish fl rerank parse ctx left)
            (receive-Progress fl turns [] opened) in
        let (out, back) = finish-answer ctx left in
        (
          (λ h.
              let (text, parsed, e, p, g) = out (sym silent ∙ (rw found at h)) in
              (
                text,
                parsed,
                sym (receive-all turns opened) ∙ e,
                p,
                (check_answer-Grounded ctx parsed).0 g,
              )),
          λ (text, parsed, e, p, g). rw found (
              silent
              ∙ back (
                text,
                parsed,
                receive-all turns opened ∙ e,
                p,
                (check_answer-Grounded ctx parsed).1 g,
              )),
        )
