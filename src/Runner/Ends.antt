-- ===== src/Runner/Ends.antt =====
-- A run of eval/runner_v2.py ends.
use chat_doc.Runner.{
  stored, got, unfinished, call, already_has_run_result, CallResult, waiting, RunEnd, GuardState,
  Task, GuardConfig, run_split, follow,
}
use chat_doc.Quota.Ends.{call_ends, Served}
use chat_doc.Quota.Honest.{call-Honest, Honest}
use chat_doc.Quota.{error_raised, rate_limit_raised, quota_exceeded, planned}
use chat_doc.Prelude.{All, Bool, Bool-cases, List, [], arith, inl, inr, refl, ℕ, ◌∷◌, ◌≢◌, ◌≤◌}

module _ {K J : Type 0} (key_eq : K → K → Bool) where
  follow_ends :
      (g : GuardConfig) (t : Task K J) (st : GuardState K J)
      (rest : GuardState K J → RunEnd × ℕ × GuardState K J)
      (out : CallResult J × ℕ × GuardState K J)
      → 1 ≤ st.bucket.rpm
      → ((st' : GuardState K J) → 1 ≤ st'.bucket.rpm → (rest st').0 ≢ waiting)
      → Honest key_eq g st t.answers out
      → out.0 ≢ unfinished
      → (follow key_eq g t rest out).0 ≢ waiting
  unfolding follow
  follow_ends g t st rest (got raw, sent, mid) h ih honest ends =
      ih (stored key_eq g t raw mid) (omega (arith, honest.same_rpm))
  follow_ends g t st rest (planned, sent, mid) h ih honest ends =
      ih mid (omega (arith, honest.same_rpm))
  follow_ends g t st rest (quota_exceeded, sent, mid) h ih honest ends = λ e. cc
  follow_ends g t st rest (rate_limit_raised, sent, mid) h ih honest ends = λ e. cc
  follow_ends g t st rest (error_raised, sent, mid) h ih honest ends = λ e. cc
  follow_ends g t st rest (unfinished, sent, mid) h ih honest ends = λ e. ends refl

  -- A run ends, with its last record, at a cap or by an exception, and is not left waiting: where
  -- the bucket gains a token a minute at least, each record's requests are answered, one way or
  -- another, up to the last retry, and every wait for a token goes on, if it has to, for a minute.
  pub run_split_ends :
      (g : GuardConfig) (tasks : List (Task K J)) (st : GuardState K J)
      → 1 ≤ st.bucket.rpm
      → All (λ (t : Task K J). Served key_eq g 0 t.answers) tasks
      → (run_split key_eq g tasks st).0 ≢ waiting
  unfolding run_split
  run_split_ends g [] st h s = λ e. cc
  run_split_ends g (t ∷ tasks) st h s =
      elim (Bool-cases (already_has_run_result key_eq g.run_id t.question_id st.tables)) [
        | inl has ↦ rw (has, run_split) (run_split_ends g tasks st h s.1)
        | inr lacks ↦
            rw (lacks, run_split)
              (follow_ends g t st (λ st'. run_split key_eq g tasks st')
                (call key_eq g t.question_id t.day t.answers st) h
                (λ st' h'. run_split_ends g tasks st' h' s.1)
                (call-Honest key_eq g t.question_id t.day t.answers st)
                (call_ends key_eq g t.question_id t.day t.answers st h s.0))
      ]
