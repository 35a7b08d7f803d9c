-- ===== src/Quota/Caps.antt =====
-- How many API calls the guard of eval/quota_guard.py lets through.
use chat_doc.Cache.{
  CacheTables, CallOutcome, LogRow, api_call, budget_stop, call_error, cache_hit,
  count_calls_on_date, dry_run, log_call, outcome_eq,
}
use chat_doc.Quota.{
  answered, acquire, CallResult, Attempt, got, planned, quota_exceeded, rate_limit_raised,
  error_raised, unfinished, GuardConfig, GuardState, attempts, call, broken, rate_limited, returned,
}
use chat_doc.Prelude.{
  ==_iff, Bool, Bool-cases, List, Option, Option-cases, String, [], ap, arith, if◌then◌else◌, inl,
  inr, leb, length, length-append, ltb, refl, select, select-append, some, ℕ, ◌&&◌, ◌+◌, ◌<◌, ◌==◌,
  ◌∙◌, ◌∷◌, ◌≡◌, ◌≤◌,
}

-- One for a call that returns a result.
abbrev pub result_of : {T : Type 0} → CallResult T → ℕ
result_of (got r) = 1
result_of planned = 0
result_of quota_exceeded = 0
result_of rate_limit_raised = 0
result_of error_raised = 0
result_of unfinished = 0

result_of-le : {T : Type 0} (r : CallResult T) → result_of r ≤ 1
result_of-le (got r) = omega arith
result_of-le planned = omega arith
result_of-le quota_exceeded = omega arith
result_of-le rate_limit_raised = omega arith
result_of-le error_raised = omega arith
result_of-le unfinished = omega arith

module _ {K J : Type 0} (key_eq : K → K → Bool) where
  counted_log :
      (run_id : String) (question : Option String) (outcome : CallOutcome) (day : ℕ)
      (t : CacheTables K J)
      → count_calls_on_date key_eq day api_call (log_call key_eq run_id question outcome day t)
        ≡ count_calls_on_date key_eq day api_call t + (if outcome_eq outcome api_call then 1 else 0)
  unfolding count_calls_on_date log_call
  counted_log run_id question outcome day t =
      let p : LogRow → Bool = λ r. outcome_eq r.outcome api_call && r.day == day in
      let row : LogRow = record {
        run_id = run_id;
        question_id = question;
        outcome = outcome;
        day = day;
      } in
      ap length (select-append p t.call_log (row ∷ []))
      ∙ length-append (select p t.call_log) (select p (row ∷ []))
      ∙ ap (λ n. length (select p t.call_log) + n) (one outcome)
    where
      one :
          (o : CallOutcome)
          → length (
              select
                (λ (r : LogRow). outcome_eq r.outcome api_call && r.day == day)
                (record { run_id = run_id; question_id = question; outcome = o; day = day } ∷ []))
            ≡ (if outcome_eq o api_call then 1 else 0)
      one cache_hit = refl
      one api_call = rw ((==_iff day day).1 refl) refl
      one call_error = refl
      one budget_stop = refl
      one dry_run = refl

  -- The calls of the day, and of the run, within the caps.
  abbrev pub WithinCaps : GuardConfig → ℕ → GuardState K J → Type 0
  WithinCaps g day st =
      (count_calls_on_date key_eq day api_call st.tables ≤ g.daily_budget)
      × (st.calls_this_run ≤ g.max_calls)

  -- What holds of the loop of a call: it sends at most one request and the retries that are left,
  -- and both counters go up by its result, if it has one.
  abbrev Modest :
      {T : Type 0}
      → GuardConfig
      → ℕ
      → ℕ
      → GuardState K J
      → CallResult T × ℕ × GuardState K J
      → Type 0
  Modest g day tried st r =
      (r.1 + tried ≤ g.max_retries + 1)
      × (count_calls_on_date key_eq day api_call r.2.tables
          ≡ count_calls_on_date key_eq day api_call st.tables + result_of r.0)
      × (r.2.calls_this_run ≡ st.calls_this_run + result_of r.0)

  answered-Modest :
      {T : Type 0} (g : GuardConfig) (question : String) (day tried : ℕ) (answer : Attempt T)
      (st : GuardState K J) (retried : CallResult T × ℕ × GuardState K J)
      → tried ≤ g.max_retries
      → (tried + 1 ≤ g.max_retries → Modest g day (tried + 1) st retried)
      → Modest g day tried st (answered key_eq g question day tried answer st retried)
  unfolding answered
  answered-Modest g question day tried (returned r) st retried h more =
      let c = counted_log g.run_id (some question) api_call day st.tables in
      (omega arith, omega arith, omega arith)
  answered-Modest g question day tried broken st retried h more =
      let c = counted_log g.run_id (some question) call_error day st.tables in
      (omega arith, omega arith, omega arith)
  answered-Modest g question day tried rate_limited st retried h more =
      let c = counted_log g.run_id (some question) call_error day st.tables in
      elim (Bool-cases (ltb g.max_retries (tried + 1))) [
        | inl e ↦ rw e (omega arith, omega arith, omega arith)
        | inr e ↦ let (sent, calls, run) = more (ground arith) in rw e (omega arith, calls, run)
      ]

  attempts-caps :
      {T : Type 0} (g : GuardConfig) (question : String) (day tried : ℕ)
      (answers : List (List ℕ × Attempt T)) (st : GuardState K J)
      → tried ≤ g.max_retries
      → Modest g day tried st (attempts key_eq g question day tried answers st)
  unfolding attempts
  attempts-caps g question day tried [] st h = (omega arith, omega arith, omega arith)
  attempts-caps g question day tried ((clock, answer) ∷ rest) st h =
      let st' = record st { bucket = (acquire clock st.bucket).1 } in
      elim (Option-cases (acquire clock st.bucket).0) [
        | inl n ↦ rw n (omega arith, omega arith, omega arith)
        | inr (now, e) ↦ rw e (
            answered-Modest g question day tried answer st'
              (attempts key_eq g question day (tried + 1) rest st') h
              (λ more. attempts-caps g question day (tried + 1) rest st' more))
      ]

  -- A call within the caps is counted, and one at a cap has no result.
  call-caps :
      {T : Type 0} (g : GuardConfig) (question : String) (day : ℕ)
      (answers : List (List ℕ × Attempt T)) (st : GuardState K J)
      → WithinCaps g day st
      → let r = call key_eq g question day answers st in Modest g day 0 st r × WithinCaps g day r.2
  unfolding call
  call-caps g question day answers st (calls, run) =
      let dry = counted_log g.run_id (some question) dry_run day st.tables in
      let stop = counted_log g.run_id (some question) budget_stop day st.tables in
      let (sent, more, ran) = attempts-caps g question day 0 answers st (omega arith) in
      let one = result_of-le (attempts key_eq g question day 0 answers st).0 in
      elim (Bool-cases g.dry) [
        | inl e ↦ rw e ((omega arith, omega arith, omega arith), (omega arith, run))
        | inr e ↦ elim (Bool-cases (leb g.max_calls st.calls_this_run)) [
          | inl full ↦ rw (e, full) ((omega arith, omega arith, omega arith), (omega arith, run))
          | inr room ↦
              elim (Bool-cases
                (leb g.daily_budget (count_calls_on_date key_eq day api_call st.tables))) [
                  | inl spent ↦
                      rw (e, room, spent)
                        ((omega arith, omega arith, omega arith), (omega arith, run))
                  | inr left ↦
                      let below : st.calls_this_run < g.max_calls = ground arith in
                      let under : count_calls_on_date key_eq day api_call st.tables
                          < g.daily_budget =
                        ground arith in
                      rw (e, room, left) ((omega arith, more, ran), (omega arith, omega arith))
                ]
        ]
      ]

  -- A run of calls on one day: the questions with the answers that the API would give.
  abbrev pub call_all :
      {T : Type 0}
      → GuardConfig
      → ℕ
      → List (String × List (List ℕ × Attempt T))
      → GuardState K J
      → GuardState K J
  call_all g day [] st = st
  call_all g day ((question, answers) ∷ rest) st =
      call_all g day rest (call key_eq g question day answers st).2

  -- The results that the calls of a run return.
  abbrev pub results_of :
      {T : Type 0}
      → GuardConfig
      → ℕ
      → List (String × List (List ℕ × Attempt T))
      → GuardState K J
      → ℕ
  results_of g day [] st = 0
  results_of g day ((question, answers) ∷ rest) st =
      let r = call key_eq g question day answers st in result_of r.0 + results_of g day rest r.2

  -- Within one day no run of calls, however long and whatever the API answers, returns more results
  -- than max_calls leaves to it, or than the budget leaves to the day; both counters have then
  -- counted exactly the results and are within the caps; and a call sends at most max_retries + 1
  -- requests.
  pub calls-WithinCaps :
      {T : Type 0} (g : GuardConfig) (day : ℕ) (run : List (String × List (List ℕ × Attempt T)))
      (st : GuardState K J)
      → WithinCaps g day st
      → (st.calls_this_run + results_of g day run st ≤ g.max_calls)
        × (count_calls_on_date key_eq day api_call st.tables + results_of g day run st
            ≤ g.daily_budget)
        × ((call_all g day run st).calls_this_run ≡ st.calls_this_run + results_of g day run st)
        × (count_calls_on_date key_eq day api_call (call_all g day run st).tables
            ≡ count_calls_on_date key_eq day api_call st.tables + results_of g day run st)
        × ((question : String) (answers : List (List ℕ × Attempt T))
            → (call key_eq g question day answers (call_all g day run st)).1 ≤ g.max_retries + 1)
  calls-WithinCaps g day [] st h = (
    omega (arith, h.1),
    omega (arith, h.0),
    omega arith,
    omega arith,
    λ question answers.
        let ((sent, _, _), _) = call-caps g question day answers st h in omega arith,
  )
  calls-WithinCaps g day ((question, answers) ∷ rest) st h =
      let ((_, more, ran), kept) = call-caps g question day answers st h in
      let r = call key_eq g question day answers st in
      let (run_cap, day_cap, run_count, day_count, sent) = calls-WithinCaps g day rest r.2 kept in
      (omega arith, omega arith, omega arith, omega arith, sent)
