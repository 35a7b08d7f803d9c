-- ===== src/Quota/Honest.antt =====
-- What one guarded call (eval/quota_guard.py call) can give and what it leaves alone.
use chat_doc.Quota.{
  acquire, planned, waited, returned, GuardState, attempts, answered, got, GuardConfig, call,
  CallResult, Attempt, broken, rate_limited, quota_exceeded, logged,
}
use chat_doc.Quota.Ends.{acquire-rpm}
use chat_doc.Cache.{log_call, api_call, budget_stop, count_calls_on_date, dry_run, CallOutcome}
use chat_doc.Prelude.{
  Bool, Bool-cases, List, Option, String, [], arith, false, if◌then◌else◌, inl, inr, leb, ltb, none,
  refl, some, true, ℕ, ◌+◌, ◌∙◌, ◌∷◌, ◌≡◌, ◌⊎◌,
}

module _ {K J : Type 0} (key_eq : K → K → Bool) where
  -- One of the requests returned the value.
  abbrev pub Returned : J → List (List ℕ × Attempt J) → Type 0
  Returned raw [] = ⊥
  Returned raw ((clock, answer) ∷ rest) = (answer ≡ returned raw) ⊎ Returned raw rest

  abbrev pub gained : CallResult J → ℕ
  gained (got raw) = 1
  gained r = 0

  -- A guarded call leaves the generations and the cache alone, counts the values that it gives, and
  -- gives only what a request has returned.
  pub record Honest (g : GuardConfig) (st : GuardState K J) (answers : List (List ℕ × Attempt J))
      (out : CallResult J × ℕ × GuardState K J) : Type 0 where
    pub same_results : out.2.tables.eval_generations ≡ st.tables.eval_generations
    pub same_cache : out.2.tables.llm_cache ≡ st.tables.llm_cache
    pub from : (raw : J) → out.0 ≡ got raw → Returned raw answers
    pub same_rpm : out.2.bucket.rpm ≡ st.bucket.rpm
    pub planned_dry : out.0 ≡ planned → g.dry ≡ true
    pub counted : out.2.calls_this_run ≡ st.calls_this_run + gained out.0

  answered-Honest :
      (g : GuardConfig) (question : String) (day tried : ℕ) (clock : List ℕ) (answer : Attempt J)
      (rest : List (List ℕ × Attempt J)) (st : GuardState K J)
      (out : CallResult J × ℕ × GuardState K J)
      → Honest g st rest out
      → Honest g st ((clock, answer) ∷ rest) (answered key_eq g question day tried answer st out)
  unfolding answered log_call
  answered-Honest g question day tried clock (returned r) rest st out h = record {
    same_results = refl;
    same_cache = refl;
    same_rpm = refl;
    from = λ raw e. inl (cc);
    planned_dry = λ e. cc;
    counted = refl;
  }
  answered-Honest g question day tried clock broken rest st out h = record {
    same_results = refl;
    same_cache = refl;
    same_rpm = refl;
    from = λ raw e. cc;
    planned_dry = λ e. cc;
    counted = omega arith;
  }
  answered-Honest g question day tried clock rate_limited rest st out h =
      elim (Bool-cases (ltb g.max_retries (tried + 1))) [
        | inl t ↦ rw t (record {
          same_results = refl;
          same_cache = refl;
          same_rpm = refl;
          from = λ raw e. cc;
          planned_dry = λ e. cc;
          counted = omega arith;
        })
        | inr t ↦ rw t (record {
          same_results = h.same_results;
          same_cache = h.same_cache;
          same_rpm = h.same_rpm;
          from = λ raw e. inr (h.from raw e);
          planned_dry = h.planned_dry;
          counted = h.counted;
        })
      ]

  waited-Honest :
      (g : GuardConfig) (turn : Option ℕ) (st : GuardState K J)
      (answers : List (List ℕ × Attempt J)) (out : CallResult J × ℕ × GuardState K J)
      → Honest g st answers out
      → Honest g st answers (waited key_eq turn st out)
  waited-Honest g none st answers out h = record {
    same_results = refl;
    same_cache = refl;
    same_rpm = refl;
    from = λ raw e. cc;
    planned_dry = λ e. cc;
    counted = omega arith;
  }
  waited-Honest g (some now) st answers out h = h

  attempts-Honest :
      (g : GuardConfig) (question : String) (day tried : ℕ) (answers : List (List ℕ × Attempt J))
      (st : GuardState K J)
      → Honest g st answers (attempts key_eq g question day tried answers st)
  unfolding attempts
  attempts-Honest g question day tried [] st = record {
    same_results = refl;
    same_cache = refl;
    same_rpm = refl;
    from = λ raw e. cc;
    planned_dry = λ e. cc;
    counted = omega arith;
  }
  attempts-Honest g question day tried ((clock, answer) ∷ rest) st =
      let st' = record st { bucket = (acquire clock st.bucket).1 } in
      let out = attempts key_eq g question day (tried + 1) rest st' in
      let h =
        waited-Honest g (acquire clock st.bucket).0 st' ((clock, answer) ∷ rest)
          (answered key_eq g question day tried answer st' out)
          (answered-Honest g question day tried clock answer rest st' out
            (attempts-Honest g question day (tried + 1) rest st')) in
      record {
        same_results = h.same_results;
        same_cache = h.same_cache;
        same_rpm = h.same_rpm ∙ acquire-rpm clock st.bucket;
        from = h.from;
        planned_dry = h.planned_dry;
        counted = h.counted;
      }

  pub call-Honest :
      (g : GuardConfig) (question : String) (day : ℕ) (answers : List (List ℕ × Attempt J))
      (st : GuardState K J)
      → Honest g st answers (call key_eq g question day answers st)
  unfolding call log_call
  call-Honest g question day answers st =
      chosen g.dry (leb g.max_calls st.calls_this_run)
        (leb g.daily_budget (count_calls_on_date key_eq day api_call st.tables)) refl
    where
      logs_only :
          (r : CallResult J) (outcome : CallOutcome)
          → ((raw : J) → r ≡ got raw → Returned raw answers)
          → (r ≡ planned → g.dry ≡ true)
          → st.calls_this_run ≡ st.calls_this_run + gained r
          → Honest g st answers (r, 0, logged key_eq g question outcome day st)
      logs_only r outcome f p c = record {
        same_results = refl;
        same_cache = refl;
        same_rpm = refl;
        from = f;
        planned_dry = p;
        counted = c;
      }

      chosen :
          (d m b : Bool)
          → g.dry ≡ d
          → Honest g st answers (
              if d
              then (planned, 0, logged key_eq g question dry_run day st)
              else if m
              then (quota_exceeded, 0, logged key_eq g question budget_stop day st)
              else if b
              then (quota_exceeded, 0, logged key_eq g question budget_stop day st)
              else attempts key_eq g question day 0 answers st)
      chosen true m b e = logs_only planned dry_run (λ raw f. cc) (λ f. e) (omega arith)
      chosen false true b e =
          logs_only quota_exceeded budget_stop (λ raw f. cc) (λ f. cc) (omega arith)
      chosen false false true e =
          logs_only quota_exceeded budget_stop (λ raw f. cc) (λ f. cc) (omega arith)
      chosen false false false e = attempts-Honest g question day 0 answers st
