-- ===== src/Quota.antt =====
-- eval/quota_guard.py: the token bucket and the guard of the API calls. Times are milliseconds and a
-- token is 60000 parts, so that a bucket of `rpm` requests a minute gains `rpm` parts a millisecond:
-- for a whole number of requests a minute this is exact.
pub mod Rate
pub mod Caps
pub mod Ends
pub mod Honest
use chat_doc.Cache.{
  CallOutcome, CacheTables, api_call, budget_stop, call_error, count_calls_on_date, dry_run,
  log_call,
}
use chat_doc.Prelude.{
  Bool, List, Option, String, [], if◌then◌else◌, leb, ltb, min, none, some, ℕ, ◌*◌, ◌+◌, ◌-◌, ◌∷◌,
}

abbrev pub default_rpm : ℕ
default_rpm = 10

abbrev pub token : ℕ
token = 60_000

abbrev pub max_retries_default : ℕ
max_retries_default = 6

pub record TokenBucket : Type 0 where
  pub rpm : ℕ
  pub tokens : ℕ
  pub last_refill : ℕ

abbrev pub refill : ℕ → TokenBucket → TokenBucket
refill now b = record b {
  tokens = min (b.rpm * token) (b.tokens + (now - b.last_refill) * b.rpm);
  last_refill = now;
}

-- The loop of `acquire`, over the readings of the clock after each sleep: when the token was taken,
-- or none while it still waits.
unfoldable pub acquire : List ℕ → TokenBucket → Option ℕ × TokenBucket
acquire [] b = (none, b)
acquire (now ∷ clock) b =
    let b' = refill now b in
    let waited = acquire clock b' in
    if leb token b'.tokens then (some now, record b' { tokens = b'.tokens - token }) else waited

-- How one request ends.
pub data Attempt (T : Type 0) : Type 0 where
  returned : T → Attempt T
  rate_limited : Attempt T
  broken : Attempt T

-- What `call` does: returns, returns None of a dry run, or raises.
pub data CallResult (T : Type 0) : Type 0 where
  got : T → CallResult T
  planned : CallResult T
  quota_exceeded : CallResult T
  rate_limit_raised : CallResult T
  error_raised : CallResult T
  unfinished : CallResult T

pub record GuardConfig : Type 0 where
  pub run_id : String
  pub daily_budget : ℕ
  pub max_calls : ℕ
  pub dry : Bool
  pub max_retries : ℕ

pub record GuardState (K J : Type 0) : Type 0 where
  pub tables : CacheTables K J
  pub calls_this_run : ℕ
  pub bucket : TokenBucket

module _ {K J : Type 0} (key_eq : K → K → Bool) where
  abbrev pub logged : GuardConfig → String → CallOutcome → ℕ → GuardState K J → GuardState K J
  logged g question outcome day st = record st {
    tables = log_call key_eq g.run_id (some question) outcome day st.tables;
  }

  -- What follows a request that has been sent; `retried` is the rest of the loop.
  unfoldable pub answered :
      {T : Type 0}
      → GuardConfig
      → String
      → ℕ
      → ℕ
      → Attempt T
      → GuardState K J
      → CallResult T × ℕ × GuardState K J
      → CallResult T × ℕ × GuardState K J
  answered g question day tried (returned r) st retried = (
    got r,
    1,
    record (logged g question api_call day st) { calls_this_run = st.calls_this_run + 1 },
  )
  answered g question day tried broken st retried =
      (error_raised, 1, logged g question call_error day st)
  answered g question day tried rate_limited st (result, sent, after) =
      if ltb g.max_retries (tried + 1)
      then (rate_limit_raised, 1, logged g question call_error day st)
      else (result, sent + 1, after)

  abbrev pub waited :
      {T : Type 0}
      → Option ℕ
      → GuardState K J
      → CallResult T × ℕ × GuardState K J
      → CallResult T × ℕ × GuardState K J
  waited none st next = (unfinished, 0, st)
  waited (some now) st next = next

  -- The loop of `call` from an attempt on: its result, the requests that it sent, and the state. Each
  -- attempt is the readings of the clock while it waits for a token, and the answer of the API.
  unfoldable pub attempts :
      {T : Type 0}
      → GuardConfig
      → String
      → ℕ
      → ℕ
      → List (List ℕ × Attempt T)
      → GuardState K J
      → CallResult T × ℕ × GuardState K J
  unfolding answered acquire
  attempts g question day tried [] st = (unfinished, 0, st)
  attempts g question day tried ((clock, answer) ∷ rest) st =
      let st' = record st { bucket = (acquire clock st.bucket).1 } in
      let retried = attempts g question day (tried + 1) rest st' in
      waited (acquire clock st.bucket).0 st' (answered g question day tried answer st' retried)

  -- QuotaGuard.call: `day` is today's date.
  unfoldable pub call :
      {T : Type 0}
      → GuardConfig
      → String
      → ℕ
      → List (List ℕ × Attempt T)
      → GuardState K J
      → CallResult T × ℕ × GuardState K J
  unfolding attempts
  call g question day answers st =
      if g.dry
      then (planned, 0, logged g question dry_run day st)
      else if leb g.max_calls st.calls_this_run
      then (quota_exceeded, 0, logged g question budget_stop day st)
      else if leb g.daily_budget (count_calls_on_date key_eq day api_call st.tables)
      then (quota_exceeded, 0, logged g question budget_stop day st)
      else attempts g question day 0 answers st
