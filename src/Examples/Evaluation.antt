-- ===== src/Examples/Evaluation.antt =====
-- The cache and the guard of the evaluation, on a few calls.
use text.Mathlib.Text.{◌==◌ as str_eq}
use text.Mathlib.TextEquality.{eq_iff}
use chat_doc.Cache.{
  api_call, log_call, count_calls_on_date, CacheTables, record_generation, lookup, get_run_result,
}
use chat_doc.Quota.{
  answered, token, attempts, Attempt, GuardConfig, GuardState, TokenBucket, call, acquire, returned,
  rate_limited, broken,
}
use chat_doc.Cache.Resume.{record_generation-lookup}
use chat_doc.Quota.Caps.{calls-WithinCaps, call_all, results_of, WithinCaps}
use chat_doc.Quota.Rate.{acquire-rate, acquire_all, RisingAll}
use chat_doc.Prelude.{List, String, [], arith, false, refl, some, ℕ, ◌&&◌, ◌*◌, ◌+◌, ◌∷◌, ◌≡◌, ◌≤◌}

abbrev pub no_tables : CacheTables String ℕ
no_tables = record { llm_cache = []; eval_generations = []; call_log = [] }

record_generation-lookup_example :
    let after = record_generation str_eq "run" "q1" "k" 7 false no_tables in
    (get_run_result str_eq "run" "q1" after ≡ some 7)
    × (false ≡ false → lookup str_eq "k" after ≡ some 7)
    × ((run' question' : String)
        → (str_eq "run" run' && str_eq "q1" question') ≡ false
        → get_run_result str_eq run' question' after
          ≡ get_run_result str_eq run' question' no_tables)
    × ((key' : String)
        → str_eq "k" key' ≡ false
        → lookup str_eq key' after ≡ lookup str_eq key' no_tables)
record_generation-lookup_example =
    record_generation-lookup str_eq (λ a b. eq_iff a b) "run" "q1" "k" 7 false no_tables

abbrev pub guard : GuardConfig
guard = record { run_id = "run"; daily_budget = 2; max_calls = 1; dry = false; max_retries = 1 }

abbrev pub idle : GuardState String ℕ
idle = record {
  tables = no_tables;
  calls_this_run = 0;
  bucket = record { rpm = 2; tokens = 120_000; last_refill = 1_000 };
}

abbrev busy : List (String × List (List ℕ × Attempt ℕ))
busy =
    ("q1", (1_000 ∷ [], rate_limited) ∷ (3_000 ∷ [], returned 7) ∷ [])
    ∷ ("q2", (60_000 ∷ [], returned 8) ∷ [])
    ∷ ("q3", (90_000 ∷ [], broken) ∷ [])
    ∷ []

one_result : results_of str_eq guard 20 busy idle ≡ 1
unfolding call attempts answered acquire count_calls_on_date log_call
one_result = refl

idle-WithinCaps : WithinCaps str_eq guard 20 idle
unfolding count_calls_on_date
idle-WithinCaps = (omega arith, omega arith)

calls-WithinCaps_example :
    (0 + results_of str_eq guard 20 busy idle ≤ 1)
    × (count_calls_on_date str_eq 20 api_call no_tables + results_of str_eq guard 20 busy idle ≤ 2)
    × ((call_all str_eq guard 20 busy idle).calls_this_run
        ≡ 0 + results_of str_eq guard 20 busy idle)
    × (count_calls_on_date str_eq 20 api_call (call_all str_eq guard 20 busy idle).tables
        ≡ count_calls_on_date str_eq 20 api_call no_tables + results_of str_eq guard 20 busy idle)
    × ((question : String) (answers : List (List ℕ × Attempt ℕ))
        → (call str_eq guard question 20 answers (call_all str_eq guard 20 busy idle)).1 ≤ 2)
calls-WithinCaps_example = calls-WithinCaps str_eq guard 20 busy idle idle-WithinCaps

abbrev bucket : TokenBucket
bucket = record { rpm = 2; tokens = 120_000; last_refill = 1_000 }

abbrev waits : List (List ℕ)
waits = (1_000 ∷ []) ∷ (1_500 ∷ []) ∷ (2_000 ∷ 7_000 ∷ 31_000 ∷ []) ∷ []

waits-rising : RisingAll waits bucket
unfolding acquire
waits-rising = omega arith

acquire-rate_example :
    let r = acquire_all waits bucket in (r.0 * token + 1_000 * 2 ≤ 2 * token + r.1.last_refill * 2)
acquire-rate_example = acquire-rate waits bucket (omega arith) waits-rising
