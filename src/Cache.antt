-- ===== src/Cache.antt =====
-- eval/cache.py: the generation cache and the run results, as the tables of its SQLite file. A cache
-- key (sha256 of model, parameters and prompt) is a parameter, and so are the stored values.
pub mod Resume
use text.Mathlib.Text.{◌==◌ as str_eq}
use chat_doc.Prelude.{
  Bool, List, Option, String, [], any, false, find, if◌then◌else◌, length, not, select, some, true,
  ℕ, ◌&&◌, ◌++◌, ◌==◌, ◌>>=◌, ◌∷◌,
}

pub data CallOutcome : Type 0 where
  cache_hit api_call call_error budget_stop dry_run : CallOutcome

abbrev pub outcome_eq : CallOutcome → CallOutcome → Bool
outcome_eq cache_hit cache_hit = true
outcome_eq api_call api_call = true
outcome_eq call_error call_error = true
outcome_eq budget_stop budget_stop = true
outcome_eq dry_run dry_run = true
outcome_eq _ _ = false

pub record LogRow : Type 0 where
  pub run_id : String
  pub question_id : Option String
  pub outcome : CallOutcome
  pub day : ℕ

-- A generation as it is stored: the raw value with its measures.
pub record RunRow (K J : Type 0) : Type 0 where
  pub run_id : String
  pub question_id : String
  pub key : K
  pub raw : J
  pub hit : Bool

pub record CacheTables (K J : Type 0) : Type 0 where
  pub llm_cache : List (K × J)
  pub eval_generations : List (RunRow K J)
  pub call_log : List LogRow

module _ {K J : Type 0} (key_eq : K → K → Bool) where
  -- SELECT raw_json FROM llm_cache WHERE cache_key = ?
  unfoldable pub lookup : K → CacheTables K J → Option J
  lookup key t = find (λ (r : K × J). key_eq r.0 key) t.llm_cache >>= (λ r. some r.1)

  abbrev pub of_question : String → String → RunRow K J → Bool
  of_question run_id question_id r = str_eq r.run_id run_id && str_eq r.question_id question_id

  unfoldable pub already_has_run_result : String → String → CacheTables K J → Bool
  already_has_run_result run_id question_id t =
      any (of_question run_id question_id) t.eval_generations

  unfoldable pub get_run_result : String → String → CacheTables K J → Option J
  get_run_result run_id question_id t =
      find (of_question run_id question_id) t.eval_generations >>= (λ r. some r.raw)

  -- INSERT OR REPLACE: the row with the same primary key goes, the new one is added.
  abbrev pub cache_put : K → J → List (K × J) → List (K × J)
  cache_put key raw rows = select (λ (r : K × J). not (key_eq r.0 key)) rows ++ (key, raw) ∷ []

  abbrev pub run_put : RunRow K J → List (RunRow K J) → List (RunRow K J)
  run_put row rows = select (λ r. not (of_question row.run_id row.question_id r)) rows ++ row ∷ []

  unfoldable pub record_generation :
      String → String → K → J → Bool → CacheTables K J → CacheTables K J
  record_generation run_id question_id key raw hit t = record t {
    llm_cache = if hit then t.llm_cache else cache_put key raw t.llm_cache;
    eval_generations =
        run_put
          (record { run_id = run_id; question_id = question_id; key = key; raw = raw; hit = hit })
          t.eval_generations;
  }

  unfoldable pub log_call :
      String → Option String → CallOutcome → ℕ → CacheTables K J → CacheTables K J
  log_call run_id question_id outcome day t = record t {
    call_log =
        t.call_log
        ++ record { run_id = run_id; question_id = question_id; outcome = outcome; day = day } ∷ [];
  }

  -- Over all runs: the budget is per key.
  unfoldable pub count_calls_on_date : ℕ → CallOutcome → CacheTables K J → ℕ
  count_calls_on_date day outcome t =
      length (select (λ r. outcome_eq r.outcome outcome && r.day == day) t.call_log)
