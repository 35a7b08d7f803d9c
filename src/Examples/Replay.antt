-- ===== src/Examples/Replay.antt =====
-- The evaluation on two questions: a run, its resumption, the offline replay and the gate of the
-- continuous integration.
use text.Mathlib.Text.{◌==◌ as str_eq}
use text.Mathlib.TextEquality.{eq_iff}
use chat_doc.Runner.{
  waiting, follow, joined, of_cited, decimal_from, decimal, finished, Task, ablated_doc_key,
  generate_for_record, run_split,
}
use chat_doc.Cache.{
  already_has_run_result, record_generation, log_call, count_calls_on_date, get_run_result,
  CacheTables,
}
use chat_doc.Ablation.{
  is_correct, count_where, has_content, l1_margin, no_layers, l2_l3, l1_l2_l3, grade_one,
  Generation, graded, decide,
}
use chat_doc.Regression.{negative_splits, gold_run, main}
use chat_doc.Dataset.{EvalRecord}
use chat_doc.Quota.{acquire, answered, attempts, returned, call, rate_limited, GuardConfig}
use chat_doc.Runner.Results.{missing, Fills, results_of}
use chat_doc.Gate.{
  check_l1_margin, greatest, cited_texts, best_score, support, check_l3b_prose, found_in_cited,
  check_numbers, check_l3a_numeric, refuse_unknown, unknown_ids, check_l2, check_l1, cited_ids,
  insert_sorted, apply_gate, sorted_set,
}
use chat_doc.Gate.Figures.{significant, raw_figure, forms, variants, value_found_in_text}
use chat_doc.Examples.Numbers.{thousandths-Ordered, counting, thousandths}
use chat_doc.Examples.Evaluation.{idle}
use chat_doc.Examples.Answers.{parse_reply, table, small_context, reported}
use chat_doc.Runner.Resume.{run_split_refines, run_split_pays_once, run_split_resumes}
use chat_doc.Regression.Accepts.{main_iff, KeepsRefusing, KeepsAccuracy}
use chat_doc.Query.{check_answer}
use chat_doc.Ablation.Table.{graded_monotone, Restricts, rows_by}
use chat_doc.Runner.Replay.{decide-check_answer}
use chat_doc.Ablation.Threshold.{threshold_monotone}
use chat_doc.Normalize.Search.{search_from, bounded_search}
use chat_doc.Normalize.{numbers_match, scale_multiplier}
use chat_doc.Runner.Ends.{run_split_ends}
use chat_doc.Prelude.{
  All, List, String, [], arith, codes, false, is_some, map, none, refl, remove_code, rstrip_of,
  some, strip_prefix, true, ℕ, ◌+◌, ◌↔◌, ◌∷◌, ◌≡◌, ◌≢◌, ◌≤◌,
}

abbrev asked : EvalRecord thousandths
asked = record {
  financebench_id = "q1";
  question = codes "Revenue?";
  gold_value = 1_234_000;
  tier = codes "N1";
  doc_name = some (codes "ACME_2022");
  served_doc_name = some (codes "ACME_2022");
  ablated_pages = some (3 ∷ []);
}

abbrev kept : Generation thousandths
kept = record {
  parsed = reported;
  retrieved_chunk_ids = 11 ∷ 12 ∷ [];
  chunk_text_by_id = (11, table.text) ∷ [];
  chunk_scale_by_id = (11, none) ∷ [];
  top1_score = some 2000;
  top2_score = some 1000;
}

kept_lem : generate_for_record thousandths small_context.scored reported ≡ kept
unfolding generate_for_record sorted_set insert_sorted cited_ids of_cited
kept_lem = refl

n1_key : ablated_doc_key (codes "ACME") (12 ∷ 3 ∷ []) ≡ codes "ACME__ablate_3-12"
unfolding ablated_doc_key sorted_set insert_sorted decimal decimal_from joined
n1_key = refl

abbrev cached : List (EvalRecord thousandths × Generation thousandths)
cached = (asked, kept) ∷ []

one_correct :
    count_where thousandths
      (is_correct thousandths)
      (graded thousandths counting l1_l2_l3 0 true cached)
    ≡ 1
unfolding graded grade_one decide apply_gate check_l1 check_l2 unknown_ids refuse_unknown cited_ids
    check_l3a_numeric check_numbers found_in_cited value_found_in_text variants forms raw_figure
    significant bounded_search scale_multiplier rstrip_of remove_code check_l3b_prose support
    best_score cited_texts strip_prefix search_from greatest numbers_match has_content l1_margin
    check_l1_margin
one_correct = refl

graded_monotone_example :
    (graded thousandths counting l2_l3 0 true cached
      ≡ rows_by thousandths counting (λ raw. decide thousandths counting raw l2_l3 0 0) true cached)
    × Restricts thousandths counting
        (λ raw. decide thousandths counting raw l2_l3 0 0)
        (λ raw. decide thousandths counting raw no_layers 0 0)
        true
        cached
graded_monotone_example =
    graded_monotone thousandths counting no_layers l2_l3 0 true cached
      ((λ h. h), (λ h. refl), λ h. refl)

threshold_monotone_example :
    (graded thousandths counting l1_l2_l3 1_500 false cached
      ≡ rows_by thousandths counting
          (λ raw. decide thousandths counting raw l1_l2_l3 0 1_500)
          false
          cached)
    × Restricts thousandths counting
        (λ raw. decide thousandths counting raw l1_l2_l3 0 1_500)
        (λ raw. decide thousandths counting raw l1_l2_l3 0 500)
        false
        cached
threshold_monotone_example =
    threshold_monotone thousandths counting thousandths-Ordered 500 1_500 false cached refl

decide-check_answer_example :
    decide thousandths counting
      (generate_for_record thousandths small_context.scored reported)
      l2_l3
      0
      700
    ≡ check_answer thousandths counting parse_reply small_context reported
decide-check_answer_example =
    decide-check_answer thousandths counting parse_reply small_context reported 700

abbrev committed : CacheTables String (Generation thousandths)
committed = record {
  llm_cache = [];
  eval_generations =
      record { run_id = gold_run; question_id = "q1"; key = "k1"; raw = kept; hit = false } ∷ [];
  call_log = [];
}

main_iff_example :
    (main thousandths counting str_eq committed true (asked ∷ []) (asked ∷ []) ≡ 0) ↔ (
      (true ≡ true)
      × KeepsAccuracy thousandths counting str_eq committed (asked ∷ [])
      × All
          (KeepsRefusing thousandths counting str_eq committed (asked ∷ []) (asked ∷ []))
          (negative_splits thousandths))
main_iff_example = main_iff thousandths counting str_eq committed true (asked ∷ []) (asked ∷ [])

abbrev run_guard : GuardConfig
run_guard = record { run_id = "run"; daily_budget = 5; max_calls = 5; dry = false; max_retries = 1 }

abbrev two_tasks : List (Task String ℕ)
two_tasks =
    record {
      question_id = "q1";
      key = "k1";
      day = 20;
      answers = (1_000 ∷ [], rate_limited) ∷ (3_000 ∷ [], returned 7) ∷ [];
    }
    ∷ record { question_id = "q2"; key = "k2"; day = 20; answers = (40_000 ∷ [], returned 8) ∷ [] }
    ∷ []

two_answered : (run_split str_eq run_guard two_tasks idle).0 ≡ finished
unfolding run_split call attempts answered acquire count_calls_on_date log_call record_generation
    already_has_run_result follow
two_answered = refl

three_requests : (run_split str_eq run_guard two_tasks idle).1 ≡ 3
unfolding run_split call attempts answered acquire count_calls_on_date log_call record_generation
    already_has_run_result follow
three_requests = refl

abbrev key_law : (a b : String) → (str_eq a b ≡ true) ↔ (a ≡ b)
key_law a b = eq_iff a b

run_split_refines_example :
    let after = (run_split str_eq run_guard two_tasks idle).2 in
    Fills str_eq key_law two_tasks
      (results_of str_eq key_law run_guard idle)
      (results_of str_eq key_law run_guard after)
    × ((run question : String)
        → str_eq "run" run ≡ false
        → get_run_result str_eq run question after.tables
          ≡ get_run_result str_eq run question idle.tables)
run_split_refines_example = run_split_refines str_eq key_law run_guard two_tasks idle

run_split_pays_once_example :
    let after = (run_split str_eq run_guard two_tasks idle).2 in
    let questions = map (λ (t : Task String ℕ). t.question_id) two_tasks in
    after.calls_this_run + missing str_eq key_law run_guard questions after
    ≤ idle.calls_this_run + missing str_eq key_law run_guard questions idle
run_split_pays_once_example = run_split_pays_once str_eq key_law run_guard two_tasks idle

run_split_resumes_example :
    All
      (λ (t : Task String ℕ).
        is_some (
          results_of str_eq key_law run_guard
            (run_split str_eq run_guard two_tasks idle).2
            t.question_id)
        ≡ true)
      two_tasks
    × (run_split str_eq run_guard two_tasks
          (record idle { tables = (run_split str_eq run_guard two_tasks idle).2.tables })
        ≡ (
          finished,
          0,
          record idle { tables = (run_split str_eq run_guard two_tasks idle).2.tables },
        ))
run_split_resumes_example =
    run_split_resumes str_eq key_law run_guard run_guard two_tasks two_tasks idle
      (record idle { tables = (run_split str_eq run_guard two_tasks idle).2.tables }) refl
      two_answered refl refl refl

abbrev patient_tasks : List (Task String ℕ)
patient_tasks =
    record {
      question_id = "q1";
      key = "k1";
      day = 20;
      answers =
          (1_000 ∷ 6_000 ∷ 61_000 ∷ [], rate_limited) ∷ (62_000 ∷ 122_000 ∷ [], returned 7) ∷ [];
    }
    ∷ []

run_split_ends_example : (run_split str_eq run_guard patient_tasks idle).0 ≢ waiting
run_split_ends_example =
    run_split_ends str_eq run_guard patient_tasks idle (omega arith) (omega arith)
