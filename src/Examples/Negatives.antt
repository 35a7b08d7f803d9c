-- ===== src/Examples/Negatives.antt =====
-- The tiers of negatives on one company with two filings.
use text.Mathlib.Text.{◌==◌ as str_eq}
use text.Mathlib.TextEquality.{eq_iff}
use chat_doc.Gate.{sorted_set, insert_sorted}
use chat_doc.Gate.Figures.{forms}
use chat_doc.Normalize.Search.{bounded_search, search_from, matches_at}
use chat_doc.BuildDataset.{
  Question, assert_evidence_page_off_by_one, check_ok, off_by_one, skipped, classify,
}
use chat_doc.Negatives.{
  negative_of, Answerable, DocInfo, build_n2, Negative, build_n1, n1, n2, candidates, choice,
  sorted_texts, insert_text, leaks_elsewhere, gold_figure_variants, leaks_from, n2_item, info_of,
}
use chat_doc.Runner.{finished, Task}
use chat_doc.Quota.{GuardState}
use chat_doc.Cache.{get_run_result, lookup}
use chat_doc.Negatives.Tiers.{build_n1_sound, build_n2_sound, IsOther, IsAblated, OfRecords}
use chat_doc.Baseline.{run_naive}
use chat_doc.Examples.Numbers.{thousandths}
use chat_doc.Examples.Evaluation.{no_tables, idle, guard}
use chat_doc.Baseline.Free.{run_naive_free, Known}
use chat_doc.Prelude.{
  All, List, Option, String, Text, [], codes, false, if◌then◌else◌, inr, is_some, length, none,
  refl, remove_code, rstrip_of, select, some, strip_prefix, text_eq, true, ℕ, ◌+◌, ◌∷◌, ◌≡◌,
}

abbrev capex : Answerable thousandths
capex = record {
  financebench_id = "q1";
  question = codes "Capex?";
  gold_value = 1_577_000;
  gold_is_percent = false;
  doc_name = codes "A_2018_10K";
  company = codes "A";
  evidence_pages = 1 ∷ [];
}

abbrev filings : List DocInfo
filings =
    record { name = codes "A_2018_10K"; company = codes "A"; doc_period = 2018 }
    ∷ record { name = codes "A_2018_10Q"; company = codes "A"; doc_period = 2018 }
    ∷ []

abbrev pages_of : Text → Option (List Text)
pages_of name =
    if text_eq name (codes "A_2018_10K")
    then some (codes "Risks" ∷ codes "Capex 1577" ∷ [])
    else some (codes "Nothing 15770" ∷ [])

abbrev ablated : Negative thousandths
ablated = negative_of thousandths capex (n1 (1 ∷ [])) (codes "A_2018_10K")

n1_built : build_n1 thousandths pages_of (capex ∷ []) ≡ (ablated ∷ [], 0)
unfolding build_n1 leaks_elsewhere gold_figure_variants leaks_from forms bounded_search search_from
    matches_at strip_prefix rstrip_of remove_code text_eq sorted_set insert_sorted
n1_built = refl

-- Another document of the same fiscal year is served as a temporal mismatch.
abbrev same_year : Negative thousandths
same_year = negative_of thousandths capex (n2 (codes "A_2018_10K") 2018 2018) (codes "A_2018_10Q")

n2_built : build_n2 thousandths pages_of (λ n. n) filings (capex ∷ []) 0 ≡ some (same_year ∷ [], 0)
unfolding build_n2 candidates choice sorted_texts insert_text leaks_elsewhere gold_figure_variants
    leaks_from forms bounded_search search_from matches_at strip_prefix rstrip_of remove_code
    text_eq n2_item info_of
n2_built = refl

-- The document of a record that has no PDF ends the tier with a KeyError.
n2_key_error :
    build_n2 thousandths pages_of
      (λ n. n)
      (record { name = codes "A_2019_10K"; company = codes "A"; doc_period = 2019 } ∷ [])
      (capex ∷ [])
      0
    ≡ none
unfolding build_n2 candidates choice sorted_texts insert_text leaks_elsewhere gold_figure_variants
    leaks_from forms bounded_search search_from matches_at strip_prefix rstrip_of remove_code
    text_eq n2_item info_of
n2_key_error = refl

build_n1_sound_example :
    All
      (OfRecords thousandths pages_of (IsAblated thousandths pages_of) (capex ∷ []))
      (build_n1 thousandths pages_of (capex ∷ [])).0
    × (length (build_n1 thousandths pages_of (capex ∷ [])).0
          + (build_n1 thousandths pages_of (capex ∷ [])).1
        ≡ length (select (λ r. is_some (pages_of r.doc_name)) (capex ∷ [])))
build_n1_sound_example = build_n1_sound thousandths pages_of (capex ∷ [])

build_n2_sound_example :
    All
      (OfRecords thousandths pages_of (IsOther thousandths pages_of filings) (capex ∷ []))
      (same_year ∷ [])
build_n2_sound_example =
    build_n2_sound thousandths pages_of (λ n. n) filings (capex ∷ []) 0 (same_year ∷ [], 0) n2_built

abbrev known_tasks : List (Task String ℕ)
known_tasks =
    record { question_id = "q1"; key = "k1"; day = 20; answers = [] }
    ∷ record { question_id = "q2"; key = "k2"; day = 20; answers = [] }
    ∷ []

abbrev seen_before : GuardState String ℕ
seen_before = record idle { tables = record no_tables { llm_cache = ("k2", 8) ∷ ("k1", 7) ∷ [] } }

all-Known : All (Known str_eq (λ a b. eq_iff a b) guard seen_before) known_tasks
unfolding lookup
all-Known = (inr refl, (inr refl, tt))

run_naive_free_example :
    let out = run_naive str_eq guard known_tasks seen_before in
    (out.0 ≡ finished)
    × (out.1 ≡ 0)
    × (out.2.tables.call_log ≡ seen_before.tables.call_log)
    × (out.2.tables.llm_cache ≡ seen_before.tables.llm_cache)
    × ((question : String)
        → is_some (get_run_result str_eq "run" question seen_before.tables) ≡ true
        → get_run_result str_eq "run" question out.2.tables
          ≡ get_run_result str_eq "run" question seen_before.tables)
    × All
        (λ (t : Task String ℕ).
          is_some (get_run_result str_eq "run" t.question_id out.2.tables) ≡ true)
        known_tasks
run_naive_free_example =
    run_naive_free str_eq (λ a b. eq_iff a b) guard known_tasks seen_before all-Known

abbrev capex_2018 : Question
capex_2018 = record {
  financebench_id = "financebench_id_03029";
  answer = codes "1577";
  doc_name = codes "A_2018_10K";
  evidence_pages = 0 ∷ [];
}

-- The needle is looked for on the page with the number itself, and a PDF that is not there is passed
-- over.
check_of_pages :
    (assert_evidence_page_off_by_one
        (λ d. some (codes "Purchases of property" ∷ []))
        (capex_2018 ∷ [])
      ≡ check_ok)
    × (assert_evidence_page_off_by_one
          (λ d. some (codes "Cover" ∷ codes "Purchases of property" ∷ []))
          (capex_2018 ∷ [])
        ≡ off_by_one 0)
    × (assert_evidence_page_off_by_one (λ d. none) (capex_2018 ∷ []) ≡ skipped)
unfolding assert_evidence_page_off_by_one
check_of_pages = (refl, refl, refl)

-- An answer with one number is gradable, prose is not.
two_classes :
    classify thousandths (capex_2018 ∷ record capex_2018 { answer = codes "It rose" } ∷ []) ≡ (
      record { question = capex_2018; gold_value = 1_577_000; gold_is_percent = false } ∷ [],
      record capex_2018 { answer = codes "It rose" } ∷ [],
    )
unfolding classify
two_classes = refl
