-- ===== src/Baseline.antt =====
-- eval/runner.py: the naive runner, which looks a prompt up in the cache before it calls the API,
-- and its grading.
pub mod Free
use text.Mathlib.Text.{◌==◌ as str_eq}
use chat_doc.Floats.{Floats}
use chat_doc.RetrievalEval.{NaiveChunk, chunk_document, build_idf, rank_chunks}
use chat_doc.Chunker.{join}
use chat_doc.Runner.{finished, RunEnd, Task, follow}
use chat_doc.Normalize.{numbers_match, normalize_numeric_answer}
use chat_doc.Dataset.{EvalRecord}
use chat_doc.Cache.{lookup, already_has_run_result, record_generation, get_run_result, CacheTables}
use chat_doc.Quota.{call, GuardState, GuardConfig}
use chat_doc.Ablation.{ratio_or_zero}
use chat_doc.Prelude.{
  Bool, List, Option, String, Text, [], any, codes, false, if◌then◌else◌, is_some, leb, length,
  lower, map, none, select, some, strip, strip_prefix, take, text_eq, true, ℕ, ◌&&◌, ◌-◌, ◌>>=◌,
  ◌∷◌,
}

abbrev pub top_k : ℕ
top_k = 5

abbrev pub between : Text
between = codes "\n\n---\n\n"

-- str.upper, for ASCII.
unfoldable pub upper : Text → Text
upper = map (λ c. if leb b'a' c && leb c b'z' then c - 32 else c)

module _ {K J : Type 0} (key_eq : K → K → Bool) where
  -- cache.record of a cache hit.
  abbrev pub stored_hit : GuardConfig → Task K J → J → GuardState K J → GuardState K J
  stored_hit g t raw st = record st {
    tables = record_generation key_eq g.run_id t.question_id t.key raw true st.tables;
  }

  -- The loop of main over the records; the key of a task is that of its prompt.
  unfoldable pub run_naive :
      GuardConfig → List (Task K J) → GuardState K J → RunEnd × ℕ × GuardState K J
  unfolding follow
  run_naive g [] st = (finished, 0, st)
  run_naive g (t ∷ tasks) st =
      elim (already_has_run_result key_eq g.run_id t.question_id st.tables) [
        | true ↦ run_naive g tasks st
        | false ↦ elim (lookup key_eq t.key st.tables) [
          | some raw ↦ run_naive g tasks (stored_hit g t raw st)
          | none ↦
              follow key_eq g t (λ st'. run_naive g tasks st')
                (call key_eq g t.question_id t.day t.answers st)
        ]
      ]

module _ (fl : Floats) where
  open fl use {F}

  unfoldable pub load_split :
      List (EvalRecord fl) → List (EvalRecord fl) → Text → Option (List (EvalRecord fl))
  unfolding lower text_eq
  load_split answerable negatives split =
      if text_eq split (codes "answerable")
      then some answerable
      else if any (text_eq split) (codes "n0" ∷ codes "n1" ∷ codes "n2" ∷ [])
      then some (select (λ (n : EvalRecord fl). text_eq (lower n.tier) split) negatives)
      else none

  -- PROMPT_TEMPLATE.format of a context and a question is `template`; the texts of a document's pages
  -- are none where its file is not there, which is an exception.
  module _ {P : Type 0} (log sqrt : F → F) (page_texts : Text → Option (List Text))
      (template : Text → Text → P) where
    -- get_chunks, whose cache is over the same document and pages.
    unfoldable pub get_chunks : Text → List ℕ → Option (List NaiveChunk × (Text → Option F))
    unfolding chunk_document build_idf
    get_chunks doc_name excluded = page_texts doc_name >>= (λ pages.
        let chunks = chunk_document excluded pages in some (chunks, build_idf fl log sqrt chunks))

    -- The best chunks of the document served, without the pages left out.
    unfoldable pub prompt_for : Text → Text → List ℕ → Option (P × Text)
    unfolding get_chunks rank_chunks
    prompt_for question doc_name excluded = get_chunks doc_name excluded >>= (λ (chunks, idf).
        let ranked = take top_k (rank_chunks fl log sqrt question chunks idf) in
        let context = join between (map (λ (c : NaiveChunk). c.text) ranked) in
        some (template context question, doc_name))

    unfoldable pub build_prompt : EvalRecord fl → Text → Option (P × Text)
    unfolding text_eq prompt_for
    build_prompt r split =
        if text_eq split (codes "answerable")
        then (r.doc_name >>= (λ d. prompt_for r.question d []))
        else (r.served_doc_name >>= (λ d.
            if text_eq split (codes "n1")
            then (r.ablated_pages >>= (λ pages. prompt_for r.question d pages))
            else prompt_for r.question d []))

  -- none: no number, and so no match.
  unfoldable pub grade_answerable : F → Text → Option Bool
  grade_answerable gold_value raw_text =
      normalize_numeric_answer fl raw_text >>= (λ n. some (numbers_match fl gold_value n.value))

  unfoldable pub is_hallucination : Text → Bool
  unfolding upper strip strip_prefix
  is_hallucination raw_text =
      if is_some (strip_prefix (codes "NOT_FOUND") (upper (strip raw_text)))
      then false
      else is_some (normalize_numeric_answer fl raw_text)

  pub data Graded : Type 0 where
    match : String → Option Bool → Graded
    on_negative : String → Bool → Graded

  pub record RunSummary : Type 0 where
    pub results : List Graded
    pub n_graded : ℕ
    pub n_correct : ℕ
    pub n_no_answer : ℕ
    pub n_hallucinated : ℕ
    pub score : F

  module _ {K J : Type 0} (key_eq : K → K → Bool) (text : J → Text) where
    unfoldable pub grade_record : CacheTables K J → String → Bool → EvalRecord fl → Option Graded
    unfolding grade_answerable is_hallucination
    grade_record cache run_id is_answerable r =
        get_run_result key_eq run_id r.financebench_id cache >>= (λ result. some (
          if is_answerable
          then match r.financebench_id (grade_answerable r.gold_value (text result))
          else on_negative r.financebench_id (is_hallucination (text result))))

    unfoldable pub grade_all : CacheTables K J → String → Bool → List (EvalRecord fl) → List Graded
    unfolding grade_record
    grade_all cache run_id is_answerable [] = []
    grade_all cache run_id is_answerable (r ∷ records) =
        let rest = grade_all cache run_id is_answerable records in
        elim (grade_record cache run_id is_answerable r) [ none ↦ rest | some g ↦ g ∷ rest ]

    abbrev is_match : Graded → Bool
    is_match (match q (some b)) = b
    is_match (match q none) = false
    is_match (on_negative q b) = false

    abbrev is_no_answer : Graded → Bool
    is_no_answer (match q (some b)) = false
    is_no_answer (match q none) = true
    is_no_answer (on_negative q b) = false

    abbrev is_halluc : Graded → Bool
    is_halluc (match q b) = false
    is_halluc (on_negative q b) = b

    -- The summary: the accuracy or the hallucination rate as its score.
    unfoldable pub summarize : CacheTables K J → String → Bool → List (EvalRecord fl) → RunSummary
    unfolding grade_all
    summarize cache run_id is_answerable records =
        let results = grade_all cache run_id is_answerable records in
        let n = length results in
        let matched = length (select is_match results) in
        let halluc = length (select is_halluc results) in
        record {
          results = results;
          n_graded = n;
          n_correct = matched;
          n_no_answer = length (select is_no_answer results);
          n_hallucinated = halluc;
          score = ratio_or_zero fl (if is_answerable then matched else halluc) n;
        }
