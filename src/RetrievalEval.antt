-- ===== src/RetrievalEval.antt =====
-- eval/run_retrieval_eval.py and eval/run_retrieval_eval_v2.py: the naive retriever that the
-- evaluation starts from (also of eval/runner.py), and the measures of a retriever. The texts of a
-- document's pages, math.log and math.sqrt are parameters.
pub mod Words
pub mod Hits
use chat_doc.Floats.{Floats}
use chat_doc.Ablation.{ratio_or_zero}
use chat_doc.Chunker.{join}
use chat_doc.Negatives.{Answerable}
use chat_doc.Retrieval.{by_score, RetrievedChunk}
use chat_doc.Prelude.{
  Bool, List, Option, String, Text, [], any, false, if◌then◌else◌, is_digit, is_space, leb, length,
  lower, map, none, not, select, some, text_eq, windows, ℕ, ◌&&◌, ◌*◌, ◌++◌, ◌+◌, ◌-◌, ◌==◌, ◌>>=◌,
  ◌||◌, ◌∷◌,
}

abbrev pub chunk_size_tokens : ℕ
chunk_size_tokens = 512

abbrev pub chunk_overlap_tokens : ℕ
chunk_overlap_tokens = 64

-- `step`
abbrev pub chunk_step : ℕ
chunk_step = chunk_size_tokens - chunk_overlap_tokens

-- [a-z0-9]
abbrev pub is_token : ℕ → Bool
is_token c = is_digit c || leb b'a' c && leb c b'z'

abbrev pub push_run : Text → List Text → List Text
push_run [] runs = runs
push_run (c ∷ run) runs = (c ∷ run) ∷ runs

-- The run at the start of a text, and the runs behind it.
unfoldable pub head_runs : (ℕ → Bool) → Text → Text × List Text
head_runs p [] = ([], [])
head_runs p (c ∷ t) =
    let (run, runs) = head_runs p t in if p c then (c ∷ run, runs) else ([], push_run run runs)

-- The longest runs of characters of a class, in their order: findall(r"[…]+"), and str.split() with
-- the characters that are no space.
unfoldable pub runs : (ℕ → Bool) → Text → List Text
unfolding head_runs
runs p t = let (run, behind) = head_runs p t in push_run run behind

unfoldable pub tokenize : Text → List Text
unfolding lower runs
tokenize text = runs is_token (lower text)

-- The words of the pages from the one with number `i` on, each with its page, without the pages left
-- out.
unfoldable pub kept_words : List ℕ → ℕ → List Text → List (Text × ℕ)
unfolding runs
kept_words excluded i [] = []
kept_words excluded i (text ∷ pages) =
    let rest = kept_words excluded (i + 1) pages in
    if any (λ p. p == i) excluded
    then rest
    else map (λ w. (w, i)) (runs (λ c. not (is_space c)) text) ++ rest

-- A Chunk of the naive retriever.
pub record NaiveChunk : Type 0 where
  pub text : Text
  pub page_num : ℕ
  pub tokens : List Text

-- The chunk of a window with its first word.
abbrev pub chunk_of : Text × ℕ → List (Text × ℕ) → NaiveChunk
chunk_of w window =
    let text = join (b' ' ∷ []) (map (λ (v : Text × ℕ). v.0) (w ∷ window)) in
    record { text = text; page_num = w.1; tokens = tokenize text }

unfoldable pub window_chunks : List (List (Text × ℕ)) → List NaiveChunk
window_chunks [] = []
window_chunks ([] ∷ windows) = window_chunks windows
window_chunks ((w ∷ window) ∷ windows) = chunk_of w window ∷ window_chunks windows

unfoldable pub chunk_document : List ℕ → List Text → List NaiveChunk
unfolding kept_words window_chunks windows
chunk_document excluded pages =
    let all_words = kept_words excluded 0 pages in
    window_chunks (windows chunk_size_tokens chunk_step (length all_words) all_words)

-- Counter(tokens)[term]
abbrev pub count_of : Text → List Text → ℕ
count_of term tokens = length (select (text_eq term) tokens)

-- The keys of Counter(tokens): each term once, where it stands first.
unfoldable pub terms_of : List Text → List Text
unfolding text_eq
terms_of [] = []
terms_of (t ∷ tokens) = t ∷ select (λ u. not (text_eq t u)) (terms_of tokens)

-- The rank of the first chunk on a page with evidence.
unfoldable pub first_hit : List ℕ → ℕ → List ℕ → Option ℕ
first_hit evidence rank [] = none
first_hit evidence rank (page ∷ pages) =
    if any (λ p. p == page) evidence then some rank else first_hit evidence (rank + 1) pages

-- recall_at_k[k]
abbrev pub recall_at : ℕ → Option ℕ → Bool
recall_at k none = false
recall_at k (some rank) = leb rank k

module _ (fl : Floats) where
  open fl use {F}

  pub record Measured : Type 0 where
    pub financebench_id : String
    pub rank_of_first_hit : Option ℕ
    pub reciprocal_rank : F
    pub recall_at_1 : Bool
    pub recall_at_5 : Bool
    pub recall_at_10 : Bool

  abbrev pub reciprocal_of : Option ℕ → F
  reciprocal_of none = fl.literal 0 0
  reciprocal_of (some rank) =
      if rank == 0 then fl.literal 0 0 else fl.div (fl.literal 1 0) (fl.literal rank 0)

  -- evaluate_question of both programs, from the pages of the ranked chunks.
  unfoldable pub evaluate_question : Answerable fl → List ℕ → Measured
  unfolding first_hit
  evaluate_question r ranked =
      let hit = first_hit r.evidence_pages 1 ranked in
      record {
        financebench_id = r.financebench_id;
        rank_of_first_hit = hit;
        reciprocal_rank = reciprocal_of hit;
        recall_at_1 = recall_at 1 hit;
        recall_at_5 = recall_at 5 hit;
        recall_at_10 = recall_at 10 hit;
      }

  -- The loop of main: a record whose document is not there is passed over.
  unfoldable pub evaluate_all :
      (Answerable fl → Option (List ℕ)) → List (Answerable fl) → List Measured
  unfolding evaluate_question
  evaluate_all ranked_pages [] = []
  evaluate_all ranked_pages (r ∷ records) =
      let rest = evaluate_all ranked_pages records in
      elim (ranked_pages r) [ none ↦ rest | some pages ↦ evaluate_question r pages ∷ rest ]

  pub record Recalls : Type 0 where
    pub n_questions : ℕ
    pub mrr : F
    pub recall_at_1 : F
    pub recall_at_5 : F
    pub recall_at_10 : F

  -- sum(…)
  abbrev pub sum_from : F → List F → F
  sum_from sum [] = sum
  sum_from sum (x ∷ xs) = sum_from (fl.add sum x) xs

  abbrev pub share_where : (Measured → Bool) → List Measured → F
  share_where p results = ratio_or_zero fl (length (select p results)) (length results)

  unfoldable pub recalls : List Measured → Recalls
  recalls results =
      let n = length results in
      record {
        n_questions = n;
        mrr =
            if n == 0
            then fl.literal 0 0
            else fl.div
                (sum_from (fl.literal 0 0) (map (λ (m : Measured). m.reciprocal_rank) results))
                (fl.literal n 0);
        recall_at_1 = share_where (λ m. m.recall_at_1) results;
        recall_at_5 = share_where (λ m. m.recall_at_5) results;
        recall_at_10 = share_where (λ m. m.recall_at_10) results;
      }

  module _ (log sqrt : F → F) where
    -- idf[term], or none for a term of no chunk.
    unfoldable pub build_idf : List NaiveChunk → Text → Option F
    unfolding text_eq
    build_idf chunks term =
        let freq = length (select (λ (c : NaiveChunk). any (text_eq term) c.tokens) chunks) in
        if freq == 0
        then none
        else some (
            fl.add (log (fl.div (fl.literal (length chunks + 1) 0) (fl.literal (freq + 1) 0)))
              (fl.literal 1 0))

    abbrev pub idf_or_zero : Option F → F
    idf_or_zero none = fl.literal 0 0
    idf_or_zero (some v) = v

    -- The loop over the terms of the question.
    unfoldable pub score_terms : List Text → List Text → (Text → Option F) → F → List Text → F
    unfolding text_eq
    score_terms query_tokens tokens idf score [] = score
    score_terms query_tokens tokens idf score (term ∷ terms) =
        let n = count_of term tokens in
        score_terms query_tokens tokens idf
          (if n == 0
            then score
            else fl.add score
                (fl.mul (fl.literal (count_of term query_tokens * n) 0) (idf_or_zero (idf term))))
          terms

    abbrev pub squares : List Text → List Text → ℕ
    squares tokens [] = 0
    squares tokens (t ∷ terms) = count_of t tokens * count_of t tokens + squares tokens terms

    unfoldable pub score_chunk : List Text → NaiveChunk → (Text → Option F) → F
    unfolding score_terms terms_of
    score_chunk query_tokens c idf =
        let score =
          score_terms query_tokens c.tokens idf (fl.literal 0 0) (terms_of query_tokens) in
        let norm = sqrt (fl.literal (squares c.tokens (terms_of c.tokens)) 0) in
        fl.div score (if fl.eq norm (fl.literal 0 0) then fl.literal 1 0 else norm)

    -- The best score first, ties in the order of the document.
    unfoldable pub rank_chunks : Text → List NaiveChunk → (Text → Option F) → List NaiveChunk
    unfolding tokenize score_chunk by_score
    rank_chunks question chunks idf =
        map (λ (p : NaiveChunk × F). p.0)
          (by_score fl (map (λ c. (c, score_chunk (tokenize question) c idf)) chunks))

    -- What the naive retriever ranks for a record.
    unfoldable pub naive_pages : (Text → Option (List Text)) → Answerable fl → Option (List ℕ)
    unfolding rank_chunks chunk_document build_idf
    naive_pages page_texts r = page_texts r.doc_name >>= (λ pages.
        let chunks = chunk_document [] pages in
        some
          (map (λ (c : NaiveChunk). c.page_num) (rank_chunks r.question chunks (build_idf chunks))))

  -- What the hybrid retriever ranks for a record: `retrieve` stands for the ingest, which leaves a
  -- document that is there as it is, and hybrid_retrieve with its best ten.
  unfoldable pub hybrid_pages :
      (Answerable fl → Option (List (RetrievedChunk fl))) → Answerable fl → Option (List ℕ)
  hybrid_pages retrieve r =
      retrieve r >>= (λ chunks. some (map (λ (c : RetrievedChunk fl). c.page_num) chunks))
