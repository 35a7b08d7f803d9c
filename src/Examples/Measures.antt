-- ===== src/Examples/Measures.antt =====
-- The naive retriever and the measures on two short pages.
use chat_doc.Examples.Numbers.{thousandths}
use chat_doc.RetrievalEval.{
  chunk_document, rank_chunks, build_idf, evaluate_question, kept_words, window_chunks, NaiveChunk,
  tokenize,
}
use chat_doc.RetrievalEval.Words.{chunk_document_covers, IsKept}
use chat_doc.RetrievalEval.Hits.{evaluate_question_lem, IsFirst, on_evidence}
use chat_doc.Negatives.{Answerable}
use chat_doc.Prelude.{
  All, List, Overlapping, Text, [], any, codes, false, length, map, refl, rejoin, some, take, ℕ,
  ◌+◌, ◌==◌, ◌∷◌, ◌≡◌, ◌≤◌,
}

abbrev capex_pages : List Text
capex_pages = codes "Capex was 1,577 in 2018." ∷ codes "Nothing here" ∷ codes "Capex plans" ∷ []

tokens_of_page :
    tokenize (codes "Capex was 1,577") ≡ codes "capex" ∷ codes "was" ∷ codes "1" ∷ codes "577" ∷ []
unfolding tokenize
tokens_of_page = refl

-- Without the first page, the words are those of the others.
ablated_text :
    map (λ (c : NaiveChunk). c.text) (chunk_document (0 ∷ []) capex_pages)
    ≡ codes "Nothing here Capex plans" ∷ []
unfolding chunk_document
ablated_text = refl

chunk_document_covers_example :
    (ws : List (List (Text × ℕ))) × (chunk_document (0 ∷ []) capex_pages ≡ window_chunks ws)
    × (rejoin 448 ws ≡ kept_words (0 ∷ []) 0 capex_pages)
    × Overlapping 512 64 ws
    × All (λ w. length w ≤ 512) ws
    × All (All (IsKept (0 ∷ []))) ws
    × All
        (λ (c : NaiveChunk). any (λ p. p == c.page_num) (0 ∷ []) ≡ false)
        (chunk_document (0 ∷ []) capex_pages)
chunk_document_covers_example = chunk_document_covers (0 ∷ []) capex_pages

abbrev chunk_on : ℕ → Text → NaiveChunk
chunk_on page text = record { text = text; page_num = page; tokens = tokenize text }

-- Of two chunks, the one with the word of the question comes first.
ranked_first :
    let chunks = chunk_on 4 (codes "Nothing here") ∷ chunk_on 7 (codes "Capex plans") ∷ [] in
    map
      (λ (c : NaiveChunk). c.page_num)
      (rank_chunks thousandths
        (λ x. x)
        (λ x. x)
        (codes "capex?")
        chunks
        (build_idf thousandths (λ x. x) (λ x. x) chunks))
    ≡ 7 ∷ 4 ∷ []
unfolding rank_chunks build_idf
ranked_first = refl

abbrev asked : Answerable thousandths
asked = record {
  financebench_id = "q1";
  question = codes "Capex?";
  gold_value = 1_577_000;
  gold_is_percent = false;
  doc_name = codes "A_2018_10K";
  company = codes "A";
  evidence_pages = 7 ∷ [];
}

evaluate_question_example :
    let m = evaluate_question thousandths asked (4 ∷ 7 ∷ 9 ∷ []) in
    (m.recall_at_1 ≡ any (on_evidence (7 ∷ [])) (take 1 (4 ∷ 7 ∷ 9 ∷ [])))
    × (m.recall_at_5 ≡ any (on_evidence (7 ∷ [])) (take 5 (4 ∷ 7 ∷ 9 ∷ [])))
    × (m.recall_at_10 ≡ any (on_evidence (7 ∷ [])) (take 10 (4 ∷ 7 ∷ 9 ∷ [])))
    × ((rank : ℕ)
        → m.rank_of_first_hit ≡ some rank
        → (n : ℕ) × (n + 1 ≡ rank) × IsFirst (7 ∷ []) (4 ∷ 7 ∷ 9 ∷ []) n)
evaluate_question_example = evaluate_question_lem thousandths asked (4 ∷ 7 ∷ 9 ∷ [])

-- The second chunk is the first hit.
second_hit : (evaluate_question thousandths asked (4 ∷ 7 ∷ 9 ∷ [])).rank_of_first_hit ≡ some 2
unfolding evaluate_question
second_hit = refl
