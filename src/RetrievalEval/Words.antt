-- ===== src/RetrievalEval/Words.antt =====
-- The chunks of eval/run_retrieval_eval.py chunk_document.
use chat_doc.RetrievalEval.{
  kept_words, window_chunks, chunk_document, runs, NaiveChunk, chunk_step, chunk_size_tokens,
}
use chat_doc.Prelude.{
  All, All-append, All-windows, Bool-cases, List, Overlapping, Text, [], any, arith, false, inl,
  inr, is_space, length, map, not, refl, rejoin, rejoin-windows, windows, windows-Overlapping,
  windows_short, ℕ, ◌+◌, ◌==◌, ◌∷◌, ◌≡◌, ◌≤◌,
}

-- The page of a word is not left out.
abbrev pub IsKept : List ℕ → Text × ℕ → Type 0
IsKept excluded w = any (λ p. p == w.1) excluded ≡ false

kept_words-IsKept :
    (excluded : List ℕ) (i : ℕ) (pages : List Text)
    → All (IsKept excluded) (kept_words excluded i pages)
unfolding kept_words
kept_words-IsKept excluded i [] = tt
kept_words-IsKept excluded i (text ∷ pages) =
    let rest = kept_words-IsKept excluded (i + 1) pages in
    elim (Bool-cases (any (λ p. p == i) excluded)) [
      | inl out ↦ rw out rest
      | inr kept ↦ rw kept (
          All-append (IsKept excluded) (map (λ w. (w, i)) (runs (λ c. not (is_space c)) text))
            (kept_words excluded (i + 1) pages) (words kept (runs (λ c. not (is_space c)) text))
            rest)
    ]
  where
    words :
        any (λ p. p == i) excluded ≡ false
        → (ws : List Text) → All (IsKept excluded) (map (λ w. (w, i)) ws)
    words kept [] = tt
    words kept (w ∷ ws) = (kept, words kept ws)

window_chunks-kept :
    (excluded : List ℕ) (ws : List (List (Text × ℕ)))
    → All (All (IsKept excluded)) ws
    → All (λ (c : NaiveChunk). any (λ p. p == c.page_num) excluded ≡ false) (window_chunks ws)
unfolding window_chunks
window_chunks-kept excluded [] h = tt
window_chunks-kept excluded ([] ∷ ws) h = window_chunks-kept excluded ws h.1
window_chunks-kept excluded ((w ∷ window) ∷ ws) h = (h.0.0, window_chunks-kept excluded ws h.1)

-- The naive chunks are windows of at most 512 words of the pages that are not left out: each but the
-- last has 512 words and ends with the 64 that the next one starts with, and what lies before the
-- overlaps, with the last window, is all those words in their order. No word of a page that is left
-- out stands in one, nor is a chunk said to be on such a page.
pub chunk_document_covers :
    (excluded : List ℕ) (pages : List Text)
    → (ws : List (List (Text × ℕ))) × (chunk_document excluded pages ≡ window_chunks ws)
      × (rejoin 448 ws ≡ kept_words excluded 0 pages)
      × Overlapping 512 64 ws
      × All (λ w. length w ≤ 512) ws
      × All (All (IsKept excluded)) ws
      × All
          (λ (c : NaiveChunk). any (λ p. p == c.page_num) excluded ≡ false)
          (chunk_document excluded pages)
unfolding chunk_document
chunk_document_covers excluded pages =
    let all_words = kept_words excluded 0 pages in
    let fuel = length all_words in
    let kept =
      All-windows chunk_size_tokens chunk_step (IsKept excluded) fuel all_words
        (kept_words-IsKept excluded 0 pages) in
    (
      windows chunk_size_tokens chunk_step fuel all_words,
      refl,
      rejoin-windows chunk_size_tokens chunk_step (omega arith) (omega arith) fuel all_words
          (omega arith),
      windows-Overlapping 512 64 (omega arith) fuel all_words,
      windows_short chunk_size_tokens chunk_step fuel all_words,
      kept,
      window_chunks-kept excluded (windows chunk_size_tokens chunk_step fuel all_words) kept,
    )
