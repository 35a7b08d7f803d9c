-- ===== src/Retrieval.antt =====
-- ingest/retrieval.py: dense and sparse search, reciprocal rank fusion and reranking. The orders in
-- which PostgreSQL returns the rows of a search and the cross-encoder are parameters.
pub mod Fusion
pub mod Ranking
use chat_doc.Floats.{Floats}
use chat_doc.Prelude.{
  Bool, Dict, List, Option, String, Text, [], dict_get, dict_set, if◌then◌else◌, map, none, select,
  some, take, ℕ, ◌&&◌, ◌+◌, ◌==◌, ◌>>=◌, ◌∷◌,
}

abbrev pub rrf_k : ℕ
rrf_k = 60

module _ (fl : Floats) where
  open fl use {F}

  pub record RetrievedChunk : Type 0 where
    pub chunk_id : ℕ
    pub document_id : ℕ
    pub page_num : ℕ
    pub chunk_type : String
    pub text : Text
    pub unit_scale : Option Text
    pub bbox_x0 : Option F
    pub bbox_y0 : Option F
    pub bbox_x1 : Option F
    pub bbox_y1 : Option F

  -- sorted(…, key=lambda t: -t[1]): stable, the highest score first.
  unfoldable pub insert_scored {ℓ} : {A : Type ℓ} → A × F → List (A × F) → List (A × F)
  insert_scored x [] = x ∷ []
  insert_scored x (y ∷ rest) =
      let later = insert_scored x rest in if fl.lt x.1 y.1 then y ∷ later else x ∷ y ∷ rest

  unfoldable pub by_score {ℓ} : {A : Type ℓ} → List (A × F) → List (A × F)
  unfolding insert_scored
  by_score [] = []
  by_score (x ∷ rest) = insert_scored x (by_score rest)

  -- The WHERE, ORDER BY and LIMIT of a search.
  unfoldable pub dense_search :
      (List RetrievedChunk → List RetrievedChunk)
      → ℕ
      → ℕ
      → List RetrievedChunk
      → List RetrievedChunk
  dense_search nearest document_id top_n rows =
      take top_n (nearest (select (λ r. r.document_id == document_id) rows))

  unfoldable pub sparse_search :
      (RetrievedChunk → Bool)
      → (List RetrievedChunk → List RetrievedChunk)
      → ℕ
      → ℕ
      → List RetrievedChunk
      → List RetrievedChunk
  sparse_search matches best document_id top_n rows =
      take top_n (best (select (λ r. r.document_id == document_id && matches r) rows))

  -- 1.0 / (k + rank)
  abbrev pub reciprocal : ℕ → ℕ → F
  reciprocal k rank = fl.div (fl.literal 1 0) (fl.literal (k + rank) 0)

  -- scores.get(chunk_id, 0.0)
  abbrev pub score_or_zero : Option F → F
  score_or_zero none = fl.literal 0 0
  score_or_zero (some s) = s

  -- The two dicts of `rrf_fuse`.
  pub record Fused : Type 0 where
    pub scores : Dict F
    pub chunks_by_id : Dict RetrievedChunk

  unfoldable pub fuse_chunk : ℕ → ℕ → RetrievedChunk → Fused → Fused
  fuse_chunk k rank chunk st = record {
    scores =
        dict_set chunk.chunk_id
          (fl.add (score_or_zero (dict_get chunk.chunk_id st.scores)) (reciprocal k rank))
          st.scores;
    chunks_by_id = dict_set chunk.chunk_id chunk st.chunks_by_id;
  }

  -- The loop over one ranked list, from a rank on.
  unfoldable pub fuse_list : ℕ → ℕ → List RetrievedChunk → Fused → Fused
  unfolding fuse_chunk
  fuse_list k rank [] st = st
  fuse_list k rank (c ∷ ranked) st = fuse_list k (rank + 1) ranked (fuse_chunk k rank c st)

  unfoldable pub fuse_lists : ℕ → List (List RetrievedChunk) → Fused → Fused
  unfolding fuse_list
  fuse_lists k [] st = st
  fuse_lists k (ranked ∷ rest) st = fuse_lists k rest (fuse_list k 1 ranked st)

  -- [(chunks_by_id[cid], score) for …], with none for a KeyError.
  unfoldable pub resolve : Dict RetrievedChunk → List (ℕ × F) → Option (List (RetrievedChunk × F))
  resolve chunks [] = some []
  resolve chunks ((cid, score) ∷ rest) = do
    c ← dict_get cid chunks
    others ← resolve chunks rest
    some ((c, score) ∷ others)

  unfoldable pub rrf_fuse : List (List RetrievedChunk) → ℕ → Option (List (RetrievedChunk × F))
  unfolding fuse_lists by_score resolve
  rrf_fuse ranked_lists k =
      let st = fuse_lists k ranked_lists (record { scores = []; chunks_by_id = [] }) in
      resolve st.chunks_by_id (by_score st.scores)

  abbrev pub zip {ℓ κ} : {A : Type ℓ} {B : Type κ} → List A → List B → List (A × B)
  zip [] ys = []
  zip (x ∷ xs) [] = []
  zip (x ∷ xs) (y ∷ ys) = (x, y) ∷ zip xs ys

  -- The cross-encoder (ingest/reranker.py): a score for each text.
  module _ (rerank : Text → List Text → List F) where
    unfoldable pub rerank_candidates :
        Text → ℕ → ℕ → List (RetrievedChunk × F) → List (RetrievedChunk × F)
    unfolding by_score
    rerank_candidates question rrf_top_n rerank_top_k [] = []
    rerank_candidates question rrf_top_n rerank_top_k (f ∷ fs) =
        let candidates = map (λ (p : RetrievedChunk × F). p.0) (take rrf_top_n (f ∷ fs)) in
        take rerank_top_k (
          by_score
            (zip candidates (rerank question (map (λ (c : RetrievedChunk). c.text) candidates))))

    -- The searches have run: the rest of `hybrid_retrieve_scored`.
    unfoldable pub hybrid_retrieve_scored :
        Text
        → ℕ
        → ℕ
        → List RetrievedChunk
        → List RetrievedChunk
        → Option (List (RetrievedChunk × F))
    unfolding rrf_fuse rerank_candidates
    hybrid_retrieve_scored question rrf_top_n rerank_top_k dense sparse = do
      fused ← rrf_fuse (dense ∷ sparse ∷ []) rrf_k
      some (rerank_candidates question rrf_top_n rerank_top_k fused)

  unfoldable pub hybrid_retrieve : Option (List (RetrievedChunk × F)) → Option (List RetrievedChunk)
  hybrid_retrieve scored = do pairs ← scored; some (map (λ (p : RetrievedChunk × F). p.0) pairs)
