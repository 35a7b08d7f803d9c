-- ===== src/Retrieval/Ranking.antt =====
-- The ranked results of ingest/retrieval.py: what rrf_fuse and hybrid_retrieve_scored return.
use mathlib.Core.List.{Perm}
use mathlib.Core.List.Perm
use chat_doc.Floats.{Floats}
use chat_doc.Retrieval.{zip, fuse_lists, Fused, rrf_fuse, by_score, insert_scored, RetrievedChunk}
use chat_doc.Retrieval.Fusion.{
  fuse_lists-score, resolve_lem, fuse_lists-FusedWf, terms, sum_of, FusedWf,
}
use chat_doc.Prelude.{
  All, All-imp, Bool-cases, DistinctKeys-get, List, Text, [], ap, dict_get, false, inl, inr,
  is_some, length, map, min, none, refl, some, sym, take, true, ℕ, ◌++◌, ◌∙◌, ◌∷◌, ◌≡◌,
}

-- The comparison of finite floats is a strict weak order.
pub record Ordered (fl : Floats) : Type 0 where
  pub lt_asym : (a b : fl.F) → fl.lt a b ≡ true → fl.lt b a ≡ false
  pub ge_trans : (a b c : fl.F) → fl.lt a b ≡ false → fl.lt b c ≡ false → fl.lt a c ≡ false

module _ (fl : Floats) where
  open fl use {F}

  -- Every score is at least each later one.
  abbrev pub Descending {ℓ} : {A : Type ℓ} → List (A × F) → Type ℓ
  Descending {A = A} [] = Unit
  Descending {A = A} (x ∷ rest) = All (λ y. fl.lt x.1 y.1 ≡ false) rest × Descending rest

  module _ {ℓ κ} {A : Type ℓ} (P : A × F → Type κ) where
    All-insert_scored :
        (x : A × F) (ys : List (A × F)) → P x → All P ys → All P (insert_scored fl x ys)
    unfolding insert_scored
    All-insert_scored x [] p h = (p, tt)
    All-insert_scored x (y ∷ ys) p h = elim (Bool-cases (fl.lt x.1 y.1)) [
      | inl e ↦ rw e (h.0, All-insert_scored x ys p h.1)
      | inr e ↦ rw e (p, h)
    ]

    pub All-by_score : (xs : List (A × F)) → All P xs → All P (by_score fl xs)
    unfolding by_score
    All-by_score [] h = tt
    All-by_score (x ∷ xs) h = All-insert_scored x (by_score fl xs) h.0 (All-by_score xs h.1)

  module _ {ℓ} {A : Type ℓ} (ord : Ordered fl) where
    insert_scored-Descending :
        (x : A × F) (ys : List (A × F)) → Descending ys → Descending (insert_scored fl x ys)
    unfolding insert_scored
    insert_scored-Descending x [] h = (tt, tt)
    insert_scored-Descending x (y ∷ ys) (above, h) = elim (Bool-cases (fl.lt x.1 y.1)) [
      | inl e ↦ rw e (
        All-insert_scored (λ z. fl.lt y.1 z.1 ≡ false) x ys (ord.lt_asym x.1 y.1 e) above,
        insert_scored-Descending x ys h,
      )
      | inr e ↦ rw e (
        (
          e,
          All-imp (λ z. fl.lt y.1 z.1 ≡ false) (λ z. fl.lt x.1 z.1 ≡ false)
              (λ z below. ord.ge_trans x.1 y.1 z.1 e below) ys above,
        ),
        (above, h),
      )
    ]

    pub by_score-Descending : (xs : List (A × F)) → Descending (by_score fl xs)
    unfolding by_score
    by_score-Descending [] = tt
    by_score-Descending (x ∷ xs) =
        insert_scored-Descending x (by_score fl xs) (by_score-Descending xs)

  module _ {ℓ} {A : Type ℓ} where
    insert_scored-Perm : (x : A × F) (ys : List (A × F)) → Perm (insert_scored fl x ys) (x ∷ ys)
    unfolding insert_scored
    insert_scored-Perm x [] = Perm.refl (x ∷ [])
    insert_scored-Perm x (y ∷ ys) = elim (Bool-cases (fl.lt x.1 y.1)) [
      | inl e ↦ rw e (Perm.trans (Perm.cons y (insert_scored-Perm x ys)) (Perm.swap x y ys))
      | inr e ↦ rw e (Perm.refl (x ∷ y ∷ ys))
    ]

    -- Sorting keeps each pair, once for each time that it stands in the list.
    pub by_score-Perm : (xs : List (A × F)) → Perm (by_score fl xs) xs
    unfolding by_score
    by_score-Perm [] = Perm.refl []
    by_score-Perm (x ∷ xs) =
        Perm.trans (insert_scored-Perm x (by_score fl xs)) (Perm.cons x (by_score-Perm xs))

  module _ (P : RetrievedChunk fl → Type 0) where
    -- rrf_fuse always returns, and each chunk that it returns is one of those searched, with the
    -- score of the docstring's formula: the sum over the lists of 1 / (k + rank).
    pub rrf_fuse_formula :
        (k : ℕ) (lists : List (List (RetrievedChunk fl)))
        → All (All P) lists
        → (fused : List (RetrievedChunk fl × F)) × (rrf_fuse fl lists k ≡ some fused)
          × All (λ p. P p.0 × (some p.1 ≡ sum_of fl k none (terms fl k p.0.chunk_id lists))) fused
    unfolding rrf_fuse
    rrf_fuse_formula k lists h =
        let start : Fused fl = record { scores = []; chunks_by_id = [] } in
        let st = fuse_lists fl k lists start in
        let wf : FusedWf fl k P st =
          fuse_lists-FusedWf fl k P lists start h
            (record { distinct = tt; resolved = λ id. refl; named = tt }) in
        let S : ℕ → F → Type 0 = λ id s. some s ≡ sum_of fl k none (terms fl k id lists) in
        let Q : ℕ × F → Type 0 = λ e. (is_some (dict_get e.0 st.chunks_by_id) ≡ true) × S e.0 e.1 in
        resolve_lem fl k P S st.chunks_by_id (by_score fl st.scores) wf.named (
          All-by_score Q st.scores (
            All-imp (λ e. dict_get e.0 st.scores ≡ some e.1) Q
              (λ e got. (
                sym (wf.resolved e.0) ∙ ap is_some got,
                sym got ∙ fuse_lists-score fl k e.0 lists start,
              ))
              st.scores (DistinctKeys-get st.scores wf.distinct)))

    -- What retrieval returns, and what it leaves out: together each of the best fused chunks once,
    -- with the score that the cross-encoder gives its text for the question, and the highest first.
    pub record Reranked (rerank : Text → List Text → List F) (question : Text) (top_n top_k : ℕ)
        (fused scored : List (RetrievedChunk fl × F)) : Type 0 where
      pub left_out : List (RetrievedChunk fl × F)
      pub scores :
          let cs = map (λ (p : RetrievedChunk fl × F). p.0) (take top_n fused) in
          Perm
            (scored ++ left_out)
            (zip fl cs (rerank question (map (λ (c : RetrievedChunk fl). c.text) cs)))
      pub highest : Descending (scored ++ left_out)
      pub as_many : length scored ≡ min top_k (length (scored ++ left_out))
      pub passes : All (λ p. P p.0) scored
