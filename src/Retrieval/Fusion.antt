-- ===== src/Retrieval/Fusion.antt =====
-- Reciprocal rank fusion (ingest/retrieval.py rrf_fuse) against the formula of its docstring.
use chat_doc.Floats.{Floats}
use chat_doc.Retrieval.{
  fuse_lists, resolve, Fused, fuse_chunk, fuse_list, score_or_zero, reciprocal, RetrievedChunk,
}
use chat_doc.Prelude.{
  ==_iff, All, All-dict_get, All-dict_set, Bool-cases, Dict, DistinctKeys, List, Option,
  Option-cases, [], ap, dict_get, dict_get-dict_set, dict_set-DistinctKeys, if◌then◌else◌, inl, inr,
  is_some, refl, some, subst, sym, true, ℕ, ◌++◌, ◌+◌, ◌==◌, ◌∙◌, ◌∷◌, ◌≡◌,
}

module _ (fl : Floats) (k : ℕ) where
  open fl use {F}

  -- The terms 1 / (k + rank) of a document, one for each place where it stands in a ranked list.
  abbrev pub list_terms : ℕ → ℕ → List (RetrievedChunk fl) → List F
  list_terms id rank [] = []
  list_terms id rank (c ∷ ranked) =
      let rest = list_terms id (rank + 1) ranked in
      if c.chunk_id == id then reciprocal fl k rank ∷ rest else rest

  abbrev pub terms : ℕ → List (List (RetrievedChunk fl)) → List F
  terms id [] = []
  terms id (ranked ∷ rest) = list_terms id 1 ranked ++ terms id rest

  -- The sum of the terms from left to right; a document without terms has no score.
  abbrev pub sum_of : Option F → List F → Option F
  sum_of s [] = s
  sum_of s (t ∷ ts) = sum_of (some (fl.add (score_or_zero fl s) t)) ts

  sum_of-append : (s : Option F) (ts us : List F) → sum_of s (ts ++ us) ≡ sum_of (sum_of s ts) us
  sum_of-append s [] us = refl
  sum_of-append s (t ∷ ts) us = sum_of-append (some (fl.add (score_or_zero fl s) t)) ts us

  fuse_list-score :
      (id rank : ℕ) (ranked : List (RetrievedChunk fl)) (st : Fused fl)
      → dict_get id (fuse_list fl k rank ranked st).scores
        ≡ sum_of (dict_get id st.scores) (list_terms id rank ranked)
  unfolding fuse_list fuse_chunk
  fuse_list-score id rank [] st = refl
  fuse_list-score id rank (c ∷ ranked) st =
      let step = fuse_list-score id (rank + 1) ranked (fuse_chunk fl k rank c st) in
      let here =
        dict_get-dict_set c.chunk_id id
          (fl.add (score_or_zero fl (dict_get c.chunk_id st.scores)) (reciprocal fl k rank))
          st.scores in
      let later : Option F → Option F = λ s. sum_of s (list_terms id (rank + 1) ranked) in
      let first : ℕ → Option F = λ i.
        later (some (fl.add (score_or_zero fl (dict_get i st.scores)) (reciprocal fl k rank))) in
      elim (Bool-cases (c.chunk_id == id)) [
        | inl e ↦ rw e (step ∙ ap later (rw e at here) ∙ ap first ((==_iff c.chunk_id id).0 e))
        | inr e ↦ rw e (step ∙ ap later (rw e at here))
      ]

  pub fuse_lists-score :
      (id : ℕ) (lists : List (List (RetrievedChunk fl))) (st : Fused fl)
      → dict_get id (fuse_lists fl k lists st).scores
        ≡ sum_of (dict_get id st.scores) (terms id lists)
  unfolding fuse_lists
  fuse_lists-score id [] st = refl
  fuse_lists-score id (ranked ∷ rest) st =
      fuse_lists-score id rest (fuse_list fl k 1 ranked st)
      ∙ ap (λ s. sum_of s (terms id rest)) (fuse_list-score id 1 ranked st)
      ∙ sym (sum_of-append (dict_get id st.scores) (list_terms id 1 ranked) (terms id rest))

  -- What holds of the two dicts at every step: no key twice, the same keys in both, and under each
  -- key a chunk with that id that has the property of the chunks searched.
  module _ (P : RetrievedChunk fl → Type 0) where
    pub record FusedWf (st : Fused fl) : Type 0 where
      pub distinct : DistinctKeys st.scores
      pub resolved :
          (id : ℕ) → is_some (dict_get id st.scores) ≡ is_some (dict_get id st.chunks_by_id)
      pub named : All (λ p. (p.1.chunk_id ≡ p.0) × P p.1) st.chunks_by_id

    fuse_chunk-FusedWf :
        (rank : ℕ) (c : RetrievedChunk fl) (st : Fused fl)
        → P c
        → FusedWf st
        → FusedWf (fuse_chunk fl k rank c st)
    unfolding fuse_chunk
    fuse_chunk-FusedWf rank c st pc wf =
        let score =
          fl.add (score_or_zero fl (dict_get c.chunk_id st.scores)) (reciprocal fl k rank) in
        record {
          distinct = dict_set-DistinctKeys c.chunk_id score st.scores wf.distinct;
          resolved = λ id.
              let a = dict_get-dict_set c.chunk_id id score st.scores in
              let b = dict_get-dict_set c.chunk_id id c st.chunks_by_id in
              let same = wf.resolved id in
              elim (Bool-cases (c.chunk_id == id)) [
                | inl e ↦ rw (rw e at a, rw e at b) refl
                | inr e ↦ rw (rw e at a, rw e at b) same
              ];
          named =
              All-dict_set (λ i d. (d.chunk_id ≡ i) × P d) c.chunk_id c st.chunks_by_id (refl, pc)
                wf.named;
        }

    fuse_list-FusedWf :
        (rank : ℕ) (ranked : List (RetrievedChunk fl)) (st : Fused fl)
        → All P ranked
        → FusedWf st
        → FusedWf (fuse_list fl k rank ranked st)
    unfolding fuse_list
    fuse_list-FusedWf rank [] st h wf = wf
    fuse_list-FusedWf rank (c ∷ ranked) st h wf =
        fuse_list-FusedWf (rank + 1) ranked _ h.1 (fuse_chunk-FusedWf rank c st h.0 wf)

    pub fuse_lists-FusedWf :
        (lists : List (List (RetrievedChunk fl))) (st : Fused fl)
        → All (All P) lists
        → FusedWf st
        → FusedWf (fuse_lists fl k lists st)
    unfolding fuse_lists
    fuse_lists-FusedWf [] st h wf = wf
    fuse_lists-FusedWf (ranked ∷ rest) st h wf =
        fuse_lists-FusedWf rest _ h.1 (fuse_list-FusedWf 1 ranked st h.0 wf)

    -- The dict lookups of the last line of rrf_fuse succeed.
    pub resolve_lem :
        (S : ℕ → F → Type 0) (chunks : Dict (RetrievedChunk fl)) (entries : List (ℕ × F))
        → All (λ p. (p.1.chunk_id ≡ p.0) × P p.1) chunks
        → All (λ e. (is_some (dict_get e.0 chunks) ≡ true) × S e.0 e.1) entries
        → (fused : List (RetrievedChunk fl × F)) × (resolve fl chunks entries ≡ some fused)
          × All (λ p. P p.0 × S p.0.chunk_id p.1) fused
    unfolding resolve
    resolve_lem S chunks [] named h = ([], refl, tt)
    resolve_lem S chunks ((id, score) ∷ rest) named h =
        let (fused, e, g) = resolve_lem S chunks rest named h.1 in
        elim (Option-cases (dict_get id chunks)) [
          | inl n ↦ cc (rw n at h.0.0)
          | inr (c, found) ↦
              let (key, pc) =
                All-dict_get (λ i d. (d.chunk_id ≡ i) × P d) id chunks c named found in
              (
                (c, score) ∷ fused,
                rw (found, resolve, e) refl,
                ((pc, subst (λ i. S i score) (sym key) h.0.1), g),
              )
        ]
