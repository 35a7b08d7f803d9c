-- ===== src/Runner/Agree.antt =====
-- The gate (eval/gate.py) reads the texts and scales only at the ids that the answer cites.
use chat_doc.Floats.{Floats}
use chat_doc.Gate.{
  Layers, cited_ids, check_l3b_prose, check_l3a_numeric, apply_gate, GateAnswer, Citation, Operand,
  check_operands, found_in_cited, check_numbers, cited_texts,
}
use chat_doc.Prelude.{
  Dict, In, List, Option, Option-cases, Text, [], dict_get, false, inl, inr, map, none, refl, some,
  ℕ, ◌++◌, ◌∙◌, ◌∷◌, ◌≡◌,
}

-- Two dicts give the same at every key of a list.
abbrev pub Agree : {V : Type 0} → List ℕ → Dict V → Dict V → Type 0
Agree ids d e = (i : ℕ) → In i ids → dict_get i d ≡ dict_get i e

module _ (fl : Floats) where
  open fl use {F}

  check_operands-Agree :
      (ops : List (Operand fl)) (texts texts' : Dict Text) (scales scales' : Dict (Option Text))
      → Agree (map (λ (o : Operand fl). o.citation_chunk_id) ops) texts texts'
      → Agree (map (λ (o : Operand fl). o.citation_chunk_id) ops) scales scales'
      → check_operands fl ops texts scales ≡ check_operands fl ops texts' scales'
  unfolding check_operands
  check_operands-Agree [] texts texts' scales scales' a b = refl
  check_operands-Agree (op ∷ ops) texts texts' scales scales' a b =
      let rest =
        check_operands-Agree ops texts texts' scales scales' (λ i m. a i (inr m))
          (λ i m. b i (inr m)) in
      let same = a op.citation_chunk_id (inl refl) in
      elim (Option-cases (dict_get op.citation_chunk_id texts')) [
        | inl n ↦ rw (n, same ∙ n, check_operands) refl
        | inr (t, e) ↦
            rw (e, same ∙ e, b op.citation_chunk_id (inl refl), rest, check_operands) refl
      ]

  found_in_cited-Agree :
      (value : F) (scale : Option Text) (cs : List (Citation fl)) (texts texts' : Dict Text)
      (scales scales' : Dict (Option Text))
      → Agree (map (λ (c : Citation fl). c.chunk_id) cs) texts texts'
      → Agree (map (λ (c : Citation fl). c.chunk_id) cs) scales scales'
      → found_in_cited fl value scale cs texts scales
        ≡ found_in_cited fl value scale cs texts' scales'
  unfolding found_in_cited
  found_in_cited-Agree value scale [] texts texts' scales scales' a b = refl
  found_in_cited-Agree value scale (c ∷ cs) texts texts' scales scales' a b =
      let rest =
        found_in_cited-Agree value scale cs texts texts' scales scales' (λ i m. a i (inr m))
          (λ i m. b i (inr m)) in
      let same = a c.chunk_id (inl refl) in
      elim (Option-cases (dict_get c.chunk_id texts')) [
        | inl n ↦ rw (n, same ∙ n, found_in_cited) rest
        | inr (t, e) ↦ rw (e, same ∙ e, b c.chunk_id (inl refl), rest, found_in_cited) refl
      ]

  cited_texts-Agree :
      (cs : List (Citation fl)) (texts texts' : Dict Text)
      → Agree (map (λ (c : Citation fl). c.chunk_id) cs) texts texts'
      → cited_texts fl cs texts ≡ cited_texts fl cs texts'
  unfolding cited_texts
  cited_texts-Agree [] texts texts' a = refl
  cited_texts-Agree (c ∷ cs) texts texts' a =
      let same = a c.chunk_id (inl refl) in
      let rest = cited_texts-Agree cs texts texts' (λ i m. a i (inr m)) in
      elim (Option-cases (dict_get c.chunk_id texts')) [
        | inl n ↦ rw (n, same ∙ n, cited_texts) rest
        | inr (t, e) ↦ rw (e, same ∙ e, rest, cited_texts) refl
      ]

  check_numbers-Agree :
      (ops : List (Operand fl)) (value : Option F) (scale : Option Text) (cs : List (Citation fl))
      (texts texts' : Dict Text) (scales scales' : Dict (Option Text))
      → Agree (map (λ (c : Citation fl). c.chunk_id) cs) texts texts'
      → Agree (map (λ (c : Citation fl). c.chunk_id) cs) scales scales'
      → Agree (map (λ (o : Operand fl). o.citation_chunk_id) ops) texts texts'
      → Agree (map (λ (o : Operand fl). o.citation_chunk_id) ops) scales scales'
      → check_numbers fl ops value scale cs texts scales
        ≡ check_numbers fl ops value scale cs texts' scales'
  unfolding check_numbers
  check_numbers-Agree (op ∷ ops) value scale cs texts texts' scales scales' a b c d =
      check_operands-Agree (op ∷ ops) texts texts' scales scales' c d
  check_numbers-Agree [] none scale cs texts texts' scales scales' a b c d = refl
  check_numbers-Agree [] (some v) scale cs texts texts' scales scales' a b c d =
      rw (found_in_cited-Agree v scale cs texts texts' scales scales' a b) refl

  In-append_left : (i : ℕ) (xs ys : List ℕ) → In i xs → In i (xs ++ ys)
  In-append_left i [] ys m = absurd m
  In-append_left i (x ∷ xs) ys (inl e) = inl e
  In-append_left i (x ∷ xs) ys (inr m) = inr (In-append_left i xs ys m)

  In-append_right : (i : ℕ) (xs ys : List ℕ) → In i ys → In i (xs ++ ys)
  In-append_right i [] ys m = m
  In-append_right i (x ∷ xs) ys m = inr (In-append_right i xs ys m)

  module _ (rerank : Text → List Text → List F) where
    -- Dicts that agree on the cited ids give the same result of the gate.
    pub apply_gate-Agree :
        (parsed : GateAnswer fl) (retrieved : List ℕ) (texts texts' : Dict Text)
        (scales scales' : Dict (Option Text)) (layers : Layers) (threshold t t' : F)
        (m m' : Option (F × Option F))
        → layers.l1 ≡ false
        → Agree (cited_ids fl parsed) texts texts'
        → Agree (cited_ids fl parsed) scales scales'
        → apply_gate fl rerank parsed retrieved texts scales layers threshold m t
          ≡ apply_gate fl rerank parsed retrieved texts' scales' layers threshold m' t'
    unfolding apply_gate check_l3a_numeric check_l3b_prose cited_ids
    apply_gate-Agree parsed retrieved texts texts' scales scales' layers threshold t t' m m' off a
          b =
        let cs = map (λ (c : Citation fl). c.chunk_id) parsed.citations in
        let os = map (λ (o : Operand fl). o.citation_chunk_id) parsed.operands in
        rw
          (
            off,
            check_numbers-Agree parsed.operands parsed.value parsed.scale parsed.citations texts
                texts' scales scales' (λ i h. a i (In-append_left i cs os h))
                (λ i h. b i (In-append_left i cs os h)) (λ i h. a i (In-append_right i cs os h))
                (λ i h. b i (In-append_right i cs os h)),
            cited_texts-Agree parsed.citations texts texts' (λ i h. a i (In-append_left i cs os h)),
          )
          refl
