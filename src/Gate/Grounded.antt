-- ===== src/Gate/Grounded.antt =====
-- What the gate of the live route promises: an answer passes exactly if it is grounded.
use chat_doc.Floats.{Floats}
use chat_doc.Gate.{
  unknown_ids, refuse_unknown, no_citations, check_numbers, Operand, Citation, GateAnswer, passed,
  refused, flat, or_else, text_of, cited_ids, check_l2, check_operands, found_in_cited, cited_texts,
  best_score, support, check_l3b_prose,
}
use chat_doc.Gate.Figures.{value_found_in_text}
use chat_doc.Prelude.{
  All, All-imp, Bool, Bool-cases, Dict, In, List, Option, Option-cases, Text, [], any, arith,
  dict_get, false, if◌then◌else◌, inl, inr, is_empty, no_text, none, not, refl, select-nil,
  select-of_none, some, subst, sym, true, ℕ, ◌==◌, ◌↔◌, ◌∷◌, ◌≡◌,
}

module _ (fl : Floats) where
  open fl use {F}

  -- The operand stands in the text of the chunk that it cites, at that chunk's scale.
  abbrev pub OperandGrounded : Dict Text → Dict (Option Text) → Operand fl → Type 0
  OperandGrounded texts scales op =
      (text : Text) × (dict_get op.citation_chunk_id texts ≡ some text)
      × (value_found_in_text fl op.value (flat (dict_get op.citation_chunk_id scales)) text ≡ true)

  -- The value stands in the text of the cited chunk.
  abbrev pub ValueGrounded : F → Option Text → Dict Text → Dict (Option Text) → Citation fl → Type 0
  ValueGrounded value scale texts scales c =
      (text : Text) × (dict_get c.chunk_id texts ≡ some text)
      × (value_found_in_text fl value (or_else (flat (dict_get c.chunk_id scales)) scale) text
          ≡ true)

  -- A derived figure is checked by its inputs, a direct one by itself.
  abbrev pub NumbersGrounded :
      List (Operand fl)
      → Option F
      → Option Text
      → List (Citation fl)
      → Dict Text
      → Dict (Option Text)
      → Type 0
  NumbersGrounded [] none scale citations texts scales = Unit
  NumbersGrounded [] (some v) scale citations texts scales =
      (c : Citation fl) × In c citations × ValueGrounded v scale texts scales c
  NumbersGrounded (op ∷ ops) value scale citations texts scales =
      All (OperandGrounded texts scales) (op ∷ ops)

  -- The operands are checked one by one.
  pub check_operands_sound :
      (ops : List (Operand fl)) (texts : Dict Text) (scales : Dict (Option Text))
      → check_operands fl ops texts scales ≡ passed
      → All (OperandGrounded texts scales) ops
  unfolding check_operands
  check_operands_sound [] texts scales h = tt
  check_operands_sound (op ∷ ops) texts scales h =
      elim (Option-cases (dict_get op.citation_chunk_id texts)) [
        | inl n ↦ cc (rw (n, check_operands) at h)
        | inr (text, e) ↦
            elim (Bool-cases (
              value_found_in_text fl op.value (flat (dict_get op.citation_chunk_id scales)) text)) [
                | inl f ↦ (
                  (text, e, f),
                  check_operands_sound ops texts scales (rw (e, f, check_operands) at h),
                )
                | inr f ↦ cc (rw (e, f, check_operands) at h)
              ]
      ]

  pub check_operands_complete :
      (ops : List (Operand fl)) (texts : Dict Text) (scales : Dict (Option Text))
      → All (OperandGrounded texts scales) ops
      → check_operands fl ops texts scales ≡ passed
  unfolding check_operands
  check_operands_complete [] texts scales h = refl
  check_operands_complete (op ∷ ops) texts scales ((text, e, f), h) =
      rw (e, f, check_operands) (check_operands_complete ops texts scales h)

  pub found_in_cited_sound :
      (v : F) (scale : Option Text) (cs : List (Citation fl)) (texts : Dict Text)
      (scales : Dict (Option Text))
      → found_in_cited fl v scale cs texts scales ≡ true
      → (c : Citation fl) × In c cs × ValueGrounded v scale texts scales c
  unfolding found_in_cited
  found_in_cited_sound v scale [] texts scales h = cc
  found_in_cited_sound v scale (c ∷ cs) texts scales h =
      elim (Option-cases (dict_get c.chunk_id texts)) [
        | inl n ↦
            let (c', m, g) =
              found_in_cited_sound v scale cs texts scales (rw (n, found_in_cited) at h) in
            (c', inr m, g)
        | inr (text, e) ↦
            elim (Bool-cases
              (value_found_in_text fl v (or_else (flat (dict_get c.chunk_id scales)) scale) text)) [
                | inl f ↦ (c, inl refl, (text, e, f))
                | inr f ↦
                    let (c', m, g) =
                      found_in_cited_sound v scale cs texts scales
                        (rw (e, f, found_in_cited) at h) in
                    (c', inr m, g)
              ]
      ]

  pub found_in_cited_complete :
      (v : F) (scale : Option Text) (cs : List (Citation fl)) (texts : Dict Text)
      (scales : Dict (Option Text)) (c : Citation fl)
      → In c cs
      → ValueGrounded v scale texts scales c
      → found_in_cited fl v scale cs texts scales ≡ true
  unfolding found_in_cited
  found_in_cited_complete v scale [] texts scales c m g = absurd m
  found_in_cited_complete v scale (d ∷ cs) texts scales c (inl e) g =
      let (text, k, f) = subst (ValueGrounded v scale texts scales) (sym e) g in
      rw (k, f, found_in_cited) refl
  found_in_cited_complete v scale (d ∷ cs) texts scales c (inr m) g =
      elim (Option-cases (dict_get d.chunk_id texts)) [
        | inl n ↦ rw (n, found_in_cited) (found_in_cited_complete v scale cs texts scales c m g)
        | inr (text, e) ↦
            elim (Bool-cases
              (value_found_in_text fl v (or_else (flat (dict_get d.chunk_id scales)) scale) text)) [
                | inl f ↦ rw (e, f, found_in_cited) refl
                | inr f ↦
                    rw (e, f, found_in_cited)
                      (found_in_cited_complete v scale cs texts scales c m g)
              ]
      ]

  -- Every cited id is one that was retrieved.
  abbrev pub CitesRetrieved : GateAnswer fl → List ℕ → Type 0
  CitesRetrieved answer retrieved =
      All (λ i. any (λ r. r == i) retrieved ≡ true) (cited_ids fl answer)

  refuse_unknown_iff : (ids : List ℕ) → (refuse_unknown fl ids ≡ passed) ↔ (ids ≡ [])
  unfolding refuse_unknown
  refuse_unknown_iff [] = ((λ _. refl), λ _. refl)
  refuse_unknown_iff (i ∷ rest) = ((λ h. cc), λ h. cc)

  unknown_ids_iff :
      (answer : GateAnswer fl) (retrieved : List ℕ)
      → (unknown_ids fl answer retrieved ≡ []) ↔ CitesRetrieved answer retrieved
  unfolding unknown_ids
  unknown_ids_iff answer retrieved =
      let known : ℕ → Bool = λ i. any (λ r. r == i) retrieved in
      (
        (λ h.
            All-imp (λ i. not (known i) ≡ false) (λ i. known i ≡ true) (λ i e. ground arith)
              (cited_ids fl answer) (select-nil (λ i. not (known i)) (cited_ids fl answer) h)),
        λ h.
            select-of_none (λ i. not (known i)) (cited_ids fl answer)
              (All-imp (λ i. known i ≡ true) (λ i. not (known i) ≡ false) (λ i e. ground arith)
                (cited_ids fl answer) h),
      )

  pub check_l2_iff :
      (answer : GateAnswer fl) (retrieved : List ℕ)
      → (check_l2 fl answer retrieved ≡ passed)
        ↔ ((answer.sufficient ≡ true) × CitesRetrieved answer retrieved)
  unfolding check_l2
  check_l2_iff answer retrieved =
      let (nil→, →nil) = refuse_unknown_iff (unknown_ids fl answer retrieved) in
      let (ids→, →ids) = unknown_ids_iff answer retrieved in
      elim (Bool-cases answer.sufficient) [
        | inl e ↦ (
          (λ h. (e, ids→ (nil→ (rw (e, check_l2) at h)))),
          λ (_, g). rw (e, check_l2) (→nil (→ids g)),
        )
        | inr e ↦ ((λ h. cc (rw (e, check_l2) at h)), λ (t, _). cc)
      ]

  pub check_numbers_iff :
      (ops : List (Operand fl)) (value : Option F) (scale : Option Text) (cs : List (Citation fl))
      (texts : Dict Text) (scales : Dict (Option Text))
      → (check_numbers fl ops value scale cs texts scales ≡ passed)
        ↔ NumbersGrounded ops value scale cs texts scales
  unfolding check_numbers
  check_numbers_iff (op ∷ ops) value scale cs texts scales = (
    check_operands_sound (op ∷ ops) texts scales,
    check_operands_complete (op ∷ ops) texts scales,
  )
  check_numbers_iff [] none scale cs texts scales = ((λ _. tt), λ _. refl)
  check_numbers_iff [] (some v) scale cs texts scales =
      elim (Bool-cases (found_in_cited fl v scale cs texts scales)) [
        | inl e ↦
            ((λ _. found_in_cited_sound v scale cs texts scales e), λ _. rw (e, check_numbers) refl)
        | inr e ↦ (
          (λ h. cc (rw (e, check_numbers) at h)),
          λ (c, m, g). cc (found_in_cited_complete v scale cs texts scales c m g),
        )
      ]

  -- The claim is supported by the texts of the cited chunks, of which there is one.
  module _ (rerank : Text → List Text → List F) where
    abbrev pub TextsSupport : F → Text → List Text → Type 0
    TextsSupport threshold claim [] = ⊥
    TextsSupport threshold claim (t ∷ texts) =
        fl.lt (best_score fl (rerank claim (t ∷ texts))) threshold ≡ false

    abbrev pub ProseSupported : F → Text → List Text → Type 0
    ProseSupported threshold [] texts = Unit
    ProseSupported threshold (c ∷ claim) texts = TextsSupport threshold (c ∷ claim) texts

    pub support_iff :
        (threshold : F) (claim : Text) (texts : List Text)
        → (support fl rerank claim texts threshold ≡ passed) ↔ TextsSupport threshold claim texts
    unfolding support
    support_iff threshold claim [] = ((λ h. cc), λ h. absurd h)
    support_iff threshold claim (t ∷ texts) =
        elim (Bool-cases (fl.lt (best_score fl (rerank claim (t ∷ texts))) threshold)) [
          | inl e ↦ ((λ h. cc (rw (e, support) at h)), λ h. cc)
          | inr e ↦ ((λ _. e), λ _. rw (e, support) refl)
        ]

    prose_iff :
        (threshold : F) (claim : Text) (cs : List (Citation fl)) (texts : Dict Text)
        → ((if no_text claim
              then passed
              else if is_empty cs
              then refused no_citations
              else support fl rerank claim (cited_texts fl cs texts) threshold)
            ≡ passed)
          ↔ ProseSupported threshold claim (cited_texts fl cs texts)
    unfolding cited_texts
    prose_iff threshold [] cs texts = ((λ _. tt), λ _. refl)
    prose_iff threshold (c ∷ claim) [] texts = ((λ h. cc), λ h. absurd h)
    prose_iff threshold (c ∷ claim) (d ∷ cs) texts =
        support_iff threshold (c ∷ claim) (cited_texts fl (d ∷ cs) texts)

    pub check_l3b_prose_iff :
        (answer : GateAnswer fl) (texts : Dict Text) (threshold : F)
        → (check_l3b_prose fl rerank answer texts threshold ≡ passed)
          ↔ ProseSupported threshold
              (text_of answer.answer_text)
              (cited_texts fl answer.citations texts)
    unfolding check_l3b_prose
    check_l3b_prose_iff answer texts threshold =
        prose_iff threshold (text_of answer.answer_text) answer.citations texts
