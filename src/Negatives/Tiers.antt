-- ===== src/Negatives/Tiers.antt =====
-- The tiers N1 and N2 of eval/build_negatives.py.
use chat_doc.Floats.{Floats}
use chat_doc.Negatives.{
  sorted_texts, choice, build_n2, kept_one, n2, info_of, dropped_one, candidates, n2_item, n1,
  negative_of, leaks_elsewhere, Negative, DocInfo, Answerable, build_n1,
}
use chat_doc.Negatives.Sound.{
  In-choice, In-sorted_texts, In-map, leaks_elsewhere-NoFigure, NoFigure,
}
use chat_doc.Gate.{sorted_set}
use chat_doc.Prelude.{
  All, All-imp, Bool, Bool-cases, In, In-select, List, Option, Option-cases, Text, [], all, ap,
  arith, false, inl, inr, is_some, length, map, none, not, refl, select, some, some-injective,
  subst, sym, text_eq, true, ℕ, ◌+◌, ◌>>=◌, ◌∙◌, ◌∷◌, ◌≡◌,
}

module _ (fl : Floats) (page_texts : Text → Option (List Text)) where
  open fl use {F}

  -- The item serves the record's own document without its evidence pages, and none of the other
  -- pages has the gold figure.
  abbrev pub IsAblated : Answerable fl → Negative fl → Type 0
  IsAblated r item =
      (pages : List Text) × (page_texts r.doc_name ≡ some pages)
      × (item ≡ negative_of fl r (n1 (sorted_set r.evidence_pages)) r.doc_name)
      × NoFigure fl r.gold_value pages r.evidence_pages

  -- The item serves another document of the record's company, and none of its pages has the figure.
  abbrev pub IsOther : List DocInfo → Answerable fl → Negative fl → Type 0
  IsOther docs r item =
      (d : DocInfo) × (pages : List Text) × In d docs
      × (text_eq d.company r.company ≡ true)
      × (text_eq d.name r.doc_name ≡ false)
      × (page_texts d.name ≡ some pages)
      × (item.served_doc_name ≡ d.name)
      × (item.financebench_id ≡ r.financebench_id)
      × NoFigure fl r.gold_value pages []

  -- Each item is of one of the records.
  abbrev pub OfRecords :
      (Answerable fl → Negative fl → Type 0) → List (Answerable fl) → Negative fl → Type 0
  OfRecords P records item = (r : Answerable fl) × In r records × P r item

  later :
      (P : Answerable fl → Negative fl → Type 0) (r : Answerable fl)
      (records : List (Answerable fl)) (items : List (Negative fl))
      → All (OfRecords P records) items
      → All (OfRecords P (r ∷ records)) items
  later P r records items =
      All-imp (OfRecords P records) (OfRecords P (r ∷ records)) (λ item (s, m, p). (s, inr m, p))
        items

  -- N1: every item kept serves its record's own document without the evidence pages, and no other
  -- page of the document has a form of the gold figure that is specific enough, standing by itself.
  -- The items kept and the records dropped together are the records whose PDF is there.
  pub build_n1_sound :
      (records : List (Answerable fl))
      → All (OfRecords IsAblated records) (build_n1 fl page_texts records).0
        × (length (build_n1 fl page_texts records).0 + (build_n1 fl page_texts records).1
            ≡ length (select (λ r. is_some (page_texts r.doc_name)) records))
  unfolding build_n1
  build_n1_sound [] = (tt, omega arith)
  build_n1_sound (r ∷ records) =
      let (all, count) = build_n1_sound records in
      let rest = build_n1 fl page_texts records in
      elim (Option-cases (page_texts r.doc_name)) [
        | inl n ↦ rw (n, build_n1) (later IsAblated r records rest.0 all, count)
        | inr (pages, e) ↦
            elim (Bool-cases (leaks_elsewhere fl r.gold_value pages r.evidence_pages)) [
              | inl l ↦ rw (e, l, build_n1) (later IsAblated r records rest.0 all, omega arith)
              | inr l ↦
                  rw (e, l, build_n1)
                    (
                      (
                        (
                          r,
                          inl refl,
                          (
                            pages,
                            e,
                            refl,
                            leaks_elsewhere-NoFigure fl r.gold_value pages r.evidence_pages l,
                          ),
                        ),
                        later IsAblated r records rest.0 all,
                      ),
                      omega arith,
                    )
            ]
      ]

  -- A candidate is another document of the company.
  candidates_lem :
      (docs : List DocInfo) (r : Answerable fl) (served : Text)
      → In served (candidates fl page_texts docs r)
      → (d : DocInfo) × In d docs
        × (text_eq d.company r.company ≡ true)
        × (text_eq d.name r.doc_name ≡ false)
        × (d.name ≡ served)
  unfolding candidates
  candidates_lem docs r served m =
      let names = map (λ (d : DocInfo). d.name) (select (λ d. text_eq d.company r.company) docs) in
      let (there, other) = In-select (λ d. not (text_eq d r.doc_name)) served names m in
      let (d, of_company, e) =
        In-map (λ (d : DocInfo). d.name) served (select (λ d. text_eq d.company r.company) docs)
          there in
      let (known, same) = In-select (λ d. text_eq d.company r.company) d docs of_company in
      (
        d,
        known,
        same,
        subst (λ name. text_eq name r.doc_name ≡ false) (sym e)
            (not_true (text_eq served r.doc_name) other),
        e,
      )
    where
      not_true : (b : Bool) → not b ≡ true → b ≡ false
      not_true true h = cc
      not_true false h = refl

  n2_item_lem :
      (docs : List DocInfo) (r : Answerable fl) (served : Text) (item : Negative fl)
      → n2_item fl page_texts docs r served ≡ some item
      → (item.served_doc_name ≡ served) × (item.financebench_id ≡ r.financebench_id)
  unfolding n2_item
  n2_item_lem docs r served item e = elim (Option-cases (info_of docs served)) [
    | inl n ↦ cc (rw n at e)
    | inr (s, f) ↦ elim (Option-cases (info_of docs r.doc_name)) [
      | inl n ↦ cc (rw (f, n) at e)
      | inr (c, g) ↦
          let made : negative_of fl r (n2 r.doc_name s.doc_period c.doc_period) served ≡ item =
            some-injective _ _ (rw (f, g) at e) in
          (ap (λ x. x.served_doc_name) (sym made), ap (λ x. x.financebench_id) (sym made))
    ]
  ]

  -- N2: every item kept serves a document other than its record's own, of the same company, with
  -- the PDF there, and no page of it has a form of the gold figure that is specific enough, standing
  -- by itself.
  pub build_n2_sound :
      (draw : ℕ → ℕ) (docs : List DocInfo) (records : List (Answerable fl)) (n : ℕ)
      (out : List (Negative fl) × ℕ)
      → build_n2 fl page_texts draw docs records n ≡ some out
      → All (OfRecords (IsOther docs) records) out.0
  unfolding build_n2
  build_n2_sound draw docs [] n out e =
      subst (λ (o : List (Negative fl) × ℕ). All (OfRecords (IsOther docs) []) o.0)
        (some-injective _ _ e) tt
  build_n2_sound draw docs (r ∷ records) n out e =
      let rest = build_n2 fl page_texts draw docs records (n + 1) in
      let behind = build_n2_sound draw docs records (n + 1) in
      elim (Option-cases (choice (draw n) (sorted_texts (candidates fl page_texts docs r)))) [
        | inl nobody ↦
            later (IsOther docs) r records out.0
              (build_n2_sound draw docs records n out (rw (nobody, build_n2) at e))
        | inr (served, chosen) ↦
            let (d, known, company, other, name) = candidates_lem docs r served (
              In-sorted_texts served (candidates fl page_texts docs r) (
                In-choice (draw n) served (sorted_texts (candidates fl page_texts docs r))
                  chosen)) in
            elim (Option-cases (page_texts served)) [
              | inl missing ↦
                  later (IsOther docs) r records out.0
                    (behind out (rw (chosen, missing, build_n2) at e))
              | inr (pages, there) ↦ elim (Bool-cases (leaks_elsewhere fl r.gold_value pages [])) [
                | inl leak ↦
                    later (IsOther docs) r records out.0
                      (after_drop rest behind (rw (chosen, there, leak, build_n2) at e))
                | inr clean ↦
                    after_keep rest behind (n2_item fl page_texts docs r served)
                      (λ item made.
                        let (serves, of_record) = n2_item_lem docs r served item made in
                        (
                          d,
                          pages,
                          known,
                          company,
                          other,
                          ap page_texts name ∙ there,
                          serves ∙ sym name,
                          of_record,
                          leaks_elsewhere-NoFigure fl r.gold_value pages [] clean,
                        ))
                      (rw (chosen, there, clean, build_n2) at e)
              ]
            ]
      ]
    where
      after_drop :
          (rest : Option (List (Negative fl) × ℕ))
          → ((o : List (Negative fl) × ℕ)
              → rest ≡ some o
              → All (OfRecords (IsOther docs) records) o.0)
          → (rest >>= (λ o. some (dropped_one fl page_texts o))) ≡ some out
          → All (OfRecords (IsOther docs) records) out.0
      after_drop none behind e = cc
      after_drop (some o) behind e =
          subst (λ (x : List (Negative fl) × ℕ). All (OfRecords (IsOther docs) records) x.0)
            (some-injective _ _ e) (behind o refl)

      after_keep :
          (rest : Option (List (Negative fl) × ℕ))
          → ((o : List (Negative fl) × ℕ)
              → rest ≡ some o
              → All (OfRecords (IsOther docs) records) o.0)
          → (made : Option (Negative fl))
          → ((item : Negative fl) → made ≡ some item → IsOther docs r item)
          → (made >>= (λ item. rest >>= (λ o. some (kept_one fl page_texts item o)))) ≡ some out
          → All (OfRecords (IsOther docs) (r ∷ records)) out.0
      after_keep rest behind none is_other e = cc
      after_keep none behind (some item) is_other e = cc
      after_keep (some o) behind (some item) is_other e =
          subst (λ (x : List (Negative fl) × ℕ). All (OfRecords (IsOther docs) (r ∷ records)) x.0)
            (some-injective _ _ e)
            ((r, inl refl, is_other item refl), later (IsOther docs) r records o.0 (behind o refl))
