-- ===== src/Negatives.antt =====
-- eval/build_negatives.py: the generated tiers of unanswerable questions and the check that the gold
-- figure does not stand elsewhere. The PDFs that are there and the texts of their pages are
-- parameters; so is the generator: its n-th choice out of a list is at place `draw n`, taken modulo
-- the list's length.
pub mod Sound
pub mod Tiers
use chat_doc.Floats.{Floats}
use chat_doc.Gate.{sorted_set}
use chat_doc.Gate.Figures.{forms, significant}
use chat_doc.Normalize.Search.{bounded_search}
use chat_doc.Prelude.{
  Bool, List, Option, String, Text, [], any, codes, false, find, if◌then◌else◌, is_digit, is_empty,
  leb, length, ltb, map, no_text, none, not, select, some, suc, text_eq, true, zero, ℕ, ◌%◌, ◌&&◌,
  ◌++◌, ◌+◌, ◌==◌, ◌>>=◌, ◌||◌, ◌∷◌,
}

-- A Python comparison of two strings, by code points.
unfoldable pub text_lt : Text → Text → Bool
text_lt s [] = false
text_lt [] (d ∷ t) = true
text_lt (c ∷ s) (d ∷ t) = ltb c d || c == d && text_lt s t

unfoldable pub insert_text : Text → List Text → List Text
insert_text a [] = a ∷ []
insert_text a (b ∷ rest) =
    let later = insert_text a rest in if text_lt b a then b ∷ later else a ∷ b ∷ rest

-- sorted(…)
unfoldable pub sorted_texts : List Text → List Text
unfolding insert_text text_lt
sorted_texts [] = []
sorted_texts (a ∷ rest) = insert_text a (sorted_texts rest)

-- A set from a comprehension: each text once.
unfoldable pub distinct : List Text → List Text
distinct [] = []
distinct (a ∷ rest) =
    let others = distinct rest in if any (text_eq a) rest then others else a ∷ others

abbrev pub element : List Text → ℕ → Option Text
element [] i = none
element (x ∷ xs) zero = some x
element (x ∷ xs) (suc i) = element xs i

-- rng.choice, with none for the IndexError of an empty sequence.
unfoldable pub choice : ℕ → List Text → Option Text
choice drawn [] = none
choice drawn (x ∷ xs) = element (x ∷ xs) (drawn % length (x ∷ xs))

abbrev pub min_significant_digits : ℕ
min_significant_digits = 3

pub record DocInfo : Type 0 where
  pub name : Text
  pub company : Text
  pub doc_period : ℕ

-- doc_info[name]
unfoldable pub info_of : List DocInfo → Text → Option DocInfo
unfolding text_eq
info_of docs name = find (λ d. text_eq d.name name) docs

module _ (fl : Floats) where
  open fl use {F}

  pub record Answerable : Type 0 where
    pub financebench_id : String
    pub question : Text
    pub gold_value : F
    pub gold_is_percent : Bool
    pub doc_name : Text
    pub company : Text
    pub evidence_pages : List ℕ

  pub data Tier : Type 0 where
    n1 : List ℕ → Tier
    n2 : Text → ℕ → ℕ → Tier
    n0 : Text → Tier

  -- A record of negatives.jsonl: N1 with its ablated pages, N2 with the correct document and both
  -- periods, N0 with the correct document.
  pub record Negative : Type 0 where
    pub tier : Tier
    pub financebench_id : String
    pub question : Text
    pub gold_value : F
    pub gold_is_percent : Bool
    pub served_doc_name : Text

  abbrev pub negative_of : Answerable → Tier → Text → Negative
  negative_of r tier served = record {
    tier = tier;
    financebench_id = r.financebench_id;
    question = r.question;
    gold_value = r.gold_value;
    gold_is_percent = r.gold_is_percent;
    served_doc_name = served;
  }

  abbrev pub specific : Text → Bool
  specific v =
      not (no_text v)
      && (not (text_eq v (codes "0")) && not (text_eq v (codes "-0")))
      && leb min_significant_digits (length (select is_digit v))

  -- The forms of the gold figure, without those that are too common to search for.
  unfoldable pub gold_figure_variants : F → List Text
  unfolding text_eq forms
  gold_figure_variants gold_value =
      select specific
        (forms fl gold_value ++ forms fl (fl.round gold_value) ++ forms fl (fl.round2 gold_value))

  -- The pages from the one with number `i` on.
  unfoldable pub leaks_from : List Text → ℕ → List Text → List ℕ → Bool
  leaks_from variants i [] excluded = false
  leaks_from variants i (text ∷ pages) excluded =
      let rest = leaks_from variants (i + 1) pages excluded in
      if any (λ p. p == i) excluded
      then rest
      else any (λ v. bounded_search is_digit v text) variants || rest

  unfoldable pub leaks_elsewhere : F → List Text → List ℕ → Bool
  unfolding gold_figure_variants leaks_from
  leaks_elsewhere gold_value pages excluded =
      let variants = gold_figure_variants gold_value in
      if is_empty variants then false else leaks_from variants 0 pages excluded

  -- The PDF of a document: the texts of its pages, or none if the file is not there.
  module _ (page_texts : Text → Option (List Text)) where
    abbrev pub dropped_one : List Negative × ℕ → List Negative × ℕ
    dropped_one (kept, dropped) = (kept, dropped + 1)

    abbrev pub kept_one : Negative → List Negative × ℕ → List Negative × ℕ
    kept_one item (kept, dropped) = (item ∷ kept, dropped)

    unfoldable pub build_n1 : List Answerable → List Negative × ℕ
    unfolding leaks_elsewhere sorted_set
    build_n1 [] = ([], 0)
    build_n1 (r ∷ records) =
        let rest = build_n1 records in
        elim (page_texts r.doc_name) [
          | none ↦ rest
          | some pages ↦
              if leaks_elsewhere r.gold_value pages r.evidence_pages
              then dropped_one rest
              else kept_one (negative_of r (n1 (sorted_set r.evidence_pages)) r.doc_name) rest
        ]

    -- The other documents of the company.
    unfoldable pub candidates : List DocInfo → Answerable → List Text
    unfolding text_eq
    candidates docs r =
        select (λ d. not (text_eq d r.doc_name))
          (map (λ (d : DocInfo). d.name) (select (λ d. text_eq d.company r.company) docs))

    -- The item of N2, with none for the KeyError of a document that is not in doc_info.
    unfoldable pub n2_item : List DocInfo → Answerable → Text → Option Negative
    unfolding info_of
    n2_item docs r served = info_of docs served >>= (λ s.
        info_of docs r.doc_name
        >>= (λ c. some (negative_of r (n2 r.doc_name s.doc_period c.doc_period) served)))

    -- `n` is the number of choices made so far.
    unfoldable pub build_n2 :
        (ℕ → ℕ) → List DocInfo → List Answerable → ℕ → Option (List Negative × ℕ)
    unfolding candidates sorted_texts choice leaks_elsewhere n2_item
    build_n2 draw docs [] n = some ([], 0)
    build_n2 draw docs (r ∷ records) n = elim (choice (draw n) (sorted_texts (candidates docs r))) [
      | none ↦ build_n2 draw docs records n
      | some served ↦
          let rest = build_n2 draw docs records (n + 1) in
          elim (page_texts served) [
            | none ↦ rest
            | some pages ↦
                if leaks_elsewhere r.gold_value pages []
                then (rest >>= (λ out. some (dropped_one out)))
                else (n2_item docs r served
                    >>= (λ item. rest >>= (λ out. some (kept_one item out))))
          ]
    ]

  -- Wrong company: none for the IndexError of a single company.
  unfoldable pub build_n0 : (ℕ → ℕ) → List DocInfo → List Answerable → ℕ → Option (List Negative)
  unfolding sorted_texts distinct choice text_eq
  build_n0 draw docs [] n = some []
  build_n0 draw docs (r ∷ records) n =
      let companies = sorted_texts (distinct (map (λ (d : DocInfo). d.company) docs)) in
      choice (draw n) (select (λ c. not (text_eq c r.company)) companies) >>= (λ wrong.
        choice (draw (n + 1)) (
          sorted_texts (map (λ (d : DocInfo). d.name) (select (λ d. text_eq d.company wrong) docs)))
        >>= (λ served.
            build_n0 draw docs records (n + 2)
            >>= (λ items. some (negative_of r (n0 r.doc_name) served ∷ items))))
