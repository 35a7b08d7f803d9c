-- ===== src/BuildDataset.antt =====
-- eval/build_dataset.py: which answers can be graded as numbers, and the check that the pages of the
-- evidence count from zero. The downloads are not modelled; the texts of a PDF's pages are a
-- parameter.
use text.Mathlib.Text.{◌==◌ as str_eq}
use chat_doc.Floats.{Floats}
use chat_doc.Normalize.{normalize_numeric_answer}
use chat_doc.Prelude.{
  Bool, List, Option, String, Text, [], codes, find, if◌then◌else◌, is_some, none, some,
  strip_prefix, suc, zero, ℕ, ◌||◌, ◌∷◌,
}

-- What the check reads of a line of the questions.
pub record Question : Type 0 where
  pub financebench_id : String
  pub answer : Text
  pub doc_name : Text
  pub evidence_pages : List ℕ

abbrev pub known_off_by_one_check_id : String
known_off_by_one_check_id = "financebench_id_03029"

-- `needle in text`
unfoldable pub contains : Text → Text → Bool
unfolding strip_prefix
contains needle [] = is_some (strip_prefix needle [])
contains needle (c ∷ t) = is_some (strip_prefix needle (c ∷ t)) || contains needle t

abbrev page_at : ℕ → List Text → Option Text
page_at n [] = none
page_at zero (t ∷ pages) = some t
page_at (suc n) (t ∷ pages) = page_at n pages

-- How the check ends: it says that it is fine, or is passed over because the PDF is not there; or an
-- AssertionError, or an exception for a record without evidence or a page out of range.
pub data Checked : Type 0 where
  check_ok : Checked
  skipped : Checked
  not_in_dataset : Checked
  off_by_one : ℕ → Checked
  raised : Checked

unfoldable pub check_page : ℕ → Option Text → Checked
unfolding contains
check_page page_num none = raised
check_page page_num (some text) =
    if contains (codes "Purchases of property") text then check_ok else off_by_one page_num

-- The first evidence of the known record.
unfoldable pub check_evidence : (Text → Option (List Text)) → Question → Checked
unfolding check_page
check_evidence page_texts rec = elim rec.evidence_pages [
  | [] ↦ raised
  | page_num ∷ _ ↦ elim (page_texts rec.doc_name) [
    | none ↦ skipped
    | some pages ↦ check_page page_num (page_at page_num pages)
  ]
]

unfoldable pub assert_evidence_page_off_by_one :
    (Text → Option (List Text)) → List Question → Checked
unfolding check_evidence
assert_evidence_page_off_by_one page_texts records =
    elim (find (λ r. str_eq r.financebench_id known_off_by_one_check_id) records) [
      | none ↦ not_in_dataset
      | some rec ↦ check_evidence page_texts rec
    ]

module _ (fl : Floats) where
  open fl use {F}

  pub record Gradable : Type 0 where
    pub question : Question
    pub gold_value : F
    pub gold_is_percent : Bool

  -- The records that can be graded, and the others.
  unfoldable pub classify : List Question → List Gradable × List Question
  unfolding normalize_numeric_answer
  classify [] = ([], [])
  classify (r ∷ records) =
      let (gradable, not_gradable) = classify records in
      elim (normalize_numeric_answer fl r.answer) [
        | none ↦ (gradable, r ∷ not_gradable)
        | some parsed ↦ (
          record { question = r; gold_value = parsed.value; gold_is_percent = parsed.is_percent }
              ∷ gradable,
          not_gradable,
        )
      ]
