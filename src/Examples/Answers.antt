-- ===== src/Examples/Answers.antt =====
-- One question about a small filing, through retrieval, the gate and the stream.
use chat_doc.Examples.Numbers.{thousandths, counting}
use chat_doc.Gate.{
  value_not_found, greatest, cited_texts, best_score, support, check_l3b_prose, found_in_cited,
  check_numbers, check_l3a_numeric, cited_ids, refuse_unknown, unknown_ids, check_l2, check_l1,
  apply_gate, GateAnswer, passed, refused,
}
use chat_doc.Gate.Figures.{significant, raw_figure, forms, variants, value_found_in_text}
use chat_doc.Query.{
  top1_top2_scores, scale_by_id, text_by_id, chunk_ids, chunks, check_answer, RetrievalContext,
  Turn, got_delta, got_end, timeout,
}
use chat_doc.Retrieval.{rrf_fuse, RetrievedChunk}
use chat_doc.Gate.Live.{live_gate_iff, Grounded, live_gate_layers}
use chat_doc.Retrieval.Fusion.{terms, sum_of}
use chat_doc.Retrieval.Ranking.{rrf_fuse_formula}
use chat_doc.Normalize.Search.{matches_at, search_from, bounded_search}
use chat_doc.Normalize.{
  cleaned, bracketed, after_digit, digits_from, number_at, first_scale, normalize_numeric_answer,
  NormalizedNumber, findall, scale_multiplier,
}
use chat_doc.Normalize.Occurs.{bounded_search_iff, Occurs}
use chat_doc.Normalize.Numbers.{normalize_numeric_answer-digits, Read}
use chat_doc.Prelude.{
  All, List, Option, Text, [], codes, false, if◌then◌else◌, is_digit, is_empty, lower, lstrip_of,
  none, refl, remove_code, rstrip_of, some, strip, strip_prefix, text_eq, true, ℕ, ◌↔◌, ◌∷◌, ◌≡◌,
}

abbrev pub table : RetrievedChunk thousandths
table = record {
  chunk_id = 11;
  document_id = 5;
  page_num = 3;
  chunk_type = "table";
  text = codes "Revenue 1234 in 2022";
  unit_scale = none;
  bbox_x0 = none;
  bbox_y0 = none;
  bbox_x1 = none;
  bbox_y1 = none;
}

abbrev note : RetrievedChunk thousandths
note = record table { chunk_id = 12; page_num = 4; text = codes "Notes" }

abbrev reply_text : Text
reply_text = codes "{}"

abbrev pub reported : GateAnswer thousandths
reported = record {
  sufficient = true;
  value = some 1_234_000;
  unit = none;
  scale = none;
  operands = [];
  answer_text = some (codes "Revenue was 1234");
  citations = record { chunk_id = 11; quote = codes "Revenue 1234" } ∷ [];
}

abbrev invented : GateAnswer thousandths
invented = record reported { value = some 4_321_000 }

abbrev pub small_context : RetrievalContext thousandths
small_context = record { scored = (table, 2000) ∷ (note, 1000) ∷ [] }

abbrev pub parse_reply : Text → Option (GateAnswer thousandths)
parse_reply t = if text_eq t reply_text then some reported else none

abbrev small_turns : List (Turn thousandths)
small_turns = timeout 20_000 ∷ got_delta (codes "{") ∷ got_delta (codes "}") ∷ got_end ∷ []

reported-passed : check_answer thousandths counting parse_reply small_context reported ≡ passed
unfolding check_answer apply_gate check_l1 check_l2 unknown_ids refuse_unknown cited_ids
    check_l3a_numeric check_numbers found_in_cited value_found_in_text variants forms raw_figure
    significant bounded_search scale_multiplier rstrip_of remove_code check_l3b_prose support
    best_score cited_texts chunk_ids text_by_id scale_by_id top1_top2_scores strip_prefix
    search_from greatest chunks
reported-passed = refl

invented-refused :
    check_answer thousandths counting parse_reply small_context invented
    ≡ refused (value_not_found 4_321_000)
unfolding check_answer apply_gate check_l1 check_l2 unknown_ids refuse_unknown cited_ids
    check_l3a_numeric check_numbers found_in_cited value_found_in_text variants forms raw_figure
    significant bounded_search scale_multiplier rstrip_of remove_code check_l3b_prose support
    best_score cited_texts chunk_ids text_by_id scale_by_id top1_top2_scores strip_prefix
    search_from greatest chunks
invented-refused = refl

pub small_context-found : is_empty (chunks thousandths small_context) ≡ false
unfolding chunks
small_context-found = refl

live_gate_iff_example :
    (apply_gate thousandths counting reported
        (11 ∷ 12 ∷ [])
        ((11, table.text) ∷ [])
        []
        live_gate_layers
        0
        none
        0
      ≡ passed)
    ↔ Grounded thousandths counting reported (11 ∷ 12 ∷ []) ((11, table.text) ∷ []) [] 0
live_gate_iff_example =
    live_gate_iff thousandths counting reported (11 ∷ 12 ∷ []) ((11, table.text) ∷ []) [] 0 0 none

rrf_fuse_formula_example :
    (fused : List (RetrievedChunk thousandths × ℕ)) × (rrf_fuse thousandths
        ((table ∷ note ∷ []) ∷ (note ∷ []) ∷ [])
        60
      ≡ some fused)
    × All
        (λ p.
          (p.0.document_id ≡ 5)
          × (some p.1
              ≡ sum_of thousandths 60 none
                  (terms thousandths 60 p.0.chunk_id ((table ∷ note ∷ []) ∷ (note ∷ []) ∷ []))))
        fused
rrf_fuse_formula_example =
    rrf_fuse_formula thousandths (λ c. c.document_id ≡ 5) 60
      ((table ∷ note ∷ []) ∷ (note ∷ []) ∷ []) ((refl, (refl, tt)), ((refl, tt), tt))

bounded_search_iff_example :
    (bounded_search is_digit (codes "234") (codes "1234 and 234") ≡ true)
    ↔ Occurs is_digit false (codes "234") (codes "1234 and 234")
bounded_search_iff_example = bounded_search_iff is_digit (codes "234") (codes "1234 and 234")

part_unfound : bounded_search is_digit (codes "234") (codes "1234") ≡ false
unfolding bounded_search search_from matches_at strip_prefix
part_unfound = refl

abbrev figure : NormalizedNumber thousandths
figure = record { value = 1_234_000_000_000; is_percent = false }

figure-read : normalize_numeric_answer thousandths (codes " $1,234 million ") ≡ some figure
unfolding normalize_numeric_answer strip rstrip_of lstrip_of lower first_scale bounded_search
    search_from matches_at strip_prefix findall number_at digits_from after_digit bracketed cleaned
    remove_code
figure-read = refl

normalize_numeric_answer-digits_example : Read thousandths (codes " $1,234 million ") figure
normalize_numeric_answer-digits_example =
    normalize_numeric_answer-digits thousandths (codes " $1,234 million ") figure figure-read
