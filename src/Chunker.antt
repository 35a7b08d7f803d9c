-- ===== src/Chunker.antt =====
-- ingest/chunker.py: the chunks of a document, page by page. What PyMuPDF finds on a page (its
-- text, blocks and tables) is the data of the model.
pub mod Scale
pub mod Pages
pub mod Windows
pub mod Groups
use chat_doc.Floats.{Floats}
use chat_doc.Gate.{text_of}
use chat_doc.Prelude.{
  Bool, List, Option, Text, [], all, any, codes, if◌then◌else◌, is_digit, leb, length, map, no_text,
  none, not, remove_code, select, some, strip, text_eq, windows, ℕ, ◌%◌, ◌&&◌, ◌++◌, ◌-◌, ◌/◌, ◌==◌,
  ◌||◌, ◌∷◌,
}

abbrev pub prose_chunk_chars : ℕ
prose_chunk_chars = 1600

abbrev pub prose_chunk_overlap_chars : ℕ
prose_chunk_overlap_chars = 200

-- `_clean`
unfoldable pub clean : Text → Text
unfolding remove_code
clean = remove_code 0

abbrev pub clean_option : Option Text → Option Text
clean_option none = none
clean_option (some t) = some (clean t)

abbrev pub join : Text → List Text → Text
join sep [] = []
join sep (t ∷ []) = t
join sep (t ∷ u ∷ rest) = t ++ sep ++ join sep (u ∷ rest)

abbrev pub newline : Text
newline = b'\n' ∷ []

abbrev pub blank : Text → Bool
blank t = no_text (strip t)

-- `step`
abbrev pub prose_step : ℕ
prose_step = prose_chunk_chars - prose_chunk_overlap_chars

-- The loop of `_split_prose`; its fuel is the length of the text.
abbrev pub prose_windows : Text → List Text
prose_windows text = windows prose_chunk_chars prose_step (length text) text

unfoldable pub split_prose : Text → List Text
unfolding windows
split_prose text =
    if leb (length text) prose_chunk_chars
    then text ∷ []
    else select (λ w. not (blank w)) (prose_windows text)

pub data ChunkType : Type 0 where
  table prose : ChunkType

module _ (fl : Floats) where
  open fl use {F}

  pub record Box : Type 0 where
    pub x0 : F
    pub y0 : F
    pub x1 : F
    pub y1 : F

  pub record Chunk : Type 0 where
    pub page_num : ℕ
    pub chunk_type : ChunkType
    pub text : Text
    pub section_header : Option Text
    pub unit_scale : Option Text
    pub unit_currency : Option Text
    pub unit_note : Option Text
    pub bbox : Option Box

  pub record Span : Type 0 where
    pub text : Text
    pub flags : ℕ
    pub bbox : Box

  pub record Block : Type 0 where
    pub type : ℕ
    pub bbox : Box
    pub lines : List (List Span)

  pub record Table : Type 0 where
    pub rows : List (List (Option Text))
    pub bbox : Box

  -- What PyMuPDF gives for a page; `tables` is none where find_tables raises.
  pub record Page : Type 0 where
    pub text : Text
    pub blocks : List Block
    pub tables : Option (List Table)

  -- `(c or "").strip().replace("\n", " ")`
  abbrev pub cell : Option Text → Text
  cell c = map (λ d. if d == b'\n' then b' ' else d) (strip (text_of c))

  abbrev pub line : List Text → Text
  line cells = codes "| " ++ join (codes " | ") cells ++ codes " |"

  unfoldable pub table_to_markdown : List (List (Option Text)) → Text
  unfolding strip
  table_to_markdown [] = []
  table_to_markdown (header ∷ rows) = join newline (
      line (map cell header)
      ∷ line (map (λ (c : Option Text). codes "---") header)
      ∷ map (λ (row : List (Option Text)). line (map cell row)) rows)

  abbrev pub spans_of : List (List Span) → List Span
  spans_of [] = []
  spans_of (spans ∷ lines) = spans ++ spans_of lines

  -- Bold, short, and neither the running header nor a page number.
  unfoldable pub is_header : Span → Bool
  unfolding strip
  is_header s =
      let t = strip s.text in
      not (no_text t)
      && leb (length t) 100
      && s.flags / 16 % 2 == 1
      && not (text_eq t (codes "Table of Contents"))
      && not (all is_digit t)

  unfoldable pub extract_headers : List Block → List (F × Text)
  unfolding is_header strip
  extract_headers [] = []
  extract_headers (b ∷ blocks) =
      let rest = extract_headers blocks in
      if b.type == 0
      then map (λ (s : Span). (s.bbox.y0, strip s.text)) (select is_header (spans_of b.lines))
        ++ rest
      else rest

  -- The loop of `_nearest_header`.
  unfoldable pub nearest_from : Option Text → F → List (F × Text) → F → Option Text
  nearest_from best best_y [] y = best
  nearest_from best best_y ((hy, htext) ∷ headers) y =
      if not (fl.lt y hy) && fl.lt best_y hy
      then nearest_from (some htext) hy headers y
      else nearest_from best best_y headers y

  unfoldable pub nearest_header : List (F × Text) → F → Option Text
  unfolding nearest_from
  nearest_header headers y = nearest_from none (fl.neg (fl.literal 1 0)) headers y

  unfoldable pub overlaps : Box → Box → Bool
  overlaps b t = not (fl.lt b.x1 t.x0 || fl.lt t.x1 b.x0 || fl.lt b.y1 t.y0 || fl.lt t.y1 b.y0)

  unfoldable pub block_text : Block → Text
  unfolding strip
  block_text b = strip (join newline (map (λ (s : Span). s.text) (spans_of b.lines)))

  unfoldable pub prose_paragraphs : List Block → List Box → List (Text × Box)
  unfolding overlaps block_text
  prose_paragraphs [] table_bboxes = []
  prose_paragraphs (b ∷ blocks) table_bboxes =
      let rest = prose_paragraphs blocks table_bboxes in
      if not (b.type == 0) || any (overlaps b.bbox) table_bboxes || no_text (block_text b)
      then rest
      else (block_text b, b.bbox) ∷ rest
