-- ===== src/Chunker/Pages.antt =====
-- The chunks of a page and of a document (ingest/chunker.py chunk_pdf).
use chat_doc.Floats.{Floats}
use chat_doc.Chunker.{
  clean_option, prose_paragraphs, prose_chunk_chars, newline, join, clean, split_prose,
  extract_headers, blank, nearest_header, table_to_markdown, Box, Chunk, Table, Page, table, prose,
}
use chat_doc.Chunker.Scale.{detect_scale}
use chat_doc.Prelude.{
  Bool, List, Option, Text, [], codes, false, if◌then◌else◌, is_empty, length, ltb, map, none, not,
  select, some, strip, text_eq, true, ℕ, ◌++◌, ◌+◌, ◌||◌, ◌∷◌,
}

module _ (fl : Floats) where
  open fl use {F}

  abbrev with_header : Option Text → Text → Text
  with_header none text = text
  with_header (some []) text = text
  with_header (some (c ∷ h)) text = (c ∷ h) ++ codes "\n\n" ++ text

  -- `_clean(header) if header else None`
  abbrev header_or_none : Option Text → Option Text
  header_or_none none = none
  header_or_none (some []) = none
  header_or_none (some (c ∷ h)) = some (clean (c ∷ h))

  -- The chunk of a table, unless its markdown is blank.
  unfoldable pub table_chunk : ℕ → Text → List (F × Text) → Table fl → Chunk fl
  unfolding table_to_markdown nearest_header clean
  table_chunk page_num page_text headers t =
      let md = table_to_markdown fl t.rows in
      let header = nearest_header fl headers t.bbox.y0 in
      let found = detect_scale (md ++ newline ++ page_text) in
      record {
        page_num = page_num;
        chunk_type = table;
        text = clean (with_header header md);
        section_header = header_or_none header;
        unit_scale = found.scale;
        unit_currency = found.currency;
        unit_note = clean_option found.note;
        bbox = some t.bbox;
      }

  unfoldable pub shown_tables : Option (List (Table fl)) → List (Table fl)
  unfolding table_to_markdown strip
  shown_tables none = []
  shown_tables (some ts) = select (λ (t : Table fl). not (blank (table_to_markdown fl t.rows))) ts

  -- The buffer of the grouping loop: `buf`, `buf_bboxes` and `buf_header`.
  pub record Group : Type 0 where
    pub header : Option Text
    pub paragraphs : List (Text × Box fl)

  abbrev pub buf_len : List (Text × Box fl) → ℕ
  buf_len [] = 0
  buf_len ((t, b) ∷ rest) = length t + buf_len rest

  abbrev pub header_eq : Option Text → Option Text → Bool
  header_eq none none = true
  header_eq none (some t) = false
  header_eq (some s) none = false
  header_eq (some s) (some t) = text_eq s t

  -- The loop over the paragraphs; a flush closes the group.
  unfoldable pub groups : List (F × Text) → Group → List (Text × Box fl) → List Group
  unfolding nearest_header
  groups headers buf [] = if is_empty buf.paragraphs then [] else buf ∷ []
  groups headers buf ((t, bbox) ∷ rest) =
      let header = nearest_header fl headers bbox.y0 in
      let fresh : Group = record { header = header; paragraphs = (t, bbox) ∷ [] } in
      let grown : Group = record {
        header = buf.header;
        paragraphs = buf.paragraphs ++ (t, bbox) ∷ [];
      } in
      let opened = groups headers fresh rest in
      let kept = groups headers grown rest in
      if is_empty buf.paragraphs
      then opened
      else if ltb prose_chunk_chars (buf_len buf.paragraphs + length t)
          || not (header_eq header buf.header)
      then buf ∷ opened
      else kept

  abbrev smaller : F → F → F
  smaller a b = if fl.lt b a then b else a

  abbrev larger : F → F → F
  larger a b = if fl.lt a b then b else a

  abbrev union_from : Box fl → List (Text × Box fl) → Box fl
  union_from u [] = u
  union_from u ((t, b) ∷ rest) =
      union_from
        (record {
          x0 = smaller u.x0 b.x0;
          y0 = smaller u.y0 b.y0;
          x1 = larger u.x1 b.x1;
          y1 = larger u.y1 b.y1;
        })
        rest

  unfoldable pub union_bbox : List (Text × Box fl) → Option (Box fl)
  union_bbox [] = none
  union_bbox ((t, b) ∷ rest) = some (union_from b rest)

  unfoldable pub prose_chunk : ℕ → Group → Text → Chunk fl
  unfolding union_bbox clean
  prose_chunk page_num g piece = record {
    page_num = page_num;
    chunk_type = prose;
    text = clean (with_header g.header piece);
    section_header = header_or_none g.header;
    unit_scale = none;
    unit_currency = none;
    unit_note = none;
    bbox = union_bbox g.paragraphs;
  }

  -- `flush`: the chunks of a group.
  unfoldable pub flush : ℕ → Group → List (Chunk fl)
  unfolding split_prose prose_chunk
  flush page_num g =
      map (prose_chunk page_num g)
        (split_prose (join newline (map (λ (p : Text × Box fl). p.0) g.paragraphs)))

  abbrev pub all_flushed : ℕ → List Group → List (Chunk fl)
  all_flushed page_num [] = []
  all_flushed page_num (g ∷ gs) = flush page_num g ++ all_flushed page_num gs

  -- The chunks of one page.
  unfoldable pub page_chunks : ℕ → Page fl → List (Chunk fl)
  unfolding extract_headers shown_tables table_chunk prose_paragraphs groups flush
  page_chunks page_num page =
      let headers = extract_headers fl page.blocks in
      let tables = shown_tables page.tables in
      let boxes = map (λ (t : Table fl). t.bbox) tables in
      let nothing : Group = record { header = none; paragraphs = [] } in
      map (table_chunk page_num page.text headers) tables
      ++ all_flushed page_num (groups headers nothing (prose_paragraphs fl page.blocks boxes))

  -- What a consumer of the generator meets: chunks, reports of pages, and at the end either nothing
  -- or an EmptyTextLayerError.
  pub data Item : Type 0 where
    yielded : Chunk fl → Item
    on_page : ℕ → ℕ → ℕ → Item
    empty_text_layer : Item

  abbrev yield_all : List (Chunk fl) → List Item → List Item
  yield_all [] rest = rest
  yield_all (c ∷ cs) rest = yielded c ∷ yield_all cs rest

  -- The loop over the pages from a number on.
  unfoldable pub walk_pages : (ℕ → Bool) → ℕ → ℕ → Bool → ℕ → List (Page fl) → List Item
  unfolding page_chunks
  walk_pages excluded page_count page_num any_text so_far [] =
      if any_text then [] else empty_text_layer ∷ []
  walk_pages excluded page_count page_num any_text so_far (page ∷ pages) =
      let cs = page_chunks page_num page in
      let skipped = walk_pages excluded page_count (page_num + 1) any_text so_far pages in
      let walked =
        walk_pages excluded page_count (page_num + 1) (any_text || not (blank page.text))
          (so_far + length cs) pages in
      if excluded page_num
      then on_page (page_num + 1) page_count so_far ∷ skipped
      else yield_all cs (on_page (page_num + 1) page_count (so_far + length cs) ∷ walked)

  unfoldable pub chunk_pdf : List (Page fl) → (ℕ → Bool) → List Item
  unfolding walk_pages
  chunk_pdf pages excluded_pages = walk_pages excluded_pages (length pages) 0 false 0 pages
