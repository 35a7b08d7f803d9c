-- ===== src/Pipeline.antt =====
-- ingest/pipeline.py: a PDF is chunked, embedded and written in batches of 32.
pub mod Rows
pub mod Written
use chat_doc.Floats.{Floats}
use chat_doc.Database.{Database, Stage, Violation}
use chat_doc.Chunker.{Chunk, Page}
use chat_doc.Chunker.Pages.{empty_text_layer, chunk_pdf, on_page, yielded, Item}
use chat_doc.IngestDb.{delete_chunks_for_document, upsert_document, insert_chunks}
use chat_doc.Prelude.{
  Bool, List, Option, String, Text, [], if◌then◌else◌, inl, inr, is_empty, leb, length, map, none,
  some, ℕ, ◌++◌, ◌+◌, ◌∷◌, ◌⊎◌,
}

abbrev pub embed_batch : ℕ
embed_batch = 32

-- Why an ingest raises.
pub data IngestError : Type 0 where
  unreadable_pdf : IngestError
  no_text_layer : IngestError
  refused_row : Violation → IngestError

module _ (fl : Floats) (V : Type 0) where
  -- A row of chunks: the columns of the chunk, and its embedding.
  pub record ChunkContent : Type 0 where
    pub chunk : Chunk fl
    pub embedding : V

  abbrev pub contents : List (Chunk fl) → List V → List ChunkContent
  contents [] vs = []
  contents (c ∷ cs) [] = []
  contents (c ∷ cs) (v ∷ vs) = record { chunk = c; embedding = v } ∷ contents cs vs

  -- embed_texts (ingest/embeddings.py) and the caller's progress hook with its state.
  module _ (embed : List Text → List V) (P : Type 0)
      (on_progress : Stage → ℕ → ℕ → Database ChunkContent × P → Database ChunkContent × P) where
    -- The database and the hook's state, and the variables of the loop.
    pub record IngestState : Type 0 where
      pub world : Database ChunkContent × P
      pub batch : List (Chunk fl)
      pub written : ℕ
      pub seen : ℕ

    unfoldable pub embed_texts : List Text → List V
    embed_texts [] = []
    embed_texts (t ∷ texts) = embed (t ∷ texts)

    abbrev pub report : Stage → ℕ → ℕ → IngestState → IngestState
    report stage current total st = record st { world = on_progress stage current total st.world }

    abbrev pub and_then :
        Option IngestError × IngestState
        → (IngestState → Option IngestError × IngestState)
        → Option IngestError × IngestState
    and_then (none, st) next = next st
    and_then (some e, st) next = (some e, st)

    abbrev pub inserted :
        ℕ
        → IngestState
        → Option Violation × Database ChunkContent
        → Option IngestError × IngestState
    inserted n st (none, db) =
        (none, record st { world = (db, st.world.1); written = st.written + n; batch = [] })
    inserted n st (some v, db) = (some (refused_row v), record st { world = (db, st.world.1) })

    abbrev pub insert_rows : ℕ → List ChunkContent → IngestState → Option IngestError × IngestState
    insert_rows document_id rows st =
        inserted (length rows) st (insert_chunks document_id rows st.written st.world.0)

    unfoldable pub flush_batch : ℕ → IngestState → Option IngestError × IngestState
    unfolding embed_texts
    flush_batch document_id st =
        if is_empty st.batch
        then (none, st)
        else insert_rows document_id
            (contents st.batch (embed_texts (map (λ (c : Chunk fl). c.text) st.batch))) st

    abbrev pub report_embedding : IngestState → IngestState
    report_embedding st = report Stage.embedding st.written st.seen st

    abbrev pub with_chunk : Chunk fl → IngestState → IngestState
    with_chunk c st = record st { batch = st.batch ++ c ∷ []; seen = st.seen + 1 }

    -- A chunk joins the batch, which is written when it is full.
    unfoldable pub take_chunk : ℕ → Chunk fl → IngestState → Option IngestError × IngestState
    unfolding flush_batch
    take_chunk document_id c st =
        if leb embed_batch (length (with_chunk c st).batch)
        then and_then (flush_batch document_id (with_chunk c st))
            (λ st'. (none, report_embedding st'))
        else (none, with_chunk c st)

    -- The loop over the generator, and what follows it.
    unfoldable pub consume : ℕ → List (Item fl) → IngestState → Option IngestError × IngestState
    unfolding take_chunk flush_batch
    consume document_id [] st = and_then (flush_batch document_id st) (λ st'.
        let st'' = report_embedding st' in
        (none, report Stage.indexing st''.written st''.written st''))
    consume document_id (yielded c ∷ items) st =
        and_then (take_chunk document_id c st) (λ st'. consume document_id items st')
    consume document_id (on_page done total so_far ∷ items) st =
        consume document_id items (report Stage.chunking done total st)
    consume document_id (empty_text_layer ∷ items) st = (some no_text_layer, st)

    abbrev pub start : Database ChunkContent × P → IngestState
    start world = record { world = world; batch = []; written = 0; seen = 0 }

    abbrev pub finished :
        ℕ → Option IngestError × IngestState → (IngestError ⊎ ℕ) × (Database ChunkContent × P)
    finished document_id (none, st) = (inr document_id, st.world)
    finished document_id (some e, st) = (inl e, st.world)

    -- After the upsert.
    unfoldable pub ingest_pages :
        List (Page fl)
        → (ℕ → Bool)
        → ℕ
        → Database ChunkContent
        → P
        → (IngestError ⊎ ℕ) × (Database ChunkContent × P)
    unfolding consume
    ingest_pages pages excluded document_id db p =
        let st = start (delete_chunks_for_document document_id db, p) in
        let st' = report Stage.embedding 0 0 (report Stage.chunking 0 (length pages) st) in
        finished document_id (consume document_id (chunk_pdf fl pages excluded) st')

    -- The pages are those of the PDF, or none where PyMuPDF refuses it.
    unfoldable pub ingest_pdf :
        ℕ
        → Option (List (Page fl))
        → (ℕ → Bool)
        → String
        → String
        → Database ChunkContent × P
        → (IngestError ⊎ ℕ) × (Database ChunkContent × P)
    unfolding ingest_pages
    ingest_pdf now none excluded doc_name source_path world =
        (inl unreadable_pdf, on_progress Stage.reading 0 0 world)
    ingest_pdf now (some pages) excluded doc_name source_path world =
        let n = length pages in
        let (db, p) = on_progress Stage.reading n n (on_progress Stage.reading 0 0 world) in
        let (document_id, db') = upsert_document now doc_name source_path n db in
        ingest_pages pages excluded document_id db' p
