-- ===== src/Worker/Ingests.antt =====
-- An ingest (ingest/pipeline.py, api/worker.py) leaves the documents with their ids and owners.
use chat_doc.Worker.Owners.{
  owners, owners-update_where, insert_chunks-documents, on_progress-owners, upsert_document-owners,
}
use chat_doc.Floats.{Floats}
use chat_doc.Chunker.{Chunk, Page}
use chat_doc.Chunker.Pages.{Item, chunk_pdf, yielded, on_page, empty_text_layer}
use chat_doc.Database.{Database, Stage}
use chat_doc.Documents.{document_exists, mark_document_ready}
use chat_doc.IngestDb.{delete_chunks_for_document, insert_chunks, upsert_document}
use chat_doc.Pipeline.{
  and_then, finished, IngestError, consume, take_chunk, flush_batch, ingest_pages, ingest_pdf,
  insert_rows, with_chunk, report, report_embedding, start, contents, embed_texts, ChunkContent,
  IngestState, embed_batch,
}
use chat_doc.Worker.{
  process_job, run_ingest, World, JobError, fresh_progress, max_page_count, on_progress, Progress,
}
use chat_doc.Storage.{Storage}
use chat_doc.Jobs.{ClaimedJob, complete_job}
use chat_doc.Pipeline.Rows.{has_text}
use chat_doc.Worker.Success.{ingest_pdf-writes, id_of, progress-id_of}
use chat_doc.Prelude.{
  Bool, Bool-cases, List, Option, Option-cases, String, Text, [], ap, arith, false, inl, inr,
  is_empty, leb, length, ltb, map, none, refl, some, sym, true, ℕ, ◌==◌, ◌∙◌, ◌∷◌, ◌≡◌, ◌≤◌,
}

module _ (fl : Floats) (V : Type 0) (embed : List Text → List V) (document_id : ℕ) where
  abbrev hook :
      Stage
      → ℕ
      → ℕ
      → Database (ChunkContent fl V) × Progress
      → Database (ChunkContent fl V) × Progress
  hook = on_progress document_id

  abbrev docs : IngestState fl V embed Progress hook → List (ℕ × Option ℕ)
  docs st = owners st.world.0.documents

  flush_batch-owners :
      (id : ℕ) (st : IngestState fl V embed Progress hook)
      → docs (flush_batch fl V embed Progress hook id st).1 ≡ docs st
  unfolding flush_batch
  flush_batch-owners id st = elim (Bool-cases (is_empty st.batch)) [
    | inl e ↦ rw e refl
    | inr e ↦ rw e (
        rows (
          contents fl V st.batch
            (embed_texts fl V embed Progress hook (map (λ (c : Chunk fl). c.text) st.batch))))
  ]
    where
      rows :
          (cs : List (ChunkContent fl V))
          → docs (insert_rows fl V embed Progress hook id cs st).1 ≡ docs st
      rows cs =
          let same = insert_chunks-documents id cs st.written st.world.0 in
          elim (Option-cases (insert_chunks id cs st.written st.world.0).0) [
            | inl n ↦ rw n (ap owners same)
            | inr (v, s) ↦ rw s (ap owners same)
          ]

  take_chunk-owners :
      (id : ℕ) (c : Chunk fl) (st : IngestState fl V embed Progress hook)
      → docs (take_chunk fl V embed Progress hook id c st).1 ≡ docs st
  unfolding take_chunk
  take_chunk-owners id c st =
      let full = with_chunk fl V embed Progress hook c st in
      elim (Bool-cases (leb embed_batch (length full.batch))) [
        | inr e ↦ rw e refl
        | inl e ↦
            rw e
              (reported (flush_batch fl V embed Progress hook id full) (flush_batch-owners id full))
      ]
    where
      reported :
          (r : Option IngestError × IngestState fl V embed Progress hook)
          → docs r.1 ≡ docs st
          → docs
              (and_then fl V embed Progress hook r
                (λ st'. (none, report_embedding fl V embed Progress hook st'))).1
            ≡ docs st
      reported (some e, st') h = h
      reported (none, st') h =
          on_progress-owners document_id Stage.embedding st'.written st'.seen st'.world ∙ h

  consume-owners :
      (id : ℕ) (items : List (Item fl)) (st : IngestState fl V embed Progress hook)
      → docs (consume fl V embed Progress hook id items st).1 ≡ docs st
  unfolding consume
  consume-owners id [] st =
      last (flush_batch fl V embed Progress hook id st) (flush_batch-owners id st)
    where
      last :
          (r : Option IngestError × IngestState fl V embed Progress hook)
          → docs r.1 ≡ docs st
          → docs
              (and_then fl V embed Progress hook r (λ st'.
                let st'' = report_embedding fl V embed Progress hook st' in
                (
                  none,
                  report fl V embed Progress hook Stage.indexing st''.written st''.written st'',
                ))).1
            ≡ docs st
      last (some e, st') h = h
      last (none, st') h =
          on_progress-owners document_id Stage.indexing st'.written st'.written _
          ∙ on_progress-owners document_id Stage.embedding st'.written st'.seen st'.world
          ∙ h
  consume-owners id (yielded c ∷ items) st =
      next (λ st'. consume-owners id items st') (take_chunk fl V embed Progress hook id c st)
        (take_chunk-owners id c st)
    where
      next :
          ((st' : IngestState fl V embed Progress hook)
            → docs (consume fl V embed Progress hook id items st').1 ≡ docs st')
          → (r : Option IngestError × IngestState fl V embed Progress hook) → docs r.1 ≡ docs st
          → docs
              (and_then fl V embed Progress hook r
                (λ st'. consume fl V embed Progress hook id items st')).1
            ≡ docs st
      next keeps (some e, st') h = h
      next keeps (none, st') h = keeps st' ∙ h
  consume-owners id (on_page i total so_far ∷ items) st =
      consume-owners id items (report fl V embed Progress hook Stage.chunking i total st)
      ∙ on_progress-owners document_id Stage.chunking i total st.world
  consume-owners id (empty_text_layer ∷ items) st = refl

  ingest_pages-owners :
      (pages : List (Page fl)) (excluded : ℕ → Bool) (id : ℕ) (db : Database (ChunkContent fl V))
      (p : Progress)
      → owners (ingest_pages fl V embed Progress hook pages excluded id db p).1.0.documents
        ≡ owners db.documents
  unfolding ingest_pages delete_chunks_for_document
  ingest_pages-owners pages excluded id db p =
      let st = start fl V embed Progress hook (delete_chunks_for_document id db, p) in
      let st' = report fl V embed Progress hook Stage.chunking 0 (length pages) st in
      let st'' = report fl V embed Progress hook Stage.embedding 0 0 st' in
      done (consume fl V embed Progress hook id (chunk_pdf fl pages excluded) st'') (
        consume-owners id (chunk_pdf fl pages excluded) st''
        ∙ on_progress-owners document_id Stage.embedding 0 0 st'.world
        ∙ on_progress-owners document_id Stage.chunking 0 (length pages) st.world)
    where
      done :
          (r : Option IngestError × IngestState fl V embed Progress hook)
          → docs r.1 ≡ owners db.documents
          → owners (finished fl V embed Progress hook id r).1.0.documents ≡ owners db.documents
      done (none, st') h = h
      done (some e, st') h = h

  -- Where the document of the key is in the table, an ingest keeps all ids and owners.
  pub ingest_pdf-owners :
      (now : ℕ) (pages : List (Page fl)) (excluded : ℕ → Bool) (doc_name source_path : String)
      (w : Database (ChunkContent fl V) × Progress) (id : ℕ)
      → id_of doc_name w.0.documents ≡ some id
      → owners
          (ingest_pdf fl V embed Progress hook now
            (some pages)
            excluded
            doc_name
            source_path
            w).1.0.documents
        ≡ owners w.0.documents
  unfolding ingest_pdf
  ingest_pdf-owners now pages excluded doc_name source_path w id h =
      let n = length pages in
      let w1 = hook Stage.reading 0 0 w in
      let w2 = hook Stage.reading n n w1 in
      let up = upsert_document now doc_name source_path n w2.0 in
      ingest_pages-owners pages excluded up.0 up.1 w2.1
      ∙ upsert_document-owners now doc_name source_path n id w2.0 (
          progress-id_of document_id doc_name Stage.reading n n w1
          ∙ progress-id_of document_id doc_name Stage.reading 0 0 w
          ∙ h)
      ∙ on_progress-owners document_id Stage.reading n n w1
      ∙ on_progress-owners document_id Stage.reading 0 0 w

module _ (fl : Floats) (V S : Type 0) (store : Storage S)
    (parse_pdf : Text → Option (List (Page fl))) (embed : List Text → List V)
    (message : JobError → Text) where
  -- A job that succeeds keeps all ids and owners.
  pub process_job-owners :
      (embeds : (texts : List Text) → length (embed texts) ≡ length texts) (now : ℕ)
      (clock : List ℕ) (job : ClaimedJob) (w : World fl V S store parse_pdf embed message)
      (blob : Text) (pages : List (Page fl))
      → document_exists job.document_id w.db ≡ true
      → id_of job.doc_key w.db.documents ≡ some job.document_id
      → store.open_local job.pdf_path w.blobs ≡ some blob
      → parse_pdf blob ≡ some pages
      → length pages ≤ max_page_count
      → has_text fl V (chunk_pdf fl pages (λ i. false)) ≡ true
      → owners (process_job fl V S store parse_pdf embed message now clock job w).db.documents
        ≡ owners w.db.documents
  unfolding process_job run_ingest complete_job mark_document_ready
  process_job-owners embeds now clock job w blob pages known named_so stored parsed short text =
      let (after, _, e, _, _, _) =
        ingest_pdf-writes fl V S store parse_pdf embed message embeds now clock job pages w.db
          named_so text in
      let fits : ltb max_page_count (length pages) ≡ false = ground arith in
      let kept =
        ingest_pdf-owners fl V embed job.document_id now pages (λ i. false) job.doc_key job.pdf_path
          (w.db, fresh_progress clock) job.document_id named_so in
      rw (known, stored, parsed, run_ingest, fits, e)
        (owners-update_where (λ d. d.id == job.document_id) _ (λ d. (refl, refl)) after.0.documents
          ∙ ap (λ r. owners r.1.0.documents) (sym e)
          ∙ kept)
