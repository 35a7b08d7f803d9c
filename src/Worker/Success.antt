-- ===== src/Worker/Success.antt =====
-- A job of api/worker.py process_job that succeeds.
use chat_doc.Floats.{Floats}
use chat_doc.Chunker.{Page}
use chat_doc.Chunker.Pages.{chunk_pdf}
use chat_doc.Database.{ChunkRow, Database, DocumentRow, DocumentStatus, JobStatus, Stage}
use chat_doc.Documents.{document_exists, mark_document_ready, update_document_stage}
use chat_doc.IngestDb.{named, upsert_document, upsert_document-exists}
use chat_doc.Jobs.{done_row, ClaimedJob, complete_job}
use chat_doc.Pipeline.{ChunkContent, ingest_pdf}
use chat_doc.Pipeline.Rows.{chunks_of, numbered, shown, has_text}
use chat_doc.Pipeline.Written.{ingest_pages_writes, Reports}
use chat_doc.Storage.{Storage}
use chat_doc.Worker.{
  counted, fresh_progress, now_of, Progress, max_page_count, process_job, run_ingest, on_progress,
  JobError, World,
}
use chat_doc.Worker.Hook.{on_progress-Reports, throttled-either}
use chat_doc.Worker.Outcomes.{DocumentIs, JobIs, update_where-sets}
use chat_doc.Prelude.{
  All, Bool, Bool-cases, List, Option, Option-cases, String, Text, [], ap, arith, false, find,
  if◌then◌else◌, inl, inr, length, ltb, none, not, refl, select, some, some-injective, subst, true,
  update_where, ℕ, ◌++◌, ◌==◌, ◌>>=◌, ◌∙◌, ◌∷◌, ◌≡◌, ◌≤◌,
}

-- The id of the first document of a name.
abbrev pub id_of : String → List DocumentRow → Option ℕ
id_of doc_name [] = none
id_of doc_name (d ∷ ds) = if named doc_name d then some d.id else id_of doc_name ds

id_of-update :
    (doc_name : String) (p : DocumentRow → Bool) (f : DocumentRow → DocumentRow)
    → ((d : DocumentRow) → ((f d).doc_name ≡ d.doc_name) × ((f d).id ≡ d.id))
    → (ds : List DocumentRow) → id_of doc_name (update_where p f ds) ≡ id_of doc_name ds
id_of-update doc_name p f same [] = refl
id_of-update doc_name p f same (d ∷ ds) = elim (Bool-cases (p d)) [
  | inl e ↦ rw (e, (same d).0, (same d).1, id_of-update doc_name p f same ds) refl
  | inr e ↦ rw (e, id_of-update doc_name p f same ds) refl
]

pub id_of-find :
    (doc_name : String) (ds : List DocumentRow)
    → (find (named doc_name) ds >>= (λ d. some d.id)) ≡ id_of doc_name ds
id_of-find doc_name [] = refl
id_of-find doc_name (d ∷ ds) = elim (Bool-cases (named doc_name d)) [
  | inl e ↦ rw e refl
  | inr e ↦ rw e (id_of-find doc_name ds)
]

module _ {C : Type 0} where
  -- The upsert of a name that the table has returns that document's id.
  upsert_document-id :
      (now : ℕ) (doc_name source_path : String) (n id : ℕ) (db : Database C)
      → id_of doc_name db.documents ≡ some id
      → (upsert_document now doc_name source_path n db).0 ≡ id
  unfolding upsert_document
  upsert_document-id now doc_name source_path n id db h =
      let both = id_of-find doc_name db.documents ∙ h in
      elim (Option-cases (find (named doc_name) db.documents)) [
        | inl e ↦ cc (rw e at both)
        | inr (d, e) ↦ rw (e, upsert_document) (some-injective _ _ (rw e at both))
      ]

  pub progress-id_of :
      (document_id : ℕ) (doc_name : String) (stage : Stage) (current total : ℕ)
      (w : Database C × Progress)
      → id_of doc_name (on_progress document_id stage current total w).0.documents
        ≡ id_of doc_name w.0.documents
  unfolding on_progress update_document_stage
  progress-id_of document_id doc_name stage current total w =
      throttled-either document_id
        (λ db. id_of doc_name db.documents ≡ id_of doc_name w.0.documents) stage current total w.0
        (now_of (counted stage total w.1)) refl
        (id_of-update doc_name (λ d. d.id == document_id) _ (λ d. (refl, refl)) w.0.documents)

module _ (fl : Floats) (V S : Type 0) (store : Storage S)
    (parse_pdf : Text → Option (List (Page fl))) (embed : List Text → List V)
    (message : JobError → Text) where
  -- What a successful job leaves: its document's rows are the chunks of its pages and nothing else,
  -- the document is ready and the job done.
  abbrev pub Succeeded :
      List (Page fl)
      → ClaimedJob
      → Database (ChunkContent fl V)
      → Database (ChunkContent fl V)
      → Type 0
  Succeeded pages job before after =
      (rows : List (ChunkRow (ChunkContent fl V))) × (after.chunks
        ≡ select (λ r. not (r.document_id == job.document_id)) before.chunks ++ rows)
      × All (λ r. (r.document_id == job.document_id) ≡ true) rows
      × (shown fl V rows ≡ numbered fl V 0 (chunks_of fl V (chunk_pdf fl pages (λ i. false))))
      × JobIs job.id JobStatus.done after.jobs
      × DocumentIs job.document_id DocumentStatus.ready after.documents

  pub ingest_pdf-writes :
      (embeds : (texts : List Text) → length (embed texts) ≡ length texts) (now : ℕ)
      (clock : List ℕ) (job : ClaimedJob) (pages : List (Page fl))
      (db : Database (ChunkContent fl V))
      → id_of job.doc_key db.documents ≡ some job.document_id
      → has_text fl V (chunk_pdf fl pages (λ i. false)) ≡ true
      → (after : Database (ChunkContent fl V) × Progress) × (rows : List
          (ChunkRow (ChunkContent fl V)))
        × (ingest_pdf fl V embed Progress
              (on_progress job.document_id)
              now
              (some pages)
              (λ i. false)
              job.doc_key
              job.pdf_path
              (db, fresh_progress clock)
            ≡ (inr job.document_id, after))
        × (after.0.chunks ≡ select (λ r. not (r.document_id == job.document_id)) db.chunks ++ rows)
        × All (λ r. (r.document_id == job.document_id) ≡ true) rows
        × (shown fl V rows ≡ numbered fl V 0 (chunks_of fl V (chunk_pdf fl pages (λ i. false))))
  unfolding ingest_pdf
  ingest_pdf-writes embeds now clock job pages db named_so text =
      let n = length pages in
      let hook = on_progress {C = ChunkContent fl V} job.document_id in
      let reports : Reports hook = on_progress-Reports job.document_id in
      let w0 : Database (ChunkContent fl V) × Progress = (db, fresh_progress clock) in
      let w1 = hook Stage.reading 0 0 w0 in
      let w2 = hook Stage.reading n n w1 in
      let up = upsert_document now job.doc_key job.pdf_path n w2.0 in
      let is : up.0 ≡ job.document_id =
        upsert_document-id now job.doc_key job.pdf_path n job.document_id w2.0 (
          progress-id_of job.document_id job.doc_key Stage.reading n n w1
          ∙ progress-id_of job.document_id job.doc_key Stage.reading 0 0 w0
          ∙ named_so) in
      let (known, same) = upsert_document-exists now job.doc_key job.pdf_path n w2.0 in
      let chunks_same : up.1.chunks ≡ db.chunks =
        same
        ∙ reports.keeps_chunks Stage.reading n n w1
        ∙ reports.keeps_chunks Stage.reading 0 0 w0 in
      let (after, rows, e, table, owned, content) =
        ingest_pages_writes fl V embed Progress hook embeds reports pages (λ i. false) up.0 up.1
          w2.1 known text in
      (
        after,
        rows,
        e ∙ ap (λ i. (inr i, after)) is,
        table
            ∙ ap (λ cs. select (λ r. not (r.document_id == up.0)) cs ++ rows) chunks_same
            ∙ ap (λ i. select (λ r. not (r.document_id == i)) db.chunks ++ rows) is,
        subst (λ i. All (λ r. (r.document_id == i) ≡ true) rows) is owned,
        content,
      )

  -- A job whose document has the job's key, whose blob is a PDF of at most 500 pages with some text,
  -- succeeds: all the document's rows are then the chunks of the PDF, numbered from 0, however
  -- often a killed worker had tried before; no other document's rows have changed, the document is
  -- ready and the job done. The embedding model is asked to give one vector for each text.
  pub process_job-succeeds :
      (embeds : (texts : List Text) → length (embed texts) ≡ length texts) (now : ℕ)
      (clock : List ℕ) (job : ClaimedJob) (w : World fl V S store parse_pdf embed message)
      (blob : Text) (pages : List (Page fl))
      → document_exists job.document_id w.db ≡ true
      → id_of job.doc_key w.db.documents ≡ some job.document_id
      → store.open_local job.pdf_path w.blobs ≡ some blob
      → parse_pdf blob ≡ some pages
      → length pages ≤ max_page_count
      → has_text fl V (chunk_pdf fl pages (λ i. false)) ≡ true
      → Succeeded pages job w.db
          (process_job fl V S store parse_pdf embed message now clock job w).db
  unfolding process_job run_ingest complete_job mark_document_ready
  process_job-succeeds embeds now clock job w blob pages known named_so stored parsed short text =
      let (after, rows, e, table, owned, content) =
        ingest_pdf-writes embeds now clock job pages w.db named_so text in
      let fits : ltb max_page_count (length pages) ≡ false = ground arith in
      rw (known, stored, parsed, run_ingest, fits, e)
        (
          rows,
          table,
          owned,
          content,
          update_where-sets (λ j. j.status ≡ JobStatus.done) (λ j. j.id == job.id) done_row
              (λ j. refl) after.0.jobs,
          update_where-sets (λ d. d.status ≡ DocumentStatus.ready) (λ d. d.id == job.document_id) _
              (λ d. refl) after.0.documents,
        )
