-- ===== src/Worker.antt =====
-- api/worker.py: the work of one claimed job. Times of the monotonic clock are milliseconds.
pub mod Hook
pub mod Outcomes
pub mod Success
pub mod Owners
pub mod Ingests
use chat_doc.Floats.{Floats}
use chat_doc.Database.{Database, Stage}
use chat_doc.Documents.{
  document_exists, mark_document_failed, mark_document_ready, update_document_stage,
}
use chat_doc.Jobs.{ClaimedJob, complete_job, fail_job}
use chat_doc.Chunker.{Page}
use chat_doc.Pipeline.{unreadable_pdf, ChunkContent, IngestError, ingest_pdf}
use chat_doc.Storage.{Storage}
use chat_doc.Prelude.{
  Bool, List, Option, Text, [], codes, false, if◌then◌else◌, inl, inr, length, ltb, none, not, some,
  take, true, ℕ, ◌&&◌, ◌-◌, ◌==◌, ◌||◌, ◌∷◌, ◌⊎◌,
}

abbrev pub max_file_size_bytes : ℕ
max_file_size_bytes = 26_214_400

abbrev pub max_page_count : ℕ
max_page_count = 500

abbrev pub progress_write_interval : ℕ
progress_write_interval = 350

abbrev pub stage_eq : Stage → Stage → Bool
stage_eq Stage.queued Stage.queued = true
stage_eq Stage.reading Stage.reading = true
stage_eq Stage.chunking Stage.chunking = true
stage_eq Stage.embedding Stage.embedding = true
stage_eq Stage.indexing Stage.indexing = true
stage_eq Stage.done Stage.done = true
stage_eq _ _ = false

-- The dict `state` of a progress writer, and the readings of the clock still to come.
pub record Progress : Type 0 where
  pub last_write : ℕ
  pub last_stage : Option Stage
  pub chunk_count : ℕ
  pub clock : List ℕ

abbrev pub fresh_progress : List ℕ → Progress
fresh_progress clock = record { last_write = 0; last_stage = none; chunk_count = 0; clock = clock }

-- A clock that is not read on stands still.
abbrev pub now_of : Progress → ℕ × Progress
now_of (p) = elim p.clock [ [] ↦ (p.last_write, p) | t ∷ rest ↦ (t, record p { clock = rest }) ]

abbrev pub stage_changed : Stage → Option Stage → Bool
stage_changed stage none = true
stage_changed stage (some last) = not (stage_eq stage last)

abbrev pub counts_chunks : Stage → Bool
counts_chunks stage = stage_eq stage Stage.embedding || stage_eq stage Stage.indexing

-- `if stage in ("embedding", "indexing") and total`
abbrev pub counted : Stage → ℕ → Progress → Progress
counted stage total p =
    if counts_chunks stage && not (total == 0) then record p { chunk_count = total } else p

module _ {C : Type 0} (document_id : ℕ) where
  abbrev pub throttled : Stage → ℕ → ℕ → Database C → ℕ × Progress → Database C × Progress
  throttled stage current total db (now, p) =
      if not (stage_changed stage p.last_stage) && ltb (now - p.last_write) progress_write_interval
      then (db, p)
      else (
        update_document_stage document_id stage current total db,
        record p { last_stage = some stage; last_write = now },
      )

  -- The function that `_make_progress_writer` returns.
  unfoldable pub on_progress : Stage → ℕ → ℕ → Database C × Progress → Database C × Progress
  on_progress stage current total (db, p) =
      throttled stage current total db (now_of (counted stage total p))

abbrev pub missing_error : Text
missing_error = codes "source PDF missing from storage"

-- Why the body of `process_job` raises, besides a StorageError.
pub data JobError : Type 0 where
  too_many_pages : ℕ → JobError
  ingest_error : IngestError → JobError

-- The file is read by PyMuPDF (`parse_pdf`, none where it raises) and embedded by fastembed
-- (`embed`); `message` is the text of an exception.
module _ (fl : Floats) (V S : Type 0) (store : Storage S)
    (parse_pdf : Text → Option (List (Page fl))) (embed : List Text → List V)
    (message : JobError → Text) where
  pub record World : Type 0 where
    pub db : Database (ChunkContent fl V)
    pub blobs : S

  abbrev dead_letter :
      ClaimedJob → Text → Bool × Database (ChunkContent fl V) → Database (ChunkContent fl V)
  dead_letter job error (will_retry, db) =
      if will_retry then db else mark_document_failed job.document_id (take 500 error) db

  -- The handler of every other exception.
  unfoldable pub job_raised :
      ℕ → ClaimedJob → JobError → Database (ChunkContent fl V) → Database (ChunkContent fl V)
  job_raised now job e db = dead_letter job (message e) (fail_job now job.id (message e) db)

  abbrev pub ingested :
      ℕ
      → ClaimedJob
      → (IngestError ⊎ ℕ) × (Database (ChunkContent fl V) × Progress)
      → Database (ChunkContent fl V)
  ingested now job (inl e, (db, p)) = job_raised now job (ingest_error e) db
  ingested now job (inr id, (db, p)) =
      complete_job job.id (mark_document_ready job.document_id p.chunk_count db)

  -- The blob has been opened as a file.
  unfoldable pub run_ingest :
      ℕ
      → List ℕ
      → ClaimedJob
      → Option (List (Page fl))
      → Database (ChunkContent fl V)
      → Database (ChunkContent fl V)
  unfolding job_raised
  run_ingest now clock job none db = job_raised now job (ingest_error unreadable_pdf) db
  run_ingest now clock job (some pages) db =
      if ltb max_page_count (length pages)
      then job_raised now job (too_many_pages (length pages)) db
      else ingested now job (
          ingest_pdf fl V embed Progress (on_progress job.document_id) now (some pages) (λ i. false)
            job.doc_key job.pdf_path (db, fresh_progress clock))

  unfoldable pub process_job : ℕ → List ℕ → ClaimedJob → World → World
  unfolding run_ingest
  process_job now clock job w =
      if document_exists job.document_id w.db
      then elim (store.open_local job.pdf_path w.blobs) [
        | none ↦ record w { db = (fail_job now job.id missing_error w.db).1 }
        | some blob ↦ record w { db = run_ingest now clock job (parse_pdf blob) w.db }
      ]
      else record w { blobs = store.delete job.pdf_path w.blobs }
