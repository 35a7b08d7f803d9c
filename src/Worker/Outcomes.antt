-- ===== src/Worker/Outcomes.antt =====
-- What api/worker.py process_job leaves behind, on every branch.
use chat_doc.Floats.{Floats}
use chat_doc.Chunker.{Page}
use chat_doc.Database.{Database, DocumentRow, DocumentStatus, JobRow, JobStatus}
use chat_doc.Documents.{failed_row, document_exists, mark_document_failed, mark_document_ready}
use chat_doc.Jobs.{
  done_row, dead_row, is_processing, requeued_row, ClaimedJob, complete_job, fail_job,
}
use chat_doc.Pipeline.{ingest_pdf, unreadable_pdf, IngestError, ChunkContent}
use chat_doc.Storage.{Storage}
use chat_doc.Worker.{
  fresh_progress, on_progress, missing_error, too_many_pages, max_page_count, ingested, Progress,
  ingest_error, job_raised, process_job, run_ingest, JobError, World,
}
use chat_doc.Prelude.{
  All, All-imp, Bool, Bool-cases, List, Option, Option-cases, Text, [], arith, false, find,
  find-none, inl, inr, length, ltb, lt→ltb, none, refl, some, take, true, update_where, ℕ, ◌<◌,
  ◌==◌, ◌∷◌, ◌≡◌, ◌≤◌, ◌⊎◌,
}

-- The rows of a job are in no worker's hands.
abbrev pub Settled : ℕ → List JobRow → Type 0
Settled job_id = All (λ j. (j.id == job_id) ≡ true → is_processing j.status ≡ false)

abbrev pub JobIs : ℕ → JobStatus → List JobRow → Type 0
JobIs job_id status = All (λ j. (j.id == job_id) ≡ true → j.status ≡ status)

abbrev pub DocumentIs : ℕ → DocumentStatus → List DocumentRow → Type 0
DocumentIs document_id status = All (λ d. (d.id == document_id) ≡ true → d.status ≡ status)

-- An UPDATE by id that sets a value leaves all rows of the id with it.
pub update_where-sets {κ} :
    {A : Type 0} (Q : A → Type κ) (p : A → Bool) (f : A → A)
    → ((x : A) → Q (f x))
    → (xs : List A) → All (λ x. p x ≡ true → Q x) (update_where p f xs)
update_where-sets Q p f sets [] = tt
update_where-sets Q p f sets (x ∷ xs) = elim (Bool-cases (p x)) [
  | inl e ↦ rw e ((λ _. sets x), update_where-sets Q p f sets xs)
  | inr e ↦ rw e ((λ t. cc), update_where-sets Q p f sets xs)
]

module _ {C : Type 0} where
  fail_job-settles :
      (now job_id : ℕ) (error : Text) (db : Database C)
      → Settled job_id (fail_job now job_id error db).1.jobs
  unfolding fail_job
  fail_job-settles now job_id error db = elim (Option-cases (find (λ j. j.id == job_id) db.jobs)) [
    | inl n ↦
        rw (n, fail_job)
          (All-imp (λ j. (j.id == job_id) ≡ false)
            (λ j. (j.id == job_id) ≡ true → is_processing j.status ≡ false) (λ j no is. cc) db.jobs
            (find-none (λ j. j.id == job_id) db.jobs n))
    | inr (row, e) ↦ elim (Bool-cases (ltb row.attempts row.max_attempts)) [
      | inl left ↦
          rw (e, fail_job, left)
            (update_where-sets (λ j. is_processing j.status ≡ false) (λ j. j.id == job_id)
              (requeued_row now error) (λ j. refl) db.jobs)
      | inr spent ↦
          rw (e, fail_job, spent)
            (update_where-sets (λ j. is_processing j.status ≡ false) (λ j. j.id == job_id)
              (dead_row error) (λ j. refl) db.jobs)
    ]
  ]

  fail_job-documents :
      (now job_id : ℕ) (error : Text) (db : Database C)
      → (fail_job now job_id error db).1.documents ≡ db.documents
  unfolding fail_job
  fail_job-documents now job_id error db =
      elim (Option-cases (find (λ j. j.id == job_id) db.jobs)) [
        | inl n ↦ rw (n, fail_job) refl
        | inr (row, e) ↦ elim (Bool-cases (ltb row.attempts row.max_attempts)) [
          | inl left ↦ rw (e, fail_job, left) refl
          | inr spent ↦ rw (e, fail_job, spent) refl
        ]
      ]

module _ (fl : Floats) (V S : Type 0) (store : Storage S)
    (parse_pdf : Text → Option (List (Page fl))) (embed : List Text → List V)
    (message : JobError → Text) where
  job_raised-settles :
      (now : ℕ) (job : ClaimedJob) (e : JobError) (db : Database (ChunkContent fl V))
      → Settled job.id (job_raised fl V S store parse_pdf embed message now job e db).jobs
  unfolding job_raised mark_document_failed
  job_raised-settles now job e db = elim (Bool-cases (fail_job now job.id (message e) db).0) [
    | inl again ↦ rw again (fail_job-settles now job.id (message e) db)
    | inr dead ↦ rw dead (fail_job-settles now job.id (message e) db)
  ]

  -- A job that fails with attempts left is queued again at once and its document stays as it is;
  -- one that fails on its last attempt is failed, and so is its document.
  pub job_raised_lem :
      (now : ℕ) (job : ClaimedJob) (e : JobError) (db : Database (ChunkContent fl V)) (row : JobRow)
      → find (λ j. j.id == job.id) db.jobs ≡ some row
      → let after = job_raised fl V S store parse_pdf embed message now job e db in
        (row.attempts < row.max_attempts
          → JobIs job.id JobStatus.queued after.jobs × (after.documents ≡ db.documents))
        × (row.max_attempts ≤ row.attempts
            → JobIs job.id JobStatus.failed after.jobs
              × DocumentIs job.document_id DocumentStatus.failed after.documents)
  unfolding job_raised fail_job mark_document_failed
  job_raised_lem now job e db row found = (
    (λ more.
        rw (found, fail_job, lt→ltb row.attempts row.max_attempts more)
          (
            update_where-sets (λ j. j.status ≡ JobStatus.queued) (λ j. j.id == job.id)
                (requeued_row now (message e)) (λ j. refl) db.jobs,
            refl,
          )),
    λ spent.
        let no : ltb row.attempts row.max_attempts ≡ false = ground arith in
        rw (found, fail_job, no)
          (
            update_where-sets (λ j. j.status ≡ JobStatus.failed) (λ j. j.id == job.id)
                (dead_row (message e)) (λ j. refl) db.jobs,
            update_where-sets (λ d. d.status ≡ DocumentStatus.failed) (λ d. d.id == job.document_id)
                (failed_row (take 500 (message e))) (λ d. refl) db.documents,
          ),
  )

  run_ingest-settles :
      (now : ℕ) (clock : List ℕ) (job : ClaimedJob) (pages : Option (List (Page fl)))
      (db : Database (ChunkContent fl V))
      → Settled job.id (run_ingest fl V S store parse_pdf embed message now clock job pages db).jobs
  unfolding run_ingest complete_job mark_document_ready
  run_ingest-settles now clock job none db =
      job_raised-settles now job (ingest_error unreadable_pdf) db
  run_ingest-settles now clock job (some pages) db =
      elim (Bool-cases (ltb max_page_count (length pages))) [
        | inl big ↦ rw big (job_raised-settles now job (too_many_pages (length pages)) db)
        | inr fits ↦ rw fits (
            after_ingest (
              ingest_pdf fl V embed Progress (on_progress job.document_id) now (some pages)
                (λ i. false) job.doc_key job.pdf_path (db, fresh_progress clock)))
      ]
    where
      after_ingest :
          (r : (IngestError ⊎ ℕ) × (Database (ChunkContent fl V) × Progress))
          → Settled job.id (ingested fl V S store parse_pdf embed message now job r).jobs
      after_ingest (inl e, (db', p)) = job_raised-settles now job (ingest_error e) db'
      after_ingest (inr id, (db', p)) =
          update_where-sets (λ j. is_processing j.status ≡ false) (λ j. j.id == job.id) done_row
            (λ j. refl) db'.jobs

  -- The worker never leaves a job in processing: whatever happens to a job whose document exists,
  -- success, a bad PDF, too many pages, no text, a refused row or a missing blob, its row is done,
  -- queued again or failed when process_job returns.
  pub process_job-settles :
      (now : ℕ) (clock : List ℕ) (job : ClaimedJob) (w : World fl V S store parse_pdf embed message)
      → document_exists job.document_id w.db ≡ true
      → Settled job.id (process_job fl V S store parse_pdf embed message now clock job w).db.jobs
  unfolding process_job
  process_job-settles now clock job w known =
      elim (Option-cases (store.open_local job.pdf_path w.blobs)) [
        | inl n ↦ rw (known, n) (fail_job-settles now job.id missing_error w.db)
        | inr (blob, e) ↦ rw (known, e) (run_ingest-settles now clock job (parse_pdf blob) w.db)
      ]
