-- ===== src/Jobs.antt =====
-- api/jobs_repo.py: the ingest job queue.
pub mod Steps
pub mod Exclusive
pub mod Budget
pub mod Claim
pub mod Reap
pub mod Rows
use chat_doc.Database.{JobStatus, JobRow, Database, Violation, Result, ok, raised, foreign_key}
use chat_doc.Documents.{mark_document_failed}
use chat_doc.Prelude.{
  Bool, List, Option, String, Text, [], any, codes, false, find, if◌then◌else◌, leb, length, ltb,
  max, none, not, select, some, take, true, update_where, ℕ, ◌&&◌, ◌++◌, ◌+◌, ◌==◌, ◌||◌, ◌∷◌,
}

abbrev pub visibility_timeout_s : ℕ
visibility_timeout_s = 600

abbrev pub max_queue_depth : ℕ
max_queue_depth = 20

-- The columns that `claim_job` returns.
pub record ClaimedJob : Type 0 where
  pub id : ℕ
  pub document_id : ℕ
  pub doc_key : String
  pub pdf_path : String
  pub attempts : ℕ

abbrev pub is_queued : JobStatus → Bool
is_queued JobStatus.queued = true
is_queued _ = false

abbrev pub is_processing : JobStatus → Bool
is_processing JobStatus.processing = true
is_processing _ = false

-- The WHERE of the claim: fresh, or abandoned by a worker that died, with attempts left.
unfoldable pub claimable : ℕ → JobRow → Bool
claimable now j =
    (is_queued j.status || is_processing j.status && ltb j.visible_at now)
    && ltb j.attempts j.max_attempts

-- The WHERE of the reaper: abandoned with no attempts left.
unfoldable pub exhausted : ℕ → JobRow → Bool
exhausted now j = is_processing j.status && ltb j.visible_at now && leb j.max_attempts j.attempts

-- `ORDER BY created_at … LIMIT 1`; of rows of one second, the first in the table.
unfoldable pub oldest : List JobRow → Option JobRow
oldest [] = none
oldest (j ∷ rest) = elim (oldest rest) [
  | none ↦ some j
  | some k ↦ if leb j.created_at k.created_at then some j else some k
]

-- The SET of the claim.
unfoldable pub claim_row : ℕ → JobRow → JobRow
claim_row now j = record j {
  status = JobStatus.processing;
  attempts = j.attempts + 1;
  visible_at = now + visibility_timeout_s;
}

unfoldable pub claimed : JobRow → ClaimedJob
claimed j = record {
  id = j.id;
  document_id = j.document_id;
  doc_key = j.doc_key;
  pdf_path = j.pdf_path;
  attempts = j.attempts;
}

abbrev pub reaped_error : Text
reaped_error =
    codes
      "exceeded max_attempts (worker likely crashed before it could report the failure normally, e.g. OOM)"

-- The SET of the reaper.
abbrev pub reaped_row : JobRow → JobRow
reaped_row j = record j { status = JobStatus.failed; last_error = some reaped_error }

abbrev pub stopped_error : Text
stopped_error = codes "ingest failed repeatedly and was stopped after max attempts"

-- The SETs of `fail_job`: another attempt at once, or none.
abbrev pub requeued_row : ℕ → Text → JobRow → JobRow
requeued_row now error j = record j {
  status = JobStatus.queued;
  visible_at = now;
  last_error = some (take 1000 error);
}

abbrev pub dead_row : Text → JobRow → JobRow
dead_row error j = record j { status = JobStatus.failed; last_error = some (take 1000 error) }

abbrev pub done_row : JobRow → JobRow
done_row j = record j { status = JobStatus.done }

-- The row that `enqueue_job` inserts, with the schema's defaults.
abbrev pub fresh_job : ℕ → ℕ → ℕ → String → String → JobRow
fresh_job id now document_id doc_key pdf_path = record {
  id = id;
  document_id = document_id;
  doc_key = doc_key;
  pdf_path = pdf_path;
  status = JobStatus.queued;
  attempts = 0;
  max_attempts = 3;
  visible_at = now;
  last_error = none;
  created_at = now;
}

module _ {C : Type 0} where
  unfoldable pub enqueue_job : ℕ → ℕ → String → String → Database C → Result ℕ × Database C
  enqueue_job now document_id doc_key pdf_path db =
      if any (λ d. d.id == document_id) db.documents
      then (
        ok db.next_job_id,
        record db {
          jobs = db.jobs ++ fresh_job db.next_job_id now document_id doc_key pdf_path ∷ [];
          next_job_id = db.next_job_id + 1;
        },
      )
      else (raised foreign_key, db)

  abbrev update_job : ℕ → (JobRow → JobRow) → Database C → Database C
  update_job job_id f db = record db { jobs = update_where (λ j. j.id == job_id) f db.jobs }

  -- One `mark_document_failed` for each row that the reaper's UPDATE returned.
  unfoldable pub fail_documents : List JobRow → Database C → Database C
  fail_documents [] db = db
  fail_documents (j ∷ rest) db =
      fail_documents rest (mark_document_failed j.document_id stopped_error db)

  -- `_reap_exhausted_jobs`
  unfoldable pub reap_exhausted_jobs : ℕ → Database C → Database C
  unfolding fail_documents
  reap_exhausted_jobs now db =
      fail_documents (select (exhausted now) db.jobs)
        (record db { jobs = update_where (exhausted now) reaped_row db.jobs })

  -- `locked` are the rows that other transactions hold (SKIP LOCKED).
  unfoldable pub claim_job : (ℕ → Bool) → ℕ → Database C → Option ClaimedJob × Database C
  unfolding claimed
  claim_job locked now db =
      elim (oldest (select (λ j. claimable now j && not (locked j.id)) db.jobs)) [
        | none ↦ (none, reap_exhausted_jobs now db)
        | some j ↦ (some (claimed (claim_row now j)), update_job j.id (claim_row now) db)
      ]

  unfoldable pub complete_job : ℕ → Database C → Database C
  complete_job job_id = update_job job_id done_row

  -- True if the job will be tried again.
  unfoldable pub fail_job : ℕ → ℕ → Text → Database C → Bool × Database C
  fail_job now job_id error db = elim (find (λ j. j.id == job_id) db.jobs) [
    | none ↦ (false, db)
    | some row ↦
        if ltb row.attempts row.max_attempts
        then (true, update_job job_id (requeued_row now error) db)
        else (false, update_job job_id (dead_row error) db)
  ]

  unfoldable pub queue_depth : Database C → ℕ
  queue_depth db = length (select (λ j. is_queued j.status || is_processing j.status) db.jobs)

  unfoldable pub get_job_status : ℕ → Database C → Option JobStatus
  get_job_status job_id db = elim (find (λ j. j.id == job_id) db.jobs) [
    | none ↦ none
    | some j ↦ some j.status
  ]
