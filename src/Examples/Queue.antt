-- ===== src/Examples/Queue.antt =====
-- The queue: one document with one job, claimed, lost and claimed again.
use chat_doc.Database.{DocumentStatus, JobStatus, Stage, DocumentRow, JobRow, Database, ok}
use chat_doc.Documents.{mark_document_failed}
use chat_doc.Jobs.{
  ClaimedJob, claim_job, claimable, claim_row, oldest, exhausted, reap_exhausted_jobs,
  fail_documents, enqueue_job, fresh_job,
}
use chat_doc.Jobs.Steps.{Step, handed, step}
use chat_doc.Jobs.Exclusive.{claimed_job_exclusive}
use chat_doc.Jobs.Budget.{count, enqueued_job_attempts}
use chat_doc.Jobs.Claim.{open_to, claim_job_chooses}
use chat_doc.Jobs.Reap.{Failed, Reaped, is_reaped, claim_job_reaps}
use chat_doc.Prelude.{
  All, Bool, In, List, [], arith, false, none, not, refl, select, some, true, ℕ, ◌+◌, ◌<◌, ◌∷◌, ◌≡◌,
  ◌≢◌, ◌≤◌,
}

abbrev document : DocumentRow
document = record {
  id = 7;
  user_id = some 1;
  doc_name = "user1_ab";
  display_name = some "report.pdf";
  source_path = "user1_ab.pdf";
  page_count = 0;
  status = DocumentStatus.processing;
  error = none;
  stage = some Stage.queued;
  stage_current = 0;
  stage_total = 0;
  chunk_count = 0;
  created_at = 100;
}

abbrev no_jobs : Database ℕ
no_jobs = record {
  users = [];
  sessions = [];
  documents = document ∷ [];
  jobs = [];
  chunks = [];
  next_user_id = 2;
  next_document_id = 8;
  next_job_id = 4;
}

abbrev one_job : Database ℕ
one_job = record no_jobs {
  jobs = fresh_job 4 100 7 "user1_ab" "user1_ab.pdf" ∷ [];
  next_job_id = 5;
}

abbrev nobody : ℕ → Bool
nobody i = false

abbrev first_claim : ClaimedJob
first_claim = record {
  id = 4;
  document_id = 7;
  doc_key = "user1_ab";
  pdf_path = "user1_ab.pdf";
  attempts = 1;
}

one_job-claimed : (claim_job nobody 100 one_job).0 ≡ some first_claim
unfolding claim_job claimable claim_row oldest
one_job-claimed = refl

one_job-keyed : All (λ j. j.id < one_job.next_job_id) one_job.jobs
one_job-keyed = omega arith

abbrev busy_run : List (ℕ × Step)
busy_run =
    (150, Step.claim nobody)
    ∷ (200, Step.enqueue 7 "k" "p")
    ∷ (300, Step.claim nobody)
    ∷ (700, Step.claim nobody)
    ∷ []

claim_job_chooses_example :
    (j : JobRow) × In j one_job.jobs
    × (claimable 100 j ≡ true)
    × (nobody j.id ≡ false)
    × All (λ k. open_to nobody 100 k ≡ true → j.created_at ≤ k.created_at) one_job.jobs
    × (first_claim.id ≡ j.id)
    × (first_claim.attempts ≡ j.attempts + 1)
claim_job_chooses_example = claim_job_chooses nobody 100 one_job first_claim one_job-claimed

claimed_job_exclusive_example :
    All (λ i. i ≢ first_claim.id) (handed busy_run (claim_job nobody 100 one_job).1)
claimed_job_exclusive_example =
    claimed_job_exclusive nobody 100 one_job first_claim busy_run one_job-keyed one_job-claimed
      (omega arith)

-- The job whose worker dies: at each lapse of the timeout somebody claims it, three times.
abbrev crash_run : List (ℕ × Step)
crash_run =
    (100, Step.claim nobody)
    ∷ (800, Step.claim nobody)
    ∷ (1600, Step.claim nobody)
    ∷ (2400, Step.claim nobody)
    ∷ (3200, Step.claim nobody)
    ∷ []

crash_run_claims : handed crash_run one_job ≡ 4 ∷ 4 ∷ 4 ∷ []
unfolding handed step claim_job claimable claim_row oldest reap_exhausted_jobs exhausted
    fail_documents mark_document_failed
crash_run_claims = refl

no_jobs-enqueue : (enqueue_job 100 7 "user1_ab" "user1_ab.pdf" no_jobs).0 ≡ ok 4
unfolding enqueue_job
no_jobs-enqueue = refl

enqueued_job_attempts_example :
    count 4 (handed crash_run (enqueue_job 100 7 "user1_ab" "user1_ab.pdf" no_jobs).1) ≤ 3
enqueued_job_attempts_example =
    enqueued_job_attempts 100 7 "user1_ab" "user1_ab.pdf" no_jobs 4 crash_run tt no_jobs-enqueue

abbrev spent : Database ℕ
spent = record one_job {
  jobs =
      record (fresh_job 4 100 7 "user1_ab" "user1_ab.pdf") {
        status = JobStatus.processing;
        attempts = 3;
        visible_at = 2200;
      }
      ∷ [];
}

spent-unclaimed : (claim_job nobody 2400 spent).0 ≡ none
unfolding claim_job claimable oldest
spent-unclaimed = refl

claim_job_reaps_example :
    let after = (claim_job nobody 2400 spent).1 in
    Reaped 2400 spent.jobs after.jobs
    × All (λ j. (open_to nobody 2400 j ≡ false) × (exhausted 2400 j ≡ false)) after.jobs
    × All (λ j. exhausted 2400 j ≡ true → All (Failed j.document_id) after.documents) spent.jobs
    × (select (λ d. not (is_reaped 2400 spent.jobs d.id)) after.documents
        ≡ select (λ d. not (is_reaped 2400 spent.jobs d.id)) spent.documents)
claim_job_reaps_example = claim_job_reaps nobody 2400 spent spent-unclaimed
