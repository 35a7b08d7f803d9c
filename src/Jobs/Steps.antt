-- ===== src/Jobs/Steps.antt =====
-- Every way in which the program changes the queue (api/jobs_repo.py, api/documents_repo.py
-- delete_document), as one step; a run is a list of steps in time order.
use chat_doc.Database.{Database}
use chat_doc.Documents.{delete_document}
use chat_doc.Jobs.{ClaimedJob, enqueue_job, claim_job, complete_job, fail_job}
use chat_doc.Prelude.{All, Bool, List, Option, String, Text, [], none, refl, some, ℕ, ◌∷◌, ◌≡◌}

pub data Step : Type 0 where
  enqueue : ℕ → String → String → Step
  claim : (ℕ → Bool) → Step
  complete : ℕ → Step
  fail : ℕ → Text → Step
  delete : ℕ → ℕ → Step

abbrev pub note : Option ClaimedJob → List ℕ → List ℕ
note none ids = ids
note (some j) ids = j.id ∷ ids

module _ {C : Type 0} where
  -- The job that a step hands to a worker, and the database after it.
  unfoldable pub step : ℕ → Step → Database C → Option ClaimedJob × Database C
  step now (enqueue document_id key path) db = (none, (enqueue_job now document_id key path db).1)
  step now (claim locked) db = claim_job locked now db
  step now (complete job_id) db = (none, complete_job job_id db)
  step now (fail job_id error) db = (none, (fail_job now job_id error db).1)
  step now (delete user_id document_id) db = (none, (delete_document user_id document_id db).1)

  -- The jobs that a run hands out, in order.
  unfoldable pub handed : List (ℕ × Step) → Database C → List ℕ
  handed [] db = []
  handed ((now, s) ∷ rest) db = note (step now s db).0 (handed rest (step now s db).1)

pub All-note {ℓ} :
    (P : ℕ → Type ℓ) (o : Option ClaimedJob) (ids : List ℕ)
    → ((c : ClaimedJob) → o ≡ some c → P c.id)
    → All P ids
    → All P (note o ids)
All-note P none ids f h = h
All-note P (some c) ids f h = (f c refl, h)
