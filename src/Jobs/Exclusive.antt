-- ===== src/Jobs/Exclusive.antt =====
-- While a worker holds a job, nobody else gets it (api/jobs_repo.py module comment).
use chat_doc.Database.{JobRow, Database}
use chat_doc.Jobs.{
  visibility_timeout_s, claim_row, complete_job, ClaimedJob, is_queued, is_processing, claimable,
  claim_job,
}
use chat_doc.Jobs.Claim.{jobs-claim_job, All-claim_job, claim_job_chooses, next_job_id-claim_job}
use chat_doc.Jobs.Steps.{All-note, delete, complete, claim, enqueue, step, handed, Step, fail}
use chat_doc.Jobs.Rows.{
  All-delete_document, next_job_id-delete_document, All-fail_job, next_job_id-fail_job,
  All-complete_job, All-enqueue_job, next_job_id-enqueue_job,
}
use chat_doc.Prelude.{
  All, All-In, All-update_where_to, Bool, List, [], arith, false, refl, some, sym, true, ℕ, ◌+◌,
  ◌<◌, ◌==◌, ◌∙◌, ◌∷◌, ◌≡◌, ◌≢◌, ◌≤◌,
}

-- Until `until`, the row is no fresh work, and if it is in progress it stays invisible.
abbrev pub HeldRow : ℕ → ℕ → JobRow → Type 0
HeldRow job until j =
    j.id ≡ job
    → (is_queued j.status ≡ false) × (is_processing j.status ≡ true → until ≤ j.visible_at)

pub record IsHeld {C : Type 0} (job until : ℕ) (db : Database C) : Type 0 where
  pub known : job < db.next_job_id
  pub rows : All (HeldRow job until) db.jobs

-- The step reports no failure of the job.
abbrev pub Spares : ℕ → Step → Type 0
Spares job (fail i e) = i ≢ job
Spares job s = Unit

-- A held row is closed to claims.
HeldRow-closed :
    (job until now : ℕ) (j : JobRow)
    → now ≤ until
    → HeldRow job until j
    → claimable now j ≡ true
    → j.id ≢ job
unfolding claimable
HeldRow-closed job until now j le h c same = let k = h same in ground arith

module _ {C : Type 0} (job until now : ℕ) (db : Database C) (le : now ≤ until)
    (h : IsHeld job until db) where
  claim-IsHeld : (locked : ℕ → Bool) → IsHeld job until (claim_job locked now db).1
  unfolding claim_row
  claim-IsHeld locked = record {
    known = rw next_job_id-claim_job h.known;
    rows =
        All-claim_job (HeldRow job until) locked now db
          (λ j x c hj same hx e. absurd (HeldRow-closed job until now j le hj c (sym same ∙ e)))
          (λ x e hx same. (refl, λ t. cc)) h.rows;
  }

  claim-other :
      (locked : ℕ → Bool) (c : ClaimedJob) → (claim_job locked now db).0 ≡ some c → c.id ≢ job
  claim-other locked c e =
      let (j, m, open_row, free, first, same, tried) = claim_job_chooses locked now db c e in
      λ is.
        HeldRow-closed job until now j le (All-In (HeldRow job until) db.jobs h.rows m) open_row
          (sym same ∙ is)

  step-IsHeld : (s : Step) → Spares job s → IsHeld job until (step now s db).1
  unfolding step complete_job
  step-IsHeld (enqueue document_id key path) l = record {
    known = let k = h.known in omega (arith, next_job_id-enqueue_job now db document_id key path);
    rows =
        All-enqueue_job (HeldRow job until) now db h.rows document_id key path
          (λ same. let k = h.known in absurd (omega arith));
  }
  step-IsHeld (claim locked) l = claim-IsHeld locked
  step-IsHeld (complete i) l = record {
    known = h.known;
    rows = All-complete_job (HeldRow job until) now db h.rows i (λ x e hx same. (refl, λ t. cc));
  }
  step-IsHeld (fail i e) l = record {
    known = rw next_job_id-fail_job h.known;
    rows =
        All-fail_job (HeldRow job until) now db h.rows i e
          (λ x e hx same. absurd (l (sym e ∙ same))) (λ x e hx same. absurd (l (sym e ∙ same)));
  }
  step-IsHeld (delete user document_id) l = record {
    known = rw next_job_id-delete_document h.known;
    rows = All-delete_document (HeldRow job until) now db h.rows user document_id;
  }

  step-other : (s : Step) (c : ClaimedJob) → (step now s db).0 ≡ some c → c.id ≢ job
  unfolding step
  step-other (claim locked) c e = claim-other locked c e
  step-other (enqueue document_id key path) c e = cc
  step-other (complete i) c e = cc
  step-other (fail i x) c e = cc
  step-other (delete user document_id) c e = cc

-- The step is not later than `until` and reports no failure of the job.
abbrev pub Leaves : ℕ → ℕ → ℕ × Step → Type 0
Leaves job until (now, s) = (now ≤ until) × Spares job s

handed-other :
    {C : Type 0} (job until : ℕ) (run : List (ℕ × Step)) (db : Database C)
    → IsHeld job until db
    → All (Leaves job until) run
    → All (λ i. i ≢ job) (handed run db)
unfolding handed
handed-other job until [] db h l = tt
handed-other job until ((now, s) ∷ run) db h ((le, l), ls) =
    All-note (λ i. i ≢ job) _ _ (step-other job until now db le h s)
      (handed-other job until run _ (step-IsHeld job until now db le h s l) ls)

claim_job-IsHeld :
    {C : Type 0} (locked : ℕ → Bool) (now : ℕ) (db : Database C) (c : ClaimedJob)
    → All (λ j. j.id < db.next_job_id) db.jobs
    → (claim_job locked now db).0 ≡ some c
    → IsHeld c.id (now + visibility_timeout_s) (claim_job locked now db).1
unfolding claim_row
claim_job-IsHeld locked now db c keyed e =
    let (j, m, _, _, _, same, _) = claim_job_chooses locked now db c e in
    record {
      known =
          rw (next_job_id-claim_job, same) (All-In (λ j. j.id < db.next_job_id) db.jobs keyed m);
      rows = rw (jobs-claim_job locked now db c e) (
          All-update_where_to (λ j. j.id < db.next_job_id)
            (HeldRow c.id (now + visibility_timeout_s)) (λ x. x.id == c.id) (claim_row now)
            (λ x t h is. (refl, λ u. omega arith)) (λ x t h is. ground arith) db.jobs keyed);
    }

-- Once a claim at `now` has handed a job out, no run of steps up to the visibility timeout hands
-- it out again, unless a step of the run reports its failure: whatever other workers claim,
-- complete or fail, and whatever users enqueue or delete.
pub claimed_job_exclusive :
    {C : Type 0} (locked : ℕ → Bool) (now : ℕ) (db : Database C) (c : ClaimedJob)
    (run : List (ℕ × Step))
    → All (λ j. j.id < db.next_job_id) db.jobs
    → (claim_job locked now db).0 ≡ some c
    → All (Leaves c.id (now + visibility_timeout_s)) run
    → All (λ i. i ≢ c.id) (handed run (claim_job locked now db).1)
claimed_job_exclusive locked now db c run keyed e l =
    handed-other c.id (now + visibility_timeout_s) run _ (claim_job-IsHeld locked now db c keyed e)
      l
