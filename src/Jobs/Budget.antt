-- ===== src/Jobs/Budget.antt =====
-- Retries are bounded: a job whose ingest kills its worker every time is not claimed forever
-- (api/jobs_repo.py claim_job, its comment on poison pills).
use chat_doc.Database.{JobRow, Database, ok}
use chat_doc.Jobs.{complete_job, ClaimedJob, claimable, claim_row, claim_job, enqueue_job}
use chat_doc.Jobs.Claim.{All-claim_job, jobs-claim_job, next_job_id-claim_job, claim_job_chooses}
use chat_doc.Jobs.Steps.{handed, delete, fail, complete, claim, enqueue, Step, step}
use chat_doc.Jobs.Rows.{
  All-delete_document, next_job_id-delete_document, All-fail_job, next_job_id-fail_job,
  All-complete_job, All-enqueue_job, next_job_id-enqueue_job,
}
use chat_doc.Prelude.{
  ==_iff, All, All-In, All-append, All-imp, All-update_where_to, Bool, Bool-cases, List,
  Option-cases, String, [], any, arith, if◌then◌else◌, inl, inr, some, sym, ℕ, ◌+◌, ◌-◌, ◌<◌, ◌==◌,
  ◌∙◌, ◌∷◌, ◌≡◌, ◌≤◌,
}

-- The row has at most `left` attempts left.
abbrev pub BudgetRow : ℕ → ℕ → JobRow → Type 0
BudgetRow job left j = j.id ≡ job → j.max_attempts ≤ j.attempts + left

pub record IsWithin {C : Type 0} (job left : ℕ) (db : Database C) : Type 0 where
  pub known : job < db.next_job_id
  pub rows : All (BudgetRow job left) db.jobs

-- How often a number stands in a list.
pub count : ℕ → List ℕ → ℕ
count a [] = 0
count a (x ∷ xs) = (if x == a then 1 else 0) + count a xs

module _ {C : Type 0} (job left now : ℕ) (db : Database C) (h : IsWithin job left db) where
  claim-IsWithin : (locked : ℕ → Bool) → IsWithin job left (claim_job locked now db).1
  unfolding claim_row
  claim-IsWithin locked = record {
    known = rw next_job_id-claim_job h.known;
    rows =
        All-claim_job (BudgetRow job left) locked now db
          (λ j x c hj same hx is. let b = hx is in omega arith) (λ x e hx. hx) h.rows;
  }

  step-IsWithin : (s : Step) → IsWithin job left (step now s db).1
  unfolding step complete_job
  step-IsWithin (enqueue document_id key path) = record {
    known = let k = h.known in omega (arith, next_job_id-enqueue_job now db document_id key path);
    rows =
        All-enqueue_job (BudgetRow job left) now db h.rows document_id key path
          (λ same. let k = h.known in absurd (omega arith));
  }
  step-IsWithin (claim locked) = claim-IsWithin locked
  step-IsWithin (complete i) = record {
    known = h.known;
    rows = All-complete_job (BudgetRow job left) now db h.rows i (λ x e hx. hx);
  }
  step-IsWithin (fail i e) = record {
    known = rw next_job_id-fail_job h.known;
    rows = All-fail_job (BudgetRow job left) now db h.rows i e (λ x e hx. hx) (λ x e hx. hx);
  }
  step-IsWithin (delete user document_id) = record {
    known = rw next_job_id-delete_document h.known;
    rows = All-delete_document (BudgetRow job left) now db h.rows user document_id;
  }

-- A step that hands the job out uses up one attempt, so one was left.
claim-spends :
    {C : Type 0} (job left now : ℕ) (db : Database C) (locked : ℕ → Bool) (c : ClaimedJob)
    → IsWithin job left db
    → (claim_job locked now db).0 ≡ some c
    → c.id ≡ job
    → (0 < left) × IsWithin job (left - 1) (claim_job locked now db).1
unfolding claim_row claimable
claim-spends job left now db locked c h e is =
    let (j, m, open_row, _, _, same, _) = claim_job_chooses locked now db c e in
    let within : j.max_attempts ≤ j.attempts + left =
      All-In (BudgetRow job left) db.jobs h.rows m (sym same ∙ is) in
    let some_left : 0 < left = ground arith in
    (
      some_left,
      record {
        known = rw next_job_id-claim_job h.known;
        rows = rw (jobs-claim_job locked now db c e) (
            All-update_where_to (BudgetRow job left) (BudgetRow job (left - 1)) (λ x. x.id == c.id)
              (claim_row now) (λ x t hx is'. let b = hx is' in omega arith)
              (λ x t hx is'. ground arith) db.jobs h.rows);
      },
    )

step-spends :
    {C : Type 0} (job left now : ℕ) (db : Database C) (s : Step) (c : ClaimedJob)
    → IsWithin job left db
    → (step now s db).0 ≡ some c
    → c.id ≡ job
    → (0 < left) × IsWithin job (left - 1) (step now s db).1
unfolding step
step-spends job left now db (claim locked) c h e is = claim-spends job left now db locked c h e is
step-spends job left now db (enqueue document_id key path) c h e is = cc
step-spends job left now db (complete i) c h e is = cc
step-spends job left now db (fail i x) c h e is = cc
step-spends job left now db (delete user document_id) c h e is = cc

-- A job with `left` attempts left is handed out at most `left` times by any run.
count-handed-le :
    {C : Type 0} (job left : ℕ) (run : List (ℕ × Step)) (db : Database C)
    → IsWithin job left db
    → count job (handed run db) ≤ left
unfolding handed count
count-handed-le job left [] db h = omega arith
count-handed-le job left ((now, s) ∷ run) db h = elim (Option-cases (step now s db).0) [
  | inl n ↦ rw (n, handed) (count-handed-le job left run _ (step-IsWithin job left now db h s))
  | inr (c, e) ↦ elim (Bool-cases (c.id == job)) [
    | inl t ↦
        let (some_left, h') = step-spends job left now db s c h e ((==_iff c.id job).0 t) in
        let rest = count-handed-le job (left - 1) run _ h' in rw (e, handed, t) (omega arith)
    | inr t ↦
        let rest = count-handed-le job left run _ (step-IsWithin job left now db h s) in
        rw (e, handed, t) (omega arith)
  ]
]

fresh-IsWithin :
    {C : Type 0} (now document_id : ℕ) (key path : String) (db : Database C) (job : ℕ)
    → All (λ j. j.id < db.next_job_id) db.jobs
    → (enqueue_job now document_id key path db).0 ≡ ok job
    → IsWithin job 3 (enqueue_job now document_id key path db).1
unfolding enqueue_job
fresh-IsWithin now document_id key path db job keyed e =
    elim (Bool-cases (any (λ d. d.id == document_id) db.documents)) [
      | inl found ↦
          let same : db.next_job_id ≡ job = ground arith in
          rw found (record {
            known = omega arith;
            rows =
                All-append (BudgetRow job 3) db.jobs _
                  (All-imp (λ j. j.id < db.next_job_id) (BudgetRow job 3) (λ j lt is. omega arith)
                    db.jobs keyed)
                  ((λ is. omega arith), tt);
          })
      | inr missing ↦ cc (rw missing at e)
    ]

-- Whatever workers claim, crash over, complete or fail, and whatever users do, the job that an
-- upload enqueues is handed to workers at most three times (the default of max_attempts).
pub enqueued_job_attempts :
    {C : Type 0} (now document_id : ℕ) (key path : String) (db : Database C) (job : ℕ)
    (run : List (ℕ × Step))
    → All (λ j. j.id < db.next_job_id) db.jobs
    → (enqueue_job now document_id key path db).0 ≡ ok job
    → count job (handed run (enqueue_job now document_id key path db).1) ≤ 3
enqueued_job_attempts now document_id key path db job run keyed e =
    count-handed-le job 3 run _ (fresh-IsWithin now document_id key path db job keyed e)
