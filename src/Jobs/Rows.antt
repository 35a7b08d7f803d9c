-- ===== src/Jobs/Rows.antt =====
-- What each statement on the queue does to a predicate of every row.
use chat_doc.Database.{JobRow, Database}
use chat_doc.Documents.{owned_by, delete_document}
use chat_doc.Jobs.{enqueue_job, complete_job, fail_job, requeued_row, dead_row, done_row, fresh_job}
use chat_doc.Prelude.{
  ==_iff, All, All-append, All-select, All-update_where, Bool-cases, Option-cases, String, Text,
  any, arith, find, inl, inr, ltb, not, ℕ, ◌&&◌, ◌==◌, ◌≡◌, ◌≤◌,
}

module _ {ℓ} {C : Type 0} (P : JobRow → Type ℓ) (now : ℕ) (db : Database C)
    (h : All P db.jobs) where
  pub All-enqueue_job :
      (document_id : ℕ) (key path : String)
      → P (fresh_job db.next_job_id now document_id key path)
      → All P (enqueue_job now document_id key path db).1.jobs
  unfolding enqueue_job
  All-enqueue_job document_id key path fresh =
      elim (Bool-cases (any (λ d. d.id == document_id) db.documents)) [
        | inl found ↦ rw found (All-append P db.jobs _ h (fresh, tt))
        | inr missing ↦ rw missing h
      ]

  pub All-complete_job :
      (i : ℕ) → ((x : JobRow) → x.id ≡ i → P x → P (done_row x)) → All P (complete_job i db).jobs
  unfolding complete_job
  All-complete_job i sets =
      All-update_where P (λ j. j.id == i) done_row (λ x t. sets x ((==_iff x.id i).0 t)) db.jobs h

  pub All-fail_job :
      (i : ℕ) (e : Text)
      → ((x : JobRow) → x.id ≡ i → P x → P (requeued_row now e x))
      → ((x : JobRow) → x.id ≡ i → P x → P (dead_row e x))
      → All P (fail_job now i e db).1.jobs
  unfolding fail_job
  All-fail_job i e again never = elim (Option-cases (find (λ j. j.id == i) db.jobs)) [
    | inl n ↦ rw (n, fail_job) h
    | inr (row, f) ↦
        rw (f, fail_job)
          (elim (Bool-cases (ltb row.attempts row.max_attempts)) [
            | inl t ↦ rw t (
                All-update_where P (λ j. j.id == i) (requeued_row now e)
                  (λ x t. again x ((==_iff x.id i).0 t)) db.jobs h)
            | inr t ↦ rw t (
                All-update_where P (λ j. j.id == i) (dead_row e)
                  (λ x t. never x ((==_iff x.id i).0 t)) db.jobs h)
          ])
  ]

  pub All-delete_document :
      (user document_id : ℕ) → All P (delete_document user document_id db).1.jobs
  unfolding delete_document
  All-delete_document user document_id =
      elim (Bool-cases (any (λ d. d.id == document_id && owned_by user d) db.documents)) [
        | inl found ↦ rw found (All-select P (λ j. not (j.document_id == document_id)) db.jobs h)
        | inr missing ↦ rw missing h
      ]

module _ {C : Type 0} (now : ℕ) (db : Database C) where
  pub next_job_id-enqueue_job :
      (document_id : ℕ) (key path : String)
      → db.next_job_id ≤ (enqueue_job now document_id key path db).1.next_job_id
  unfolding enqueue_job
  next_job_id-enqueue_job document_id key path = ground arith

  pub next_job_id-fail_job :
      (i : ℕ) (e : Text) → (fail_job now i e db).1.next_job_id ≡ db.next_job_id
  unfolding fail_job
  next_job_id-fail_job i e = ground arith

  pub next_job_id-delete_document :
      (user document_id : ℕ) → (delete_document user document_id db).1.next_job_id ≡ db.next_job_id
  unfolding delete_document
  next_job_id-delete_document user document_id = ground arith
