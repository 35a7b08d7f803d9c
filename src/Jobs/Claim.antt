-- ===== src/Jobs/Claim.antt =====
-- What `claim_job` chooses and leaves (api/jobs_repo.py claim_job, _reap_exhausted_jobs).
use chat_doc.Database.{JobRow, Database}
use chat_doc.Documents.{mark_document_failed}
use chat_doc.Jobs.{
  ClaimedJob, claimable, exhausted, oldest, claim_row, reap_exhausted_jobs, fail_documents,
  claim_job, reaped_row,
}
use chat_doc.Prelude.{
  &&_iff, ==_iff, All, All-imp, All-of_In, All-of_select, All-select, All-update_where, Bool,
  Bool-cases, In, List, Option-cases, [], ap, arith, false, inl, inr, leb, none, not, refl, select,
  select_passes, some, some-injective, subst, sym, true, update_where, ℕ, ◌&&◌, ◌+◌, ◌==◌, ◌∷◌, ◌≡◌,
  ◌≤◌,
}

pub oldest-none : (js : List JobRow) → oldest js ≡ none → js ≡ []
unfolding oldest
oldest-none [] e = refl
oldest-none (j ∷ js) e = ground arith

pub All-oldest {ℓ} :
    (P : JobRow → Type ℓ) (js : List JobRow) {j : JobRow} → All P js → oldest js ≡ some j → P j
unfolding oldest
All-oldest P [] h e = cc
All-oldest P (x ∷ js) {j = j} h e = elim (Option-cases (oldest js)) [
  | inl n ↦ subst P (some-injective _ _ (rw n at e)) h.0
  | inr (k, s) ↦ elim (Bool-cases (leb x.created_at k.created_at)) [
    | inl t ↦ subst P (some-injective _ _ (rw t at (rw s at e))) h.0
    | inr t ↦ subst P (some-injective _ _ (rw t at (rw s at e))) (All-oldest P js h.1 s)
  ]
]

oldest_first :
    (js : List JobRow) {j : JobRow} → oldest js ≡ some j → All (λ k. j.created_at ≤ k.created_at) js
unfolding oldest
oldest_first [] e = tt
oldest_first (x ∷ js) {j = j} e = elim (Option-cases (oldest js)) [
  | inl n ↦
      let same = ap (λ (r : JobRow). r.created_at) (some-injective x j (rw n at e)) in
      rw (oldest-none js n) (omega arith, tt)
  | inr (k, s) ↦ elim (Bool-cases (leb x.created_at k.created_at)) [
    | inl t ↦
        let same = ap (λ (r : JobRow). r.created_at) (some-injective x j (rw t at (rw s at e))) in
        let first : x.created_at ≤ k.created_at = ground arith in
        (omega arith, All-imp _ _ (λ r h. omega arith) js (oldest_first js s))
    | inr t ↦
        let same = ap (λ (r : JobRow). r.created_at) (some-injective k j (rw t at (rw s at e))) in
        let first : k.created_at ≤ x.created_at = ground arith in
        (omega arith, All-imp _ _ (λ r h. omega arith) js (oldest_first js s))
  ]
]

-- The test of the claim's subquery.
abbrev pub open_to : (ℕ → Bool) → ℕ → JobRow → Bool
open_to locked now j = claimable now j && not (locked j.id)

module _ {C : Type 0} where
  pub jobs-fail_documents :
      (rows : List JobRow) (db : Database C) → (fail_documents rows db).jobs ≡ db.jobs
  unfolding fail_documents mark_document_failed
  jobs-fail_documents [] db = refl
  jobs-fail_documents (j ∷ rows) db = jobs-fail_documents rows _

  pub next_job_id-fail_documents :
      (rows : List JobRow) (db : Database C) → (fail_documents rows db).next_job_id ≡ db.next_job_id
  unfolding fail_documents mark_document_failed
  next_job_id-fail_documents [] db = refl
  next_job_id-fail_documents (j ∷ rows) db = next_job_id-fail_documents rows _

  -- What a claim does to the rows keeps a predicate, if the claim and the reaper keep it on each.
  pub All-claim_job {ℓ} :
      (P : JobRow → Type ℓ) (locked : ℕ → Bool) (now : ℕ) (db : Database C)
      → ((j x : JobRow) → claimable now j ≡ true → P j → x.id ≡ j.id → P x → P (claim_row now x))
      → ((x : JobRow) → exhausted now x ≡ true → P x → P (reaped_row x))
      → All P db.jobs
      → All P (claim_job locked now db).1.jobs
  unfolding claim_job reap_exhausted_jobs
  All-claim_job P locked now db claims reaps h =
      elim (Option-cases (oldest (select (open_to locked now) db.jobs))) [
        | inl n ↦
            rw (n, claim_job) (rw jobs-fail_documents (All-update_where P _ _ reaps db.jobs h))
        | inr (j, s) ↦
            let open_row = All-oldest _ _ (select_passes (open_to locked now) db.jobs) s in
            let kept = All-oldest P _ (All-select P (open_to locked now) db.jobs h) s in
            rw (s, claim_job)
              (All-update_where P _ _
                (λ x e. claims j x ((&&_iff _ _).0 open_row).0 kept ((==_iff x.id j.id).0 e))
                db.jobs h)
      ]

  -- A claimed job is one of the rows; it was open to claims and held by nobody, no open row is
  -- older, and the worker is told one attempt more than the row had.
  pub claim_job_chooses :
      (locked : ℕ → Bool) (now : ℕ) (db : Database C) (c : ClaimedJob)
      → (claim_job locked now db).0 ≡ some c
      → (j : JobRow) × In j db.jobs
        × (claimable now j ≡ true)
        × (locked j.id ≡ false)
        × All (λ k. open_to locked now k ≡ true → j.created_at ≤ k.created_at) db.jobs
        × (c.id ≡ j.id)
        × (c.attempts ≡ j.attempts + 1)
  unfolding claim_job claim_row
  claim_job_chooses locked now db c e =
      elim (Option-cases (oldest (select (open_to locked now) db.jobs))) [
        | inl n ↦ cc (rw (n, claim_job) at e)
        | inr (j, s) ↦
            let rows = db.jobs in
            let open_row = All-oldest _ _ (select_passes (open_to locked now) rows) s in
            let same = some-injective _ _ (rw (s, claim_job) at e) in
            (
              j,
              All-oldest (λ k. In k rows) _
                  (All-select _ (open_to locked now) rows (All-of_In _ rows (λ x m. m))) s,
              ((&&_iff _ _).0 open_row).0,
              ground arith,
              All-of_select _ (open_to locked now) rows (oldest_first _ s),
              sym (ap (λ (r : ClaimedJob). r.id) same),
              sym (ap (λ (r : ClaimedJob). r.attempts) same),
            )
      ]

  pub next_job_id-claim_job :
      (locked : ℕ → Bool) (now : ℕ) (db : Database C)
      → (claim_job locked now db).1.next_job_id ≡ db.next_job_id
  unfolding claim_job reap_exhausted_jobs
  next_job_id-claim_job locked now db =
      elim (Option-cases (oldest (select (open_to locked now) db.jobs))) [
        | inl n ↦ rw (n, claim_job) (rw next_job_id-fail_documents)
        | inr (j, s) ↦ rw (s, claim_job)
      ]

  -- A claim writes the rows of the job that it returns.
  pub jobs-claim_job :
      (locked : ℕ → Bool) (now : ℕ) (db : Database C) (c : ClaimedJob)
      → (claim_job locked now db).0 ≡ some c
      → (claim_job locked now db).1.jobs ≡ update_where (λ x. x.id == c.id) (claim_row now) db.jobs
  unfolding claim_job claim_row
  jobs-claim_job locked now db c e =
      elim (Option-cases (oldest (select (open_to locked now) db.jobs))) [
        | inl n ↦ cc (rw (n, claim_job) at e)
        | inr (j, s) ↦
            let same = some-injective _ _ (rw (s, claim_job) at e) in
            rw (s, claim_job)
              (ap (λ (i : ℕ). update_where (λ x. x.id == i) (claim_row now) db.jobs)
                (ap (λ (r : ClaimedJob). r.id) same))
      ]
