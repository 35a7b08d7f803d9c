-- ===== src/Jobs/Reap.antt =====
-- When nothing is claimable the reaper runs: no abandoned job is left without attempts, and the
-- documents of the reaped jobs are failed (api/jobs_repo.py _reap_exhausted_jobs).
use chat_doc.Database.{JobStatus, DocumentStatus, JobRow, DocumentRow, Database}
use chat_doc.Documents.{mark_document_failed, failed_row}
use chat_doc.Jobs.{
  claimable, exhausted, oldest, reap_exhausted_jobs, fail_documents, claim_job, stopped_error,
  reaped_row,
}
use chat_doc.Jobs.Claim.{oldest-none, open_to, jobs-fail_documents}
use chat_doc.Prelude.{
  ==_iff, All, All-of_In, All-of_select, All-update_where, All-update_where_to, Bool, Bool-cases,
  In, In-select, List, Option-cases, Text, [], any, arith, false, inl, inr, none, not, refl, select,
  select-nil, select-update_where, subst, sym, true, update_where, ℕ, ◌&&◌, ◌==◌, ◌∙◌, ◌∷◌, ◌≡◌,
}

abbrev pub Failed : ℕ → DocumentRow → Type 0
Failed document_id d = d.id ≡ document_id → d.status ≡ DocumentStatus.failed

mark-Failed :
    (i document_id : ℕ) (e : Text) (rows : List DocumentRow)
    → All (Failed i) rows
    → All (Failed i) (update_where (λ d. d.id == document_id) (failed_row e) rows)
mark-Failed i document_id e rows =
    All-update_where (Failed i) (λ d. d.id == document_id) (failed_row e) (λ d t h same. refl) rows

mark-Failed_self :
    (i : ℕ) (e : Text) (rows : List DocumentRow)
    → All (Failed i) (update_where (λ d. d.id == i) (failed_row e) rows)
mark-Failed_self i e [] = tt
mark-Failed_self i e (d ∷ rows) = elim (Bool-cases (d.id == i)) [
  | inl t ↦ rw t ((λ _. refl), mark-Failed_self i e rows)
  | inr t ↦ rw t ((λ same. ground arith), mark-Failed_self i e rows)
]

-- Row by row: an abandoned job without attempts has failed, with its id, its document and its
-- attempts as they were; every other row is as it was.
abbrev pub Reaped : ℕ → List JobRow → List JobRow → Type 0
Reaped now [] [] = Unit
Reaped now [] (k ∷ after) = ⊥
Reaped now (j ∷ before) [] = ⊥
Reaped now (j ∷ before) (k ∷ after) =
    (exhausted now j ≡ true
      → (k.status ≡ JobStatus.failed)
        × (k.id ≡ j.id)
        × (k.document_id ≡ j.document_id)
        × (k.attempts ≡ j.attempts))
    × (exhausted now j ≡ false → k ≡ j)
    × Reaped now before after

reap_rows-Reaped :
    (now : ℕ) (rows : List JobRow) → Reaped now rows (update_where (exhausted now) reaped_row rows)
reap_rows-Reaped now [] = tt
reap_rows-Reaped now (j ∷ rows) = elim (Bool-cases (exhausted now j)) [
  | inl t ↦ rw t ((λ _. (refl, refl, refl, refl)), (λ h. cc), reap_rows-Reaped now rows)
  | inr t ↦ rw t ((λ h. cc), (λ _. refl), reap_rows-Reaped now rows)
]

-- A row that has failed is not open, nor is an abandoned one without attempts left.
reaped_row-closed :
    (locked : ℕ → Bool) (now : ℕ) (j : JobRow)
    → (open_to locked now (reaped_row j) ≡ false) × (exhausted now (reaped_row j) ≡ false)
unfolding exhausted claimable
reaped_row-closed locked now j = (refl, refl)

none_open :
    (locked : ℕ → Bool) (now : ℕ) (rows : List JobRow)
    → All (λ j. open_to locked now j ≡ false) rows
    → All
        (λ j. (open_to locked now j ≡ false) × (exhausted now j ≡ false))
        (update_where (exhausted now) reaped_row rows)
none_open locked now rows h =
    All-update_where_to (λ j. open_to locked now j ≡ false)
      (λ j. (open_to locked now j ≡ false) × (exhausted now j ≡ false)) (exhausted now) reaped_row
      (λ j t closed. reaped_row-closed locked now j) (λ j t closed. (closed, t)) rows h

-- A document of a row that is reaped, or not.
abbrev pub is_reaped : ℕ → List JobRow → ℕ → Bool
is_reaped now rows document_id = any (λ j. exhausted now j && j.document_id == document_id) rows

is_reaped-In :
    (now : ℕ) (rows : List JobRow) (j : JobRow)
    → In j rows
    → exhausted now j ≡ true
    → is_reaped now rows j.document_id ≡ true
is_reaped-In now [] j m t = absurd m
is_reaped-In now (k ∷ rows) j (inl e) t =
    subst (λ i. is_reaped now (i ∷ rows) j.document_id ≡ true) (sym e)
      (rw (t, (==_iff j.document_id j.document_id).1 refl) refl)
is_reaped-In now (k ∷ rows) j (inr m) t = ground (arith, is_reaped-In now rows j m t)

reaped_away :
    (now : ℕ) (rows : List JobRow)
    → All
        (λ (j : JobRow).
          (d : DocumentRow)
          → (d.id == j.document_id) ≡ true
          → not (is_reaped now rows d.id) ≡ false)
        (select (exhausted now) rows)
reaped_away now rows = All-of_In _ (select (exhausted now) rows) (λ j m d same.
    let (there, t) = In-select (exhausted now) j rows m in
    let hit = is_reaped-In now rows j there t in rw ((==_iff d.id j.document_id).0 same, hit) refl)

module _ {C : Type 0} where
  fail_documents-Failed :
      (i : ℕ) (rows : List JobRow) (db : Database C)
      → All (Failed i) db.documents
      → All (Failed i) (fail_documents rows db).documents
  unfolding fail_documents mark_document_failed
  fail_documents-Failed i [] db h = h
  fail_documents-Failed i (j ∷ rows) db h =
      fail_documents-Failed i rows _ (mark-Failed i j.document_id stopped_error db.documents h)

  fail_documents-each :
      (rows : List JobRow) (db : Database C)
      → All (λ j. All (Failed j.document_id) (fail_documents rows db).documents) rows
  unfolding fail_documents mark_document_failed
  fail_documents-each [] db = tt
  fail_documents-each (j ∷ rows) db = (
    fail_documents-Failed j.document_id rows _
        (mark-Failed_self j.document_id stopped_error db.documents),
    fail_documents-each rows _,
  )

  fail_documents-others :
      (p : DocumentRow → Bool) (rows : List JobRow) (db : Database C)
      → All (λ (j : JobRow). (d : DocumentRow) → (d.id == j.document_id) ≡ true → p d ≡ false) rows
      → ((d : DocumentRow) → p (failed_row stopped_error d) ≡ p d)
      → select p (fail_documents rows db).documents ≡ select p db.documents
  unfolding fail_documents mark_document_failed
  fail_documents-others p [] db away same = refl
  fail_documents-others p (j ∷ rows) db away same =
      fail_documents-others p rows _ away.1 same
      ∙ select-update_where (λ d. d.id == j.document_id) p (failed_row stopped_error)
          (λ d t. (away.0 d t, same d ∙ away.0 d t)) db.documents

  -- A claim that finds no open job reaps: each abandoned job without attempts left is then failed,
  -- and every other row is as it was; no row is open to the claim, and none is abandoned without
  -- attempts; every document of a reaped row is failed, and every other document is as it was.
  pub claim_job_reaps :
      (locked : ℕ → Bool) (now : ℕ) (db : Database C)
      → (claim_job locked now db).0 ≡ none
      → let after = (claim_job locked now db).1 in
        Reaped now db.jobs after.jobs
        × All (λ j. (open_to locked now j ≡ false) × (exhausted now j ≡ false)) after.jobs
        × All (λ j. exhausted now j ≡ true → All (Failed j.document_id) after.documents) db.jobs
        × (select (λ d. not (is_reaped now db.jobs d.id)) after.documents
            ≡ select (λ d. not (is_reaped now db.jobs d.id)) db.documents)
  unfolding claim_job reap_exhausted_jobs
  claim_job_reaps locked now db e =
      elim (Option-cases (oldest (select (open_to locked now) db.jobs))) [
        | inl n ↦
            rw (n, claim_job)
              (
                rw jobs-fail_documents (reap_rows-Reaped now db.jobs),
                rw jobs-fail_documents
                    (none_open locked now db.jobs (select-nil _ _ (oldest-none _ n))),
                All-of_select _ (exhausted now) db.jobs (fail_documents-each _ _),
                fail_documents-others (λ d. not (is_reaped now db.jobs d.id))
                    (select (exhausted now) db.jobs) _ (reaped_away now db.jobs) (λ d. refl),
              )
        | inr (j, s) ↦ cc (rw (s, claim_job) at e)
      ]
