-- ===== src/Routes/Served.antt =====
-- From the upload (api/routes_documents.py) over the queue (api/jobs_repo.py) and the worker
-- (api/worker.py) to the question (api/routes_query.py).
use text.Mathlib.Text.{◌==◌ as str_eq}
use text.Mathlib.TextEquality.{eq_iff}
use chat_doc.Floats.{Floats}
use chat_doc.Chunker.{Page}
use chat_doc.Chunker.Pages.{chunk_pdf}
use chat_doc.Csrf.{verify_csrf}
use chat_doc.Database.{Http, Database, DocumentRow, DocumentStatus, reply}
use chat_doc.Documents.{document_exists, get_document, owned_by}
use chat_doc.IngestDb.{named}
use chat_doc.Jobs.{
  ClaimedJob, claim_job, claim_row, claimable, fresh_job, max_queue_depth, oldest, queue_depth,
  claimed,
}
use chat_doc.Jobs.Claim.{open_to}
use chat_doc.Pipeline.{ChunkContent}
use chat_doc.Pipeline.Rows.{has_text}
use chat_doc.Routes.{display_name_of, max_file_size_bytes, open_query, upload_doc}
use chat_doc.Routes.Uploads.{pending_row, uploaded_db, upload_doc_lem}
use chat_doc.Storage.{Storage}
use chat_doc.Worker.{JobError, World, max_page_count, process_job}
use chat_doc.Worker.Outcomes.{DocumentIs}
use chat_doc.Worker.Owners.{owned_in_both}
use chat_doc.Worker.Ingests.{process_job-owners}
use chat_doc.Worker.Success.{Succeeded, id_of, process_job-succeeds}
use chat_doc.Prelude.{
  &&_iff, ==_iff, All, All-find, Bool, Bool-cases, List, Option, Option-cases, String, Text, [],
  any, any-last, any-of_none, ap, false, find, find-none, find_passes, inl, inr, length, refl,
  select, select-append, select-of_none, some, subst, sym, true, update_where, ℕ, ◌&&◌, ◌++◌, ◌<◌,
  ◌==◌, ◌∙◌, ◌∷◌, ◌≡◌, ◌≤◌,
}

-- A new key names the last document.
id_of-last :
    (doc_name : String) (ds : List DocumentRow) (row : DocumentRow)
    → any (named doc_name) ds ≡ false
    → named doc_name row ≡ true
    → id_of doc_name (ds ++ row ∷ []) ≡ some row.id
id_of-last doc_name [] row free h = rw h refl
id_of-last doc_name (d ∷ ds) row free h = elim (Bool-cases (named doc_name d)) [
  | inl t ↦ cc (rw t at free)
  | inr t ↦ rw t (id_of-last doc_name ds row (rw t at free) h)
]

-- A table in which some row passes a test answers the query with one that passes.
find-some :
    {A : Type 0} (p : A → Bool) (xs : List A) → any p xs ≡ true → (a : A) × (find p xs ≡ some a)
find-some p xs h = elim (Option-cases (find p xs)) [
  | inl n ↦ absurd (cc (any-of_none p xs (find-none p xs n)))
  | inr s ↦ s
]

fresh_job-claimable :
    (claim_time id now document_id : ℕ) (doc_key storage_key : String)
    → claimable claim_time (fresh_job id now document_id doc_key storage_key) ≡ true
unfolding claimable
fresh_job-claimable claim_time id now document_id doc_key storage_key = refl

-- Where no other job is open to claims, the new one is claimed.
claim_job-uploaded_db :
    {C : Type 0} (now user_id claim_time : ℕ) (doc_key storage_key name : String)
    (locked : ℕ → Bool) (db : Database C)
    → All (λ j. open_to locked claim_time j ≡ false) db.jobs
    → locked db.next_job_id ≡ false
    → claim_job locked claim_time (uploaded_db now user_id doc_key storage_key name db) ≡ (
      some (record {
        id = db.next_job_id;
        document_id = db.next_document_id;
        doc_key = doc_key;
        pdf_path = storage_key;
        attempts = 1;
      }),
      record (uploaded_db now user_id doc_key storage_key name db) {
        jobs =
            update_where
              (λ j. j.id == db.next_job_id)
              (claim_row claim_time)
              (db.jobs
                ++ fresh_job db.next_job_id now db.next_document_id doc_key storage_key ∷ []);
      },
    )
unfolding claim_job claim_row claimed oldest
claim_job-uploaded_db now user_id claim_time doc_key storage_key name locked db busy mine =
    let job = fresh_job db.next_job_id now db.next_document_id doc_key storage_key in
    let only : select (open_to locked claim_time) (db.jobs ++ job ∷ []) ≡ job ∷ [] =
      select-append (open_to locked claim_time) db.jobs (job ∷ [])
      ∙ rw
          (
            select-of_none (open_to locked claim_time) db.jobs busy,
            fresh_job-claimable claim_time db.next_job_id now db.next_document_id doc_key
                storage_key,
            mine,
          )
          refl in
    let first : oldest (select (open_to locked claim_time) (db.jobs ++ job ∷ [])) ≡ some job =
      ap oldest only in
    rw (first, claim_job) refl

-- In a table where the document of an id is ready, its owner can open a question on it.
open_query-ready :
    {C : Type 0} (cookie header : Option String) (user_id document_id : ℕ) (db : Database C)
    → verify_csrf cookie header ≡ true
    → any (λ d. d.id == document_id && owned_by user_id d) db.documents ≡ true
    → DocumentIs document_id DocumentStatus.ready db.documents
    → (row : DocumentRow) × (open_query cookie header user_id document_id db ≡ reply row)
      × (row.id ≡ document_id)
unfolding open_query get_document
open_query-ready cookie header user_id document_id db token owned all_ready =
    let hit : DocumentRow → Bool = λ d. d.id == document_id && owned_by user_id d in
    let (row, e) = find-some hit db.documents owned in
    let own =
      (&&_iff (row.id == document_id) (owned_by user_id row)).0 (find_passes hit db.documents e) in
    let ready : row.status ≡ DocumentStatus.ready =
      All-find (λ d. (d.id == document_id) ≡ true → d.status ≡ DocumentStatus.ready) hit
        db.documents all_ready e own.0 in
    (row, rw (token, e, ready) refl, (==_iff row.id document_id).0 own.0)

module _ (fl : Floats) (V S : Type 0) (store : Storage S)
    (parse_pdf : Text → Option (List (Page fl))) (embed : List Text → List V)
    (message : JobError → Text) where
  -- The claim has given a job; when the worker has processed it, the document's rows are the chunks
  -- of the pages, it is ready and the job done, and the owner's question is let in.
  abbrev pub Served :
      ℕ
      → List ℕ
      → Option String
      → Option String
      → ℕ
      → ℕ
      → List (Page fl)
      → S
      → Option ClaimedJob × Database (ChunkContent fl V)
      → Type 0
  Served time clock cookie header user_id document_id pages blobs (claimed_job, db) =
      (job : ClaimedJob) × (claimed_job ≡ some job)
      × (job.document_id ≡ document_id)
      × Succeeded fl V S store parse_pdf embed message pages job db
          (process_job fl V S store parse_pdf embed message time clock job
            (record { db = db; blobs = blobs })).db
      × (row : DocumentRow) × (open_query cookie header user_id document_id
            (process_job fl V S store parse_pdf embed message time clock job
              (record { db = db; blobs = blobs })).db
          ≡ reply row)
      × (row.id ≡ document_id)

  process_job-Served :
      (embeds : (texts : List Text) → length (embed texts) ≡ length texts) (user_id time : ℕ)
      (clock : List ℕ) (cookie header : Option String) (job : ClaimedJob) (pages : List (Page fl))
      (blob : Text) (db : Database (ChunkContent fl V)) (blobs : S)
      → verify_csrf cookie header ≡ true
      → document_exists job.document_id db ≡ true
      → id_of job.doc_key db.documents ≡ some job.document_id
      → store.open_local job.pdf_path blobs ≡ some blob
      → any (λ d. d.id == job.document_id && owned_by user_id d) db.documents ≡ true
      → parse_pdf blob ≡ some pages
      → length pages ≤ max_page_count
      → has_text fl V (chunk_pdf fl pages (λ i. false)) ≡ true
      → Served time clock cookie header user_id job.document_id pages blobs (some job, db)
  process_job-Served embeds user_id time clock cookie header job pages blob db blobs token known
        named_so stored owned parsed short text =
      let w : World fl V S store parse_pdf embed message = record { db = db; blobs = blobs } in
      let after = process_job fl V S store parse_pdf embed message time clock job w in
      let done =
        process_job-succeeds fl V S store parse_pdf embed message embeds time clock job w blob pages
          known named_so stored parsed short text in
      let (_, _, _, _, _, all_ready) = done in
      let kept =
        process_job-owners fl V S store parse_pdf embed message embeds time clock job w blob pages
          known named_so stored parsed short text in
      let (row, opened, same) =
        open_query-ready cookie header user_id job.document_id after.db token
          (owned_in_both user_id job.document_id after.db.documents db.documents kept ∙ owned)
          all_ready in
      (job, refl, refl, done, row, opened, same)

  -- From the upload to the question: where an upload with a new key passes the guards, the ids of
  -- the documents are below the counter, no other job is open and the new one is not locked, the
  -- worker's next claim gives the new document's job; and where the blob is a PDF of at most 500
  -- pages with some text, processing that job leaves exactly the chunks of its pages for the
  -- document, and then the uploader's question on the document is let in. The embedding model is
  -- asked to give one vector for each text.
  pub upload_doc-Served :
      (embeds : (texts : List Text) → length (embed texts) ≡ length texts) (now user_id time : ℕ)
      (clock : List ℕ) (cookie header : Option String) (doc_key storage_key content_type : String)
      (filename : Option String) (contents : Text) (pages : List (Page fl)) (locked : ℕ → Bool)
      (db : Database (ChunkContent fl V)) (blobs : S)
      → verify_csrf cookie header ≡ true
      → str_eq content_type "application/pdf" ≡ true
      → queue_depth db < max_queue_depth
      → length contents ≤ max_file_size_bytes
      → any (λ d. str_eq d.doc_name doc_key) db.documents ≡ false
      → All (λ d. d.id < db.next_document_id) db.documents
      → All (λ j. open_to locked time j ≡ false) db.jobs
      → locked db.next_job_id ≡ false
      → parse_pdf contents ≡ some pages
      → length pages ≤ max_page_count
      → has_text fl V (chunk_pdf fl pages (λ i. false)) ≡ true
      → let uploaded =
          upload_doc S store now user_id cookie header doc_key storage_key content_type filename
            contents
            (db, blobs) in
        Served time clock cookie header user_id db.next_document_id pages uploaded.1.1
          (claim_job locked time uploaded.1.0)
  unfolding document_exists
  upload_doc-Served embeds now user_id time clock cookie header doc_key storage_key content_type
        filename contents pages locked db blobs token pdf room small free below busy mine parsed
        short text =
      let id = db.next_document_id in
      let name = display_name_of filename in
      let row = pending_row id now user_id doc_key name storage_key in
      let stored = store.save storage_key contents blobs in
      let hit : DocumentRow → Bool = λ d. d.id == id && owned_by user_id d in
      let same =
        upload_doc_lem S store now user_id cookie header doc_key storage_key content_type filename
          contents db blobs token pdf room small free below in
      let claimed_so =
        claim_job-uploaded_db now user_id time doc_key storage_key name locked db busy mine in
      let own : hit row ≡ true =
        (&&_iff (id == id) (user_id == user_id)).1
          ((==_iff id id).1 refl, (==_iff user_id user_id).1 refl) in
      subst
        (λ (u : Http DocumentRow × (Database (ChunkContent fl V) × S)).
          Served time clock cookie header user_id id pages u.1.1 (claim_job locked time u.1.0))
        (sym same)
        (subst (Served time clock cookie header user_id id pages stored) (sym claimed_so) (
          process_job-Served embeds user_id time clock cookie header _ pages contents _ stored token
            (any-last (λ d. d.id == id) db.documents row ((==_iff id id).1 refl))
            (id_of-last doc_key db.documents row free ((eq_iff doc_key doc_key).1 refl))
            (store.open_local-save storage_key storage_key contents blobs
              ∙ rw ((eq_iff storage_key storage_key).1 refl) refl)
            (any-last hit db.documents row own) parsed short text))
