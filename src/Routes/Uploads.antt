-- ===== src/Routes/Uploads.antt =====
-- An upload that passes the guards of api/routes_documents.py upload_doc.
use text.Mathlib.Text.{◌==◌ as str_eq}
use text.Mathlib.TextEquality.{eq_iff}
use chat_doc.Csrf.{verify_csrf}
use chat_doc.Database.{JobRow, Database, DocumentRow, DocumentStatus, Http, Stage, reply}
use chat_doc.Documents.{owned_by, create_pending_document, get_document}
use chat_doc.Jobs.{is_processing, is_queued, max_queue_depth, fresh_job, enqueue_job, queue_depth}
use chat_doc.Routes.{looked_up, display_name_of, max_file_size_bytes, upload_doc, accept_upload}
use chat_doc.Storage.{Storage}
use chat_doc.Prelude.{
  &&_iff, ==_iff, All, All-imp, Bool, Option, String, Text, [], any, any-last, any-of_none, ap,
  arith, false, find-last, leb, length, length-append, ltb, none, refl, select, select-append, some,
  subst, sym, true, ℕ, ◌&&◌, ◌++◌, ◌+◌, ◌<◌, ◌==◌, ◌||◌, ◌∙◌, ◌∷◌, ◌≡◌, ◌≤◌,
}

-- The row that create_pending_document inserts.
abbrev pub pending_row : ℕ → ℕ → ℕ → String → String → String → DocumentRow
pending_row id now user_id doc_key name storage_key = record {
  id = id;
  user_id = some user_id;
  doc_name = doc_key;
  display_name = some name;
  source_path = storage_key;
  page_count = 0;
  status = DocumentStatus.processing;
  error = none;
  stage = some Stage.queued;
  stage_current = 0;
  stage_total = 0;
  chunk_count = 0;
  created_at = now;
}

apart : (n m : ℕ) → n < m → (n == m) ≡ false
apart n m l = ground arith

-- The tables with the new document and its job.
abbrev pub uploaded_db : {C : Type 0} → ℕ → ℕ → String → String → String → Database C → Database C
uploaded_db now user_id doc_key storage_key name db = record db {
  documents =
      db.documents ++ pending_row db.next_document_id now user_id doc_key name storage_key ∷ [];
  next_document_id = db.next_document_id + 1;
  jobs = db.jobs ++ fresh_job db.next_job_id now db.next_document_id doc_key storage_key ∷ [];
  next_job_id = db.next_job_id + 1;
}

module _ {C : Type 0} (S : Type 0) (store : Storage S) where
  -- The answer is the new document: the uploader's, in processing, found by its id, its blob stored
  -- under its storage key, and one more job in the queue.
  abbrev pub Uploaded :
      ℕ → String → Text → Database C → Http DocumentRow × (Database C × S) → Type 0
  Uploaded user_id storage_key contents before (answer, (after, blobs)) =
      (row : DocumentRow) × (answer ≡ reply row)
      × (row.user_id ≡ some user_id)
      × (row.status ≡ DocumentStatus.processing)
      × (row.source_path ≡ storage_key)
      × (get_document user_id row.id after ≡ some row)
      × (store.open_local storage_key blobs ≡ some contents)
      × (queue_depth after ≡ queue_depth before + 1)

  -- The uploader finds the new document by its id.
  pub get_document-uploaded_db :
      (now user_id : ℕ) (doc_key storage_key name : String) (db : Database C)
      → All (λ d. d.id < db.next_document_id) db.documents
      → get_document user_id db.next_document_id
          (uploaded_db now user_id doc_key storage_key name db)
        ≡ some (pending_row db.next_document_id now user_id doc_key name storage_key)
  unfolding get_document
  get_document-uploaded_db now user_id doc_key storage_key name db below =
      let id = db.next_document_id in
      let row = pending_row id now user_id doc_key name storage_key in
      let hit : DocumentRow → Bool = λ d. d.id == id && owned_by user_id d in
      let nobody : any hit db.documents ≡ false =
        any-of_none hit db.documents
          (All-imp (λ d. d.id < id) (λ d. hit d ≡ false) (λ d l. other d l) db.documents below) in
      let own : hit row ≡ true =
        (&&_iff (id == id) (user_id == user_id)).1
          ((==_iff id id).1 refl, (==_iff user_id user_id).1 refl) in
      find-last hit db.documents row nobody own
    where
      other :
          (d : DocumentRow)
          → d.id < db.next_document_id
          → (d.id == db.next_document_id && owned_by user_id d) ≡ false
      other d l = rw (apart d.id db.next_document_id l) refl

  accept_upload_lem :
      (now user_id : ℕ) (doc_key storage_key name : String) (contents : Text) (db : Database C)
      (blobs : S)
      → any (λ d. str_eq d.doc_name doc_key) db.documents ≡ false
      → All (λ d. d.id < db.next_document_id) db.documents
      → accept_upload S store now user_id doc_key storage_key name contents (db, blobs) ≡ (
        reply (pending_row db.next_document_id now user_id doc_key name storage_key),
        (
          uploaded_db now user_id doc_key storage_key name db,
          store.save storage_key contents blobs,
        ),
      )
  unfolding accept_upload create_pending_document enqueue_job
  accept_upload_lem now user_id doc_key storage_key name contents db blobs free below =
      let id = db.next_document_id in
      let row = pending_row id now user_id doc_key name storage_key in
      let known : any (λ d. d.id == id) (db.documents ++ row ∷ []) ≡ true =
        any-last (λ d. d.id == id) db.documents row ((==_iff id id).1 refl) in
      let got = get_document-uploaded_db now user_id doc_key storage_key name db below in
      rw (free, known, looked_up, got) refl

  -- The guards let the upload through.
  pub upload_doc_lem :
      (now user_id : ℕ) (cookie header : Option String) (doc_key storage_key content_type : String)
      (filename : Option String) (contents : Text) (db : Database C) (blobs : S)
      → verify_csrf cookie header ≡ true
      → str_eq content_type "application/pdf" ≡ true
      → queue_depth db < max_queue_depth
      → length contents ≤ max_file_size_bytes
      → any (λ d. str_eq d.doc_name doc_key) db.documents ≡ false
      → All (λ d. d.id < db.next_document_id) db.documents
      → upload_doc S store now user_id cookie header doc_key storage_key content_type filename
          contents
          (db, blobs)
        ≡ (
          reply (
              pending_row db.next_document_id now user_id doc_key
                (display_name_of filename)
                storage_key),
          (
            uploaded_db now user_id doc_key storage_key (display_name_of filename) db,
            store.save storage_key contents blobs,
          ),
        )
  unfolding upload_doc
  upload_doc_lem now user_id cookie header doc_key storage_key content_type filename contents db
        blobs token pdf room small free below =
      let space : leb max_queue_depth (queue_depth db) ≡ false = ground arith in
      let fits : ltb max_file_size_bytes (length contents) ≡ false = ground arith in
      rw (token, pdf, space, fits)
        (accept_upload_lem now user_id doc_key storage_key (display_name_of filename) contents db
          blobs free below)

  -- An upload of a PDF within the limits, with a valid token, a free place in the queue and a new
  -- key, is accepted where the ids of the documents are below the counter: the document belongs to
  -- the uploader, is in processing and can be fetched by its id, the blob is stored under the
  -- document's storage key, and the queue has one job more.
  pub upload_doc-Uploaded :
      (now user_id : ℕ) (cookie header : Option String) (doc_key storage_key content_type : String)
      (filename : Option String) (contents : Text) (db : Database C) (blobs : S)
      → verify_csrf cookie header ≡ true
      → str_eq content_type "application/pdf" ≡ true
      → queue_depth db < max_queue_depth
      → length contents ≤ max_file_size_bytes
      → any (λ d. str_eq d.doc_name doc_key) db.documents ≡ false
      → All (λ d. d.id < db.next_document_id) db.documents
      → Uploaded user_id storage_key contents db (
          upload_doc S store now user_id cookie header doc_key storage_key content_type filename
            contents
            (db, blobs))
  unfolding queue_depth
  upload_doc-Uploaded now user_id cookie header doc_key storage_key content_type filename contents
        db blobs token pdf room small free below =
      let name = display_name_of filename in
      let job = fresh_job db.next_job_id now db.next_document_id doc_key storage_key in
      let waiting : JobRow → Bool = λ j. is_queued j.status || is_processing j.status in
      let same =
        upload_doc_lem now user_id cookie header doc_key storage_key content_type filename contents
          db blobs token pdf room small free below in
      subst (Uploaded user_id storage_key contents db) (sym same) (
        pending_row db.next_document_id now user_id doc_key name storage_key,
        refl,
        refl,
        refl,
        refl,
        get_document-uploaded_db now user_id doc_key storage_key name db below,
        store.open_local-save storage_key storage_key contents blobs
            ∙ rw ((eq_iff storage_key storage_key).1 refl) refl,
        ap length (select-append waiting db.jobs (job ∷ []))
            ∙ length-append (select waiting db.jobs) (job ∷ []),
      )
