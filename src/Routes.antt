-- ===== src/Routes.antt =====
-- The routes of the API (api/routes_auth.py, api/routes_documents.py) and what a query asks before
-- its stream (api/routes_query.py). An exception that a route does not handle is a status 500.
pub mod Accounts
pub mod Owners
pub mod Uploads
pub mod Served
use text.Mathlib.Text.{◌==◌ as str_eq}
use chat_doc.Auth.{
  create_session, delete_session, get_current_user_id, get_user_by_email, PasswordHasher,
  create_user,
}
use chat_doc.Csrf.{verify_csrf, issue_csrf_cookie, csrf_error}
use chat_doc.Database.{
  Database, DocumentRow, DocumentStatus, Http, Result, UserRow, http_error, reply, ok, raised,
}
use chat_doc.Documents.{create_pending_document, delete_document, get_document}
use chat_doc.Jobs.{enqueue_job, max_queue_depth, queue_depth}
use chat_doc.Storage.{Storage}
use chat_doc.Worker.{max_file_size_bytes}
use chat_doc.Prelude.{
  Bool, Option, String, Text, false, find, if◌then◌else◌, leb, length, lower, ltb, none, not, some,
  true, ℕ, ◌==◌,
}

-- What a login answers: the user, and the values of the session cookie and of the CSRF token.
pub record Account : Type 0 where
  pub id : ℕ
  pub email : Text
  pub session : String
  pub csrf : String

abbrev pub is_ready : DocumentStatus → Bool
is_ready DocumentStatus.ready = true
is_ready _ = false

abbrev pub display_name_of : Option String → String
display_name_of none = "document.pdf"
display_name_of (some name) = if str_eq name "" then "document.pdf" else name

module _ {C : Type 0} where
  abbrev pub session_opened :
      ℕ → Text → String → Result (String × ℕ) × Database C → Http Account × Database C
  session_opened user_id email csrf (ok (token, expires_at), db) = (
    reply (record {
      id = user_id;
      email = lower email;
      session = token;
      csrf = issue_csrf_cookie csrf none;
    }),
    db,
  )
  session_opened user_id email csrf (raised v, db) = (http_error 500 "", db)

  abbrev pub registered :
      ℕ → Text → String → String → Result ℕ × Database C → Http Account × Database C
  registered now email token csrf (ok user_id, db) =
      session_opened user_id email csrf (create_session token now user_id db)
  registered now email token csrf (raised v, db) = (http_error 409 "email already registered", db)

  unfoldable pub register :
      PasswordHasher
      → String
      → ℕ
      → Text
      → String
      → String
      → String
      → Database C
      → Http Account × Database C
  register hasher salt now email password token csrf db =
      registered now email token csrf (create_user hasher salt email password db)

  unfoldable pub login :
      PasswordHasher → ℕ → Text → String → String → String → Database C → Http Account × Database C
  login hasher now email password token csrf db = elim (get_user_by_email email db) [
    | none ↦ (http_error 401 "invalid email or password", db)
    | some user ↦
        if hasher.verify user.password_hash password
        then session_opened user.id email csrf (create_session token now user.id db)
        else (http_error 401 "invalid email or password", db)
  ]

  -- The session cookie is cleared whatever it was; an empty one names no session.
  unfoldable pub logout : Option String → Database C → Database C
  logout none db = db
  logout (some token) db = if str_eq token "" then db else delete_session token db

  abbrev profile : Http ℕ × Database C → Http (ℕ × Text) × Database C
  profile (http_error code detail, db) = (http_error code detail, db)
  profile (reply user_id, db) = elim (find (λ (u : UserRow). u.id == user_id) db.users) [
    | none ↦ (http_error 401 "not authenticated", db)
    | some u ↦ (reply (user_id, u.email), db)
  ]

  unfoldable pub me : Option String → ℕ → Database C → Http (ℕ × Text) × Database C
  me cookie now db = profile (get_current_user_id cookie now db)

  -- GET /documents/{id}
  unfoldable pub get_doc : ℕ → ℕ → Database C → Http DocumentRow
  get_doc user_id document_id db = elim (get_document user_id document_id db) [
    | none ↦ http_error 404 "document not found"
    | some row ↦ reply row
  ]

  -- POST /query before its stream.
  unfoldable pub open_query : Option String → Option String → ℕ → ℕ → Database C → Http DocumentRow
  open_query cookie header user_id document_id db =
      if verify_csrf cookie header
      then elim (get_document user_id document_id db) [
        | none ↦ http_error 404 "document not found"
        | some row ↦
            if is_ready row.status then reply row else http_error 409 "document is not ready"
      ]
      else http_error 403 csrf_error

  module _ (S : Type 0) (store : Storage S) where
    -- GET /documents/{id}/file: the blob that the response streams.
    unfoldable pub get_doc_file : ℕ → ℕ → Database C × S → Http Text
    get_doc_file user_id document_id (db, blobs) = elim (get_document user_id document_id db) [
      | none ↦ http_error 404 "document not found"
      | some row ↦
          if is_ready row.status
          then if store.exists row.source_path blobs
            then elim (store.open_local row.source_path blobs) [
              | none ↦ http_error 500 ""
              | some blob ↦ reply blob
            ]
            else http_error 404 "document file missing in storage"
          else http_error 404 "document not found"
    ]

    abbrev pub looked_up : ℕ → ℕ → Database C × S → Http DocumentRow × (Database C × S)
    looked_up user_id document_id (db, blobs) = elim (get_document user_id document_id db) [
      | none ↦ (http_error 500 "", (db, blobs))
      | some row ↦ (reply row, (db, blobs))
    ]

    abbrev pub enqueued : ℕ → ℕ → S → Result ℕ × Database C → Http DocumentRow × (Database C × S)
    enqueued user_id document_id blobs (ok job_id, db) = looked_up user_id document_id (db, blobs)
    enqueued user_id document_id blobs (raised v, db) = (http_error 500 "", (db, blobs))

    abbrev pub created :
        ℕ → ℕ → String → String → S → Result ℕ × Database C → Http DocumentRow × (Database C × S)
    created now user_id doc_key storage_key blobs (ok document_id, db) =
        enqueued user_id document_id blobs (enqueue_job now document_id doc_key storage_key db)
    created now user_id doc_key storage_key blobs (raised v, db) = (http_error 500 "", (db, blobs))

    -- The upload has passed the guards: it is stored, entered and queued.
    unfoldable pub accept_upload :
        ℕ
        → ℕ
        → String
        → String
        → String
        → Text
        → Database C × S
        → Http DocumentRow × (Database C × S)
    accept_upload now user_id doc_key storage_key display_name contents (db, blobs) =
        created now user_id doc_key storage_key (store.save storage_key contents blobs)
          (create_pending_document now user_id doc_key display_name storage_key db)

    -- POST /documents. The key has 12 random hexadecimal digits: it is an argument, and so is the
    -- storage key that is the same with ".pdf" behind it.
    unfoldable pub upload_doc :
        ℕ
        → ℕ
        → Option String
        → Option String
        → String
        → String
        → String
        → Option String
        → Text
        → Database C × S
        → Http DocumentRow × (Database C × S)
    unfolding accept_upload
    upload_doc now user_id cookie header doc_key storage_key content_type filename contents
          (db, blobs) =
        if not (verify_csrf cookie header)
        then (http_error 403 csrf_error, (db, blobs))
        else if not (str_eq content_type "application/pdf")
        then (http_error 400 "only application/pdf is accepted", (db, blobs))
        else if leb max_queue_depth (queue_depth db)
        then (http_error 429 "ingest queue is full, try again shortly", (db, blobs))
        else if ltb max_file_size_bytes (length contents)
        then (http_error 413 "file exceeds the 25MB limit", (db, blobs))
        else accept_upload now user_id doc_key storage_key (display_name_of filename) contents
            (db, blobs)

    abbrev pub erased : Option DocumentRow → Bool × Database C → S → Http Bool × (Database C × S)
    erased row (false, db) blobs = (http_error 404 "document not found", (db, blobs))
    erased none (true, db) blobs = (http_error 500 "", (db, blobs))
    erased (some row) (true, db) blobs = (reply true, (db, store.delete row.source_path blobs))

    -- DELETE /documents/{id}
    unfoldable pub delete_doc :
        ℕ → ℕ → Option String → Option String → Database C × S → Http Bool × (Database C × S)
    delete_doc user_id document_id cookie header (db, blobs) =
        if verify_csrf cookie header
        then erased (get_document user_id document_id db) (delete_document user_id document_id db)
            blobs
        else (http_error 403 csrf_error, (db, blobs))
