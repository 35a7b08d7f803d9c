-- ===== src/Documents.antt =====
-- api/documents_repo.py and the documents statements of ingest/db.py.
pub mod Listing
use text.Mathlib.Text.{◌==◌ as str_eq}
use chat_doc.Prelude.{
  Bool, List, Option, String, Text, [], any, false, find, if◌then◌else◌, ltb, none, not, select,
  some, true, update_where, ℕ, ◌&&◌, ◌++◌, ◌+◌, ◌==◌, ◌∷◌,
}
use chat_doc.Database.{DocumentStatus, Stage, DocumentRow, Database, Result, ok, raised, unique}

-- `user_id = %s`: a NULL owner equals no user.
abbrev pub owned_by : ℕ → DocumentRow → Bool
owned_by user d = elim d.user_id [ none ↦ false | some u ↦ u == user ]

-- The SET of `mark_document_failed`.
abbrev pub failed_row : Text → DocumentRow → DocumentRow
failed_row error d = record d { status = DocumentStatus.failed; error = some error }

-- `ORDER BY created_at DESC`: stable insertion, the newest first.
insert_newest : DocumentRow → List DocumentRow → List DocumentRow
insert_newest d [] = d ∷ []
insert_newest d (e ∷ rest) =
    let later = insert_newest d rest in
    if ltb d.created_at e.created_at then e ∷ later else d ∷ e ∷ rest

newest_first : List DocumentRow → List DocumentRow
unfolding insert_newest
newest_first [] = []
newest_first (d ∷ rest) = insert_newest d (newest_first rest)

module _ {C : Type 0} where
  -- The row that an INSERT with the given columns appends; the rest are the schema's defaults.
  insert_document : DocumentRow → Database C → Result ℕ × Database C
  insert_document row db =
      if any (λ d. str_eq d.doc_name row.doc_name) db.documents then (raised unique, db) else (
        ok db.next_document_id,
        record db {
          documents = db.documents ++ record row { id = db.next_document_id } ∷ [];
          next_document_id = db.next_document_id + 1;
        },
      )

  unfoldable pub create_pending_document :
      ℕ → ℕ → String → String → String → Database C → Result ℕ × Database C
  unfolding insert_document
  create_pending_document now user_id doc_name display_name source_path = insert_document (record {
    id = 0;
    user_id = some user_id;
    doc_name = doc_name;
    display_name = some display_name;
    source_path = source_path;
    page_count = 0;
    status = DocumentStatus.processing;
    error = none;
    stage = some Stage.queued;
    stage_current = 0;
    stage_total = 0;
    chunk_count = 0;
    created_at = now;
  })

  abbrev update_document : ℕ → (DocumentRow → DocumentRow) → Database C → Database C
  update_document document_id f db = record db {
    documents = update_where (λ d. d.id == document_id) f db.documents;
  }

  unfoldable pub update_document_stage : ℕ → Stage → ℕ → ℕ → Database C → Database C
  update_document_stage document_id stage current total =
      update_document document_id
        (λ d. record d { stage = some stage; stage_current = current; stage_total = total })

  unfoldable pub mark_document_ready : ℕ → ℕ → Database C → Database C
  mark_document_ready document_id chunk_count = update_document document_id (λ d. record d {
    status = DocumentStatus.ready;
    error = none;
    stage = some Stage.done;
    chunk_count = chunk_count;
  })

  unfoldable pub mark_document_failed : ℕ → Text → Database C → Database C
  mark_document_failed document_id error = update_document document_id (failed_row error)

  -- DELETE of the owner's document; its chunks and jobs go with it (ON DELETE CASCADE).
  unfoldable pub delete_document : ℕ → ℕ → Database C → Bool × Database C
  delete_document user_id document_id db =
      let hit = λ (d : DocumentRow). d.id == document_id && owned_by user_id d in
      if any hit db.documents
      then (
        true,
        record db {
          documents = select (λ d. not (hit d)) db.documents;
          jobs = select (λ j. not (j.document_id == document_id)) db.jobs;
          chunks = select (λ c. not (c.document_id == document_id)) db.chunks;
        },
      )
      else (false, db)

  unfoldable pub get_document : ℕ → ℕ → Database C → Option DocumentRow
  get_document user_id document_id db =
      find (λ d. d.id == document_id && owned_by user_id d) db.documents

  unfoldable pub list_documents : ℕ → Database C → List DocumentRow
  unfolding newest_first
  list_documents user_id db = newest_first (select (owned_by user_id) db.documents)

  -- api/worker.py `_document_exists`.
  unfoldable pub document_exists : ℕ → Database C → Bool
  document_exists document_id db = any (λ d. d.id == document_id) db.documents
