-- ===== src/Routes/Owners.antt =====
-- Documents belong to their owners: the document routes of api/routes_documents.py and
-- api/routes_query.py for a user who does not own the document, and the deletion by one who does.
use text.Mathlib.TextEquality.{eq_iff}
use chat_doc.Csrf.{verify_csrf}
use chat_doc.Database.{Database, DocumentRow, Http, http_error, reply}
use chat_doc.Documents.{get_document, delete_document, owned_by}
use chat_doc.Routes.{get_doc, get_doc_file, open_query, delete_doc}
use chat_doc.Storage.{Storage}
use chat_doc.Prelude.{
  All, All-imp, Bool, Bool-cases, List, Option, String, [], any, any-of_none, arith, false, find,
  inl, inr, none, not, refl, select, select_passes, some, true, ℕ, ◌&&◌, ◌==◌, ◌∙◌, ◌∷◌, ◌≡◌,
}

-- No row of the id belongs to the user.
abbrev pub Foreign : ℕ → ℕ → List DocumentRow → Type 0
Foreign user_id document_id = All (λ d. (d.id == document_id && owned_by user_id d) ≡ false)

abbrev pub is_reply : {A : Type 0} → Http A → Bool
is_reply (reply a) = true
is_reply (http_error code detail) = false

find-of_none :
    {A : Type 0} (p : A → Bool) (xs : List A) → All (λ x. p x ≡ false) xs → find p xs ≡ none
find-of_none p [] h = refl
find-of_none p (x ∷ xs) h = rw h.0 (find-of_none p xs h.1)

find-any : {A : Type 0} (p : A → Bool) (xs : List A) {a : A} → find p xs ≡ some a → any p xs ≡ true
find-any p [] e = cc
find-any p (x ∷ xs) {a = a} e = elim (Bool-cases (p x)) [
  | inl t ↦ rw t refl
  | inr t ↦ rw t (find-any p xs {a = a} (rw t at e))
]

module _ {C : Type 0} (S : Type 0) (store : Storage S) where
  -- A user who does not own a document gets nothing of it and changes nothing: no row, no file, no
  -- query, and a deletion is an error that leaves the database and the blobs as they are.
  pub stranger_sees_nothing :
      (user_id document_id : ℕ) (cookie header : Option String) (db : Database C) (blobs : S)
      → Foreign user_id document_id db.documents
      → (is_reply (get_doc user_id document_id db) ≡ false)
        × (is_reply (get_doc_file S store user_id document_id (db, blobs)) ≡ false)
        × (is_reply (open_query cookie header user_id document_id db) ≡ false)
        × (is_reply (delete_doc S store user_id document_id cookie header (db, blobs)).0 ≡ false)
        × ((delete_doc S store user_id document_id cookie header (db, blobs)).1 ≡ (db, blobs))
  unfolding get_doc get_doc_file open_query delete_doc get_document delete_document
  stranger_sees_nothing user_id document_id cookie header db blobs h =
      let hit : DocumentRow → Bool = λ d. d.id == document_id && owned_by user_id d in
      let none_found : get_document user_id document_id db ≡ none =
        find-of_none hit db.documents h in
      let none_hit : any hit db.documents ≡ false = any-of_none hit db.documents h in
      let row : is_reply (get_doc user_id document_id db) ≡ false = rw (none_found, get_doc) refl in
      let file : is_reply (get_doc_file S store user_id document_id (db, blobs)) ≡ false =
        rw (none_found, get_doc_file) refl in
      elim (Bool-cases (verify_csrf cookie header)) [
        | inl ok ↦ (
          row,
          file,
          rw (ok, none_found) refl,
          rw (ok, none_found, none_hit) refl,
          rw (ok, none_found, none_hit) refl,
        )
        | inr bad ↦ (row, file, rw bad refl, rw bad refl, rw bad refl)
      ]

  -- What a successful deletion leaves: the owner's row, the document's jobs and chunks and its blob
  -- are gone.
  abbrev pub Erased : ℕ → ℕ → String → Database C × S → Type 0
  Erased user_id document_id source_path (db, blobs) =
      Foreign user_id document_id db.documents
      × All (λ j. (j.document_id == document_id) ≡ false) db.jobs
      × All (λ c. (c.document_id == document_id) ≡ false) db.chunks
      × (store.open_local source_path blobs ≡ none)

  -- The owner's deletion, with a valid token, succeeds and leaves nothing of the document.
  pub delete_doc-Erased :
      (user_id document_id : ℕ) (cookie header : Option String) (db : Database C) (blobs : S)
      (row : DocumentRow)
      → verify_csrf cookie header ≡ true
      → get_document user_id document_id db ≡ some row
      → let r = delete_doc S store user_id document_id cookie header (db, blobs) in
        (r.0 ≡ reply true) × Erased user_id document_id row.source_path r.1
  unfolding delete_doc get_document delete_document
  delete_doc-Erased user_id document_id cookie header db blobs row ok found =
      let hit : DocumentRow → Bool = λ d. d.id == document_id && owned_by user_id d in
      let there : any hit db.documents ≡ true = find-any hit db.documents {a = row} found in
      rw (ok, found, there)
        (
          refl,
          (
            gone hit db.documents,
            gone (λ j. j.document_id == document_id) db.jobs,
            gone (λ c. c.document_id == document_id) db.chunks,
            erased_blob row.source_path,
          ),
        )
    where
      gone :
          {A : Type 0} (p : A → Bool) (xs : List A)
          → All (λ x. p x ≡ false) (select (λ x. not (p x)) xs)
      gone p xs =
          All-imp (λ x. not (p x) ≡ true) (λ x. p x ≡ false) (λ x h. ground arith)
            (select (λ x. not (p x)) xs) (select_passes (λ x. not (p x)) xs)

      erased_blob : (path : String) → store.open_local path (store.delete path blobs) ≡ none
      erased_blob path =
          store.open_local-delete path path blobs ∙ rw ((eq_iff path path).1 refl) refl
