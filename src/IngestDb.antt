-- ===== src/IngestDb.antt =====
-- ingest/db.py: the statements of the ingest pipeline on documents and chunks.
use text.Mathlib.Text.{◌==◌ as str_eq}
use chat_doc.Database.{DocumentStatus, DocumentRow, ChunkRow, Database, Violation, foreign_key}
use chat_doc.Prelude.{
  ==_iff, Bool, Bool-cases, List, Option, Option-cases, String, [], any, any-last, arith, find,
  if◌then◌else◌, inl, inr, none, not, refl, select, some, some-injective, subst, sym, true,
  update_where, ℕ, ◌&&◌, ◌++◌, ◌+◌, ◌==◌, ◌>>=◌, ◌∙◌, ◌∷◌, ◌≡◌,
}

abbrev pub named : String → DocumentRow → Bool
named doc_name d = str_eq d.doc_name doc_name

-- The row of an INSERT that names no owner and no status.
abbrev pub default_document : ℕ → ℕ → String → String → ℕ → DocumentRow
default_document id now doc_name source_path page_count = record {
  id = id;
  user_id = none;
  doc_name = doc_name;
  display_name = none;
  source_path = source_path;
  page_count = page_count;
  status = DocumentStatus.ready;
  error = none;
  stage = none;
  stage_current = 0;
  stage_total = 0;
  chunk_count = 0;
  created_at = now;
}

abbrev pub renewed : String → ℕ → DocumentRow → DocumentRow
renewed source_path page_count d = record d { source_path = source_path; page_count = page_count }

module _ {C : Type 0} where
  -- The id of a document of that name that has chunks.
  unfoldable pub get_ingested_document_id : String → Database C → Option ℕ
  get_ingested_document_id doc_name db =
      find (λ d. str_eq d.doc_name doc_name && any (λ c. c.document_id == d.id) db.chunks)
        db.documents
      >>= (λ d. some d.id)

  -- INSERT … ON CONFLICT (doc_name) DO UPDATE … RETURNING id
  unfoldable pub upsert_document : ℕ → String → String → ℕ → Database C → ℕ × Database C
  upsert_document now doc_name source_path page_count db =
      elim (find (named doc_name) db.documents) [
        | none ↦ (
          db.next_document_id,
          record db {
            documents =
                db.documents
                ++ default_document db.next_document_id now doc_name source_path page_count ∷ [];
            next_document_id = db.next_document_id + 1;
          },
        )
        | some d ↦ (
          d.id,
          record db {
            documents = update_where (named doc_name) (renewed source_path page_count) db.documents;
          },
        )
      ]

  unfoldable pub delete_chunks_for_document : ℕ → Database C → Database C
  delete_chunks_for_document document_id db = record db {
    chunks = select (λ c. not (c.document_id == document_id)) db.chunks;
  }

  -- One INSERT for each row, until one violates the foreign key.
  unfoldable pub insert_chunks : ℕ → List C → ℕ → Database C → Option Violation × Database C
  insert_chunks document_id [] i db = (none, db)
  insert_chunks document_id (r ∷ rows) i db =
      let row : ChunkRow C = record { document_id = document_id; chunk_index = i; content = r } in
      let rest =
        insert_chunks document_id rows (i + 1) (record db { chunks = db.chunks ++ row ∷ [] }) in
      if any (λ d. d.id == document_id) db.documents then rest else (some foreign_key, db)

  -- The document that the upsert returns is in the table.
  pub upsert_document-exists :
      (now : ℕ) (doc_name source_path : String) (page_count : ℕ) (db : Database C)
      → let r = upsert_document now doc_name source_path page_count db in
        (any (λ d. d.id == r.0) r.1.documents ≡ true) × (r.1.chunks ≡ db.chunks)
  unfolding upsert_document
  upsert_document-exists now doc_name source_path page_count db =
      elim (Option-cases (find (named doc_name) db.documents)) [
        | inl n ↦
            rw (n, upsert_document)
              (
                any-last (λ d. d.id == db.next_document_id) db.documents
                    (default_document db.next_document_id now doc_name source_path page_count)
                    ((==_iff db.next_document_id db.next_document_id).1 refl),
                refl,
              )
        | inr (d, e) ↦
            rw (e, upsert_document)
              (
                any-update (named doc_name) (λ x. x.id == d.id) (renewed source_path page_count)
                      (λ x. refl) db.documents
                    ∙ any-find (named doc_name) (λ x. x.id == d.id) db.documents d e
                        ((==_iff d.id d.id).1 refl),
                refl,
              )
      ]
    where
      any-update :
          {A : Type 0} (q p : A → Bool) (f : A → A)
          → ((x : A) → p (f x) ≡ p x)
          → (xs : List A) → any p (update_where q f xs) ≡ any p xs
      any-update q p f same [] = refl
      any-update q p f same (x ∷ xs) = elim (Bool-cases (q x)) [
        | inl e ↦ rw (e, same x, any-update q p f same xs) refl
        | inr e ↦ rw (e, any-update q p f same xs) refl
      ]

      any-find :
          {A : Type 0} (q p : A → Bool) (xs : List A) (a : A)
          → find q xs ≡ some a
          → p a ≡ true
          → any p xs ≡ true
      any-find q p [] a e h = cc
      any-find q p (x ∷ xs) a e h = elim (Bool-cases (q x)) [
        | inl t ↦
            let same : x ≡ a = some-injective _ _ (rw t at e) in
            rw (subst (λ y. p y ≡ true) (sym same) h) refl
        | inr t ↦ ground (arith, any-find q p xs a (rw t at e) h)
      ]
