-- ===== src/Worker/Owners.antt =====
-- The ids and owners of the documents, which the statements of an ingest (api/documents_repo.py,
-- ingest/db.py) leave as they are.
use chat_doc.Database.{Database, DocumentRow, Stage}
use chat_doc.Documents.{owned_by, update_document_stage}
use chat_doc.IngestDb.{insert_chunks, named, renewed, upsert_document}
use chat_doc.Worker.{on_progress, Progress, now_of, counted}
use chat_doc.Worker.Hook.{throttled-either}
use chat_doc.Worker.Success.{id_of, id_of-find}
use chat_doc.Prelude.{
  Bool, Bool-cases, List, Option, Option-cases, String, [], any, ap, false, find, inl, inr, map,
  none, refl, some, sym, update_where, ℕ, ◌&&◌, ◌+◌, ◌==◌, ◌∙◌, ◌∷◌, ◌≡◌,
}

abbrev pub owners : List DocumentRow → List (ℕ × Option ℕ)
owners = map (λ (d : DocumentRow). (d.id, d.user_id))

pub owners-update_where :
    (p : DocumentRow → Bool) (f : DocumentRow → DocumentRow)
    → ((d : DocumentRow) → ((f d).id ≡ d.id) × ((f d).user_id ≡ d.user_id))
    → (ds : List DocumentRow) → owners (update_where p f ds) ≡ owners ds
owners-update_where p f same [] = refl
owners-update_where p f same (d ∷ ds) = elim (Bool-cases (p d)) [
  | inl e ↦ rw (e, (same d).0, (same d).1, owners-update_where p f same ds) refl
  | inr e ↦ rw (e, owners-update_where p f same ds) refl
]

-- Whether a document of an id belongs to a user is read off the owners.
abbrev is_of : ℕ → ℕ → ℕ × Option ℕ → Bool
is_of user_id document_id (id, owner) =
    id == document_id && elim owner [ none ↦ false | some u ↦ u == user_id ]

any-owners :
    (user_id document_id : ℕ) (ds : List DocumentRow)
    → any (is_of user_id document_id) (owners ds)
      ≡ any (λ d. d.id == document_id && owned_by user_id d) ds
any-owners user_id document_id [] = refl
any-owners user_id document_id (d ∷ ds) = rw (any-owners user_id document_id ds) refl

-- Of two tables with the same owners, both or neither have the user's document.
pub owned_in_both :
    (user_id document_id : ℕ) (ds es : List DocumentRow)
    → owners ds ≡ owners es
    → any (λ d. d.id == document_id && owned_by user_id d) ds
      ≡ any (λ d. d.id == document_id && owned_by user_id d) es
owned_in_both user_id document_id ds es same =
    sym (any-owners user_id document_id ds)
    ∙ ap (any (is_of user_id document_id)) same
    ∙ any-owners user_id document_id es

module _ {C : Type 0} where
  pub insert_chunks-documents :
      (document_id : ℕ) (rows : List C) (i : ℕ) (db : Database C)
      → (insert_chunks document_id rows i db).1.documents ≡ db.documents
  unfolding insert_chunks
  insert_chunks-documents document_id [] i db = refl
  insert_chunks-documents document_id (r ∷ rows) i db =
      elim (Bool-cases (any (λ d. d.id == document_id) db.documents)) [
        | inl e ↦ rw e (insert_chunks-documents document_id rows (i + 1) _)
        | inr e ↦ rw e refl
      ]

  pub on_progress-owners :
      (document_id : ℕ) (stage : Stage) (current total : ℕ) (w : Database C × Progress)
      → owners (on_progress document_id stage current total w).0.documents ≡ owners w.0.documents
  unfolding on_progress update_document_stage
  on_progress-owners document_id stage current total w =
      throttled-either document_id (λ db. owners db.documents ≡ owners w.0.documents) stage current
        total w.0 (now_of (counted stage total w.1)) refl
        (owners-update_where (λ d. d.id == document_id) _ (λ d. (refl, refl)) w.0.documents)

  pub upsert_document-owners :
      (now : ℕ) (doc_name source_path : String) (n id : ℕ) (db : Database C)
      → id_of doc_name db.documents ≡ some id
      → owners (upsert_document now doc_name source_path n db).1.documents ≡ owners db.documents
  unfolding upsert_document
  upsert_document-owners now doc_name source_path n id db h =
      let both = id_of-find doc_name db.documents ∙ h in
      elim (Option-cases (find (named doc_name) db.documents)) [
        | inl e ↦ cc (rw e at both)
        | inr (d, e) ↦
            rw (e, upsert_document)
              (owners-update_where (named doc_name) (renewed source_path n) (λ x. (refl, refl))
                db.documents)
      ]
