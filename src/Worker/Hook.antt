-- ===== src/Worker/Hook.antt =====
-- The worker's progress writer (api/worker.py _make_progress_writer) only reports.
use chat_doc.Database.{Database, DocumentRow, Stage}
use chat_doc.Pipeline.Written.{Reports}
use chat_doc.Documents.{update_document_stage}
use chat_doc.Worker.{
  progress_write_interval, stage_changed, throttled, counted, Progress, now_of, on_progress,
}
use chat_doc.Prelude.{
  Bool-cases, List, [], any, inl, inr, ltb, not, refl, update_where, ℕ, ◌&&◌, ◌-◌, ◌==◌, ◌∷◌, ◌≡◌,
}

stage_ids :
    (document_id : ℕ) (f : DocumentRow → DocumentRow)
    → ((d : DocumentRow) → (f d).id ≡ d.id)
    → (id : ℕ) (ds : List DocumentRow)
    → any (λ d. d.id == id) (update_where (λ d. d.id == document_id) f ds)
      ≡ any (λ d. d.id == id) ds
stage_ids document_id f same id [] = refl
stage_ids document_id f same id (d ∷ ds) = elim (Bool-cases (d.id == document_id)) [
  | inl e ↦ rw (e, same d, stage_ids document_id f same id ds) refl
  | inr e ↦ rw (e, stage_ids document_id f same id ds) refl
]

module _ {C : Type 0} (document_id : ℕ) where
  -- A report writes the stage or nothing.
  pub throttled-either {κ} :
      (Q : Database C → Type κ) (stage : Stage) (current total : ℕ) (db : Database C)
      (q : ℕ × Progress)
      → Q db
      → Q (update_document_stage document_id stage current total db)
      → Q (throttled document_id stage current total db q).0
  throttled-either Q stage current total db q skip write =
      elim (Bool-cases (
        not (stage_changed stage q.1.last_stage)
        && ltb (q.0 - q.1.last_write) progress_write_interval)) [
          | inl e ↦ rw e skip
          | inr e ↦ rw e write
        ]

  -- The progress writer of the worker leaves chunks and document ids alone, whether it writes a
  -- stage or is throttled.
  pub on_progress-Reports : Reports {C = C} (on_progress document_id)
  unfolding on_progress update_document_stage
  on_progress-Reports = record {
    keeps_chunks = λ stage current total w.
        throttled-either (λ db. db.chunks ≡ w.0.chunks) stage current total w.0
          (now_of (counted stage total w.1)) refl refl;
    keeps_ids = λ stage current total w id.
        throttled-either
          (λ db. any (λ d. d.id == id) db.documents ≡ any (λ d. d.id == id) w.0.documents) stage
          current total w.0 (now_of (counted stage total w.1)) refl
          (stage_ids document_id _ (λ d. refl) id w.0.documents);
  }
