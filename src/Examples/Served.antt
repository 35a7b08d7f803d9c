-- ===== src/Examples/Served.antt =====
-- An upload, the claim of its job, the work and the question.
use chat_doc.Csrf.{verify_csrf}
use chat_doc.Database.{Database}
use chat_doc.Examples.Filing.{
  page, page-has_text, parse_page, embed_length, embed_length-length, no_message, tables,
}
use chat_doc.Examples.Numbers.{thousandths}
use chat_doc.Jobs.{claim_job, max_queue_depth, queue_depth}
use chat_doc.Pipeline.{ChunkContent}
use chat_doc.Routes.{upload_doc}
use chat_doc.Routes.Served.{Served, upload_doc-Served}
use chat_doc.Storage.LocalStorage.{Files, local_storage}
use chat_doc.Prelude.{[], arith, codes, false, refl, some, true, ℕ, ◌<◌, ◌∷◌, ◌≡◌}

-- One document, and nothing in the queue.
abbrev idle_tables : Database (ChunkContent thousandths ℕ)
idle_tables = record tables { jobs = [] }

csrf_accepted : verify_csrf (some "t") (some "t") ≡ true
unfolding verify_csrf
csrf_accepted = refl

queue_free : queue_depth idle_tables < max_queue_depth
unfolding queue_depth
queue_free = omega arith

upload_doc-Served_example :
    let uploaded =
      upload_doc Files local_storage 300 1
        (some "t")
        (some "t")
        "user1_cd"
        "user1_cd.pdf"
        "application/pdf"
        (some "b.pdf")
        (codes "%PDF")
        (idle_tables, []) in
    Served thousandths ℕ Files local_storage parse_page embed_length no_message 310 []
      (some "t")
      (some "t")
      1
      8
      (page ∷ [])
      uploaded.1.1
      (claim_job (λ i. false) 310 uploaded.1.0)
upload_doc-Served_example =
    upload_doc-Served thousandths ℕ Files local_storage parse_page embed_length no_message
      embed_length-length 300 1 310 [] (some "t") (some "t") "user1_cd" "user1_cd.pdf"
      "application/pdf" (some "b.pdf") (codes "%PDF") (page ∷ []) (λ i. false) idle_tables []
      csrf_accepted refl queue_free (omega arith) refl (omega arith, tt) tt refl refl (omega arith)
      page-has_text
