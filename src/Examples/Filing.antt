-- ===== src/Examples/Filing.antt =====
-- A filing of one page through the chunker, the pipeline and the worker.
use chat_doc.Chunker.{
  nearest_header, block_text, prose_paragraphs, extract_headers, split_prose, blank, Block, Box,
  Page,
}
use chat_doc.Chunker.Pages.{
  prose_chunk, flush, shown_tables, page_chunks, walk_pages, groups, chunk_pdf, Group,
}
use chat_doc.Database.{Database, DocumentRow, DocumentStatus, JobRow, JobStatus, Stage}
use chat_doc.Examples.Numbers.{thousandths}
use chat_doc.Jobs.{ClaimedJob, fresh_job}
use chat_doc.Pipeline.{ChunkContent}
use chat_doc.Storage.LocalStorage.{open_local, Files, local_storage}
use chat_doc.Worker.{process_job, JobError, World}
use chat_doc.Worker.Success.{process_job-succeeds, Succeeded}
use chat_doc.Storage.Streams.{stream_whole, chunk_size, concat, stream}
use chat_doc.Chunker.Windows.{split_prose_covers}
use chat_doc.Chunker.Groups.{groups_lem, GroupWf, paragraphs_of}
use chat_doc.Worker.Outcomes.{process_job-settles, Settled}
use chat_doc.Documents.{document_exists}
use chat_doc.Pipeline.Rows.{has_text}
use chat_doc.Chunker.Scale.{currency_at, currency_search, scale_search, detect_scale}
use chat_doc.Prelude.{
  All, List, Option, Overlapping, Text, [], arith, codes, false, inl, length, lstrip_of, map, none,
  not, refl, rejoin, rstrip_of, select, some, strip, suc, true, zero, ℕ, ◌∷◌, ◌≡◌, ◌≤◌,
}

abbrev place : Box thousandths
place = record { x0 = 0; y0 = 1000; x1 = 2000; y1 = 3000 }

abbrev paragraph : Block thousandths
paragraph = record {
  type = 0;
  bbox = place;
  lines = (record { text = codes "Revenue rose"; flags = 0; bbox = place } ∷ []) ∷ [];
}

abbrev pub page : Page thousandths
page = record { text = codes "Revenue rose"; blocks = paragraph ∷ []; tables = none }

abbrev pub parse_page : Text → Option (List (Page thousandths))
parse_page t = some (page ∷ [])

abbrev pub embed_length : List Text → List ℕ
embed_length = map length

pub embed_length-length : (texts : List Text) → length (embed_length texts) ≡ length texts
embed_length-length [] = refl
embed_length-length (t ∷ texts) = omega (arith, embed_length-length texts)

abbrev pub no_message : JobError → Text
no_message e = codes "failed"

abbrev filing : DocumentRow
filing = record {
  id = 7;
  user_id = some 1;
  doc_name = "user1_ab";
  display_name = some "report.pdf";
  source_path = "user1_ab.pdf";
  page_count = 0;
  status = DocumentStatus.processing;
  error = none;
  stage = some Stage.queued;
  stage_current = 0;
  stage_total = 0;
  chunk_count = 0;
  created_at = 100;
}

abbrev running : JobRow
running = record (fresh_job 4 100 7 "user1_ab" "user1_ab.pdf") {
  status = JobStatus.processing;
  attempts = 3;
  visible_at = 700;
}

abbrev pub tables : Database (ChunkContent thousandths ℕ)
tables = record {
  users = [];
  sessions = [];
  documents = filing ∷ [];
  jobs = running ∷ [];
  chunks = [];
  next_user_id = 2;
  next_document_id = 8;
  next_job_id = 5;
}

abbrev job : ClaimedJob
job = record {
  id = 4;
  document_id = 7;
  doc_key = "user1_ab";
  pdf_path = "user1_ab.pdf";
  attempts = 3;
}

abbrev FilingWorld : Type 0
FilingWorld = World thousandths ℕ Files local_storage parse_page embed_length no_message

abbrev stored_file : FilingWorld
stored_file = record { db = tables; blobs = ("user1_ab.pdf", codes "%PDF") ∷ [] }

abbrev lost : FilingWorld
lost = record { db = tables; blobs = [] }

filing-known : document_exists 7 tables ≡ true
unfolding document_exists
filing-known = refl

stored_file-found : local_storage.open_local "user1_ab.pdf" stored_file.blobs ≡ some (codes "%PDF")
unfolding open_local
stored_file-found = refl

pub page-has_text : has_text thousandths ℕ (chunk_pdf thousandths (page ∷ []) (λ i. false)) ≡ true
unfolding chunk_pdf walk_pages page_chunks extract_headers shown_tables prose_paragraphs block_text
    strip groups flush prose_chunk split_prose nearest_header
page-has_text = refl

abbrev letters : ℕ → Text
letters zero = []
letters (suc n) = b'a' ∷ letters n

letters-visible : blank (letters 1700) ≡ false
unfolding strip rstrip_of lstrip_of
letters-visible = refl

split_prose_covers_example :
    (ws : List Text) × (rejoin 1400 ws ≡ letters 1700)
    × Overlapping 1600 200 ws
    × All (λ w. length w ≤ 1600) ws
    × (split_prose (letters 1700) ≡ select (λ w. not (blank w)) ws)
split_prose_covers_example = split_prose_covers (letters 1700) letters-visible

abbrev empty_group : Group thousandths
empty_group = record { header = none; paragraphs = [] }

groups_lem_example :
    (paragraphs_of thousandths (
        groups thousandths
          ((500, codes "Risk") ∷ [])
          empty_group
          ((codes "a", place) ∷ (codes "b", place) ∷ []))
      ≡ (codes "a", place) ∷ (codes "b", place) ∷ [])
    × All (GroupWf thousandths ((500, codes "Risk") ∷ [])) (
        groups thousandths
          ((500, codes "Risk") ∷ [])
          empty_group
          ((codes "a", place) ∷ (codes "b", place) ∷ []))
groups_lem_example =
    groups_lem thousandths ((500, codes "Risk") ∷ []) ((codes "a", place) ∷ (codes "b", place) ∷ [])
      empty_group (tt, inl (omega arith))

process_job-succeeds_example :
    Succeeded thousandths ℕ Files local_storage parse_page embed_length no_message
      (page ∷ [])
      job
      tables
      (process_job thousandths ℕ Files local_storage parse_page embed_length no_message 200 [] job
        stored_file).db
process_job-succeeds_example =
    process_job-succeeds thousandths ℕ Files local_storage parse_page embed_length no_message
      embed_length-length 200 [] job stored_file (codes "%PDF") (page ∷ []) filing-known refl
      stored_file-found refl (omega arith) page-has_text

process_job-settles_example :
    Settled 4
      (process_job thousandths ℕ Files local_storage parse_page embed_length no_message 200 [] job
        lost).db.jobs
process_job-settles_example =
    process_job-settles thousandths ℕ Files local_storage parse_page embed_length no_message 200 []
      job lost filing-known

stream_whole_example :
    (parts : List Text) × (stream (some (codes "%PDF")) ≡ some parts)
    × (concat parts ≡ codes "%PDF")
    × All (λ t. (1 ≤ length t) × (length t ≤ chunk_size)) parts
stream_whole_example = stream_whole (codes "%PDF")

-- The dollar sign is no word character, so that the boundary behind it asks for one.
bare_dollars : (detect_scale (codes "in millions of US$ (unaudited)")).currency ≡ none
unfolding detect_scale scale_search currency_search currency_at
bare_dollars = refl
