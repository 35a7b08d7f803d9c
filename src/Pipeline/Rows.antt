-- ===== src/Pipeline/Rows.antt =====
-- The rows of chunks that an ingest (ingest/pipeline.py ingest_pdf, ingest/db.py insert_chunks)
-- writes.
use chat_doc.Floats.{Floats}
use chat_doc.Database.{ChunkRow, Database}
use chat_doc.IngestDb.{insert_chunks}
use chat_doc.Chunker.{Chunk}
use chat_doc.Chunker.Pages.{Item, empty_text_layer, yielded}
use chat_doc.Pipeline.{contents, insert_chunks, ChunkContent}
use chat_doc.Prelude.{
  ==_iff, All, Bool, List, [], any, ap, append-nil, append_assoc, arith, false, length, none, refl,
  suc, true, ℕ, ◌++◌, ◌+◌, ◌==◌, ◌∙◌, ◌∷◌, ◌≡◌,
}

module _ (fl : Floats) (V : Type 0) where
  -- enumerate
  abbrev pub numbered : ℕ → List (Chunk fl) → List (ℕ × Chunk fl)
  numbered i [] = []
  numbered i (c ∷ cs) = (i, c) ∷ numbered (i + 1) cs

  -- The index and the chunk of each row.
  abbrev pub shown : List (ChunkRow (ChunkContent fl V)) → List (ℕ × Chunk fl)
  shown [] = []
  shown (r ∷ rows) = (r.chunk_index, r.content.chunk) ∷ shown rows

  abbrev pub rows_from : ℕ → ℕ → List (ChunkContent fl V) → List (ChunkRow (ChunkContent fl V))
  rows_from document_id i [] = []
  rows_from document_id i (r ∷ rows) =
      record { document_id = document_id; chunk_index = i; content = r }
      ∷ rows_from document_id (i + 1) rows

  -- The chunks that the generator yields.
  abbrev pub chunks_of : List (Item fl) → List (Chunk fl)
  chunks_of [] = []
  chunks_of (yielded c ∷ items) = c ∷ chunks_of items
  chunks_of (item ∷ items) = chunks_of items

  -- Whether the generator ends without an EmptyTextLayerError.
  abbrev pub has_text : List (Item fl) → Bool
  has_text [] = true
  has_text (empty_text_layer ∷ items) = false
  has_text (item ∷ items) = has_text items

  pub shown-append :
      (xs ys : List (ChunkRow (ChunkContent fl V))) → shown (xs ++ ys) ≡ shown xs ++ shown ys
  shown-append [] ys = refl
  shown-append (x ∷ xs) ys = rw (shown-append xs ys) refl

  pub numbered-append :
      (i : ℕ) (xs ys : List (Chunk fl))
      → numbered i (xs ++ ys) ≡ numbered i xs ++ numbered (i + length xs) ys
  numbered-append i [] ys = rw (plus_zero i) refl
    where
      plus_zero : (n : ℕ) → n + 0 ≡ n
      plus_zero n = omega arith
  numbered-append i (x ∷ xs) ys = rw (numbered-append (i + 1) xs ys, shift i (length xs)) refl
    where
      shift : (n m : ℕ) → n + 1 + m ≡ n + suc m
      shift n m = omega arith

  pub numbered-append_zero :
      (xs ys : List (Chunk fl)) → numbered 0 (xs ++ ys) ≡ numbered 0 xs ++ numbered (length xs) ys
  numbered-append_zero xs ys =
      numbered-append 0 xs ys ∙ ap (λ n. numbered 0 xs ++ numbered n ys) (plus (length xs))
    where
      plus : (n : ℕ) → 0 + n ≡ n
      plus n = omega arith

  pub shown-rows_from :
      (document_id i : ℕ) (cs : List (Chunk fl)) (vs : List V)
      → length vs ≡ length cs
      → shown (rows_from document_id i (contents fl V cs vs)) ≡ numbered i cs
  shown-rows_from document_id i [] vs h = refl
  shown-rows_from document_id i (c ∷ cs) [] h = absurd (omega arith)
  shown-rows_from document_id i (c ∷ cs) (v ∷ vs) h =
      ap (λ rest. (i, c) ∷ rest) (shown-rows_from document_id (i + 1) cs vs (omega arith))

  pub rows_from-owned :
      (document_id i : ℕ) (rows : List (ChunkContent fl V))
      → All (λ r. (r.document_id == document_id) ≡ true) (rows_from document_id i rows)
  rows_from-owned document_id i [] = tt
  rows_from-owned document_id i (r ∷ rows) =
      ((==_iff document_id document_id).1 refl, rows_from-owned document_id (i + 1) rows)

  pub length-contents :
      (cs : List (Chunk fl)) (vs : List V)
      → length vs ≡ length cs
      → length (contents fl V cs vs) ≡ length cs
  length-contents [] vs h = refl
  length-contents (c ∷ cs) [] h = h
  length-contents (c ∷ cs) (v ∷ vs) h = omega (arith, length-contents cs vs)

  pub insert_chunks_lem :
      (document_id : ℕ) (rows : List (ChunkContent fl V)) (i : ℕ)
      (db : Database (ChunkContent fl V))
      → any (λ d. d.id == document_id) db.documents ≡ true
      → insert_chunks document_id rows i db
        ≡ (none, record db { chunks = db.chunks ++ rows_from document_id i rows })
  unfolding insert_chunks
  insert_chunks_lem document_id [] i db h = rw (append-nil db.chunks) refl
  insert_chunks_lem document_id (r ∷ rows) i db h =
      let row : ChunkRow (ChunkContent fl V) = record {
        document_id = document_id;
        chunk_index = i;
        content = r;
      } in
      rw h (
        insert_chunks_lem document_id rows (i + 1) (record db { chunks = db.chunks ++ row ∷ [] }) h
        ∙ ap (λ cs. (none, record db { chunks = cs }))
            (append_assoc db.chunks (row ∷ []) (rows_from document_id (i + 1) rows)))
