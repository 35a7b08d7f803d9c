-- ===== src/Pipeline/Written.antt =====
-- What an ingest (ingest/pipeline.py ingest_pdf) has written when it returns.
use chat_doc.Pipeline.Rows.{
  numbered, shown, rows_from, chunks_of, has_text, shown-append, numbered-append_zero,
  shown-rows_from, rows_from-owned, length-contents, insert_chunks_lem,
}
use chat_doc.Floats.{Floats}
use chat_doc.Database.{ChunkRow, Database, Stage}
use chat_doc.IngestDb.{delete_chunks_for_document}
use chat_doc.Chunker.{Chunk, Page}
use chat_doc.Chunker.Pages.{chunk_pdf, Item, empty_text_layer, on_page, yielded}
use chat_doc.Pipeline.{
  start, ingest_pages, embed_batch, with_chunk, report_embedding, take_chunk, consume, report,
  flush_batch, embed_texts, contents, ChunkContent, IngestState,
}
use chat_doc.Prelude.{
  All, All-append, Bool, Bool-cases, List, Text, [], any, ap, append-nil, append_assoc, arith, inl,
  inr, is_empty, is_empty→nil, leb, length, length-append, map, none, not, refl, select, subst, sym,
  true, ℕ, ◌++◌, ◌+◌, ◌==◌, ◌∙◌, ◌∷◌, ◌≡◌,
}

-- The progress hook only reports: it leaves the chunks and the documents' ids alone.
pub record Reports {C : Type 0} {P : Type 0}
    (hook : Stage → ℕ → ℕ → Database C × P → Database C × P) : Type 0 where
  pub keeps_chunks :
      (stage : Stage) (current total : ℕ) (w : Database C × P)
      → (hook stage current total w).0.chunks ≡ w.0.chunks
  pub keeps_ids :
      (stage : Stage) (current total : ℕ) (w : Database C × P) (id : ℕ)
      → any (λ d. d.id == id) (hook stage current total w).0.documents
        ≡ any (λ d. d.id == id) w.0.documents

module _ (fl : Floats) (V : Type 0) where
  module _ (embed : List Text → List V) (P : Type 0)
      (hook : Stage
        → ℕ
        → ℕ
        → Database (ChunkContent fl V) × P
        → Database (ChunkContent fl V) × P) where
    -- While the loop runs: the table is what was there before and the rows of the chunks written,
    -- numbered from 0.
    pub record Written (base : List (ChunkRow (ChunkContent fl V))) (document_id : ℕ)
        (st : IngestState fl V embed P hook) (done : List (Chunk fl)) : Type 0 where
      pub rows : List (ChunkRow (ChunkContent fl V))
      pub table : st.world.0.chunks ≡ base ++ rows
      pub owned : All (λ r. (r.document_id == document_id) ≡ true) rows
      pub content : shown fl V rows ≡ numbered fl V 0 done
      pub counted : st.written ≡ length done
      pub exists : any (λ d. d.id == document_id) st.world.0.documents ≡ true

    module _ (embeds : (texts : List Text) → length (embed texts) ≡ length texts)
        (reports : Reports hook) (base : List (ChunkRow (ChunkContent fl V)))
        (document_id : ℕ) where
      report-Written :
          (stage : Stage) (current total : ℕ) (st : IngestState fl V embed P hook)
          (done : List (Chunk fl))
          → Written base document_id st done
          → Written base document_id (report fl V embed P hook stage current total st) done
      report-Written stage current total st done w = record {
        rows = w.rows;
        table = reports.keeps_chunks stage current total st.world ∙ w.table;
        owned = w.owned;
        content = w.content;
        counted = w.counted;
        exists = reports.keeps_ids stage current total st.world document_id ∙ w.exists;
      }

      embed_texts-length :
          (texts : List Text) → length (embed_texts fl V embed P hook texts) ≡ length texts
      unfolding embed_texts
      embed_texts-length [] = refl
      embed_texts-length (t ∷ texts) = embeds (t ∷ texts)

      texts-length : (cs : List (Chunk fl)) → length (map (λ (c : Chunk fl). c.text) cs) ≡ length cs
      texts-length [] = refl
      texts-length (c ∷ cs) = omega (arith, texts-length cs)

      flush_batch-Written :
          (st : IngestState fl V embed P hook) (done : List (Chunk fl))
          → Written base document_id st done
          → (st' : IngestState fl V embed P hook) × (flush_batch fl V embed P hook document_id st
              ≡ (none, st'))
            × Written base document_id st' (done ++ st.batch)
            × (st'.batch ≡ [])
      unfolding flush_batch
      flush_batch-Written st done w =
          let vs = embed_texts fl V embed P hook (map (λ (c : Chunk fl). c.text) st.batch) in
          let fits : length vs ≡ length st.batch =
            embed_texts-length (map (λ (c : Chunk fl). c.text) st.batch) ∙ texts-length st.batch in
          let content = contents fl V st.batch vs in
          let new = rows_from fl V document_id st.written content in
          elim (Bool-cases (is_empty st.batch)) [
            | inl e ↦
                let nil = is_empty→nil st.batch e in
                (
                  st,
                  rw e refl,
                  subst (Written base document_id st)
                      (sym (append-nil done) ∙ ap (λ x. done ++ x) (sym nil)) w,
                  nil,
                )
            | inr e ↦ (
              record st {
                world = (record st.world.0 { chunks = st.world.0.chunks ++ new }, st.world.1);
                written = st.written + length content;
                batch = [];
              },
              rw (e, insert_chunks_lem fl V document_id content st.written st.world.0 w.exists)
                  refl,
              record {
                rows = w.rows ++ new;
                table = ap (λ x. x ++ new) w.table ∙ append_assoc base w.rows new;
                owned =
                    All-append (λ r. (r.document_id == document_id) ≡ true) w.rows new w.owned
                      (rows_from-owned fl V document_id st.written content);
                content =
                    shown-append fl V w.rows new
                    ∙ rw
                        (
                          w.content,
                          shown-rows_from fl V document_id st.written st.batch vs fits,
                          w.counted,
                        )
                        (sym (numbered-append_zero fl V done st.batch));
                counted = omega (
                  arith,
                  w.counted,
                  length-contents fl V st.batch vs fits,
                  length-append done st.batch,
                );
                exists = w.exists;
              },
              refl,
            )
          ]

      -- A chunk of the generator is now written or waits in the batch.
      take_chunk-Written :
          (c : Chunk fl) (st : IngestState fl V embed P hook) (done : List (Chunk fl))
          → Written base document_id st done
          → (st' : IngestState fl V embed P hook) × (done' : List (Chunk fl)) × (take_chunk fl V
                embed P hook document_id c st
              ≡ (none, st'))
            × Written base document_id st' done'
            × (done' ++ st'.batch ≡ done ++ st.batch ++ c ∷ [])
      unfolding take_chunk
      take_chunk-Written c st done w =
          let grown = with_chunk fl V embed P hook c st in
          let wg : Written base document_id grown done = record {
            rows = w.rows;
            table = w.table;
            owned = w.owned;
            content = w.content;
            counted = w.counted;
            exists = w.exists;
          } in
          elim (Bool-cases (leb embed_batch (length grown.batch))) [
            | inl full ↦
                let (st', e, w', nil) = flush_batch-Written grown done wg in
                (
                  report_embedding fl V embed P hook st',
                  done ++ grown.batch,
                  rw (full, e) refl,
                  report-Written Stage.embedding st'.written st'.seen st' (done ++ grown.batch) w',
                  rw nil (
                      append-nil (done ++ grown.batch) ∙ sym (append_assoc done st.batch (c ∷ []))),
                )
            | inr room ↦ (grown, done, rw room refl, wg, sym (append_assoc done st.batch (c ∷ [])))
          ]

      consume-Written :
          (items : List (Item fl)) (st : IngestState fl V embed P hook) (done : List (Chunk fl))
          → has_text fl V items ≡ true
          → Written base document_id st done
          → (st' : IngestState fl V embed P hook) × (consume fl V embed P hook document_id items st
              ≡ (none, st'))
            × Written base document_id st' (done ++ st.batch ++ chunks_of fl V items)
      unfolding consume
      consume-Written [] st done h w =
          let (st', e, w', nil) = flush_batch-Written st done w in
          let st'' = report_embedding fl V embed P hook st' in
          (
            report fl V embed P hook Stage.indexing st''.written st''.written st'',
            rw e refl,
            subst (Written base document_id _) (sym (append-nil (done ++ st.batch))) (
                report-Written Stage.indexing st''.written st''.written st'' (done ++ st.batch)
                  (report-Written Stage.embedding st'.written st'.seen st' (done ++ st.batch) w')),
          )
      consume-Written (yielded c ∷ items) st done h w =
          let (st', done', e, w', same) = take_chunk-Written c st done w in
          let (st'', e', w'') = consume-Written items st' done' h w' in
          (
            st'',
            rw e e',
            subst (Written base document_id st'')
                (ap (λ x. x ++ chunks_of fl V items) same
                  ∙ append_assoc (done ++ st.batch) (c ∷ []) (chunks_of fl V items))
                w'',
          )
      consume-Written (on_page i total so_far ∷ items) st done h w =
          consume-Written items (report fl V embed P hook Stage.chunking i total st) done h
            (report-Written Stage.chunking i total st done w)
      consume-Written (empty_text_layer ∷ items) st done h w = cc

    -- When every page of a PDF is read and some page has text, the ingest returns the document's id.
    -- The document's rows are then exactly the chunks that the chunker yields, in their order and
    -- numbered from 0 whatever the batches; its older rows are gone and no other row has changed.
    -- The embedding model is asked to give one vector for each text, and the progress hook to
    -- leave chunks and document ids alone.
    pub ingest_pages_writes :
        (embeds : (texts : List Text) → length (embed texts) ≡ length texts)
        (reports : Reports hook) (pages : List (Page fl)) (excluded : ℕ → Bool) (document_id : ℕ)
        (db : Database (ChunkContent fl V)) (p : P)
        → any (λ d. d.id == document_id) db.documents ≡ true
        → has_text fl V (chunk_pdf fl pages excluded) ≡ true
        → (after : Database (ChunkContent fl V) × P) × (rows : List (ChunkRow (ChunkContent fl V)))
          × (ingest_pages fl V embed P hook pages excluded document_id db p
              ≡ (inr document_id, after))
          × (after.0.chunks ≡ select (λ r. not (r.document_id == document_id)) db.chunks ++ rows)
          × All (λ r. (r.document_id == document_id) ≡ true) rows
          × (shown fl V rows ≡ numbered fl V 0 (chunks_of fl V (chunk_pdf fl pages excluded)))
    unfolding ingest_pages delete_chunks_for_document
    ingest_pages_writes embeds reports pages excluded document_id db p known text =
        let base =
          select (λ (r : ChunkRow (ChunkContent fl V)). not (r.document_id == document_id))
            db.chunks in
        let st = start fl V embed P hook (delete_chunks_for_document document_id db, p) in
        let clean_start : Written base document_id st [] = record {
          rows = [];
          table = sym (append-nil base);
          owned = tt;
          content = refl;
          counted = refl;
          exists = known;
        } in
        let st' = report fl V embed P hook Stage.chunking 0 (length pages) st in
        let (last, e, w) =
          consume-Written embeds reports base document_id (chunk_pdf fl pages excluded)
            (report fl V embed P hook Stage.embedding 0 0 st') [] text
            (report-Written embeds reports base document_id Stage.embedding 0 0 st' [] (
              report-Written embeds reports base document_id Stage.chunking 0 (length pages) st []
                clean_start)) in
        (last.world, w.rows, rw e refl, w.table, w.owned, w.content)
