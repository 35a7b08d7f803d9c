-- ===== src/Runner/Replay.antt =====
-- The offline replay (eval/ablation.py on what eval/runner_v2.py has kept) against the live route
-- (api/routes_query.py).
use chat_doc.Runner.Agree.{apply_gate-Agree}
use chat_doc.Runner.Kept.{of_cited-In, dict_from-map, In-sorted_set}
use chat_doc.Floats.{Floats}
use chat_doc.Gate.{cited_ids, GateAnswer, sorted_set}
use chat_doc.Retrieval.{RetrievedChunk}
use chat_doc.Runner.{generate_for_record, of_cited}
use chat_doc.Ablation.{l1_margin, l2_l3, decide}
use chat_doc.Query.{
  top1_top2_scores, RetrievalContext, chunks, scale_by_id, text_by_id, chunk_ids, check_answer,
}
use chat_doc.Prelude.{List, Option, Text, [], dict_from, map, refl, some, sym, ◌∙◌, ◌≡◌}

module _ (fl : Floats) where
  open fl use {F}

  module _ (rerank : Text → List Text → List F) (parse : Text → Option (GateAnswer fl)) where
    -- The configuration L2+L3 of the offline replay decides about what the runner has kept of an
    -- answer exactly as the live route decides about the answer itself: the same chunks retrieved
    -- and the same answer give the same result, with the same reason, whatever the L1 threshold.
    pub decide-check_answer :
        (ctx : RetrievalContext fl) (parsed : GateAnswer fl) (l1_threshold : F)
        → decide fl rerank
            (generate_for_record fl ctx.scored parsed)
            l2_l3
            (fl.literal 0 0)
            l1_threshold
          ≡ check_answer fl rerank parse ctx parsed
    unfolding decide generate_for_record check_answer chunk_ids text_by_id scale_by_id chunks
    decide-check_answer ctx parsed l1_threshold =
        let cs = map (λ (p : RetrievedChunk fl × F). p.0) ctx.scored in
        let ids = sorted_set (cited_ids fl parsed) in
        let by_id = dict_from (map (λ (c : RetrievedChunk fl). (c.chunk_id, c)) cs) [] in
        apply_gate-Agree fl rerank parsed (map (λ (c : RetrievedChunk fl). c.chunk_id) cs)
          (of_cited fl (λ c. c.text) ids by_id) (text_by_id fl ctx)
          (of_cited fl (λ c. c.unit_scale) ids by_id) (scale_by_id fl ctx) l2_l3 (fl.literal 0 0)
          l1_threshold (fl.literal 0 0) (l1_margin fl (generate_for_record fl ctx.scored parsed))
          (some (top1_top2_scores fl ctx)) refl
          (λ i m.
            of_cited-In fl (λ c. c.text) by_id ids i (In-sorted_set i (cited_ids fl parsed) m)
            ∙ sym (dict_from-map fl (λ c. c.text) by_id cs [] [] i (λ k. refl)))
          (λ i m.
            of_cited-In fl (λ c. c.unit_scale) by_id ids i (In-sorted_set i (cited_ids fl parsed) m)
            ∙ sym (dict_from-map fl (λ c. c.unit_scale) by_id cs [] [] i (λ k. refl)))
