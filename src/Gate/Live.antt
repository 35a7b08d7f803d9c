-- ===== src/Gate/Live.antt =====
-- The gate as the live route runs it (api/routes_query.py LIVE_GATE_LAYERS) and as the ablation
-- varies it: what an answer has to be to pass, and how the layers compare.
use chat_doc.Floats.{Floats}
use chat_doc.Gate.{
  cited_texts, check_l3b_prose, text_of, check_l2, check_l1, refused, layer, passed,
  check_l3a_numeric, and_then, GateAnswer, GateResult, apply_gate, Layers,
}
use chat_doc.Gate.Grounded.{
  check_l3b_prose_iff, check_numbers_iff, ProseSupported, check_l2_iff, NumbersGrounded,
  CitesRetrieved,
}
use chat_doc.Prelude.{Bool, Dict, List, Option, Text, false, refl, subst, true, ℕ, ◌↔◌, ◌≡◌}

-- frozenset({"L2", "L3"})
abbrev pub live_gate_layers : Layers
live_gate_layers = record { l1 = false; l2 = true; l3 = true }

module _ (fl : Floats) (rerank : Text → List Text → List (fl.F)) where
  open fl use {F}

  -- What the live gate asks of an answer.
  abbrev pub Grounded : GateAnswer fl → List ℕ → Dict Text → Dict (Option Text) → F → Type 0
  Grounded answer retrieved texts scales threshold =
      (answer.sufficient ≡ true)
      × CitesRetrieved fl answer retrieved
      × NumbersGrounded fl answer.operands answer.value answer.scale answer.citations texts scales
      × ProseSupported fl rerank threshold (text_of answer.answer_text)
          (cited_texts fl answer.citations texts)

  pub and_then_iff :
      (a b : GateResult fl) → (and_then fl a b ≡ passed) ↔ ((a ≡ passed) × (b ≡ passed))
  and_then_iff passed b = ((λ h. (refl, h)), λ (_, h). h)
  and_then_iff (refused r) b = ((λ h. cc), λ (h, _). cc)

  -- Under the live layers an answer passes the gate exactly if the model calls it sufficient, every
  -- id that it cites was retrieved, its numbers stand in the texts of the chunks cited for them,
  -- and its prose, if it has any, is supported by a cited text; L1 has no say.
  pub live_gate_iff :
      (answer : GateAnswer fl) (retrieved : List ℕ) (texts : Dict Text)
      (scales : Dict (Option Text)) (threshold l1_threshold : F) (l1_margin : Option (F × Option F))
      → (apply_gate fl rerank answer retrieved texts scales live_gate_layers threshold l1_margin
            l1_threshold
          ≡ passed)
        ↔ Grounded answer retrieved texts scales threshold
  unfolding apply_gate check_l3a_numeric
  live_gate_iff answer retrieved texts scales threshold l1_threshold l1_margin =
      let (l2→, →l2) = check_l2_iff fl answer retrieved in
      let (n→, →n) =
        check_numbers_iff fl answer.operands answer.value answer.scale answer.citations texts
          scales in
      let (p→, →p) = check_l3b_prose_iff fl rerank answer texts threshold in
      let (a→, →a) = and_then_iff (check_l2 fl answer retrieved) (
        and_then fl (check_l3a_numeric fl answer texts scales)
          (check_l3b_prose fl rerank answer texts threshold)) in
      let (b→, →b) =
        and_then_iff (check_l3a_numeric fl answer texts scales)
          (check_l3b_prose fl rerank answer texts threshold) in
      (
        (λ h. let (c, d) = a→ h in let (e, f) = b→ d in ((l2→ c).0, (l2→ c).1, n→ e, p→ f)),
        λ (s, c, n, p). →a (→l2 (s, c), →b (→n n, →p p)),
      )

  -- More layers.
  abbrev pub Within : Layers → Layers → Type 0
  Within a b =
      (a.l1 ≡ true → b.l1 ≡ true) × (a.l2 ≡ true → b.l2 ≡ true) × (a.l3 ≡ true → b.l3 ≡ true)

  layer_within :
      (a b : Bool) (result : GateResult fl)
      → (a ≡ true → b ≡ true)
      → layer fl b result ≡ passed
      → layer fl a result ≡ passed
  layer_within false b result imp h = refl
  layer_within true b result imp h = subst (λ c. layer fl c result ≡ passed) (imp refl) h

  -- An answer that passes under a set of layers passes under every smaller set.
  pub apply_gate_monotone :
      (answer : GateAnswer fl) (retrieved : List ℕ) (texts : Dict Text)
      (scales : Dict (Option Text)) (threshold l1_threshold : F) (l1_margin : Option (F × Option F))
      (fewer more : Layers)
      → Within fewer more
      → apply_gate fl rerank answer retrieved texts scales more threshold l1_margin l1_threshold
        ≡ passed
      → apply_gate fl rerank answer retrieved texts scales fewer threshold l1_margin l1_threshold
        ≡ passed
  unfolding apply_gate
  apply_gate_monotone answer retrieved texts scales threshold l1_threshold l1_margin fewer more
        (w1, w2, w3) h =
      let r1 = check_l1 fl l1_margin l1_threshold in
      let r2 = check_l2 fl answer retrieved in
      let ra = check_l3a_numeric fl answer texts scales in
      let rb = check_l3b_prose fl rerank answer texts threshold in
      let (h1, t1) =
        (and_then_iff (layer fl more.l1 r1) (
            and_then fl (layer fl more.l2 r2)
              (and_then fl (layer fl more.l3 ra) (layer fl more.l3 rb)))).0
          h in
      let (h2, t2) =
        (and_then_iff (layer fl more.l2 r2)
            (and_then fl (layer fl more.l3 ra) (layer fl more.l3 rb))).0
          t1 in
      let (ha, hb) = (and_then_iff (layer fl more.l3 ra) (layer fl more.l3 rb)).0 t2 in
      (and_then_iff (layer fl fewer.l1 r1) (
          and_then fl (layer fl fewer.l2 r2)
            (and_then fl (layer fl fewer.l3 ra) (layer fl fewer.l3 rb)))).1
        (
          layer_within fewer.l1 more.l1 r1 w1 h1,
          (and_then_iff (layer fl fewer.l2 r2)
                (and_then fl (layer fl fewer.l3 ra) (layer fl fewer.l3 rb))).1
              (
                layer_within fewer.l2 more.l2 r2 w2 h2,
                (and_then_iff (layer fl fewer.l3 ra) (layer fl fewer.l3 rb)).1 (
                  layer_within fewer.l3 more.l3 ra w3 ha,
                  layer_within fewer.l3 more.l3 rb w3 hb,
                ),
              ),
        )
