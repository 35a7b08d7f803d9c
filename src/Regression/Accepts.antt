-- ===== src/Regression/Accepts.antt =====
-- When the gate of scripts/check_eval_regression.py lets a build pass.
use chat_doc.Floats.{Floats}
use chat_doc.Ablation.{
  has_content, is_correct, decide, is_hallucinated, ratio, matches_gold, GradedRow, l2_l3,
  load_cached, has_passed, graded, summarize_config, Generation, grade_one,
}
use chat_doc.Cache.{CacheTables}
use chat_doc.Regression.{
  accuracy, negative_splits, check_all, rate, main, check_negatives, baseline_accuracy, tolerance,
  gold_run, hallucination_rate, NegativeSplit, accuracy_overall, add_failure, Regressed,
}
use chat_doc.Dataset.{load_split, EvalRecord}
use chat_doc.Prelude.{
  All, Bool, Bool-cases, List, Option, Option-cases, Text, [], arith, false, if◌then◌else◌, inl,
  inr, is_empty, length, none, refl, select, some, some-injective, sym, true, ℕ, ◌&&◌, ◌==◌, ◌↔◌,
  ◌∙◌, ◌∷◌, ◌≡◌,
}

module _ (fl : Floats) (rerank : Text → List Text → List (fl.F)) {K : Type 0}
    (key_eq : K → K → Bool) (cache : CacheTables K (Generation fl)) where
  open fl use {F}

  -- The gate lets the answer through, and there is one.
  abbrev pub gives_answer : EvalRecord fl × Generation fl → Bool
  gives_answer p =
      has_passed fl (decide fl rerank p.1 l2_l3 (fl.literal 0 0) (fl.literal 0 0))
      && has_content fl p.1.parsed

  -- It also has the gold value.
  abbrev pub gives_gold : EvalRecord fl × Generation fl → Bool
  gives_gold p = gives_answer p && matches_gold fl p.0.gold_value p.1.parsed.value

  abbrev pub share :
      (EvalRecord fl × Generation fl → Bool) → List (EvalRecord fl × Generation fl) → F
  share p cached = ratio fl (length (select p cached)) (length cached)

  -- Enough of the cached gold questions are answered correctly.
  abbrev pub KeepsAccuracy : List (EvalRecord fl) → Type 0
  KeepsAccuracy answerable =
      let cached = load_cached fl key_eq cache gold_run answerable in
      (is_empty cached ≡ false)
      × (fl.lt (share gives_gold cached) (fl.sub (baseline_accuracy fl) (tolerance fl)) ≡ false)

  -- Few enough of the cached questions of a negative split are answered.
  abbrev pub KeepsRefusing : List (EvalRecord fl) → List (EvalRecord fl) → NegativeSplit fl → Type 0
  KeepsRefusing answerable negatives s =
      (records : List (EvalRecord fl)) × (load_split fl answerable negatives s.split ≡ some records)
      × (is_empty (load_cached fl key_eq cache s.run_id records) ≡ false)
      × (fl.lt (fl.add s.baseline_rate (tolerance fl))
            (share gives_answer (load_cached fl key_eq cache s.run_id records))
          ≡ false)

  length-graded :
      (is_gold : Bool) (cached : List (EvalRecord fl × Generation fl))
      → length (graded fl rerank l2_l3 (fl.literal 0 0) is_gold cached) ≡ length cached
  unfolding graded
  length-graded is_gold [] = refl
  length-graded is_gold (p ∷ cached) = omega (arith, length-graded is_gold cached)

  is_empty-graded :
      (is_gold : Bool) (cached : List (EvalRecord fl × Generation fl))
      → is_empty (graded fl rerank l2_l3 (fl.literal 0 0) is_gold cached) ≡ is_empty cached
  unfolding graded
  is_empty-graded is_gold [] = refl
  is_empty-graded is_gold (p ∷ cached) = refl

  select-graded :
      (is_gold : Bool) (p : GradedRow fl → Bool) (q : EvalRecord fl × Generation fl → Bool)
      → ((x : EvalRecord fl × Generation fl)
          → p (
              grade_one fl x.0 x.1
                (decide fl rerank x.1 l2_l3 (fl.literal 0 0) (fl.literal 0 0))
                is_gold)
            ≡ q x)
      → (cached : List (EvalRecord fl × Generation fl))
      → length (select p (graded fl rerank l2_l3 (fl.literal 0 0) is_gold cached))
        ≡ length (select q cached)
  unfolding graded
  select-graded is_gold p q same [] = refl
  select-graded is_gold p q same (x ∷ cached) = elim (Bool-cases (q x)) [
    | inl e ↦ rw (same x ∙ e, e) (omega (arith, select-graded is_gold p q same cached))
    | inr e ↦ rw (same x ∙ e, e) (select-graded is_gold p q same cached)
  ]

  accuracy-share :
      (cached : List (EvalRecord fl × Generation fl))
      → is_empty cached ≡ false
      → accuracy_overall fl
          (summarize_config fl (graded fl rerank l2_l3 (fl.literal 0 0) true cached) true)
        ≡ share gives_gold cached
  unfolding summarize_config grade_one
  accuracy-share [] h = cc
  accuracy-share (p ∷ cached) h =
      let some_rows : (length (p ∷ cached) == 0) ≡ false = ground arith in
      rw
        (
          select-graded true (is_correct fl) gives_gold (λ x. refl) (p ∷ cached),
          length-graded true (p ∷ cached),
          some_rows,
        )
        refl

  rate-share :
      (cached : List (EvalRecord fl × Generation fl))
      → is_empty cached ≡ false
      → hallucination_rate fl
          (summarize_config fl (graded fl rerank l2_l3 (fl.literal 0 0) false cached) false)
        ≡ share gives_answer cached
  unfolding summarize_config grade_one
  rate-share [] h = cc
  rate-share (p ∷ cached) h =
      let some_rows : (length (p ∷ cached) == 0) ≡ false = ground arith in
      rw
        (
          select-graded false (is_hallucinated fl) gives_answer (λ x. refl) (p ∷ cached),
          length-graded false (p ∷ cached),
          some_rows,
        )
        refl

  add_failure_iff :
      (failed : Bool) (f : Regressed fl) (rest : Option (List (Regressed fl)))
      → (add_failure fl failed f rest ≡ some []) ↔ ((failed ≡ false) × (rest ≡ some []))
  add_failure_iff true f none = ((λ h. cc), λ (h, _). cc)
  add_failure_iff true f (some fs) = ((λ h. cc), λ (h, _). cc)
  add_failure_iff false f rest = ((λ h. (refl, h)), λ h. h.1)

  checked_iff :
      (nothing failed : Bool) (f : Regressed fl) (rest : Option (List (Regressed fl)))
      → ((if nothing then none else add_failure fl failed f rest) ≡ some [])
        ↔ ((nothing ≡ false) × (failed ≡ false) × (rest ≡ some []))
  checked_iff true failed f rest = ((λ h. cc), λ (h, _, _). cc)
  checked_iff false failed f rest =
      let (to, back) = add_failure_iff failed f rest in
      ((λ h. (refl, (to h).0, (to h).1)), λ (_, a, b). back (a, b))

  check_negatives_iff :
      (answerable negatives : List (EvalRecord fl)) (splits : List (NegativeSplit fl))
      → (check_negatives fl rerank key_eq cache answerable negatives splits ≡ some [])
        ↔ All (KeepsRefusing answerable negatives) splits
  unfolding check_negatives
  check_negatives_iff answerable negatives [] = ((λ _. tt), λ _. refl)
  check_negatives_iff answerable negatives (s ∷ splits) =
      let (to, back) = check_negatives_iff answerable negatives splits in
      elim (Option-cases (load_split fl answerable negatives s.split)) [
        | inl n ↦ rw (n, check_negatives) ((λ h. cc), λ (h, _). let (records, e, _, _) = h in cc)
        | inr (records, e) ↦
            let cached = load_cached fl key_eq cache s.run_id records in
            let rows = graded fl rerank l2_l3 (fl.literal 0 0) false cached in
            let actual = hallucination_rate fl (summarize_config fl rows false) in
            let (ct, cb) =
              checked_iff (is_empty rows) (fl.lt (fl.add s.baseline_rate (tolerance fl)) actual)
                (rate s.split actual)
                (check_negatives fl rerank key_eq cache answerable negatives splits) in
            rw (e, check_negatives)
              (
                (λ h.
                    let (a, b, c) = ct h in
                    let full = sym (is_empty-graded false cached) ∙ a in
                    ((records, refl, full, rw (rate-share cached full) at b), to c)),
                λ (h, rest).
                    let (records', e', full, few) = h in
                    let same : records ≡ records' = some-injective _ _ e' in
                    let full' : is_empty cached ≡ false = rw (← same) at full in
                    cb (
                      is_empty-graded false cached ∙ full',
                      rw (rate-share cached full') (rw (← same) at few),
                      back rest,
                    ),
              )
      ]

  -- The gate exits with 0 exactly if the cache is a file, every split has cached generations, the
  -- share of the cached gold questions answered correctly under L2+L3 is not below the baseline less
  -- the tolerance, and for each negative split the share of questions answered is not above its
  -- baseline and the tolerance.
  pub main_iff :
      (cache_is_file : Bool) (answerable negatives : List (EvalRecord fl))
      → (main fl rerank key_eq cache cache_is_file answerable negatives ≡ 0) ↔ (
          (cache_is_file ≡ true)
          × KeepsAccuracy answerable
          × All (KeepsRefusing answerable negatives) (negative_splits fl))
  unfolding main check_all
  main_iff false answerable negatives = ((λ h. absurd (omega arith)), λ (h, _, _). cc)
  main_iff true answerable negatives =
      let cached = load_cached fl key_eq cache gold_run answerable in
      let rows = graded fl rerank l2_l3 (fl.literal 0 0) true cached in
      let actual = accuracy_overall fl (summarize_config fl rows true) in
      let rest = check_negatives fl rerank key_eq cache answerable negatives (negative_splits fl) in
      let low = fl.lt actual (fl.sub (baseline_accuracy fl) (tolerance fl)) in
      let (nt, nb) = check_negatives_iff answerable negatives (negative_splits fl) in
      let (ct, cb) = checked_iff (is_empty rows) low (accuracy actual) rest in
      let (et, eb) =
        exit_iff (if is_empty rows then none else add_failure fl low (accuracy actual) rest) in
      (
        (λ h.
            let (a, b, c) = ct (et h) in
            let full = sym (is_empty-graded true cached) ∙ a in
            (refl, (full, rw (accuracy-share cached full) at b), nt c)),
        λ (_, (full, enough), others). eb (
            cb (
              is_empty-graded true cached ∙ full,
              rw (accuracy-share cached full) enough,
              nb others,
            )),
      )
    where
      exit_iff :
          (o : Option (List (Regressed fl)))
          → (◌≡◌ {A = ℕ}
              (elim o [ none ↦ 1 | some failures ↦ if is_empty failures then 0 else 1 ])
              0)
            ↔ (o ≡ some [])
      exit_iff none = ((λ h. absurd (omega arith)), λ h. cc)
      exit_iff (some []) = ((λ h. refl), λ h. refl)
      exit_iff (some (f ∷ fs)) = ((λ h. absurd (omega arith)), λ h. cc)
