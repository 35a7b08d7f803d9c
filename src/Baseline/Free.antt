-- ===== src/Baseline/Free.antt =====
-- A run over prompts that the cache has is free.
use text.Mathlib.TextEquality.{eq_iff}
use text.Mathlib.Text.{◌==◌ as str_eq}
use chat_doc.Baseline.{finished, run_naive, stored_hit}
use chat_doc.Cache.{lookup, record_generation, get_run_result}
use chat_doc.Cache.Resume.{record_generation-lookup}
use chat_doc.Quota.{GuardState, GuardConfig}
use chat_doc.Runner.{RunEnd, Task}
use chat_doc.Runner.Results.{already-is_some}
use chat_doc.Prelude.{
  All, All-imp, Bool, Bool-cases, List, Option, Option-cases, String, [], ap, false, if◌then◌else◌,
  inl, inr, is_some, none, refl, some, subst, true, ℕ, ◌↔◌, ◌∙◌, ◌∷◌, ◌≡◌, ◌⊎◌,
}

module _ {K J : Type 0} (key_eq : K → K → Bool)
    (key_eq_iff : (a b : K) → (key_eq a b ≡ true) ↔ (a ≡ b)) where
  -- Every question has a result or a prompt in the cache.
  abbrev pub Known : GuardConfig → GuardState K J → Task K J → Type 0
  Known g st t =
      (is_some (get_run_result key_eq g.run_id t.question_id st.tables) ≡ true)
      ⊎ (is_some (lookup key_eq t.key st.tables) ≡ true)

  stored_hit-lookup :
      (g : GuardConfig) (t : Task K J) (raw : J) (st : GuardState K J) (key : K)
      → lookup key_eq key (stored_hit key_eq g t raw st).tables ≡ lookup key_eq key st.tables
  unfolding lookup record_generation
  stored_hit-lookup g t raw st key = refl

  stored_hit-results :
      (g : GuardConfig) (t : Task K J) (raw : J) (st : GuardState K J) (question : String)
      → get_run_result key_eq g.run_id question (stored_hit key_eq g t raw st).tables ≡ (
          if str_eq t.question_id question
          then some raw
          else get_run_result key_eq g.run_id question st.tables)
  stored_hit-results g t raw st question =
      let (mine, _, others, _) =
        record_generation-lookup key_eq key_eq_iff g.run_id t.question_id t.key raw true
          st.tables in
      elim (Bool-cases (str_eq t.question_id question)) [
        | inl e ↦ rw e (
            subst
              (λ q.
                get_run_result key_eq g.run_id q (stored_hit key_eq g t raw st).tables ≡ some raw)
              ((eq_iff t.question_id question).0 e) mine)
        | inr e ↦ rw e (others g.run_id question (rw ((eq_iff g.run_id g.run_id).1 refl, e) refl))
      ]

  stored_hit-tables :
      (g : GuardConfig) (t : Task K J) (raw : J) (st : GuardState K J)
      → let after = (stored_hit key_eq g t raw st).tables in
        (after.llm_cache ≡ st.tables.llm_cache) × (after.call_log ≡ st.tables.call_log)
  unfolding record_generation
  stored_hit-tables g t raw st = (refl, refl)

  -- A question that has a result is not one that lacks it.
  stored_hit-others :
      (g : GuardConfig) (t : Task K J) (raw : J) (st : GuardState K J) (question : String)
      → get_run_result key_eq g.run_id t.question_id st.tables ≡ none
      → is_some (get_run_result key_eq g.run_id question st.tables) ≡ true
      → get_run_result key_eq g.run_id question (stored_hit key_eq g t raw st).tables
        ≡ get_run_result key_eq g.run_id question st.tables
  stored_hit-others g t raw st question n has = elim (Bool-cases (str_eq t.question_id question)) [
    | inl e ↦
        let gone : get_run_result key_eq g.run_id question st.tables ≡ none =
          subst (λ q. get_run_result key_eq g.run_id q st.tables ≡ none)
            ((eq_iff t.question_id question).0 e) n in
        cc (rw gone at has)
    | inr e ↦ stored_hit-results g t raw st question ∙ rw e refl
  ]

  Known-stored_hit :
      (g : GuardConfig) (t : Task K J) (raw : J) (st : GuardState K J) (u : Task K J)
      → Known g st u
      → Known g (stored_hit key_eq g t raw st) u
  Known-stored_hit g t raw st u (inl has) = inl (
      ap is_some (stored_hit-results g t raw st u.question_id)
      ∙ kept (str_eq t.question_id u.question_id)
          (get_run_result key_eq g.run_id u.question_id st.tables) has)
    where
      kept :
          (b : Bool) (o : Option J) → is_some o ≡ true → is_some (if b then some raw else o) ≡ true
      kept true o h = refl
      kept false o h = h
  Known-stored_hit g t raw st u (inr found) =
      inr (ap is_some (stored_hit-lookup g t raw st u.key) ∙ found)

  -- What a free run leaves.
  record Free (g : GuardConfig) (tasks : List (Task K J)) (st : GuardState K J)
      (out : RunEnd × ℕ × GuardState K J) : Type 0 where
    ends : out.0 ≡ finished
    silent : out.1 ≡ 0
    same_cache : out.2.tables.llm_cache ≡ st.tables.llm_cache
    same_log : out.2.tables.call_log ≡ st.tables.call_log
    keeps :
        (question : String)
        → is_some (get_run_result key_eq g.run_id question st.tables) ≡ true
        → get_run_result key_eq g.run_id question out.2.tables
          ≡ get_run_result key_eq g.run_id question st.tables
    fills :
        All
          (λ (t : Task K J).
            is_some (get_run_result key_eq g.run_id t.question_id out.2.tables) ≡ true)
          tasks

  run_naive-Free :
      (g : GuardConfig) (tasks : List (Task K J)) (st : GuardState K J)
      → All (Known g st) tasks
      → Free g tasks st (run_naive key_eq g tasks st)
  unfolding run_naive
  run_naive-Free g [] st h = record {
    ends = refl;
    silent = refl;
    same_cache = refl;
    same_log = refl;
    keeps = λ q has. refl;
    fills = tt;
  }
  run_naive-Free g (t ∷ tasks) st (k, h) =
      let e = already-is_some key_eq key_eq_iff g st t.question_id in
      elim (Option-cases (get_run_result key_eq g.run_id t.question_id st.tables)) [
        | inr (raw, s) ↦
            let rest = run_naive-Free g tasks st h in
            rw (e ∙ ap is_some s, run_naive)
              (record {
                ends = rest.ends;
                silent = rest.silent;
                same_cache = rest.same_cache;
                same_log = rest.same_log;
                keeps = rest.keeps;
                fills = (ap is_some (rest.keeps t.question_id (ap is_some s) ∙ s), rest.fills);
              })
        | inl n ↦ elim (Option-cases (lookup key_eq t.key st.tables)) [
          | inl m ↦ absurd (unknown n m k)
          | inr (raw, f) ↦
              let st' = stored_hit key_eq g t raw st in
              let rest =
                run_naive-Free g tasks st'
                  (All-imp (Known g st) (Known g st') (Known-stored_hit g t raw st) tasks h) in
              let mine : get_run_result key_eq g.run_id t.question_id st'.tables ≡ some raw =
                stored_hit-results g t raw st t.question_id
                ∙ rw ((eq_iff t.question_id t.question_id).1 refl) refl in
              rw (e ∙ ap is_some n, f, run_naive)
                (record {
                  ends = rest.ends;
                  silent = rest.silent;
                  same_cache = rest.same_cache ∙ (stored_hit-tables g t raw st).0;
                  same_log = rest.same_log ∙ (stored_hit-tables g t raw st).1;
                  keeps = λ q has.
                      let same = stored_hit-others g t raw st q n has in
                      rest.keeps q (ap is_some same ∙ has) ∙ same;
                  fills =
                      (ap is_some (rest.keeps t.question_id (ap is_some mine) ∙ mine), rest.fills);
                })
        ]
      ]
    where
      unknown :
          get_run_result key_eq g.run_id t.question_id st.tables ≡ none
          → lookup key_eq t.key st.tables ≡ none
          → Known g st t
          → ⊥
      unknown n m (inl has) = cc (rw n at has)
      unknown n m (inr found) = cc (rw m at found)

  -- Where every question has a result or a prompt in the cache, the run gets to its last record
  -- without a request and without a line in the call log, leaves the cache and the results that were
  -- there as they were, and leaves a result for every question.
  pub run_naive_free :
      (g : GuardConfig) (tasks : List (Task K J)) (st : GuardState K J)
      → All (Known g st) tasks
      → let out = run_naive key_eq g tasks st in
        (out.0 ≡ finished)
        × (out.1 ≡ 0)
        × (out.2.tables.call_log ≡ st.tables.call_log)
        × (out.2.tables.llm_cache ≡ st.tables.llm_cache)
        × ((question : String)
            → is_some (get_run_result key_eq g.run_id question st.tables) ≡ true
            → get_run_result key_eq g.run_id question out.2.tables
              ≡ get_run_result key_eq g.run_id question st.tables)
        × All
            (λ (t : Task K J).
              is_some (get_run_result key_eq g.run_id t.question_id out.2.tables) ≡ true)
            tasks
  run_naive_free g tasks st h =
      let r = run_naive-Free g tasks st h in
      (r.ends, r.silent, r.same_log, r.same_cache, r.keeps, r.fills)
