-- ===== src/Runner/Resumed.antt =====
-- What a run of eval/runner_v2.py leaves, by induction on its records.
use text.Mathlib.Text.{◌==◌ as str_eq}
use text.Mathlib.TextEquality.{eq_iff}
use chat_doc.Runner.{waiting, crashed, stopped, stored, finished, RunEnd, Task, run_split, follow}
use chat_doc.Quota.{
  unfinished, error_raised, rate_limit_raised, quota_exceeded, planned, got, call, CallResult,
  GuardState, GuardConfig,
}
use chat_doc.Cache.{RunRow, of_question, get_run_result}
use chat_doc.Runner.Results.{
  missing-stored-lt, stored-results, missing-same, results_same, missing, results_of,
  already-is_some, Fills,
}
use chat_doc.Quota.Honest.{call-Honest, Honest}
use chat_doc.Cache.Resume.{record_generation-lookup}
use chat_doc.Prelude.{
  All, Bool, Bool-cases, In, List, Option, Option-cases, String, [], ap, arith, false, find, inl,
  inr, is_some, none, refl, some, subst, sym, true, ℕ, ◌+◌, ◌>>=◌, ◌↔◌, ◌∙◌, ◌∷◌, ◌≡◌, ◌≤◌,
}

module _ {K J : Type 0} (key_eq : K → K → Bool)
    (key_eq_iff : (a b : K) → (key_eq a b ≡ true) ↔ (a ≡ b)) where
  -- What a run leaves: the results filled in, the other runs as they were, no more values paid for
  -- than there were questions without one, and, if it finishes, a result for each question.
  pub record Resumed (g : GuardConfig) (tasks : List (Task K J)) (st : GuardState K J)
      (out : RunEnd × ℕ × GuardState K J) : Type 0 where
    pub fills :
        Fills key_eq key_eq_iff tasks
          (results_of key_eq key_eq_iff g st)
          (results_of key_eq key_eq_iff g out.2)
    pub others :
        (run question : String)
        → str_eq g.run_id run ≡ false
        → get_run_result key_eq run question out.2.tables
          ≡ get_run_result key_eq run question st.tables
    pub paid :
        (questions : List String)
        → All (λ (t : Task K J). In t.question_id questions) tasks
        → out.2.calls_this_run + missing key_eq key_eq_iff g questions out.2
          ≤ st.calls_this_run + missing key_eq key_eq_iff g questions st
    pub done :
        g.dry ≡ false
        → out.0 ≡ finished
        → All
            (λ (t : Task K J). is_some (results_of key_eq key_eq_iff g out.2 t.question_id) ≡ true)
            tasks

  -- A result that is there stays.
  Fills-keeps :
      (tasks : List (Task K J)) (old new : String → Option J) (question : String)
      → Fills key_eq key_eq_iff tasks old new
      → is_some (old question) ≡ true
      → is_some (new question) ≡ true
  Fills-keeps tasks old new question f h = elim (f question) [
    | inl same ↦ ap is_some same ∙ h
    | inr (raw, gone, here, from) ↦ ap is_some here
  ]

  -- A run that makes no difference to the results before it goes on.
  Resumed-after :
      (g : GuardConfig) (t : Task K J) (tasks : List (Task K J)) (st st' : GuardState K J)
      (out : RunEnd × ℕ × GuardState K J) (sent : ℕ)
      → st'.tables.eval_generations ≡ st.tables.eval_generations
      → st'.calls_this_run ≡ st.calls_this_run
      → (g.dry ≡ false → is_some (results_of key_eq key_eq_iff g st' t.question_id) ≡ true)
      → Resumed g tasks st' out
      → Resumed g (t ∷ tasks) st (out.0, sent, out.2)
  unfolding get_run_result
  Resumed-after g t tasks st st' out sent same calls has r = record {
    fills = λ q.
        let e = results_same key_eq key_eq_iff g st st' q same in
        elim (r.fills q) [
          | inl f ↦ inl (f ∙ e)
          | inr (raw, gone, here, from) ↦ inr (raw, sym e ∙ gone, here, inr from)
        ];
    others = λ run q n.
        r.others run q n
        ∙ ap (λ rows. find (of_question key_eq run q) rows >>= (λ (x : RunRow K J). some x.raw))
            same;
    paid = λ qs m.
        omega (arith, r.paid qs m.1, missing-same key_eq key_eq_iff g qs st st' same, calls);
    done = λ d f. (
      Fills-keeps tasks (results_of key_eq key_eq_iff g st') (results_of key_eq key_eq_iff g out.2)
          t.question_id r.fills (has d),
      r.done d f,
    );
  }

  -- A run that ends early has only logged.
  Resumed-ended :
      (g : GuardConfig) (tasks : List (Task K J)) (st st' : GuardState K J) (how : RunEnd)
      (sent : ℕ)
      → st'.tables.eval_generations ≡ st.tables.eval_generations
      → st'.calls_this_run ≡ st.calls_this_run
      → ¬ (how ≡ finished)
      → Resumed g tasks st (how, sent, st')
  unfolding get_run_result
  Resumed-ended g tasks st st' how sent same calls early = record {
    fills = λ q. inl (results_same key_eq key_eq_iff g st st' q same);
    others = λ run q n.
        ap (λ rows. find (of_question key_eq run q) rows >>= (λ (x : RunRow K J). some x.raw)) same;
    paid = λ qs m. omega (arith, missing-same key_eq key_eq_iff g qs st st' same, calls);
    done = λ d f. absurd (early f);
  }

  -- A run that gets a value stores it and goes on.
  Resumed-got :
      (g : GuardConfig) (t : Task K J) (tasks : List (Task K J)) (raw : J) (called sent : ℕ)
      (st mid : GuardState K J) (out : RunEnd × ℕ × GuardState K J)
      → results_of key_eq key_eq_iff g st t.question_id ≡ none
      → Honest key_eq g st t.answers (got raw, called, mid)
      → Resumed g tasks (stored key_eq g t raw mid) out
      → Resumed g (t ∷ tasks) st (out.0, sent, out.2)
  Resumed-got g t tasks raw called sent st mid out fresh h r = record {
    fills = λ q.
        let e = stored-results key_eq key_eq_iff g t raw mid q in
        elim (Bool-cases (str_eq t.question_id q)) [
          | inl s ↦
              let same = (eq_iff t.question_id q).0 s in
              let new : results_of key_eq key_eq_iff g (stored key_eq g t raw mid) q ≡ some raw =
                rw s at e in
              elim (r.fills q) [
                | inl f ↦ inr (
                  raw,
                  subst (λ k. results_of key_eq key_eq_iff g st k ≡ none) same fresh,
                  f ∙ new,
                  inl (same, h.from raw refl),
                )
                | inr (raw', gone, here, from) ↦
                    (let clash : some raw ≡ none = sym new ∙ gone in cc)
              ]
          | inr s ↦
              let old : results_of key_eq key_eq_iff g (stored key_eq g t raw mid) q
                  ≡ results_of key_eq key_eq_iff g st q =
                (rw s at e) ∙ results_same key_eq key_eq_iff g st mid q h.same_results in
              elim (r.fills q) [
                | inl f ↦ inl (f ∙ old)
                | inr (raw', gone, here, from) ↦ inr (raw', sym old ∙ gone, here, inr from)
              ]
        ];
    others = λ run q n.
        r.others run q n
        ∙ (record_generation-lookup key_eq key_eq_iff g.run_id t.question_id t.key raw false
              mid.tables).2
            run q (rw n refl)
        ∙ same_of_run run q;
    paid = λ qs m. omega (
      arith,
      r.paid qs m.1,
      missing-stored-lt key_eq key_eq_iff g t raw mid qs m.0
          (results_same key_eq key_eq_iff g st mid t.question_id h.same_results ∙ fresh),
      missing-same key_eq key_eq_iff g qs st mid h.same_results,
      h.counted,
    );
    done = λ d f. (
      Fills-keeps tasks (results_of key_eq key_eq_iff g (stored key_eq g t raw mid))
          (results_of key_eq key_eq_iff g out.2) t.question_id r.fills
          (rw
            (
              stored-results key_eq key_eq_iff g t raw mid t.question_id,
              (eq_iff t.question_id t.question_id).1 refl,
            )
            refl),
      r.done d f,
    );
  }
    where
      same_of_run :
          (run q : String)
          → get_run_result key_eq run q mid.tables ≡ get_run_result key_eq run q st.tables
      same_of_run run q =
          results_same key_eq key_eq_iff (record g { run_id = run }) st mid q h.same_results

  follow-Resumed :
      (g : GuardConfig) (t : Task K J) (tasks : List (Task K J)) (st : GuardState K J)
      (rest : GuardState K J → RunEnd × ℕ × GuardState K J)
      (out : CallResult J × ℕ × GuardState K J)
      → results_of key_eq key_eq_iff g st t.question_id ≡ none
      → ((st' : GuardState K J) → Resumed g tasks st' (rest st'))
      → Honest key_eq g st t.answers out
      → Resumed g (t ∷ tasks) st (follow key_eq g t rest out)
  unfolding follow
  follow-Resumed g t tasks st rest (got raw, sent, mid) fresh ih h =
      Resumed-got g t tasks raw sent (sent + (rest (stored key_eq g t raw mid)).1) st mid
        (rest (stored key_eq g t raw mid)) fresh h (ih (stored key_eq g t raw mid))
  follow-Resumed g t tasks st rest (planned, sent, mid) fresh ih h =
      Resumed-after g t tasks st mid (rest mid) (sent + (rest mid).1) h.same_results
        (omega (arith, h.counted)) (λ live. let dry : g.dry ≡ true = h.planned_dry refl in cc)
        (ih mid)
  follow-Resumed g t tasks st rest (quota_exceeded, sent, mid) fresh ih h =
      Resumed-ended g (t ∷ tasks) st mid stopped sent h.same_results (omega (arith, h.counted))
        (λ e. cc)
  follow-Resumed g t tasks st rest (rate_limit_raised, sent, mid) fresh ih h =
      Resumed-ended g (t ∷ tasks) st mid crashed sent h.same_results (omega (arith, h.counted))
        (λ e. cc)
  follow-Resumed g t tasks st rest (error_raised, sent, mid) fresh ih h =
      Resumed-ended g (t ∷ tasks) st mid crashed sent h.same_results (omega (arith, h.counted))
        (λ e. cc)
  follow-Resumed g t tasks st rest (unfinished, sent, mid) fresh ih h =
      Resumed-ended g (t ∷ tasks) st mid waiting sent h.same_results (omega (arith, h.counted))
        (λ e. cc)

  pub run_split-Resumed :
      (g : GuardConfig) (tasks : List (Task K J)) (st : GuardState K J)
      → Resumed g tasks st (run_split key_eq g tasks st)
  unfolding run_split
  run_split-Resumed g [] st = record {
    fills = λ q. inl refl;
    others = λ run q n. refl;
    paid = λ qs m. omega arith;
    done = λ d f. tt;
  }
  run_split-Resumed g (t ∷ tasks) st =
      let e = already-is_some key_eq key_eq_iff g st t.question_id in
      elim (Option-cases (results_of key_eq key_eq_iff g st t.question_id)) [
        | inl n ↦
            rw (e ∙ ap is_some n, run_split)
              (follow-Resumed g t tasks st (λ st'. run_split key_eq g tasks st')
                (call key_eq g t.question_id t.day t.answers st) n
                (λ st'. run_split-Resumed g tasks st')
                (call-Honest key_eq g t.question_id t.day t.answers st))
        | inr (raw, s) ↦
            rw (e ∙ ap is_some s, run_split)
              (Resumed-after g t tasks st st (run_split key_eq g tasks st)
                (run_split key_eq g tasks st).1 refl refl (λ d. ap is_some s)
                (run_split-Resumed g tasks st))
      ]
