-- ===== src/Runner/Resume.antt =====
-- Resumption of eval/runner_v2.py: what a run leaves, however it ends, and what the next one does.
use text.Mathlib.Text.{◌==◌ as str_eq}
use chat_doc.Runner.{finished, Task, run_split}
use chat_doc.Quota.{GuardState, GuardConfig}
use chat_doc.Runner.Results.{already-is_some, missing, Fills, results_of}
use chat_doc.Runner.Resumed.{run_split-Resumed}
use chat_doc.Cache.{get_run_result}
use chat_doc.Prelude.{
  All, All-imp, Bool, In, List, String, [], false, inl, inr, is_some, map, refl, subst, sym, true,
  ◌+◌, ◌↔◌, ◌∙◌, ◌∷◌, ◌≡◌, ◌≤◌,
}

module _ {K J : Type 0} (key_eq : K → K → Bool)
    (key_eq_iff : (a b : K) → (key_eq a b ≡ true) ↔ (a ≡ b)) where
  -- A run, however it ends, refines a map from questions to results that is only filled in: a
  -- question keeps the result that it had, or had none and now has a value that a request of one of
  -- its tasks returned, or is as it was; and the results of other runs are untouched.
  pub run_split_refines :
      (g : GuardConfig) (tasks : List (Task K J)) (st : GuardState K J)
      → let after = (run_split key_eq g tasks st).2 in
        Fills key_eq key_eq_iff tasks
          (results_of key_eq key_eq_iff g st)
          (results_of key_eq key_eq_iff g after)
        × ((run question : String)
            → str_eq g.run_id run ≡ false
            → get_run_result key_eq run question after.tables
              ≡ get_run_result key_eq run question st.tables)
  run_split_refines g tasks st =
      let r = run_split-Resumed key_eq key_eq_iff g tasks st in (r.fills, r.others)

  -- A run never pays for a question that has a result, nor twice for one: the values that it gets
  -- from the API, which the guard counts, and the questions that still lack a result are together at
  -- most the questions that lacked one before.
  pub run_split_pays_once :
      (g : GuardConfig) (tasks : List (Task K J)) (st : GuardState K J)
      → let after = (run_split key_eq g tasks st).2 in
        let questions = map (λ (t : Task K J). t.question_id) tasks in
        after.calls_this_run + missing key_eq key_eq_iff g questions after
        ≤ st.calls_this_run + missing key_eq key_eq_iff g questions st
  run_split_pays_once g tasks st =
      (run_split-Resumed key_eq key_eq_iff g tasks st).paid
        (map (λ (t : Task K J). t.question_id) tasks) (asked tasks)
    where
      asked :
          (ts : List (Task K J))
          → All (λ (t : Task K J). In t.question_id (map (λ (u : Task K J). u.question_id) ts)) ts
      asked [] = tt
      asked (t ∷ ts) = (
        inl refl,
        All-imp (λ (u : Task K J). In u.question_id (map (λ (v : Task K J). v.question_id) ts))
            (λ (u : Task K J).
              In u.question_id (t.question_id ∷ map (λ (v : Task K J). v.question_id) ts))
            (λ u m. inr m) ts (asked ts),
      )

  -- Records that all have a result are passed over.
  run_split-skips :
      (g : GuardConfig) (tasks : List (Task K J)) (st : GuardState K J)
      → All
          (λ (t : Task K J). is_some (results_of key_eq key_eq_iff g st t.question_id) ≡ true)
          tasks
      → run_split key_eq g tasks st ≡ (finished, 0, st)
  unfolding run_split
  run_split-skips g [] st h = refl
  run_split-skips g (t ∷ tasks) st h =
      rw (already-is_some key_eq key_eq_iff g st t.question_id ∙ h.0, run_split)
        (run_split-skips g tasks st h.1)

  -- A run that is not a dry run and gets to its last record leaves a result for every question; and
  -- a further run over the same questions, with any guard of the same run id, any state of the
  -- guard and any answers of the API, finishes without sending a request and changes nothing.
  pub run_split_resumes :
      (g g' : GuardConfig) (tasks tasks' : List (Task K J)) (st st' : GuardState K J)
      → g.dry ≡ false
      → (run_split key_eq g tasks st).0 ≡ finished
      → g'.run_id ≡ g.run_id
      → map (λ (t : Task K J). t.question_id) tasks' ≡ map (λ (t : Task K J). t.question_id) tasks
      → st'.tables ≡ (run_split key_eq g tasks st).2.tables
      → All
          (λ (t : Task K J).
            is_some (results_of key_eq key_eq_iff g (run_split key_eq g tasks st).2 t.question_id)
            ≡ true)
          tasks
        × (run_split key_eq g' tasks' st' ≡ (finished, 0, st'))
  run_split_resumes g g' tasks tasks' st st' live last same_run same_questions same_tables =
      let every = (run_split-Resumed key_eq key_eq_iff g tasks st).done live last in
      let P : String → Type 0 = λ q.
        is_some (get_run_result key_eq g.run_id q (run_split key_eq g tasks st).2.tables) ≡ true in
      let over : All P (map (λ (t : Task K J). t.question_id) tasks') =
        subst (All P) (sym same_questions) (All-map P tasks every) in
      (
        every,
        run_split-skips g' tasks' st' (
            All-unmap (λ q. is_some (get_run_result key_eq g'.run_id q st'.tables) ≡ true) tasks'
              (subst
                (λ run.
                  All (λ q. is_some (get_run_result key_eq run q st'.tables) ≡ true)
                    (map (λ (t : Task K J). t.question_id) tasks'))
                (sym same_run)
                (subst
                  (λ tables.
                    All (λ q. is_some (get_run_result key_eq g.run_id q tables) ≡ true)
                      (map (λ (t : Task K J). t.question_id) tasks'))
                  (sym same_tables) over))),
      )
    where
      All-map :
          (P : String → Type 0) (ts : List (Task K J))
          → All (λ (t : Task K J). P t.question_id) ts
          → All P (map (λ (t : Task K J). t.question_id) ts)
      All-map P [] h = tt
      All-map P (t ∷ ts) h = (h.0, All-map P ts h.1)

      All-unmap :
          (P : String → Type 0) (ts : List (Task K J))
          → All P (map (λ (t : Task K J). t.question_id) ts)
          → All (λ (t : Task K J). P t.question_id) ts
      All-unmap P [] h = tt
      All-unmap P (t ∷ ts) h = (h.0, All-unmap P ts h.1)
