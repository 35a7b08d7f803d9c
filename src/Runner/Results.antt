-- ===== src/Runner/Results.antt =====
-- The results of a run of eval/runner_v2.py as a map from questions, and what storing one does.
use text.Mathlib.Text.{◌==◌ as str_eq}
use text.Mathlib.TextEquality.{eq_iff}
use chat_doc.Cache.{of_question, RunRow, already_has_run_result, get_run_result}
use chat_doc.Runner.{stored, Task}
use chat_doc.Quota.{GuardState, GuardConfig}
use chat_doc.Quota.Honest.{Returned}
use chat_doc.Cache.Resume.{record_generation-lookup}
use chat_doc.Prelude.{
  Bool, Bool-cases, In, List, Option, String, [], any, ap, arith, false, find, if◌then◌else◌, inl,
  inr, is_some, length, none, not, refl, select, some, subst, sym, true, ℕ, ◌+◌, ◌>>=◌, ◌↔◌, ◌∷◌,
  ◌≡◌, ◌≤◌, ◌⊎◌,
}

module _ {K J : Type 0} (key_eq : K → K → Bool)
    (key_eq_iff : (a b : K) → (key_eq a b ≡ true) ↔ (a ≡ b)) where
  -- The results of a run, as a map from questions.
  abbrev pub results_of : GuardConfig → GuardState K J → String → Option J
  results_of g st question = get_run_result key_eq g.run_id question st.tables

  -- A task of the run asked the question and got the value.
  abbrev pub Obtained : String → J → List (Task K J) → Type 0
  Obtained question raw [] = ⊥
  Obtained question raw (t ∷ tasks) =
      ((t.question_id ≡ question) × Returned key_eq raw t.answers) ⊎ Obtained question raw tasks

  -- What is new in the second map.
  abbrev pub Fills : List (Task K J) → (String → Option J) → (String → Option J) → Type 0
  Fills tasks old new =
      (question : String)
      → (new question ≡ old question)
        ⊎ ((raw : J) × (old question ≡ none)
            × (new question ≡ some raw)
            × Obtained question raw tasks)

  pub results_same :
      (g : GuardConfig) (st st' : GuardState K J) (question : String)
      → st'.tables.eval_generations ≡ st.tables.eval_generations
      → results_of g st' question ≡ results_of g st question
  unfolding get_run_result
  results_same g st st' question e =
      ap
        (λ rows.
          find (of_question key_eq g.run_id question) rows >>= (λ (r : RunRow K J). some r.raw))
        e

  pub already-is_some :
      (g : GuardConfig) (st : GuardState K J) (question : String)
      → already_has_run_result key_eq g.run_id question st.tables
        ≡ is_some (results_of g st question)
  unfolding already_has_run_result get_run_result
  already-is_some g st question =
      any-find (of_question key_eq g.run_id question) st.tables.eval_generations
    where
      any-find :
          (p : RunRow K J → Bool) (xs : List (RunRow K J))
          → any p xs ≡ is_some (find p xs >>= (λ (r : RunRow K J). some r.raw))
      any-find p [] = refl
      any-find p (x ∷ xs) = elim (Bool-cases (p x)) [
        | inl e ↦ rw e refl
        | inr e ↦ rw e (any-find p xs)
      ]

  pub stored-results :
      (g : GuardConfig) (t : Task K J) (raw : J) (st : GuardState K J) (question : String)
      → results_of g (stored key_eq g t raw st) question
        ≡ (if str_eq t.question_id question then some raw else results_of g st question)
  stored-results g t raw st question =
      let (mine, _, others, _) =
        record_generation-lookup key_eq key_eq_iff g.run_id t.question_id t.key raw false
          st.tables in
      elim (Bool-cases (str_eq t.question_id question)) [
        | inl e ↦
            let same = (eq_iff t.question_id question).0 e in
            rw e (
              subst
                (λ q. get_run_result key_eq g.run_id q (stored key_eq g t raw st).tables ≡ some raw)
                same mine)
        | inr e ↦ rw e (others g.run_id question (rw ((eq_iff g.run_id g.run_id).1 refl, e) refl))
      ]

  -- How many of the questions have no result.
  abbrev pub missing : GuardConfig → List String → GuardState K J → ℕ
  missing g questions st = length (select (λ q. not (is_some (results_of g st q))) questions)

  pub missing-same :
      (g : GuardConfig) (questions : List String) (st st' : GuardState K J)
      → st'.tables.eval_generations ≡ st.tables.eval_generations
      → missing g questions st' ≡ missing g questions st
  unfolding get_run_result
  missing-same g questions st st' e =
      ap
        (λ rows. length (
          select
            (λ q. not (
              is_some
                (find (of_question key_eq g.run_id q) rows >>= (λ (r : RunRow K J). some r.raw))))
            questions))
        e

  -- A stored value takes its question from those that are missing.
  pub missing-stored-le :
      (g : GuardConfig) (t : Task K J) (raw : J) (st : GuardState K J) (questions : List String)
      → missing g questions (stored key_eq g t raw st) ≤ missing g questions st
  missing-stored-le g t raw st [] = omega arith
  missing-stored-le g t raw st (q ∷ questions) =
      let rest = missing-stored-le g t raw st questions in
      rw (stored-results g t raw st q) (elim (Bool-cases (str_eq t.question_id q)) [
        | inl e ↦ rw e (elim (Bool-cases (is_some (results_of g st q))) [
          | inl s ↦ rw s rest
          | inr s ↦ rw s (omega arith)
        ])
        | inr e ↦ rw e (elim (Bool-cases (is_some (results_of g st q))) [
          | inl s ↦ rw s rest
          | inr s ↦ rw s (omega arith)
        ])
      ])

  pub missing-stored-lt :
      (g : GuardConfig) (t : Task K J) (raw : J) (st : GuardState K J) (questions : List String)
      → In t.question_id questions
      → results_of g st t.question_id ≡ none
      → missing g questions (stored key_eq g t raw st) + 1 ≤ missing g questions st
  missing-stored-lt g t raw st [] m n = absurd m
  missing-stored-lt g t raw st (q ∷ questions) (inl same) n =
      let rest = missing-stored-le g t raw st questions in
      rw (stored-results g t raw st q) (
        rw
          (
            (eq_iff t.question_id q).1 (sym same),
            subst (λ k. results_of g st k ≡ none) (sym same) n,
          )
          (omega arith))
  missing-stored-lt g t raw st (q ∷ questions) (inr m) n =
      let rest = missing-stored-lt g t raw st questions m n in
      rw (stored-results g t raw st q) (elim (Bool-cases (str_eq t.question_id q)) [
        | inl e ↦ rw e (elim (Bool-cases (is_some (results_of g st q))) [
          | inl s ↦ rw s rest
          | inr s ↦ rw s (omega arith)
        ])
        | inr e ↦ rw e (elim (Bool-cases (is_some (results_of g st q))) [
          | inl s ↦ rw s rest
          | inr s ↦ rw s (omega arith)
        ])
      ])
