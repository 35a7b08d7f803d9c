-- ===== src/Cache/Resume.antt =====
-- What a recorded generation is worth later: resumption and replay from eval/cache.py.
use text.Mathlib.Text.{◌==◌ as str_eq}
use text.Mathlib.TextEquality.{eq_iff}
use chat_doc.Cache.{of_question, CacheTables, RunRow, record_generation, lookup, get_run_result}
use chat_doc.Prelude.{
  Bool, Bool-cases, List, String, [], ap, arith, false, find, inl, inr, not, refl, select, some,
  subst, sym, true, ◌&&◌, ◌++◌, ◌>>=◌, ◌↔◌, ◌∷◌, ◌≡◌,
}

module _ {A : Type 0} where
  -- INSERT OR REPLACE, then a query of the same key.
  put-same :
      (p q : A → Bool) (row : A)
      → ((x : A) → p x ≡ true → q x ≡ true)
      → p row ≡ true
      → (xs : List A) → find p (select (λ x. not (q x)) xs ++ row ∷ []) ≡ some row
  put-same p q row imp h [] = rw h refl
  put-same p q row imp h (x ∷ xs) = elim (Bool-cases (q x)) [
    | inl e ↦ rw e (put-same p q row imp h xs)
    | inr e ↦ elim (Bool-cases (p x)) [
      | inl f ↦ cc (imp x f)
      | inr f ↦ rw (e, f) (put-same p q row imp h xs)
    ]
  ]

  -- INSERT OR REPLACE, then a query of another key.
  put-other :
      (p q : A → Bool) (row : A)
      → ((x : A) → q x ≡ true → p x ≡ false)
      → p row ≡ false
      → (xs : List A) → find p (select (λ x. not (q x)) xs ++ row ∷ []) ≡ find p xs
  put-other p q row away h [] = rw h refl
  put-other p q row away h (x ∷ xs) = elim (Bool-cases (q x)) [
    | inl e ↦ rw (e, away x e) (put-other p q row away h xs)
    | inr e ↦ elim (Bool-cases (p x)) [
      | inl f ↦ rw (e, f) refl
      | inr f ↦ rw (e, f) (put-other p q row away h xs)
    ]
  ]

str_eq_refl : (s : String) → str_eq s s ≡ true
str_eq_refl s = (eq_iff s s).1 refl

module _ {K J : Type 0} (key_eq : K → K → Bool)
    (key_eq_iff : (a b : K) → (key_eq a b ≡ true) ↔ (a ≡ b)) where
  of_question-away :
      (run question run' question' : String) (r : RunRow K J)
      → (str_eq run run' && str_eq question question') ≡ false
      → of_question key_eq run question r ≡ true
      → of_question key_eq run' question' r ≡ false
  of_question-away run question run' question' r other is =
      let a : str_eq r.run_id run ≡ true = ground arith in
      let b : str_eq r.question_id question ≡ true = ground arith in
      subst (λ x. (str_eq x run' && str_eq r.question_id question') ≡ false)
        (sym ((eq_iff r.run_id run).0 a))
        (subst (λ x. (str_eq run run' && str_eq x question') ≡ false)
          (sym ((eq_iff r.question_id question).0 b)) other)

  -- A recorded generation is found again under its run and question, and, unless it was a cache hit,
  -- under its key; the results of all other questions and runs, and the entries of all other keys,
  -- are as they were.
  pub record_generation-lookup :
      (run question : String) (key : K) (raw : J) (hit : Bool) (t : CacheTables K J)
      → let after = record_generation key_eq run question key raw hit t in
        (get_run_result key_eq run question after ≡ some raw)
        × (hit ≡ false → lookup key_eq key after ≡ some raw)
        × ((run' question' : String)
            → (str_eq run run' && str_eq question question') ≡ false
            → get_run_result key_eq run' question' after ≡ get_run_result key_eq run' question' t)
        × ((key' : K) → key_eq key key' ≡ false → lookup key_eq key' after ≡ lookup key_eq key' t)
  unfolding record_generation lookup get_run_result
  record_generation-lookup run question key raw hit t =
      let row : RunRow K J = record {
        run_id = run;
        question_id = question;
        key = key;
        raw = raw;
        hit = hit;
      } in
      let mine = of_question key_eq run question in
      let is_key : K × J → Bool = λ r. key_eq r.0 key in
      let self : key_eq key key ≡ true = (key_eq_iff key key).1 refl in
      (
        ap (λ o. o >>= (λ (r : RunRow K J). some r.raw))
            (put-same mine mine row (λ x h. h) (rw (str_eq_refl run, str_eq_refl question) refl)
              t.eval_generations),
        (λ miss. rw miss (
            ap (λ o. o >>= (λ (r : K × J). some r.1))
              (put-same is_key is_key (key, raw) (λ x h. h) self t.llm_cache))),
        (λ run' question' other.
            ap (λ o. o >>= (λ (r : RunRow K J). some r.raw))
              (put-other (of_question key_eq run' question') mine row
                (λ r is. of_question-away run question run' question' r other is) other
                t.eval_generations)),
        λ key' other. elim (Bool-cases hit) [
          | inl h ↦ rw h refl
          | inr h ↦ rw h (
              ap (λ o. o >>= (λ (r : K × J). some r.1))
                (put-other (λ r. key_eq r.0 key') is_key (key, raw)
                  (λ r is.
                    subst (λ x. key_eq x key' ≡ false) (sym ((key_eq_iff r.0 key).0 is)) other)
                  other t.llm_cache))
        ],
      )
