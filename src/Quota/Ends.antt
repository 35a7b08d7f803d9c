-- ===== src/Quota/Ends.antt =====
-- A guarded call of eval/quota_guard.py ends.
use native.Mathlib.Nat.{add-mul, mul-le-mul_right}
use chat_doc.Quota.{
  api_call, count_calls_on_date, budget_stop, quota_exceeded, dry_run, logged, planned, call,
  rate_limited, broken, returned, unfinished, CallResult, GuardState, Attempt, GuardConfig,
  answered, attempts, refill, token, TokenBucket, acquire,
}
use chat_doc.Prelude.{
  All, Bool, Bool-cases, List, Option-cases, String, [], ap, arith, false, if◌then◌else◌, inl, inr,
  is_some, leb, length, ltb, ltb→le, refl, true, ℕ, ◌*◌, ◌+◌, ◌-◌, ◌∷◌, ◌≡◌, ◌≢◌, ◌≤◌, ◌⊎◌,
}

-- The clock gets there.
abbrev Reaches : ℕ → List ℕ → Type 0
Reaches target [] = ⊥
Reaches target (now ∷ clock) = (target ≤ now) ⊎ Reaches target clock

-- A wait that goes on, if it has to, for a minute after its first reading of the clock.
abbrev pub Patient : List ℕ → Type 0
Patient [] = ⊥
Patient (now ∷ clock) = Reaches (now + 60_000) clock

refill-enough :
    (now target : ℕ) (b : TokenBucket)
    → 1 ≤ b.rpm
    → token ≤ b.tokens + (target - b.last_refill) * b.rpm
    → token ≤ (refill now b).tokens + (target - now) * b.rpm
refill-enough now target b h e =
    let split = add-mul (now - b.last_refill) (target - now) b.rpm in
    let more = mul-le-mul_right b.rpm (
      let far : target - b.last_refill ≤ now - b.last_refill + (target - now) = omega arith in
      far) in
    let full = mul-le-mul_right token h in omega arith

-- Where no token is there at a reading, the clock has not yet got to the target.
not_yet :
    (now target : ℕ) (clock : List ℕ) (tokens rpm : ℕ)
    → leb token tokens ≡ false
    → token ≤ tokens + (target - now) * rpm
    → (target ≤ now) ⊎ Reaches target clock
    → Reaches target clock
not_yet now target clock tokens rpm t next (inl reached) =
    let gone : target - now ≡ 0 = omega arith in
    let nothing : (target - now) * rpm ≡ 0 * rpm = ap (λ n. n * rpm) gone in absurd (ground arith)
not_yet now target clock tokens rpm t next (inr m) = m

acquire-Reaches :
    (clock : List ℕ) (target : ℕ) (b : TokenBucket)
    → 1 ≤ b.rpm
    → token ≤ b.tokens + (target - b.last_refill) * b.rpm
    → Reaches target clock
    → is_some (acquire clock b).0 ≡ true
unfolding acquire
acquire-Reaches [] target b h e m = absurd m
acquire-Reaches (now ∷ clock) target b h e m =
    let next = refill-enough now target b h e in
    elim (Bool-cases (leb token (refill now b).tokens)) [
      | inl t ↦ rw t refl
      | inr t ↦ rw t (
          acquire-Reaches clock target (refill now b) h next
            (not_yet now target clock (refill now b).tokens b.rpm t next m))
    ]

-- A patient wait gets its token.
acquire-Patient :
    (clock : List ℕ) (b : TokenBucket)
    → 1 ≤ b.rpm
    → Patient clock
    → is_some (acquire clock b).0 ≡ true
unfolding acquire
acquire-Patient [] b h p = absurd p
acquire-Patient (now ∷ clock) b h p = elim (Bool-cases (leb token (refill now b).tokens)) [
  | inl t ↦ rw t refl
  | inr t ↦
      let minute = mul-le-mul_right 60_000 h in
      rw t (acquire-Reaches clock (now + 60_000) (refill now b) h (ground (arith, minute)) p)
]

pub acquire-rpm : (clock : List ℕ) (b : TokenBucket) → (acquire clock b).1.rpm ≡ b.rpm
unfolding acquire
acquire-rpm [] b = refl
acquire-rpm (now ∷ clock) b = elim (Bool-cases (leb token (refill now b).tokens)) [
  | inl t ↦ rw t refl
  | inr t ↦ rw t (acquire-rpm clock (refill now b))
]

module _ {K J : Type 0} (key_eq : K → K → Bool) where
  -- Enough answers for every attempt that is left, each after a patient wait.
  abbrev pub Served : GuardConfig → ℕ → List (List ℕ × Attempt J) → Type 0
  Served g tried answers =
      (g.max_retries + 1 ≤ tried + length answers) × All (λ a. Patient a.0) answers

  answered_ends :
      (g : GuardConfig) (question : String) (day tried : ℕ) (answer : Attempt J)
      (st : GuardState K J) (out : CallResult J × ℕ × GuardState K J)
      → ((tried + 1 ≤ g.max_retries) → out.0 ≢ unfinished)
      → (answered key_eq g question day tried answer st out).0 ≢ unfinished
  unfolding answered
  answered_ends g question day tried (returned r) st out h e = cc
  answered_ends g question day tried broken st out h e = cc
  answered_ends g question day tried rate_limited st out h e =
      elim (Bool-cases (ltb g.max_retries (tried + 1))) [
        | inl t ↦ cc (rw t at e)
        | inr t ↦ h (ltb→le _ _ t) (rw t at e)
      ]

  attempts_end :
      (g : GuardConfig) (question : String) (day tried : ℕ) (answers : List (List ℕ × Attempt J))
      (st : GuardState K J)
      → 1 ≤ st.bucket.rpm
      → tried ≤ g.max_retries
      → Served g tried answers
      → (attempts key_eq g question day tried answers st).0 ≢ unfinished
  unfolding attempts
  attempts_end g question day tried [] st h t s e = absurd (omega (arith, s.0))
  attempts_end g question day tried ((clock, answer) ∷ rest) st h t (many, (patient, others)) e =
      let st' = record st { bucket = (acquire clock st.bucket).1 } in
      let out = attempts key_eq g question day (tried + 1) rest st' in
      let keeps = acquire-rpm clock st.bucket in
      let next = λ (more : tried + 1 ≤ g.max_retries).
        attempts_end g question day (tried + 1) rest st' (omega arith) more (omega arith, others) in
      elim (Option-cases (acquire clock st.bucket).0) [
        | inl n ↦ let taken = acquire-Patient clock st.bucket h patient in cc (rw n at taken)
        | inr (now, got_one) ↦
            answered_ends g question day tried answer st' out next (rw got_one at e)
      ]

  -- A call ends, whatever the guard decides: it gives a value, raises, or was a dry run.
  pub call_ends :
      (g : GuardConfig) (question : String) (day : ℕ) (answers : List (List ℕ × Attempt J))
      (st : GuardState K J)
      → 1 ≤ st.bucket.rpm
      → Served g 0 answers
      → (call key_eq g question day answers st).0 ≢ unfinished
  unfolding call
  call_ends g question day answers st h s =
      chosen g.dry (leb g.max_calls st.calls_this_run)
        (leb g.daily_budget (count_calls_on_date key_eq day api_call st.tables))
    where
      chosen :
          (d m b : Bool)
          → (if d
              then (planned, 0, logged key_eq g question dry_run day st)
              else if m
              then (quota_exceeded, 0, logged key_eq g question budget_stop day st)
              else if b
              then (quota_exceeded, 0, logged key_eq g question budget_stop day st)
              else attempts key_eq g question day 0 answers st).0
            ≢ unfinished
      chosen true m b e = cc
      chosen false true b e = cc
      chosen false false true e = cc
      chosen false false false e = attempts_end g question day 0 answers st h (omega arith) s e
