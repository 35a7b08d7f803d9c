-- ===== src/Quota/Rate.antt =====
-- The rate that the token bucket of eval/quota_guard.py lets through.
use native.Mathlib.Nat.{add-mul}
use chat_doc.Quota.{refill, token, TokenBucket, acquire}
use chat_doc.Prelude.{
  Bool-cases, List, Option, [], ap, arith, inl, inr, leb, none, refl, some, ℕ, ◌*◌, ◌+◌, ◌-◌, ◌∷◌,
  ◌≡◌, ◌≤◌,
}

-- The monotonic clock does not go back.
abbrev pub Rising : ℕ → List ℕ → Type 0
Rising last [] = Unit
Rising last (now ∷ clock) = (last ≤ now) × Rising now clock

abbrev taken : Option ℕ → ℕ
taken none = 0
taken (some t) = 1

refill-bound :
    (now : ℕ) (b : TokenBucket)
    → b.last_refill ≤ now
    → ((refill now b).tokens + b.last_refill * b.rpm ≤ b.tokens + now * b.rpm)
      × ((refill now b).tokens ≤ b.rpm * token)
refill-bound now b h =
    let split = add-mul (now - b.last_refill) b.last_refill b.rpm in
    let whole : (now - b.last_refill + b.last_refill) * b.rpm ≡ now * b.rpm =
      ap (λ n. n * b.rpm) (sub_add now b.last_refill h) in
    (omega arith, omega arith)
  where
    sub_add : (n m : ℕ) → m ≤ n → n - m + m ≡ n
    sub_add n m h = omega arith

-- One call of acquire: a token that it takes was there, or has flowed in since the last refill.
acquire-bound :
    (clock : List ℕ) (b : TokenBucket)
    → Rising b.last_refill clock
    → let r = acquire clock b in
      (r.1.tokens + taken r.0 * token + b.last_refill * b.rpm ≤ b.tokens + r.1.last_refill * b.rpm)
      × (r.1.rpm ≡ b.rpm)
unfolding acquire
acquire-bound [] b h = (omega arith, refl)
acquire-bound (now ∷ clock) b (later, h) =
    let (bound, cap) = refill-bound now b later in
    elim (Bool-cases (leb token (refill now b).tokens)) [
      | inl e ↦
          let enough : token ≤ (refill now b).tokens = ground arith in rw e (omega arith, refl)
      | inr e ↦ let (rest, same) = acquire-bound clock (refill now b) h in rw e (omega arith, same)
    ]

-- Several calls in a row, each with the readings of its clock: how many take a token, and the bucket
-- that they leave.
abbrev pub acquire_all : List (List ℕ) → TokenBucket → ℕ × TokenBucket
acquire_all [] b = (0, b)
acquire_all (clock ∷ rest) b =
    let (n, b') = acquire_all rest (acquire clock b).1 in (taken (acquire clock b).0 + n, b')

abbrev pub RisingAll : List (List ℕ) → TokenBucket → Type 0
RisingAll [] b = Unit
RisingAll (clock ∷ rest) b = Rising b.last_refill clock × RisingAll rest (acquire clock b).1

rate-bound :
    (clocks : List (List ℕ)) (b : TokenBucket)
    → RisingAll clocks b
    → let r = acquire_all clocks b in
      (r.1.tokens + r.0 * token + b.last_refill * b.rpm ≤ b.tokens + r.1.last_refill * b.rpm)
rate-bound [] b h = omega arith
rate-bound (clock ∷ rest) b (h, hs) =
    let (one, same) = acquire-bound clock b h in
    let more = rate-bound rest (acquire clock b).1 hs in
    let rpm₁ = ap (λ r. (acquire clock b).1.last_refill * r) same in
    let rpm₂ = ap (λ r. (acquire_all rest (acquire clock b).1).1.last_refill * r) same in
    let share =
      add-mul (taken (acquire clock b).0) (acquire_all rest (acquire clock b).1).0 token in
    omega arith

-- A bucket of `rpm` requests a minute that starts with no more than its fill lets through, over any
-- row of calls of acquire with a clock that does not go back, at most `rpm` requests at once and
-- `rpm` more for each minute that has passed. (A request is 60000 parts, and a millisecond brings
-- `rpm` parts.)
pub acquire-rate :
    (clocks : List (List ℕ)) (b : TokenBucket)
    → b.tokens ≤ b.rpm * token
    → RisingAll clocks b
    → let r = acquire_all clocks b in
      (r.0 * token + b.last_refill * b.rpm ≤ b.rpm * token + r.1.last_refill * b.rpm)
acquire-rate clocks b full h = let bound = rate-bound clocks b h in omega arith
