-- ===== src/Prelude/Windows.antt =====
-- Overlapping windows of a list: `for start in range(0, len(xs), step)` with `xs[start:start+size]`,
-- left when a window has reached the end.
use Prim.Native.Nat.{ℕ, zero, suc, ◌+◌, ◌-◌, ◌≤◌}
use mathlib.Core.Path.{◌≡◌, refl, ap, sym, ◌∙◌}
use mathlib.Core.Logic.{inl, inr}
use mathlib.Core.Bool.{false}
use mathlib.Core.List.{List, [], ◌∷◌, ◌++◌}
use native.Mathlib.Omega.{arith}
use chat_doc.Prelude.Tests.{leb, if◌then◌else◌, Bool-cases}
use chat_doc.Prelude.Lists.{
  length, take, drop, is_empty, All, All-take, All-drop, length-drop, length-take, take-append-drop,
}

module _ {ℓ} {A : Type ℓ} where
  pub take-all : (n : ℕ) (xs : List A) → length xs ≤ n → take n xs ≡ xs
  take-all zero [] h = refl
  take-all zero (x ∷ xs) h = absurd (omega arith)
  take-all (suc n) [] h = refl
  take-all (suc n) (x ∷ xs) h = rw (take-all n xs (omega arith))

  take-take : (m n : ℕ) (xs : List A) → m ≤ n → take m (take n xs) ≡ take m xs
  take-take zero n xs h = refl
  take-take (suc m) zero xs h = absurd (omega arith)
  take-take (suc m) (suc n) [] h = refl
  take-take (suc m) (suc n) (x ∷ xs) h = rw (take-take m n xs (omega arith))

module _ {ℓ} {A : Type ℓ} (step : ℕ) where
  -- The list of overlapping windows: each but the last gives what lies before the next one.
  abbrev pub rejoin : List (List A) → List A
  rejoin [] = []
  rejoin (w ∷ []) = w
  rejoin (w ∷ v ∷ ws) = take step w ++ rejoin (v ∷ ws)

  rejoin-cons :
      (w : List A) (ws : List (List A))
      → is_empty ws ≡ false
      → rejoin (w ∷ ws) ≡ take step w ++ rejoin ws
  rejoin-cons w [] h = cc
  rejoin-cons w (v ∷ ws) h = refl

-- Each window but the last has `size` elements, and its last `overlap` ones are the first of the
-- next window.
abbrev pub Overlapping {ℓ} : {A : Type ℓ} → ℕ → ℕ → List (List A) → Type ℓ
Overlapping size overlap [] = Unit
Overlapping size overlap (w ∷ []) = Unit
Overlapping size overlap (w ∷ v ∷ ws) =
    (length w ≡ size)
    × (drop (size - overlap) w ≡ take overlap v)
    × Overlapping size overlap (v ∷ ws)

module _ {ℓ} {A : Type ℓ} (size step : ℕ) where
  -- The loop over what is left of the list, on fuel: its length is enough.
  unfoldable pub windows : ℕ → List A → List (List A)
  windows zero rest = []
  windows (suc fuel) [] = []
  windows (suc fuel) (x ∷ rest) =
      let more = windows fuel (drop step (x ∷ rest)) in
      take size (x ∷ rest) ∷ (if leb (length (x ∷ rest)) size then [] else more)

  windows_nonempty :
      (fuel : ℕ) (xs : List A) → 1 ≤ fuel → 1 ≤ length xs → is_empty (windows fuel xs) ≡ false
  unfolding windows
  windows_nonempty zero xs hf hx = absurd (omega arith)
  windows_nonempty (suc fuel) [] hf hx = absurd (omega arith)
  windows_nonempty (suc fuel) (x ∷ xs) hf hx = refl

  -- Enough fuel: the windows cover the whole list.
  pub rejoin-windows :
      1 ≤ step
      → step ≤ size
      → (fuel : ℕ) (xs : List A) → length xs ≤ fuel
      → rejoin step (windows fuel xs) ≡ xs
  unfolding windows
  rejoin-windows some_step inside zero [] h = refl
  rejoin-windows some_step inside zero (x ∷ xs) h = absurd (omega arith)
  rejoin-windows some_step inside (suc fuel) [] h = refl
  rejoin-windows some_step inside (suc fuel) (x ∷ xs) h =
      elim (Bool-cases (leb (length (x ∷ xs)) size)) [
        | inl short ↦ rw short (take-all size (x ∷ xs) (ground arith))
        | inr long ↦
            let left = length-drop step (x ∷ xs) in
            let many : size + 1 ≤ length (x ∷ xs) = ground arith in
            rw long (
              rejoin-cons step (take size (x ∷ xs)) (windows fuel (drop step (x ∷ xs)))
                (windows_nonempty fuel (drop step (x ∷ xs)) (omega arith) (omega arith))
              ∙ ap (λ a. a ++ rejoin step (windows fuel (drop step (x ∷ xs))))
                  (take-take step size (x ∷ xs) inside)
              ∙ ap (λ b. take step (x ∷ xs) ++ b)
                  (rejoin-windows some_step inside fuel (drop step (x ∷ xs)) (omega arith))
              ∙ take-append-drop step (x ∷ xs))
      ]

  pub windows_short : (fuel : ℕ) (xs : List A) → All (λ w. length w ≤ size) (windows fuel xs)
  unfolding windows
  windows_short zero xs = tt
  windows_short (suc fuel) [] = tt
  windows_short (suc fuel) (x ∷ xs) =
      let head : length (take size (x ∷ xs)) ≤ size = omega (arith, length-take size (x ∷ xs)) in
      elim (Bool-cases (leb (length (x ∷ xs)) size)) [
        | inl short ↦ rw short (head, tt)
        | inr long ↦ rw long (head, windows_short fuel _)
      ]

  pub All-windows {κ} :
      (P : A → Type κ) (fuel : ℕ) (xs : List A) → All P xs → All (All P) (windows fuel xs)
  unfolding windows
  All-windows P zero xs h = tt
  All-windows P (suc fuel) [] h = tt
  All-windows P (suc fuel) (x ∷ xs) h =
      let head = All-take P size (x ∷ xs) h in
      elim (Bool-cases (leb (length (x ∷ xs)) size)) [
        | inl short ↦ rw short (head, tt)
        | inr long ↦ rw long (head, All-windows P fuel _ (All-drop P step (x ∷ xs) h))
      ]

module _ {ℓ} {A : Type ℓ} where
  take-nil : (k : ℕ) → take {A = A} k [] ≡ []
  take-nil zero = refl
  take-nil (suc k) = refl

  drop-take : (m n : ℕ) (xs : List A) → m ≤ n → drop m (take n xs) ≡ take (n - m) (drop m xs)
  drop-take zero n xs h = let same : n - 0 ≡ n = omega arith in rw same refl
  drop-take (suc m) zero xs h = absurd (omega arith)
  drop-take (suc m) (suc n) [] h = sym (take-nil (suc n - suc m))
  drop-take (suc m) (suc n) (x ∷ xs) h =
      let same : suc n - suc m ≡ n - m = omega arith in rw same (drop-take m n xs (omega arith))

  module _ (size overlap : ℕ) where
    -- What the next window shares with one, in a list that goes on behind it.
    shared :
        (xs : List A)
        → overlap ≤ size
        → drop (size - overlap) (take size xs) ≡ take overlap (take size (drop (size - overlap) xs))
    shared xs inside =
        let same : size - (size - overlap) ≡ overlap = omega arith in
        drop-take (size - overlap) size xs (omega arith)
        ∙ ap (λ k. take k (drop (size - overlap) xs)) same
        ∙ sym (take-take overlap size (drop (size - overlap) xs) inside)

    Overlapping-cons :
        (w : List A) (fuel : ℕ) (ys : List A)
        → length w ≡ size
        → drop (size - overlap) w ≡ take overlap (take size ys)
        → Overlapping size overlap (windows size (size - overlap) fuel ys)
        → Overlapping size overlap (w ∷ windows size (size - overlap) fuel ys)
    unfolding windows
    Overlapping-cons w zero ys full same h = tt
    Overlapping-cons w (suc fuel) [] full same h = tt
    Overlapping-cons w (suc fuel) (y ∷ ys) full same h = (full, same, h)

    pub windows-Overlapping :
        overlap ≤ size
        → (fuel : ℕ) (xs : List A)
        → Overlapping size overlap (windows size (size - overlap) fuel xs)
    unfolding windows
    windows-Overlapping inside zero xs = tt
    windows-Overlapping inside (suc fuel) [] = tt
    windows-Overlapping inside (suc fuel) (x ∷ xs) =
        elim (Bool-cases (leb (length (x ∷ xs)) size)) [
          | inl short ↦ rw short tt
          | inr long ↦
              let many : size + 1 ≤ length (x ∷ xs) = ground arith in
              rw long (
                Overlapping-cons (take size (x ∷ xs)) fuel (drop (size - overlap) (x ∷ xs))
                  (omega (arith, length-take size (x ∷ xs))) (shared (x ∷ xs) inside)
                  (windows-Overlapping inside fuel (drop (size - overlap) (x ∷ xs))))
        ]
