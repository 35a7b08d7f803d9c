-- ===== src/Prelude/Dicts.antt =====
-- A Python dict with integer keys, in insertion order: assignment to a known key keeps its place.
use Prim.Native.Nat.{ℕ}
use mathlib.Core.Path.{◌≡◌, refl, sym, subst}
use mathlib.Core.Logic.{inl, inr}
use mathlib.Core.List.{List, [], ◌∷◌}
use mathlib.Core.Option.{Option, none, some, some-injective}
use native.Mathlib.Omega.{arith}
use chat_doc.Prelude.Tests.{◌==◌, if◌then◌else◌, ==_iff, Bool-cases}
use chat_doc.Prelude.Lists.{All, All-imp}

abbrev pub Dict {ℓ} : Type ℓ → Type ℓ
Dict V = List (ℕ × V)

module _ {ℓ} {V : Type ℓ} where
  -- d.get(k)
  abbrev pub dict_get : ℕ → Dict V → Option V
  dict_get k [] = none
  dict_get k ((j, v) ∷ d) = if j == k then some v else dict_get k d

  -- d[k] = v
  abbrev pub dict_set : ℕ → V → Dict V → Dict V
  dict_set k v [] = (k, v) ∷ []
  dict_set k v ((j, w) ∷ d) = if j == k then (j, v) ∷ d else (j, w) ∷ dict_set k v d

  pub dict_get-dict_set :
      (k j : ℕ) (v : V) (d : Dict V)
      → dict_get j (dict_set k v d) ≡ (if k == j then some v else dict_get j d)
  dict_get-dict_set k j v [] = refl
  dict_get-dict_set k j v ((i, w) ∷ d) = ground (arith, dict_get-dict_set k j v d)

  -- {key(x): value(x) for x in …} from the pairs: a later pair wins.
  abbrev pub dict_from : List (ℕ × V) → Dict V → Dict V
  dict_from [] d = d
  dict_from ((k, v) ∷ rest) d = dict_from rest (dict_set k v d)

-- No key stands twice.
abbrev pub DistinctKeys {ℓ} : {V : Type ℓ} → Dict V → Type ℓ
DistinctKeys {V = V} [] = Unit
DistinctKeys {V = V} ((k, v) ∷ d) = (dict_get k d ≡ none) × DistinctKeys d

module _ {ℓ} {V : Type ℓ} where
  pub dict_set-DistinctKeys :
      (k : ℕ) (v : V) (d : Dict V) → DistinctKeys d → DistinctKeys (dict_set k v d)
  dict_set-DistinctKeys k v [] h = (refl, tt)
  dict_set-DistinctKeys k v ((j, w) ∷ d) (n, h) = elim (Bool-cases (j == k)) [
    | inl e ↦ rw e (n, h)
    | inr e ↦ rw e (ground (arith, dict_get-dict_set k j v d), dict_set-DistinctKeys k v d h)
  ]

  -- An entry of a dict without repeated keys is what its key gives.
  pub DistinctKeys-get : (d : Dict V) → DistinctKeys d → All (λ p. dict_get p.0 d ≡ some p.1) d
  DistinctKeys-get [] h = tt
  DistinctKeys-get ((k, v) ∷ d) (n, h) = (
    ground arith,
    All-imp (λ p. dict_get p.0 d ≡ some p.1) (λ p. dict_get p.0 ((k, v) ∷ d) ≡ some p.1)
        (λ p e. later k v d n p.0 p.1 e) d (DistinctKeys-get d h),
  )
    where
      later :
          (k : ℕ) (v : V) (d : Dict V)
          → dict_get k d ≡ none
          → (j : ℕ) (w : V) → dict_get j d ≡ some w
          → dict_get j ((k, v) ∷ d) ≡ some w
      later k v d n j w e = elim (Bool-cases (k == j)) [
        | inl s ↦ cc (rw ((==_iff k j).0 s) at n)
        | inr s ↦ rw s e
      ]

  module _ {κ} (Q : ℕ → V → Type κ) where
    pub All-dict_set :
        (k : ℕ) (v : V) (d : Dict V)
        → Q k v
        → All (λ p. Q p.0 p.1) d
        → All (λ p. Q p.0 p.1) (dict_set k v d)
    All-dict_set k v [] q h = (q, tt)
    All-dict_set k v ((j, w) ∷ d) q h = elim (Bool-cases (j == k)) [
      | inl e ↦ rw e (subst (λ i. Q i v) (sym ((==_iff j k).0 e)) q, h.1)
      | inr e ↦ rw e (h.0, All-dict_set k v d q h.1)
    ]

    pub All-dict_get :
        (k : ℕ) (d : Dict V) (v : V) → All (λ p. Q p.0 p.1) d → dict_get k d ≡ some v → Q k v
    All-dict_get k [] v h e = cc
    All-dict_get k ((j, w) ∷ d) v h e = elim (Bool-cases (j == k)) [
      | inl s ↦
          subst (λ i. Q i v) ((==_iff j k).0 s) (subst (Q j) (some-injective _ _ (rw s at e)) h.0)
      | inr s ↦ All-dict_get k d v h.1 (rw s at e)
    ]
