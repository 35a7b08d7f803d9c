-- ===== src/Storage/LocalStorage.antt =====
-- class LocalStorage of api/storage.py: files under data/uploads.
use text.Mathlib.Text.{◌==◌ as str_eq}
use text.Mathlib.TextEquality.{eq_iff}
use chat_doc.Storage.{Storage}
use chat_doc.Prelude.{
  Bool, Bool-cases, List, Option, String, Text, [], any, false, if◌then◌else◌, inl, inr, is_some,
  none, not, refl, select, some, sym, true, ◌∷◌, ◌≡◌,
}

-- The files under the root of LocalStorage.
abbrev pub Files : Type 0
Files = List (String × Text)

-- write_bytes: the file is replaced or made.
unfoldable pub save : String → Text → Files → Files
save k blob [] = (k, blob) ∷ []
save k blob ((j, d) ∷ files) =
    let rest = save k blob files in if str_eq j k then (j, blob) ∷ files else (j, d) ∷ rest

-- unlink(missing_ok=True)
unfoldable pub delete : String → Files → Files
delete k = select (λ f. not (str_eq f.0 k))

-- path.is_file() and the file behind it.
unfoldable pub open_local : String → Files → Option Text
open_local k [] = none
open_local k ((j, d) ∷ files) = if str_eq j k then some d else open_local k files

unfoldable pub exists : String → Files → Bool
exists k = any (λ f. str_eq f.0 k)

eq→ : (a b : String) → str_eq a b ≡ true → a ≡ b
eq→ a b h = (eq_iff a b).0 h

apart : (i k j : String) → str_eq i k ≡ false → str_eq i j ≡ true → str_eq k j ≡ false
apart i k j n e = elim (Bool-cases (str_eq k j)) [
  | inl same ↦ cc (eq→ k j same)
  | inr other ↦ other
]

pub open_local-save :
    (k j : String) (blob : Text) (files : Files)
    → open_local j (save k blob files) ≡ (if str_eq k j then some blob else open_local j files)
unfolding open_local save
open_local-save k j blob [] = refl
open_local-save k j blob ((i, d) ∷ files) = elim (Bool-cases (str_eq i k)) [
  | inl e ↦ rw (e, open_local, sym (eq→ i k e)) (split (str_eq i j) blob d (open_local j files))
  | inr e ↦ elim (Bool-cases (str_eq i j)) [
    | inl f ↦ rw (e, open_local, f, apart i k j e f) refl
    | inr f ↦ rw (e, open_local, f) (open_local-save k j blob files)
  ]
]
  where
    split :
        (b : Bool) (x y : Text) (o : Option Text)
        → (if b then some x else o) ≡ (if b then some x else (if b then some y else o))
    split true x y o = refl
    split false x y o = refl

pub open_local-delete :
    (k j : String) (files : Files)
    → open_local j (delete k files) ≡ (if str_eq k j then none else open_local j files)
unfolding open_local delete
open_local-delete k j [] = elim (Bool-cases (str_eq k j)) [ inl e ↦ rw e refl | inr e ↦ rw e refl ]
open_local-delete k j ((i, d) ∷ files) = elim (Bool-cases (str_eq i k)) [
  | inl e ↦ elim (Bool-cases (str_eq k j)) [
    | inl f ↦ rw (e, f) (rw f at (open_local-delete k j files))
    | inr f ↦
        let other : str_eq i j ≡ false = rw (eq→ i k e, f) refl in
        rw (e, f, open_local, other) (rw f at (open_local-delete k j files))
  ]
  | inr e ↦ elim (Bool-cases (str_eq i j)) [
    | inl f ↦ rw (e, open_local, f, apart i k j e f) refl
    | inr f ↦ rw (e, open_local, f) (open_local-delete k j files)
  ]
]

pub exists_iff : (k : String) (files : Files) → exists k files ≡ is_some (open_local k files)
unfolding open_local exists
exists_iff k [] = refl
exists_iff k ((j, d) ∷ files) = elim (Bool-cases (str_eq j k)) [
  | inl e ↦ rw e refl
  | inr e ↦ rw (e, exists_iff k files) refl
]

-- Files on disk do what a storage promises.
abbrev pub local_storage : Storage Files
local_storage = record {
  save = save;
  delete = delete;
  exists = exists;
  open_local = open_local;
  open_local-save = open_local-save;
  open_local-delete = open_local-delete;
  exists_iff = exists_iff;
}
