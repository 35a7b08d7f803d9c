-- ===== src/Documents/Listing.antt =====
-- The list of a user's documents (api/documents_repo.py list_documents).
use chat_doc.Database.{Database, DocumentRow}
use chat_doc.Documents.{insert_newest, newest_first, list_documents, owned_by}
use chat_doc.Prelude.{
  All, All-imp, Bool, Bool-cases, In, List, [], arith, inl, inr, ltb, select, select_passes, subst,
  sym, true, ℕ, ◌∷◌, ◌≡◌, ◌≤◌, ◌⊎◌,
}

-- Each row is at least as new as every later one.
abbrev pub NewestFirst : List DocumentRow → Type 0
NewestFirst [] = Unit
NewestFirst (d ∷ ds) = All (λ e. e.created_at ≤ d.created_at) ds × NewestFirst ds

module _ {κ} (P : DocumentRow → Type κ) where
  All-insert_newest :
      (d : DocumentRow) (ds : List DocumentRow) → P d → All P ds → All P (insert_newest d ds)
  unfolding insert_newest
  All-insert_newest d [] p h = (p, tt)
  All-insert_newest d (e ∷ ds) p h = elim (Bool-cases (ltb d.created_at e.created_at)) [
    | inl l ↦ rw l (h.0, All-insert_newest d ds p h.1)
    | inr l ↦ rw l (p, h)
  ]

  All-newest_first : (ds : List DocumentRow) → All P ds → All P (newest_first ds)
  unfolding newest_first
  All-newest_first [] h = tt
  All-newest_first (d ∷ ds) h = All-insert_newest d (newest_first ds) h.0 (All-newest_first ds h.1)

insert_newest-NewestFirst :
    (d : DocumentRow) (ds : List DocumentRow) → NewestFirst ds → NewestFirst (insert_newest d ds)
unfolding insert_newest
insert_newest-NewestFirst d [] h = (tt, tt)
insert_newest-NewestFirst d (e ∷ ds) (above, h) =
    elim (Bool-cases (ltb d.created_at e.created_at)) [
      | inl l ↦
          let older : d.created_at ≤ e.created_at = ground arith in
          rw l (
            All-insert_newest (λ x. x.created_at ≤ e.created_at) d ds older above,
            insert_newest-NewestFirst d ds h,
          )
      | inr l ↦
          let newer : e.created_at ≤ d.created_at = ground arith in
          rw l (
            (
              newer,
              All-imp (λ x. x.created_at ≤ e.created_at) (λ x. x.created_at ≤ d.created_at)
                  (λ x below. omega arith) ds above,
            ),
            (above, h),
          )
    ]

newest_first-NewestFirst : (ds : List DocumentRow) → NewestFirst (newest_first ds)
unfolding newest_first
newest_first-NewestFirst [] = tt
newest_first-NewestFirst (d ∷ ds) =
    insert_newest-NewestFirst d (newest_first ds) (newest_first-NewestFirst ds)

In-insert_newest :
    (d x : DocumentRow) (ds : List DocumentRow) → (d ≡ x) ⊎ In x ds → In x (insert_newest d ds)
unfolding insert_newest
In-insert_newest d x [] (inl e) = inl e
In-insert_newest d x [] (inr m) = absurd m
In-insert_newest d x (e ∷ ds) m = elim (Bool-cases (ltb d.created_at e.created_at)) [
  | inl l ↦ rw l (later (In-insert_newest d x ds) m)
  | inr l ↦ rw l m
]
  where
    later :
        ((d ≡ x) ⊎ In x ds → In x (insert_newest d ds))
        → (d ≡ x) ⊎ ((e ≡ x) ⊎ In x ds)
        → (e ≡ x) ⊎ In x (insert_newest d ds)
    later rest (inl q) = inr (rest (inl q))
    later rest (inr (inl q)) = inl q
    later rest (inr (inr q)) = inr (rest (inr q))

In-newest_first : (x : DocumentRow) (ds : List DocumentRow) → In x ds → In x (newest_first ds)
unfolding newest_first
In-newest_first x [] m = absurd m
In-newest_first x (d ∷ ds) (inl e) = In-insert_newest d x (newest_first ds) (inl e)
In-newest_first x (d ∷ ds) (inr m) =
    In-insert_newest d x (newest_first ds) (inr (In-newest_first x ds m))

In-select_of :
    (p : DocumentRow → Bool) (x : DocumentRow) (ds : List DocumentRow)
    → p x ≡ true
    → In x ds
    → In x (select p ds)
In-select_of p x [] h m = absurd m
In-select_of p x (d ∷ ds) h (inl e) = rw (subst (λ y. p y ≡ true) (sym e) h) (inl e)
In-select_of p x (d ∷ ds) h (inr m) = elim (Bool-cases (p d)) [
  | inl t ↦ rw t (inr (In-select_of p x ds h m))
  | inr t ↦ rw t (In-select_of p x ds h m)
]

-- A user's list has all of the user's documents and no other user's, the newest first.
pub list_documents_lem :
    {C : Type 0} (user_id : ℕ) (db : Database C)
    → All (λ d. owned_by user_id d ≡ true) (list_documents user_id db)
      × ((d : DocumentRow)
          → In d db.documents
          → owned_by user_id d ≡ true
          → In d (list_documents user_id db))
      × NewestFirst (list_documents user_id db)
unfolding list_documents
list_documents_lem user_id db =
    let mine = select (owned_by user_id) db.documents in
    (
      All-newest_first (λ d. owned_by user_id d ≡ true) mine
          (select_passes (owned_by user_id) db.documents),
      (λ d m own. In-newest_first d mine (In-select_of (owned_by user_id) d db.documents own m)),
      newest_first-NewestFirst mine,
    )
