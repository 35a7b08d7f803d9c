-- ===== src/Chunker/Groups.antt =====
-- The grouping of paragraphs in ingest/chunker.py chunk_pdf.
use chat_doc.Floats.{Floats}
use chat_doc.Chunker.{prose_chunk_chars, nearest_header, Box}
use chat_doc.Chunker.Pages.{groups, header_eq, buf_len, Group}
use chat_doc.Prelude.{
  All, All-append, Bool-cases, List, Option, Text, [], ap, append_assoc, arith, inl, inr, is_empty,
  is_empty→nil, length, ltb, none, not, refl, some, text_eq→eq, true, ◌++◌, ◌+◌, ◌||◌, ◌∙◌, ◌∷◌,
  ◌≡◌, ◌≤◌, ◌⊎◌,
}

module _ (fl : Floats) where
  open fl use {F}

  header_eq→eq : (a b : Option Text) → header_eq fl a b ≡ true → a ≡ b
  header_eq→eq none none h = refl
  header_eq→eq none (some t) h = cc
  header_eq→eq (some s) none h = cc
  header_eq→eq (some s) (some t) h = ap some (text_eq→eq s t h)

  buf_len-append :
      (ps qs : List (Text × Box fl)) → buf_len fl (ps ++ qs) ≡ buf_len fl ps + buf_len fl qs
  buf_len-append [] qs = omega arith
  buf_len-append ((t, b) ∷ ps) qs = omega (arith, buf_len-append ps qs)

  abbrev pub paragraphs_of : List (Group fl) → List (Text × Box fl)
  paragraphs_of [] = []
  paragraphs_of (g ∷ gs) = g.paragraphs ++ paragraphs_of gs

  -- All the paragraphs stand under the group's header, and they fit into a window unless there is
  -- one alone.
  abbrev pub GroupWf : List (F × Text) → Group fl → Type 0
  GroupWf headers g =
      All (λ p. nearest_header fl headers p.1.y0 ≡ g.header) g.paragraphs
      × ((length g.paragraphs ≤ 1) ⊎ (buf_len fl g.paragraphs ≤ prose_chunk_chars))

  grown_wf :
      (headers : List (F × Text)) (t : Text) (bbox : Box fl) (buf : Group fl)
      → GroupWf headers buf
      → nearest_header fl headers bbox.y0 ≡ buf.header
      → buf_len fl buf.paragraphs + length t ≤ prose_chunk_chars
      → GroupWf headers
          (record { header = buf.header; paragraphs = buf.paragraphs ++ (t, bbox) ∷ [] })
  grown_wf headers t bbox buf wf same fits = (
    All-append (λ p. nearest_header fl headers p.1.y0 ≡ buf.header) buf.paragraphs ((t, bbox) ∷ [])
        wf.0 (same, tt),
    inr (omega (arith, buf_len-append buf.paragraphs ((t, bbox) ∷ []))),
  )

  -- Grouping keeps every paragraph, once and in order; a group has one section header, and is a
  -- single paragraph or at most 1600 characters.
  pub groups_lem :
      (headers : List (F × Text)) (ps : List (Text × Box fl)) (buf : Group fl)
      → GroupWf headers buf
      → (paragraphs_of (groups fl headers buf ps) ≡ buf.paragraphs ++ ps)
        × All (GroupWf headers) (groups fl headers buf ps)
  unfolding groups
  groups_lem headers [] buf wf = elim (Bool-cases (is_empty buf.paragraphs)) [
    | inl e ↦ rw (e, is_empty→nil buf.paragraphs e) (refl, tt)
    | inr e ↦ rw e (refl, (wf, tt))
  ]
  groups_lem headers ((t, bbox) ∷ rest) buf wf =
      let header = nearest_header fl headers bbox.y0 in
      let fresh : Group fl = record { header = header; paragraphs = (t, bbox) ∷ [] } in
      let full = ltb prose_chunk_chars (buf_len fl buf.paragraphs + length t) in
      let other = not (header_eq fl header buf.header) in
      let (ep, wp) = groups_lem headers rest fresh ((refl, tt), inl (omega arith)) in
      elim (Bool-cases (is_empty buf.paragraphs)) [
        | inl e ↦ rw (e, is_empty→nil buf.paragraphs e) (ep, wp)
        | inr e ↦ elim (Bool-cases (full || other)) [
          | inl close ↦ rw (e, close) (ap (λ x. buf.paragraphs ++ x) ep, (wf, wp))
          | inr keep ↦
              let same : header_eq fl header buf.header ≡ true = ground arith in
              let fits : buf_len fl buf.paragraphs + length t ≤ prose_chunk_chars = ground arith in
              let grown =
                grown_wf headers t bbox buf wf (header_eq→eq header buf.header same) fits in
              let (eq, wq) = groups_lem headers rest _ grown in
              rw (e, keep) (eq ∙ append_assoc buf.paragraphs ((t, bbox) ∷ []) rest, wq)
        ]
      ]
