-- ===== src/Chunker/Windows.antt =====
-- The windows of ingest/chunker.py _split_prose.
use chat_doc.Chunker.{prose_chunk_chars, prose_step, prose_windows, blank, split_prose}
use chat_doc.Prelude.{
  All, Bool-cases, List, Overlapping, Text, [], arith, false, inl, inr, leb, length, not, refl,
  rejoin, rejoin-windows, select, windows-Overlapping, windows_short, ◌∷◌, ◌≡◌, ◌≤◌,
}

-- Splitting loses no text: the pieces of a text that is not blank are windows of at most 1600
-- characters, less the windows of blanks alone. Each window but the last has 1600 characters and
-- ends with the 200 that the next one starts with, and what lies before the overlaps, with the last
-- window, is the whole text.
pub split_prose_covers :
    (text : Text)
    → blank text ≡ false
    → (ws : List Text) × (rejoin 1400 ws ≡ text)
      × Overlapping 1600 200 ws
      × All (λ w. length w ≤ 1600) ws
      × (split_prose text ≡ select (λ w. not (blank w)) ws)
unfolding split_prose
split_prose_covers text h = elim (Bool-cases (leb (length text) prose_chunk_chars)) [
  | inl short ↦
      let bound : length text ≤ prose_chunk_chars = ground arith in
      (text ∷ [], refl, tt, (bound, tt), rw (short, h) refl)
  | inr long ↦ (
    prose_windows text,
    rejoin-windows prose_chunk_chars prose_step (omega arith) (omega arith) (length text) text
        (omega arith),
    windows-Overlapping 1600 200 (omega arith) (length text) text,
    windows_short prose_chunk_chars prose_step (length text) text,
    rw long refl,
  )
]
