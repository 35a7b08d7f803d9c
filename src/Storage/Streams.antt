-- ===== src/Storage/Streams.antt =====
-- The streams of api/storage.py: a blob in reads of a mebibyte.
use chat_doc.Prelude.{
  All, List, Option, Text, [], ap, arith, drop, length, length-drop, length-take, none, refl, some,
  suc, take, take-append-drop, zero, ℕ, ◌++◌, ◌∙◌, ◌∷◌, ◌≡◌, ◌≤◌,
}

abbrev pub chunk_size : ℕ
chunk_size = 1_048_576

-- `while chunk := f.read(CHUNK_SIZE): yield chunk`, on fuel: the blob's length is enough.
unfoldable pub read_chunks : ℕ → Text → List Text
read_chunks zero rest = []
read_chunks (suc fuel) [] = []
read_chunks (suc fuel) (c ∷ rest) =
    let more = read_chunks fuel (drop chunk_size (c ∷ rest)) in take chunk_size (c ∷ rest) ∷ more

unfoldable pub stream : Option Text → Option (List Text)
unfolding read_chunks
stream none = none
stream (some blob) = some (read_chunks (length blob) blob)

abbrev pub concat : List Text → Text
concat [] = []
concat (t ∷ ts) = t ++ concat ts

read_chunks-all :
    (fuel : ℕ) (rest : Text)
    → length rest ≤ fuel
    → (concat (read_chunks fuel rest) ≡ rest)
      × All (λ t. (1 ≤ length t) × (length t ≤ chunk_size)) (read_chunks fuel rest)
unfolding read_chunks
read_chunks-all zero [] h = (refl, tt)
read_chunks-all zero (c ∷ rest) h = absurd (omega arith)
read_chunks-all (suc fuel) [] h = (refl, tt)
read_chunks-all (suc fuel) (c ∷ rest) h =
    let left = length-drop chunk_size (c ∷ rest) in
    let first = length-take chunk_size (c ∷ rest) in
    let (e, p) = read_chunks-all fuel (drop chunk_size (c ∷ rest)) (omega arith) in
    (
      ap (λ t. take chunk_size (c ∷ rest) ++ t) e ∙ take-append-drop chunk_size (c ∷ rest),
      ((omega arith, omega arith), p),
    )

-- A stream of a stored blob ends and sends the whole blob, in parts of one byte to a mebibyte: none
-- is empty, which would end the response early.
pub stream_whole :
    (blob : Text)
    → (parts : List Text) × (stream (some blob) ≡ some parts)
      × (concat parts ≡ blob)
      × All (λ t. (1 ≤ length t) × (length t ≤ chunk_size)) parts
unfolding stream
stream_whole blob =
    let (e, p) = read_chunks-all (length blob) blob (omega arith) in
    (read_chunks (length blob) blob, refl, e, p)
