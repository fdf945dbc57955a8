-- ===== src/Chunker/Split.antt =====
-- `Split` of workers/chunker/internal/chunk/chunk.go: a text is cut into pieces of a number of
-- words, each of which starts with the last words of the one before.
pub mod Windows
pub mod Loop
pub mod Pieces
use digital_cip.Prelude.{
  ℕ, zero, suc, ◌+◌, ◌-◌, ◌/◌, ◌≡◌, refl, ℤ, pos, negsuc, String, Option, none, some, List, [], ◌∷◌,
  length, take, drop, eqb, ltb, leb, if◌then◌else◌,
}
use digital_cip.Prelude.Text.{join, is_empty}
use digital_cip.Chunker.Words.{split_words, trim_space}

-- A size below 1 is taken for 800.
unfoldable pub piece_size : ℤ → ℕ
piece_size (pos zero) = 800
piece_size (pos (suc n)) = suc n
piece_size (negsuc n) = 800

-- An overlap that is negative, or as large as a piece, is taken for an eighth of a piece.
unfoldable pub piece_overlap : ℕ → ℤ → ℕ
piece_overlap size (pos n) = if leb size n then size / 8 else n
piece_overlap size (negsuc n) = size / 8

unfoldable pub step_of : ℕ → ℕ → ℕ
step_of size overlap = let step = size - overlap in if eqb step 0 then size else step

-- `words[start:end]`
abbrev pub slice : ℕ → ℕ → List String → List String
slice start end words = take (end - start) (drop start words)

abbrev pub add_piece : String → Option (List String) → Option (List String)
add_piece p none = none
add_piece p (some ps) = some (p ∷ ps)

-- The `for` loop from `start` on. It gives `none` when the fuel is used up.
unfoldable pub pieces_from : ℕ → ℕ → ℕ → List String → ℕ → Option (List String)
pieces_from zero size step words start = none
pieces_from (suc fuel) size step words start =
    let stop = if ltb (length words) (start + size) then length words else start + size in
    let piece = join " " (slice start stop words) in
    let later = pieces_from fuel size step words (start + step) in
    if ltb start (length words)
    then if eqb stop (length words) then some (piece ∷ []) else add_piece piece later
    else some []

-- `start` grows with each round, so as many rounds as there are words are enough.
abbrev pub pieces_of : ℕ → ℕ → List String → Option (List String)
pieces_of size step [] = some []
pieces_of size step (w ∷ ws) = pieces_from (length (w ∷ ws)) size step (w ∷ ws) 0

-- The number of words from the start of a piece to the start of the next.
unfoldable pub stride : ℤ → ℤ → ℕ
unfolding piece_size piece_overlap step_of
stride size overlap = step_of (piece_size size) (piece_overlap (piece_size size) overlap)

unfoldable pub split : String → ℤ → ℤ → Option (List String)
unfolding stride pieces_from trim_space split_words
split text size overlap =
    let trimmed = trim_space text in
    if is_empty trimmed
    then some []
    else pieces_of (piece_size size) (stride size overlap) (split_words trimmed)

split_test : split " a b c  d e f\n" (pos 3) (pos 1) ≡ some ("a b c" ∷ "c d e" ∷ "e f" ∷ [])
unfolding split join
split_test = refl
