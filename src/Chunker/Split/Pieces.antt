-- ===== src/Chunker/Split/Pieces.antt =====
-- What `Split` of workers/chunker/internal/chunk/chunk.go gives for every text and setting.
use digital_cip.Prelude.{
  ℕ, zero, suc, ◌≤◌, ◌<◌, ◌≡◌, refl, ap, ◌∙◌, ℤ, pos, negsuc, String, Option, some, List, [], ◌∷◌,
  map, length, All, arith, if◌then◌else◌,
}
use digital_cip.Prelude.Text.{join, is_empty}
use digital_cip.Chunker.Words.{
  split_words, trim_space, approx_token_count, IsWord, split_words-join, split_words-All,
  split_words-trim_space,
}
use digital_cip.Chunker.Split.{split, piece_size, piece_overlap, stride, pieces_of}
use digital_cip.Chunker.Split.Windows.{
  glue, Overlaps, glue-Windows, Windows-All, Windows-Overlaps, Windows-each,
}
use digital_cip.Chunker.Split.Loop.{pieces_of-Windows, step_of_bounds}

-- Groups of words that are a list of words cut into windows.
record IsCut (size step : ℕ) (words : List String) (ps : List (List String)) : Type 0 where
  glued : glue step ps ≡ words
  sized : All (λ p. (0 < length p) × (length p ≤ size)) ps
  chained : Overlaps size step ps
  clean : All (All IsWord) ps

piece_size_pos : (size : ℤ) → 0 < piece_size size
unfolding piece_size
piece_size_pos (pos zero) = omega arith
piece_size_pos (pos (suc n)) = omega arith
piece_size_pos (negsuc n) = omega arith

module _ (size overlap : ℤ) where
  abbrev cut : List String → Option (List String)
  cut = pieces_of (piece_size size) (stride size overlap)

  cut-IsCut :
      (words : List String)
      → All IsWord words
      → (ps : List (List String)) × (cut words ≡ some (map (join " ") ps))
        × IsCut (piece_size size) (stride size overlap) words ps
  unfolding stride glue
  cut-IsCut [] h = ([], refl, record { glued = refl; sized = tt; chained = tt; clean = tt })
  cut-IsCut (w ∷ ws) h =
      let positive = piece_size_pos size in
      let (p, q) =
        step_of_bounds (piece_size size) (piece_overlap (piece_size size) overlap) positive in
      let (ps, found, win) =
        pieces_of-Windows (piece_size size) (piece_overlap (piece_size size) overlap) (w ∷ ws)
          positive (omega arith) in
      (
        ps,
        found,
        record {
          glued = glue-Windows q p win;
          sized = Windows-All q p win;
          chained = Windows-Overlaps q p win;
          clean = Windows-each IsWord win h;
        },
      )

  cut-if :
      (t : String) → (if is_empty t then some [] else cut (split_words t)) ≡ cut (split_words t)
  unfolding split_words
  cut-if String.[] = refl
  cut-if (String.◌∷◌ c s) = refl

  split-cut : (text : String) → split text size overlap ≡ cut (split_words text)
  unfolding split
  split-cut text = cut-if (trim_space text) ∙ ap cut (split_words-trim_space text)

  split-IsCut :
      (text : String)
      → (ps : List (List String)) × (split text size overlap ≡ some (map (join " ") ps))
        × IsCut (piece_size size) (stride size overlap) (split_words text) ps
  split-IsCut text =
      let (ps, found, is_cut) = cut-IsCut (split_words text) (split_words-All text) in
      (ps, split-cut text ∙ found, is_cut)

map-split_words-join :
    (ps : List (List String)) → All (All IsWord) ps → map split_words (map (join " ") ps) ≡ ps
map-split_words-join [] h = refl
map-split_words-join (p ∷ ps) h = rw (split_words-join p h.0, map-split_words-join ps h.1) refl

IsSized-join :
    (n : ℕ) (ps : List (List String))
    → All (All IsWord) ps
    → All (λ p. (0 < length p) × (length p ≤ n)) ps
    → All (λ p. (0 < approx_token_count p) × (approx_token_count p ≤ n)) (map (join " ") ps)
unfolding approx_token_count
IsSized-join n [] h k = tt
IsSized-join n (p ∷ ps) h k = (rw (split_words-join p h.0) k.0, IsSized-join n ps h.1 k.1)

module _ (text : String) (size overlap : ℤ) where
  pub split-glue :
      (pieces : List String) × (split text size overlap ≡ some pieces)
      × (glue (stride size overlap) (map split_words pieces) ≡ split_words text)
  split-glue =
      let (ps, found, is_cut) = split-IsCut size overlap text in
      (map (join " ") ps, found, rw (map-split_words-join ps is_cut.clean) is_cut.glued)

  pub split-IsSized :
      (pieces : List String) × (split text size overlap ≡ some pieces)
      × All (λ p. (0 < approx_token_count p) × (approx_token_count p ≤ piece_size size)) pieces
      × Overlaps (piece_size size) (stride size overlap) (map split_words pieces)
  split-IsSized =
      let (ps, found, is_cut) = split-IsCut size overlap text in
      (
        map (join " ") ps,
        found,
        IsSized-join (piece_size size) ps is_cut.clean is_cut.sized,
        rw (map-split_words-join ps is_cut.clean) is_cut.chained,
      )
