-- ===== src/Chunker/Split/Loop.antt =====
-- The `for` loop of `Split` (workers/chunker/internal/chunk/chunk.go) cuts windows, and ends.
use digital_cip.Prelude.{
  ℕ, zero, suc, ◌+◌, ◌-◌, ◌≤◌, ◌<◌, ◌≡◌, refl, ap, ◌∙◌, inl, inr, String, some, List, [], ◌∷◌, map,
  length, take, drop, leb, arith, Bool-cases, leb→le, not_leb→lt, drop-drop, take-all, length-drop,
}
use digital_cip.Prelude.Text.{join}
use digital_cip.Chunker.Split.{pieces_from, pieces_of, slice, add_piece, step_of}
use digital_cip.Chunker.Split.Windows.{Windows, last, more}

pub step_of_bounds :
    (size overlap : ℕ) → 0 < size → (0 < step_of size overlap) × (step_of size overlap ≤ size)
unfolding step_of
step_of_bounds size overlap h = ground arith

slice_rest : (start : ℕ) (words : List String) → slice start (length words) words ≡ drop start words
slice_rest start words =
    take-all (length words - start) (drop start words) (omega (arith, length-drop start words))

slice_front :
    (start size : ℕ) (words : List String)
    → slice start (start + size) words ≡ take size (drop start words)
slice_front start size words = ap (λ k. take k (drop start words)) (omega arith)

module _ (fuel size step : ℕ) (words : List String) (start : ℕ)
    (within : start < length words) where
  round_last :
      length words ≤ start + size
      → pieces_from (suc fuel) size step words start ≡ some (join " " (drop start words) ∷ [])
  unfolding pieces_from
  round_last h = ground (arith, slice_rest start words)

  round_more :
      start + size < length words
      → pieces_from (suc fuel) size step words start
        ≡ add_piece
            (join " " (take size (drop start words)))
            (pieces_from fuel size step words (start + step))
  unfolding pieces_from
  round_more h = ground (arith, slice_front start size words)

-- The fuel is enough where it reaches the end from `start`.
pieces_from-Windows :
    (fuel size step : ℕ) (words : List String) (start : ℕ)
    → 0 < step
    → step ≤ size
    → start < length words
    → length words ≤ start + fuel
    → (ps : List (List String)) × (pieces_from fuel size step words start
        ≡ some (map (join " ") ps))
      × Windows size step (drop start words) ps
pieces_from-Windows zero size step words start p q within enough = absurd (omega arith)
pieces_from-Windows (suc fuel) size step words start p q within enough =
    elim (Bool-cases (leb (length words) (start + size))) [
      | inl e ↦ (
        drop start words ∷ [],
        round_last fuel size step words start within (leb→le _ _ e),
        last (drop start words) (omega (arith, length-drop start words))
            (omega (arith, length-drop start words, leb→le _ _ e)),
      )
      | inr e ↦
          let beyond : start + size < length words = not_leb→lt _ _ e in
          let (ps, found, cut) =
            pieces_from-Windows fuel size step words (start + step) p q (omega arith)
              (omega arith) in
          (
            take size (drop start words) ∷ ps,
            round_more fuel size step words start within beyond ∙ rw found refl,
            more (drop start words) ps (omega (arith, length-drop start words))
                (rw (drop-drop start step words) cut),
          )
    ]

-- The loop over all the words.
pub pieces_of-Windows :
    (size overlap : ℕ) (words : List String)
    → 0 < size
    → 0 < length words
    → (ps : List (List String)) × (pieces_of size (step_of size overlap) words
        ≡ some (map (join " ") ps))
      × Windows size (step_of size overlap) words ps
pieces_of-Windows size overlap [] h k = absurd (omega arith)
pieces_of-Windows size overlap (w ∷ ws) h k =
    let (p, q) = step_of_bounds size overlap h in
    pieces_from-Windows (length (w ∷ ws)) size (step_of size overlap) (w ∷ ws) 0 p q k (omega arith)
