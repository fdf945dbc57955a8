-- ===== src/Chunker/Split/Windows.antt =====
-- The windows that `Split` of workers/chunker/internal/chunk/chunk.go cuts a list of words into.
use digital_cip.Prelude.{
  ℕ, ◌-◌, ◌≤◌, ◌<◌, ◌≡◌, refl, sym, ◌∙◌, List, [], ◌∷◌, ◌++◌, length, take, drop, All, arith,
  take-append-drop, take-take, drop-take, length-take, take-All, drop-All,
}

-- A window is taken from the front; the next begins `step` words later. The last is the first
-- that reaches the end.
pub data Windows {ℓ} {A : Type ℓ} (size step : ℕ) : List A → List (List A) → Type ℓ where
  last : (w : List A) → 0 < length w → length w ≤ size → Windows size step w (w ∷ [])
  more :
      (w : List A) (ps : List (List A))
      → size < length w
      → Windows size step (drop step w) ps
      → Windows size step w (take size w ∷ ps)

module _ {ℓ} {A : Type ℓ} where
  -- The list that overlapping windows were cut from.
  unfoldable pub glue : ℕ → List (List A) → List A
  glue step [] = []
  glue step (p ∷ []) = p
  glue step (p ∷ q ∷ ps) = take step p ++ glue step (q ∷ ps)

  -- Each window starts with what the window before has after its first `step` elements.
  abbrev pub Overlaps : ℕ → ℕ → List (List A) → Type ℓ
  Overlaps size step [] = Unit
  Overlaps size step (p ∷ []) = Unit
  Overlaps size step (p ∷ q ∷ ps) =
      (drop step p ≡ take (size - step) q) × Overlaps size step (q ∷ ps)

-- What holds of every element holds of those in the windows.
pub Windows-each {ℓ κ} :
    {A : Type ℓ} (P : A → Type κ) {size step : ℕ} {w : List A} {ps : List (List A)}
    → Windows size step w ps
    → All P w
    → All (All P) ps
Windows-each P (last w a b) h = (h, tt)
Windows-each P {size} {step} (more w ps a win) h =
    (take-All P size w h, Windows-each P win (drop-All P step w h))

module _ {ℓ} {A : Type ℓ} {size step : ℕ} (h : step ≤ size) (k : 0 < step) where
  module _ (p : List A) where
    glue-more :
        {w : List A} {ps : List (List A)}
        → Windows size step w ps
        → glue step (p ∷ ps) ≡ take step p ++ glue step ps
    unfolding glue
    glue-more (last w a b) = refl
    glue-more (more w ps a win) = refl

    Overlaps-more :
        {w : List A} {ps : List (List A)}
        → drop step p ≡ take (size - step) w
        → Windows size step w ps
        → Overlaps size step ps
        → Overlaps size step (p ∷ ps)
    Overlaps-more e (last w a b) o = (e, o)
    Overlaps-more e (more w ps a win) o =
        (e ∙ sym (take-take (size - step) size w (omega arith)), o)

  -- Without their overlaps the windows make up the list.
  pub glue-Windows : {w : List A} {ps : List (List A)} → Windows size step w ps → glue step ps ≡ w
  unfolding glue
  glue-Windows (last w a b) = refl
  glue-Windows (more w ps a win) =
      glue-more (take size w) win
      ∙ rw (glue-Windows win, take-take step size w h) (take-append-drop step w)

  pub Windows-Overlaps :
      {w : List A} {ps : List (List A)} → Windows size step w ps → Overlaps size step ps
  Windows-Overlaps (last w a b) = tt
  Windows-Overlaps (more w ps a win) =
      Overlaps-more (take size w) (drop-take step size w) win (Windows-Overlaps win)

  -- A window has an element, and at most `size` of them.
  pub Windows-All :
      {w : List A} {ps : List (List A)}
      → Windows size step w ps
      → All (λ p. (0 < length p) × (length p ≤ size)) ps
  Windows-All (last w a b) = ((a, b), tt)
  Windows-All (more w ps a win) = (
    (
      omega (arith, length-take size w (omega arith)),
      omega (arith, length-take size w (omega arith)),
    ),
    Windows-All win,
  )
