-- ===== src/Chunker/Accepted.antt =====
-- What the OCR worker accepts as a text (`handle` of workers/ocr/app/worker.py), the chunker can cut
-- (`Split` of workers/chunker/internal/chunk/chunk.go).
use Prim.Native.Char.{Char, code}
use digital_cip.Prelude.{
  ℕ, ◌≡◌, refl, sym, ◌∙◌, inl, inr, ◌≢◌, ℤ, String, true, false, some, List, [], ◌∷◌, map,
  Bool-cases, arith,
}
use digital_cip.Prelude.Text.{is_blank, is_space, is_empty, is_empty-strip, strip}
use digital_cip.Ocr.Handle.{lacks_text}
use digital_cip.Chunker.Words.{is_white, scan, split_words}
use digital_cip.Chunker.Split.{split, stride}
use digital_cip.Chunker.Split.Windows.{glue}
use digital_cip.Chunker.Split.Pieces.{split-glue}

white_is_space : (c : ℕ) → is_white c ≡ true → is_space c ≡ true
unfolding is_white is_space
white_is_space c h = ground arith

split_words-white :
    (c : Char) (s : String)
    → is_white (code c) ≡ true
    → split_words (String.◌∷◌ c s) ≡ split_words s
unfolding split_words scan
split_words-white c s h = rw h refl

split_words-black :
    (c : Char) (s : String) → is_white (code c) ≡ false → split_words (String.◌∷◌ c s) ≢ []
unfolding split_words scan
split_words-black c s h e =
    let f : split_words (String.◌∷◌ c s) ≡ String.◌∷◌ c (scan s).0 ∷ (scan s).1 = rw h refl in
    cc (e, f)

-- A text without words is blank, also for Python.
is_blank_of_no_words : (s : String) → split_words s ≡ [] → is_blank s ≡ true
unfolding is_blank
is_blank_of_no_words String.[] h = refl
is_blank_of_no_words (String.◌∷◌ c s) h = elim (Bool-cases (is_white (code c))) [
  | inl e ↦
      rw (white_is_space (code c) e) (is_blank_of_no_words s (sym (split_words-white c s e) ∙ h))
  | inr e ↦ absurd (split_words-black c s e h)
]

lacks_text_of_blank : (s : String) → is_blank s ≡ true → lacks_text s ≡ true
unfolding lacks_text
lacks_text_of_blank s h =
    let e : is_empty (strip s) ≡ true = is_empty-strip s ∙ h in
    elim (Bool-cases (is_empty s)) [ inl b ↦ rw b refl | inr b ↦ rw (b, e) refl ]

module _ (text : String) (accepted : lacks_text text ≡ false) where
  some_words : split_words text ≢ []
  some_words h = cc (accepted, lacks_text_of_blank text (is_blank_of_no_words text h))

  pub split-cons :
      (size overlap : ℤ)
      → (piece : String) × (pieces : List String) × (split text size overlap
          ≡ some (piece ∷ pieces))
  unfolding glue
  split-cons size overlap =
      let (pieces, found, glued) = split-glue text size overlap in first pieces found glued
    where
      first :
          (pieces : List String)
          → split text size overlap ≡ some pieces
          → glue (stride size overlap) (map split_words pieces) ≡ split_words text
          → (piece : String) × (pieces : List String) × (split text size overlap
              ≡ some (piece ∷ pieces))
      first [] found glued = absurd (some_words (sym glued))
      first (piece ∷ pieces) found glued = (piece, pieces, found)
