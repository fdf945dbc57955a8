-- ===== src/Ocr/Handle/Blank.antt =====
-- The test of the text in `handle`.
use digital_cip.Prelude.{◌≡◌, refl, String}
use digital_cip.Prelude.Text.{is_blank, is_empty-strip}
use digital_cip.Ocr.Handle.{lacks_text}

-- A text is refused exactly if every character of it is white space.
pub lacks_text_lem : (text : String) → lacks_text text ≡ is_blank text
unfolding lacks_text is_blank
lacks_text_lem String.[] = refl
lacks_text_lem (String.◌∷◌ c t) = is_empty-strip (String.◌∷◌ c t)
