-- ===== src/Ocr/Extract.antt =====
-- workers/ocr/app/ocr.py and storage.py: the text of an object of the store.
pub mod Rules
pub mod Pdf
pub mod Calm
use digital_cip.Prelude.{
  pos, String, Option, none, some, List, [], ◌∷◌, Bool, false, length, if◌then◌else◌,
}
use digital_cip.Prelude.Text.{join, contains, is_empty}
use digital_cip.Json.{Value, Fields, no_fields, field, num}
use digital_cip.Error.{Outcome}
use digital_cip.Services.{Services, Bytes, Image}
use digital_cip.Exec.{Exec, pure, lift, call, ◌>>=◌}
use digital_cip.Ocr.Config.{Config}
use mathlib.Core.Bool.{◌&&◌, not}

-- A call of a library, which may also fail for reasons of its own.
unfoldable pub external : {A : Type 0} → Outcome A → Exec A
unfolding call
external o = call (λ w. lift o w)

-- `content_type and 'pdf' in content_type`
unfoldable pub is_pdf : Option String → Bool
is_pdf none = false
is_pdf (some t) = not (is_empty t) && contains t "pdf"

module _ (s : Services) (config : Config) where
  unfoldable pub download_object : Value → Exec Bytes
  download_object key = external (s.download_fileobj config.minio_bucket key)

  -- `[pytesseract.image_to_string(img, …) for img in images]`
  unfoldable pub read_pages : List Image → Exec (List String)
  read_pages [] = pure []
  read_pages (img ∷ images) = do
    page ← external (s.image_to_string img config.ocr_lang)
    pages ← read_pages images
    pure (page ∷ pages)

  unfoldable pub extract_text : Bytes → Option String → Exec (String × Fields)
  unfolding is_pdf
  extract_text blob content_type =
      if is_pdf content_type
      then (do
        images ← external (s.convert_from_bytes blob config.ocr_dpi)
        pages ← read_pages images
        pure (join "\n\n" pages, field "pages" (num (pos (length images))) no_fields))
      else (do
        image ← external (s.image_open blob)
        t ← external (s.image_to_string image config.ocr_lang)
        pure (t, field "pages" (num (pos 1)) no_fields))
