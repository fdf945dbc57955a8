-- ===== src/Ocr/Extract/Calm.antt =====
-- The text of an object as a function of its bytes, and `extract_text` where every call works.
use digital_cip.Prelude.{
  ◌≡◌, refl, pos, ℕ, String, Option, none, some, List, [], ◌∷◌, length, true, false,
}
use digital_cip.Prelude.Text.{join}
use digital_cip.Json.{Value, Fields, no_fields, field, num}
use digital_cip.Error.{Outcome, returned, ok}
use digital_cip.Services.{Services, Bytes, Image}
use digital_cip.World.{State}
use digital_cip.Exec.Calm.{calm}
use digital_cip.Ocr.Config.{Config}
use digital_cip.Ocr.Extract.Pdf.{NamesPdf, is_pdf-NamesPdf, is_pdf_other}
use digital_cip.Ocr.Extract.{external, is_pdf, download_object, read_pages, extract_text}

abbrev pub pages_meta : ℕ → Fields
pages_meta n = field "pages" (num (pos n)) no_fields

external-calm :
    {A : Type 0} (o : Outcome A) (a : A) (st : State)
    → o ≡ returned a
    → external o (calm st) ≡ (ok a, calm st)
unfolding external
external-calm o a st e = rw e

-- The pages' texts are what the recognition returns for the images, in their order.
pub data ReadAll (s : Services) (lang : String) : List Image → List String → Type 0 where
  end : ReadAll s lang [] []
  page :
      {img : Image} {images : List Image} {t : String} {texts : List String}
      → s.image_to_string img lang ≡ returned t
      → ReadAll s lang images texts
      → ReadAll s lang (img ∷ images) (t ∷ texts)

-- The text and the number of pages of an object: where the letters `pdf` stand in the content type,
-- it is read page by page, and else, or without a content type, as one image.
pub data TextOf (s : Services) (config : Config) (blob : Bytes) (content_type : Option String)
    : String → ℕ → Type 0 where
  pdf :
      (images : List Image) (texts : List String) {text : String} {n : ℕ}
      → (t : String) → content_type ≡ some t
      → NamesPdf t
      → s.convert_from_bytes blob config.ocr_dpi ≡ returned images
      → ReadAll s config.ocr_lang images texts
      → text ≡ join "\n\n" texts
      → n ≡ length images
      → TextOf s config blob content_type text n
  image :
      (img : Image) {text : String} {n : ℕ}
      → ((t : String) → content_type ≡ some t → ¬ NamesPdf t)
      → s.image_open blob ≡ returned img
      → s.image_to_string img config.ocr_lang ≡ returned text
      → n ≡ 1
      → TextOf s config blob content_type text n

pub read_as_pdf :
    (content_type : Option String) (t : String)
    → content_type ≡ some t
    → NamesPdf t
    → is_pdf content_type ≡ true
read_as_pdf content_type t e h = rw e (is_pdf-NamesPdf t h)

read_as_image :
    (content_type : Option String)
    → ((t : String) → content_type ≡ some t → ¬ NamesPdf t)
    → is_pdf content_type ≡ false
unfolding is_pdf
read_as_image none other = refl
read_as_image (some t) other = is_pdf_other t (other t refl)

module _ (s : Services) (config : Config) (st : State) where
  pub download_object-calm :
      (key : Value) (blob : Bytes)
      → s.download_fileobj config.minio_bucket key ≡ returned blob
      → download_object s config key (calm st) ≡ (ok blob, calm st)
  unfolding download_object
  download_object-calm key blob e = external-calm _ blob st e

  read_pages-calm :
      {images : List Image} {texts : List String}
      → ReadAll s config.ocr_lang images texts
      → read_pages s config images (calm st) ≡ (ok texts, calm st)
  unfolding read_pages
  read_pages-calm end = refl
  read_pages-calm (page e rest) = rw (external-calm _ _ st e, read_pages-calm rest)

  -- Where every call works, `extract_text` reads an object page by page exactly if the letters `pdf`
  -- stand in its content type, and returns the texts joined in order with the number of the
  -- pages; any other object is read as one image, with one page.
  pub extract_text-calm :
      {blob : Bytes} {content_type : Option String} {text : String} {n : ℕ}
      → TextOf s config blob content_type text n
      → extract_text s config blob content_type (calm st) ≡ (ok (text, pages_meta n), calm st)
  unfolding extract_text
  extract_text-calm (pdf images texts t is names converted read e e') =
      rw
        (read_as_pdf _ t is names, external-calm _ images st converted, read_pages-calm read, e, e')
  extract_text-calm (image img other opened read e) =
      rw (read_as_image _ other, external-calm _ img st opened, external-calm _ _ st read, e)
