-- ===== src/Services.antt =====
-- What the workers call and this repository does not hold: the object store, the OCR and image
-- libraries, the embedding model, the clock's format, PostgreSQL's reading of a bigint, and
-- Python's `repr` of containers. A section takes one `Services` as its parameter.
use digital_cip.Prelude.{ℕ, ℤ, String, Option, List}
use digital_cip.Error.{Outcome}
use digital_cip.Json.{Value, Items}
use digital_cip.Tables.{Vector}

abbrev pub Bytes : Type 0
Bytes = List ℕ

-- An image is passed from one library to the other and never inspected.
abbrev pub Image : Type 0
Image = List ℕ

pub record Services : Type 0 where
  -- the object that S3 returns for a bucket and a key
  pub download_fileobj : String → Value → Outcome Bytes
  -- `convert_from_bytes(blob, dpi=…)` of pdf2image
  pub convert_from_bytes : Bytes → ℤ → Outcome (List Image)
  -- `Image.open`
  pub image_open : Bytes → Outcome Image
  -- `image_to_string(image, lang=…)` of pytesseract
  pub image_to_string : Image → String → Outcome String
  -- `SentenceTransformer(name)`, which answers or raises; the model itself is not looked into
  pub sentence_transformer : String → Outcome (Unit {0})
  -- `get_sentence_embedding_dimension()` of the model
  pub sentence_embedding_dimension : Outcome ℤ
  -- the model's `encode(texts, batch_size=…)`, as lists
  pub encode : List String → ℤ → Outcome (List Vector)
  -- `datetime.now(timezone.utc).isoformat()` at a tick of the clock
  pub isoformat : ℕ → String
  -- a text that is sent for a bigint
  pub bigint_in : String → Option ℤ
  -- a list that is sent for a varchar column, as PostgreSQL stores it
  pub array_text : Items → Outcome String
  pub repr : Value → String
