-- ===== src/Pipeline/OcrJob.antt =====
-- What the OCR worker's `handle` makes of a document's status, whatever the message says and
-- whichever of its calls fail.
use digital_cip.Prelude.{◌≡◌, refl, ℤ, String, Option, none, some}
use digital_cip.Json.{Value, Fields}
use digital_cip.Error.{returned}
use digital_cip.Tables.{Document}
use digital_cip.Services.{Services}
use digital_cip.World.{State}
use digital_cip.Exec.{pure, ◌>>=◌}
use digital_cip.Exec.Rules.{Meets, Meets-bind, Meets-if, Meets-strengthen}
use digital_cip.Exec.Keeps.{Raises-keeps, Keeps, Keeps-of_Raises, keeps_rules}
use digital_cip.Sql.Statements.{bigint_key, select_document}
use digital_cip.Ocr.Config.{Config}
use digital_cip.Ocr.Db.{already_processed, fetch_document}
use digital_cip.Ocr.Db.Rules.{already_processed-Meets, fetch_document-Meets}
use digital_cip.Ocr.Handle.{is_terminal, work_on, handle_document, handle_message, handle}
use digital_cip.Broker.Stages.{Stage}
use digital_cip.Pipeline.Track.{Track}
use digital_cip.Pipeline.OcrCourse.{work_on-Kept}

-- The tables hold this document under the message's key, if it found one.
abbrev pub Fetched : Services → Value → Option Document → State → Type 0
Fetched s document_id none st = Unit
Fetched s document_id (some d) st =
    (key : Option ℤ) × (bigint_key s document_id ≡ returned key)
    × (select_document key st.db.documents ≡ some d)

pub fetched :
    (s : Services) (document_id : Value) (st : State) (key : Option ℤ)
    → bigint_key s document_id ≡ returned key
    → (found : Option Document) → select_document key st.db.documents ≡ found
    → Fetched s document_id found st
fetched s document_id st key keyed none e = tt
fetched s document_id st key keyed (some d) e = (key, keyed, e)

module _ (s : Services) (config : Config) (j : ℤ) (a : String) where
  document-Kept :
      (envelope : Fields) (message_id document_id : Value) (document : Option Document)
      → Meets
          (λ st. Track Stage.ocr j a st × Fetched s document_id document st)
          (handle_document s config envelope message_id document_id document)
          (λ _. Track Stage.ocr j a)
          (λ _. Track Stage.ocr j a)
  unfolding handle_document
  document-Kept envelope message_id document_id none = record { at = λ w h. h.0 }
  document-Kept envelope message_id document_id (some d) =
      Meets-if (is_terminal d.status) (pure none)
        (work_on s config envelope message_id document_id d) (λ ended. record { at = λ w h. h.0 })
        λ going. record {
          at = λ w (t, (key, keyed, found)).
              (work_on-Kept s config j a document_id key keyed envelope message_id d going).at w
                (t, record { row = d; found = found; holds = refl });
        }

  fetch-Kept :
      (document_id : Value)
      → Meets
          (Track Stage.ocr j a)
          (fetch_document s document_id)
          (λ document st. Track Stage.ocr j a st × Fetched s document_id document st)
          (λ _. Track Stage.ocr j a)
  fetch-Kept document_id =
      Meets-strengthen (λ x st h. h) (Raises-keeps (Track Stage.ocr j a))
        (fetch_document-Meets (λ st h. h) s
          (λ document st. Track Stage.ocr j a st × Fetched s document_id document st) document_id
          (λ st d h. h.0) λ st k h e. (h, fetched s document_id st k e _ refl))

  seen-Kept : (message_id : Value) → Keeps (Track Stage.ocr j a) (already_processed message_id)
  seen-Kept message_id = Keeps-of_Raises (
      already_processed-Meets (λ st h. h) (λ _. Track Stage.ocr j a) message_id (λ st b h. h)
        λ st m h e. h)

  found-Kept :
      (envelope : Fields) (message_id document_id : Value)
      → Keeps (Track Stage.ocr j a) (
          fetch_document s document_id >>= handle_document s config envelope message_id document_id)
  found-Kept envelope message_id document_id = record {
    meets = Meets-bind (fetch-Kept document_id) (document-Kept envelope message_id document_id);
  }

  message-Kept :
      (envelope : Fields) (message_id document_id : Value)
      → Keeps (Track Stage.ocr j a) (handle_message s config envelope message_id document_id)
  unfolding handle_message
  message-Kept envelope message_id document_id =
      search (keeps_rules, seen-Kept, found-Kept) depth 12

  pub ocr-Kept : (envelope : Fields) → Keeps (Track Stage.ocr j a) (handle s config envelope)
  unfolding handle
  ocr-Kept envelope = search (keeps_rules, message-Kept) depth 12
