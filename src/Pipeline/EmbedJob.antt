-- ===== src/Pipeline/EmbedJob.antt =====
-- What the embedder's `handle` makes of a document's status, whatever the message says and
-- whichever of its calls fail.
use digital_cip.Prelude.{refl, ℤ, String, Option, none, some}
use digital_cip.Json.{Value, Fields}
use digital_cip.Tables.{Document}
use digital_cip.Services.{Services}
use digital_cip.Exec.{pure, try, ◌>>=◌}
use digital_cip.Exec.Rules.{Meets, Meets-bind, Meets-if, Meets-strengthen}
use digital_cip.Exec.Keeps.{Raises-keeps, Keeps, Keeps-of_Raises, keeps_rules}
use digital_cip.Embedder.Config.{Config}
use digital_cip.Embedder.Db.{already_processed, fetch_document}
use digital_cip.Embedder.Db.Rules.{already_processed-Meets, fetch_document-Meets}
use digital_cip.Ocr.Handle.{is_terminal}
use digital_cip.Embedder.Handle.{process, rescue, handle_document, handle_message, handle}
use digital_cip.Broker.Stages.{Stage}
use digital_cip.Pipeline.OcrJob.{Fetched, fetched}
use digital_cip.Pipeline.Track.{Track}
use digital_cip.Pipeline.EmbedCourse.{try-Kept}

module _ (s : Services) (config : Config) (j : ℤ) (a : String) where
  document-Kept :
      (envelope : Fields) (message_id document_id : Value) (document : Option Document)
      → Meets
          (λ st. Track Stage.embed j a st × Fetched s document_id document st)
          (handle_document s config envelope message_id document_id document)
          (λ _. Track Stage.embed j a)
          (λ _. Track Stage.embed j a)
  unfolding handle_document
  document-Kept envelope message_id document_id none = record { at = λ w h. h.0 }
  document-Kept envelope message_id document_id (some d) =
      Meets-if (is_terminal d.status) (pure tt)
        (try (process s config envelope message_id document_id d) (rescue s config document_id))
        (λ ended. record { at = λ w h. h.0 })
        λ going. record {
          at = λ w (t, (key, keyed, found)).
              (try-Kept s config j a document_id key keyed envelope message_id d going).at w
                (t, record { row = d; found = found; holds = refl });
        }

  fetch-Kept :
      (document_id : Value)
      → Meets
          (Track Stage.embed j a)
          (fetch_document s document_id)
          (λ document st. Track Stage.embed j a st × Fetched s document_id document st)
          (λ _. Track Stage.embed j a)
  fetch-Kept document_id =
      Meets-strengthen (λ x st h. h) (Raises-keeps (Track Stage.embed j a))
        (fetch_document-Meets (λ st h. h) s
          (λ document st. Track Stage.embed j a st × Fetched s document_id document st) document_id
          (λ st d h. h.0) λ st k h e. (h, fetched s document_id st k e _ refl))

  seen-Kept : (message_id : Value) → Keeps (Track Stage.embed j a) (already_processed message_id)
  seen-Kept message_id = Keeps-of_Raises (
      already_processed-Meets (λ st h. h) (λ _. Track Stage.embed j a) message_id (λ st b h. h)
        λ st m h e. h)

  found-Kept :
      (envelope : Fields) (message_id document_id : Value)
      → Keeps (Track Stage.embed j a) (
          fetch_document s document_id >>= handle_document s config envelope message_id document_id)
  found-Kept envelope message_id document_id = record {
    meets = Meets-bind (fetch-Kept document_id) (document-Kept envelope message_id document_id);
  }

  message-Kept :
      (envelope : Fields) (message_id document_id : Value)
      → Keeps (Track Stage.embed j a) (handle_message s config envelope message_id document_id)
  unfolding handle_message
  message-Kept envelope message_id document_id =
      search (keeps_rules, seen-Kept, found-Kept) depth 12

  pub embed-Kept : (envelope : Fields) → Keeps (Track Stage.embed j a) (handle s config envelope)
  unfolding handle
  embed-Kept envelope = search (keeps_rules, message-Kept) depth 12
