-- ===== src/Ocr/Handle/Induction.antt =====
-- What every writing step of the OCR worker's `handle` keeps, `handle` keeps.
use digital_cip.Prelude.{String, Option, none, some}
use digital_cip.Json.{Value, Fields}
use digital_cip.Error.{Error, permanent}
use digital_cip.Tables.{Document}
use digital_cip.Services.{Services, Bytes}
use digital_cip.World.{State}
use digital_cip.Exec.Keeps.{Keeps, Keeps-of_Raises, keeps_rules}
use digital_cip.Ocr.Config.{Config}
use digital_cip.Ocr.Db.{
  already_processed, record_processed, fetch_document, update_document_status, record_event,
}
use digital_cip.Ocr.Db.Rules.{already_processed-Meets, fetch_document-Meets}
use digital_cip.Ocr.Extract.{download_object, extract_text}
use digital_cip.Ocr.Extract.Rules.{download_object-Reads, extract_text-Reads}
use digital_cip.Ocr.Handle.{
  utc_now, complete, accept, process, rescue, work_on, handle_document, handle_message,
}

-- The writing steps for one document, and the clock.
pub record WritesKeep (s : Services) (document_id message_id : Value) (P : State → Type 0)
    : Type 0 where
  pub updates :
      (status : String) (t r c f : Option String)
      → Keeps P (update_document_status s document_id status t r c f)
  pub events :
      (from : Option String) (to : String) (message : Option String) (payload : Option Fields)
      → Keeps P (record_event s document_id "ocr" from to message payload "system")
  pub records :
      (idempotency_key : Value) (consumer : String) (result : Option Fields)
      → Keeps P (record_processed s message_id idempotency_key "ocr" document_id consumer result)
  pub ticks : Keeps P (utc_now s)

module _ (s : Services) (config : Config) (document_id message_id : Value) {P : State → Type 0}
    (writes : WritesKeep s document_id message_id P) where
  open writes use {updates, events, records}

  tick-Keeps : Keeps P (utc_now s)
  tick-Keeps = writes.ticks

  download-Keeps : (k : Value) → Keeps P (download_object s config k)
  download-Keeps k = Keeps-of_Raises (download_object-Reads s config k).meets

  extract_text-Keeps :
      (blob : Bytes) (content_type : Option String)
      → Keeps P (extract_text s config blob content_type)
  extract_text-Keeps blob content_type =
      Keeps-of_Raises (extract_text-Reads s config blob content_type).meets

  complete-Keeps :
      (envelope : Fields) (object_key : Value) (text : String) (meta : Fields)
      → Keeps P (complete s config envelope message_id document_id object_key text meta)
  unfolding complete
  complete-Keeps envelope object_key text meta =
      search (keeps_rules, tick-Keeps, updates, events, records) depth 12

  accept-Keeps :
      (envelope : Fields) (object_key : Value) (found : String × Fields)
      → Keeps P (accept s config envelope message_id document_id object_key found)
  unfolding accept
  accept-Keeps envelope object_key (text, meta) = search (keeps_rules, complete-Keeps)

  process-Keeps :
      (envelope : Fields) (object_key : Value) (document : Document)
      → Keeps P (process s config envelope message_id document_id object_key document)
  unfolding process
  process-Keeps envelope object_key document =
      search (keeps_rules, updates, events, download-Keeps, extract_text-Keeps, accept-Keeps) depth
        12

  rescue-Keeps : (e : Error) → Keeps P (rescue s config document_id e)
  unfolding rescue
  rescue-Keeps (permanent m) = search (keeps_rules, tick-Keeps, updates, events) depth 12
  rescue-Keeps _ = search (keeps_rules, events) depth 12

  work_on-Keeps :
      (envelope : Fields) (document : Document)
      → Keeps P (work_on s config envelope message_id document_id document)
  unfolding work_on
  work_on-Keeps envelope d = search (keeps_rules, process-Keeps, rescue-Keeps) depth 12

  handle_document-Keeps :
      (envelope : Fields) (document : Option Document)
      → Keeps P (handle_document s config envelope message_id document_id document)
  unfolding handle_document
  handle_document-Keeps envelope none = search keeps_rules
  handle_document-Keeps envelope (some d) = search (keeps_rules, work_on-Keeps)

  seen-Keeps : Keeps P (already_processed message_id)
  seen-Keeps =
      Keeps-of_Raises
        (already_processed-Meets (λ st h. h) (λ _. P) message_id (λ st b h. h) λ st m h e. h)

  fetch-Keeps : Keeps P (fetch_document s document_id)
  fetch-Keeps =
      Keeps-of_Raises
        (fetch_document-Meets (λ st h. h) s (λ _. P) document_id (λ st b h. h) λ st m h e. h)

  pub handle_message-Keeps :
      (envelope : Fields) → Keeps P (handle_message s config envelope message_id document_id)
  unfolding handle_message
  handle_message-Keeps envelope =
      search (keeps_rules, seen-Keeps, fetch-Keeps, handle_document-Keeps) depth 12
