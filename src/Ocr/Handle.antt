-- ===== src/Ocr/Handle.antt =====
-- `handle` and `_publish_next` of workers/ocr/app/worker.py. An exception that an `except` clause
-- raises is not caught by the other clauses of its `try`.
pub mod Induction
pub mod Frame
pub mod Attempt
pub mod Ending
pub mod Idle
pub mod Blank
pub mod Local
pub mod Success
use Prim.Native.String.{count}
use digital_cip.Prelude.{
  suc, pos, String, Bool, true, false, Option, none, some, [], ◌∷◌, ◌==◌, ◌||◌, if◌then◌else◌,
}
use digital_cip.Prelude.Text.{concat, decimal, strip, is_empty}
use digital_cip.Json.{
  Value, Fields, no_fields, field, null, num, str, obj, get, get_or, merge, truthy, str_of,
}
use digital_cip.Error.{Error, Outcome, returned, raised, permanent, transient, other, ok, text_of}
use digital_cip.Tables.{Document}
use digital_cip.Services.{Services, Bytes}
use digital_cip.Exec.{Exec, pure, raise, lift, try, ◌>>=◌, ◌>>◌}
use digital_cip.Ocr.Config.{Config, service_name}
use digital_cip.Ocr.Db.{
  already_processed, record_processed, fetch_document, update_document_status, record_event,
}
use digital_cip.Ocr.Extract.{download_object, extract_text}

-- `envelope[key]`
unfoldable pub item : String → Fields → Outcome Value
item key envelope = elim (get key envelope) [
  | none ↦ raised (other (concat ("'" ∷ key ∷ "'" ∷ [])))
  | some v ↦ returned v
]

-- `v.get(key)` of a value that ought to be a dict
unfoldable pub get_of : String → Value → Outcome Value
get_of key (obj fields) = returned (get_or key null fields)
get_of key _ = raised (other "object has no attribute 'get'")

-- `a or b`
abbrev pub or_else : Value → Value → Value
or_else a b = if truthy a then a else b

-- `status in ('embedded', 'failed')`
unfoldable pub is_terminal : String → Bool
is_terminal status = status == "embedded" || status == "failed"

abbrev pub no_bytes : Bytes → Bool
no_bytes [] = true
no_bytes (b ∷ bs) = false

-- `not text or not text.strip()`
unfoldable pub lacks_text : String → Bool
unfolding strip
lacks_text text = is_empty text || is_empty (strip text)

-- `{'publish_next': {'object_key': object_key}}`
abbrev pub publish_request : Value → Fields
publish_request object_key =
    field "publish_next" (obj (field "object_key" object_key no_fields)) no_fields

-- `f'OCR done ({meta.get("pages", 1)} pages, {len(text)} chars)'`
unfoldable pub done_message : Services → String → Fields → String
done_message s text meta = concat (
    "OCR done ("
    ∷ str_of s.repr (get_or "pages" (num (pos 1)) meta)
    ∷ " pages, "
    ∷ decimal (count text)
    ∷ " chars)"
    ∷ [])

module _ (s : Services) where
  -- `datetime.now(timezone.utc).isoformat()`; the clock goes on.
  unfoldable pub utc_now : Exec String
  utc_now w =
      (ok (s.isoformat w.clock), record w { state = record w.state { clock = suc w.clock } })

  module _ (config : Config) where
    -- the end of the `try`, from the second status on
    unfoldable pub complete :
        (envelope : Fields) (message_id document_id object_key : Value) (text : String)
        (meta : Fields)
        → Exec (Option Fields)
    complete envelope message_id document_id object_key text meta = do
      now ← utc_now
      update_document_status s document_id "ocr_completed" (some text) none (some now) none
      record_event s document_id "ocr" (some "ocr_processing") "ocr_completed"
          (some (done_message s text meta)) (some meta) "system"
      idempotency_key ← lift (item "idempotency_key" envelope)
      record_processed s message_id idempotency_key "ocr" document_id service_name
          (some (merge (field "chars" (num (pos (count text))) no_fields) meta))
      pure (some (publish_request object_key))

    -- the test of the text
    unfoldable pub accept :
        (envelope : Fields) (message_id document_id object_key : Value)
        → String × Fields
        → Exec (Option Fields)
    accept envelope message_id document_id object_key (text, meta) =
        if lacks_text text
        then raise (permanent "OCR produced empty text")
        else complete envelope message_id document_id object_key text meta

    -- the body of the `try`
    unfoldable pub process :
        (envelope : Fields) (message_id document_id object_key : Value) (document : Document)
        → Exec (Option Fields)
    unfolding accept
    process envelope message_id document_id object_key document = do
      update_document_status s document_id "ocr_processing" none none none none
      record_event s document_id "ocr" (some document.status) "ocr_processing" (some "OCR started")
          none "system"
      blob ← download_object s config object_key
      if no_bytes blob then raise (permanent "object body empty") else do
        found ← extract_text s config blob document.content_type
        accept envelope message_id document_id object_key found

    -- the `except` clauses
    unfoldable pub rescue : Value → Error → Exec (Option Fields)
    rescue document_id (permanent m) = do
      now ← utc_now
      update_document_status s document_id "failed" none (some m) none (some now)
      record_event s document_id "ocr" (some "ocr_processing") "failed" (some m) none "system"
      raise (permanent m)
    rescue document_id e = do
      record_event s document_id "ocr" (some "ocr_processing") "ocr_processing"
          (some (concat ("transient: " ∷ text_of e ∷ []))) none "system"
      raise (transient (text_of e))

    -- from the choice of the object's key on
    unfoldable pub work_on :
        (envelope : Fields) (message_id document_id : Value) → Document → Exec (Option Fields)
    work_on envelope message_id document_id document = do
      payload ← lift (item "payload" envelope)
      asked ← lift (get_of "object_key" payload)
      let object_key = or_else asked (str document.object_key)
      try (process envelope message_id document_id object_key document) (rescue document_id)

    -- from the test of the document on
    unfoldable pub handle_document :
        (envelope : Fields) (message_id document_id : Value)
        → Option Document
        → Exec (Option Fields)
    handle_document envelope message_id document_id none =
        raise (permanent (concat ("document " ∷ str_of s.repr document_id ∷ " not found" ∷ [])))
    handle_document envelope message_id document_id (some document) =
        if is_terminal document.status
        then pure none
        else work_on envelope message_id document_id document

    -- from the test of `already_processed` on
    unfoldable pub handle_message :
        (envelope : Fields) (message_id document_id : Value) → Exec (Option Fields)
    handle_message envelope message_id document_id = do
      seen ← already_processed message_id
      if seen then pure none else do
        document ← fetch_document s document_id
        handle_document envelope message_id document_id document

    unfoldable pub handle : Fields → Exec (Option Fields)
    handle envelope = do
      message_id ← lift (item "message_id" envelope)
      document_id ← lift (item "document_id" envelope)
      handle_message envelope message_id document_id
