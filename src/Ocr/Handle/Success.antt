-- ===== src/Ocr/Handle/Success.antt =====
-- The OCR worker's `handle` where every call works and the document has a text.
use digital_cip.Prelude.{◌≡◌, refl, ℕ, suc, pos, ℤ, false, String, Option, none, some}
use Prim.Native.String.{count}
use digital_cip.Json.{Value, Fields, no_fields, field, num, str, obj, get, get_or, null, merge}
use digital_cip.Error.{ok, returned}
use digital_cip.Tables.{Document}
use digital_cip.Services.{Services, Bytes}
use digital_cip.World.{State}
use digital_cip.Exec.Calm.{calm}
use digital_cip.Sql.Statements.{text_key, text_column, bigint_key, select_document, is_recorded}
use digital_cip.Sql.Laws.{select-update_found}
use digital_cip.Sql.Changes.{with_db, with_documents, with_event, with_processed}
use digital_cip.Ocr.Config.{Config, service_name}
use digital_cip.Ocr.Db.Status.{with_status}
use digital_cip.Ocr.Db.Calm.{
  already_processed-calm, fetch_document-calm, update_document_status-calm, event_row,
  record_event-calm, processed_row, record_processed-calm,
}
use digital_cip.Ocr.Extract.Calm.{TextOf, pages_meta, download_object-calm, extract_text-calm}
use digital_cip.Ocr.Handle.{
  get_of, or_else, is_terminal, no_bytes, lacks_text, utc_now, done_message, publish_request,
  complete, process, work_on, handle_document, handle_message, handle,
}
use digital_cip.Ocr.Handle.Frame.{item-returned}

module _ (s : Services) (config : Config) (document_id : Value) (k : ℤ)
    (keyed : bigint_key s document_id ≡ returned (some k)) where
  -- The two statements that mark a stage of the work, one after the other.
  abbrev pub marked :
      (status : String) (text at_time : Option String) (from message : String)
      (payload : Option Fields)
      → State
      → State
  marked status text at_time from message payload st =
      let st' =
        with_db (with_documents (with_status status text none at_time none st.clock) (some k)) st in
      with_db
        (with_event
          (event_row s document_id k keyed st' "ocr" (some from) status (some message) payload))
        st'

  abbrev pub ticked : State → State
  ticked st = record st { clock = suc st.clock }

  abbrev pub begun : Document → State → State
  begun d = marked "ocr_processing" none none d.status "OCR started" none

  abbrev pub finished : String → ℕ → State → State
  finished text pages st =
      marked "ocr_completed" (some text) (some (s.isoformat st.clock)) "ocr_processing"
        (done_message s text (pages_meta pages)) (some (pages_meta pages)) (ticked st)

  abbrev pub listed : (id key text : String) → ℕ → State → State
  listed id key text pages st =
      with_db
        (with_processed (
          processed_row s document_id k keyed st id key "ocr" service_name
            (some (merge (field "chars" (num (pos (count text))) no_fields) (pages_meta pages)))))
        st

  complete-calm :
      (envelope : Fields) (message_id object_key idempotency_key : Value) (id key text : String)
      (pages : ℕ) (d : Document) (st : State)
      → select_document (some k) st.db.documents ≡ some d
      → get "idempotency_key" envelope ≡ some idempotency_key
      → text_column s message_id ≡ returned id
      → text_column s idempotency_key ≡ returned key
      → complete s config envelope message_id document_id object_key text
          (pages_meta pages)
          (calm st)
        ≡ (
          ok (some (publish_request object_key)),
          calm (listed id key text pages (finished text pages st)),
        )
  unfolding complete utc_now
  complete-calm envelope message_id object_key idempotency_key id key text pages d st found keyed' e
        e' =
      let st' =
        with_db
          (with_documents
            (with_status "ocr_completed" (some text) none (some (s.isoformat st.clock)) none
              (suc st.clock))
            (some k))
          (ticked st) in
      rw (
        update_document_status-calm s document_id k keyed (ticked st) "ocr_completed" (some text)
            none (some (s.isoformat st.clock)) none,
        record_event-calm s document_id k keyed st' "ocr" (some "ocr_processing") "ocr_completed"
            (some (done_message s text (pages_meta pages))) (some (pages_meta pages)) _
            (select-update_found _ (λ x. refl) (some k) st.db.documents d found),
        item-returned "idempotency_key" envelope idempotency_key keyed',
        record_processed-calm s document_id k keyed (finished text pages st) message_id
            idempotency_key id key "ocr" service_name _ e e',
      )

  process-calm :
      (envelope : Fields) (message_id object_key idempotency_key : Value) (id key text : String)
      (pages : ℕ) (blob : Bytes) (d : Document) (st : State)
      → select_document (some k) st.db.documents ≡ some d
      → s.download_fileobj config.minio_bucket object_key ≡ returned blob
      → no_bytes blob ≡ false
      → TextOf s config blob d.content_type text pages
      → lacks_text text ≡ false
      → get "idempotency_key" envelope ≡ some idempotency_key
      → text_column s message_id ≡ returned id
      → text_column s idempotency_key ≡ returned key
      → process s config envelope message_id document_id object_key d (calm st) ≡ (
        ok (some (publish_request object_key)),
        calm (listed id key text pages (finished text pages (begun d st))),
      )
  unfolding process
  process-calm envelope message_id object_key idempotency_key id key text pages blob d st found
        loaded some_bytes read some_text keyed' e e' =
      let f = with_status "ocr_processing" none none none none st.clock in
      let st' : State = with_db (with_documents f (some k)) st in
      let found' = select-update_found f (λ x. refl) (some k) st.db.documents d found in
      rw
        (
          update_document_status-calm s document_id k keyed st "ocr_processing" none none none none,
          record_event-calm s document_id k keyed st' "ocr" (some d.status) "ocr_processing"
              (some "OCR started") none (f d) found',
          download_object-calm s config (begun d st) object_key blob loaded,
          some_bytes,
          extract_text-calm s config (begun d st) read,
          some_text,
        )
        (complete-calm envelope message_id object_key idempotency_key id key text pages (f d)
          (begun d st) found' keyed' e e')

-- The document's own key stands in where the message gives none, or an empty one.
abbrev pub key_of : Fields → Document → Value
key_of payload d = or_else (get_or "object_key" null payload) (str d.object_key)

-- What `handle` finds when it gets to work: a message that names itself, its document and its
-- payload, a document that has not come to an end, a stored object that is not empty, and a text
-- in it that is not blank.
pub record Ready (s : Services) (config : Config) (envelope : Fields) (st : State) : Type 0 where
  pub id : String
  pub document_id : Value
  pub payload : Fields
  pub key : String
  pub row_id : ℤ
  pub row : Document
  pub blob : Bytes
  pub text : String
  pub pages : ℕ
  pub names_itself : get "message_id" envelope ≡ some (str id)
  pub names_document : get "document_id" envelope ≡ some document_id
  pub has_payload : get "payload" envelope ≡ some (obj payload)
  pub has_key : get "idempotency_key" envelope ≡ some (str key)
  pub keyed : bigint_key s document_id ≡ returned (some row_id)
  pub fresh : is_recorded (some id) st.db.processed_messages ≡ false
  pub found : select_document (some row_id) st.db.documents ≡ some row
  pub live : is_terminal row.status ≡ false
  pub stored : s.download_fileobj config.minio_bucket (key_of payload row) ≡ returned blob
  pub some_bytes : no_bytes blob ≡ false
  pub read : TextOf s config blob row.content_type text pages
  pub some_text : lacks_text text ≡ false

-- Where every call works and the worker is `Ready`, `handle` asks for the next message, with the
-- key of the object. It has set the status to `ocr_processing` and then to `ocr_completed` with
-- the text and the time, has added an event for each of the two, and has recorded the message.
pub handle-Ready :
    (s : Services) (config : Config) (envelope : Fields) (st : State)
    → (r : Ready s config envelope st)
    → handle s config envelope (calm st) ≡ (
      ok (some (publish_request (key_of r.payload r.row))),
      calm (
          listed s config r.document_id r.row_id r.keyed r.id r.key r.text r.pages (
            finished s config r.document_id r.row_id r.keyed r.text r.pages
              (begun s config r.document_id r.row_id r.keyed r.row st))),
    )
unfolding handle handle_message handle_document work_on get_of text_key text_column
handle-Ready s config envelope st r = rw (
  item-returned "message_id" envelope (str r.id) r.names_itself,
  item-returned "document_id" envelope r.document_id r.names_document,
  already_processed-calm (str r.id) (some r.id) st refl,
  r.fresh,
  fetch_document-calm s r.document_id r.row_id r.keyed st,
  r.found,
  r.live,
  item-returned "payload" envelope (obj r.payload) r.has_payload,
  process-calm s config r.document_id r.row_id r.keyed envelope (str r.id) (key_of r.payload r.row)
      (str r.key) r.id r.key r.text r.pages r.blob r.row st r.found r.stored r.some_bytes r.read
      r.some_text r.has_key refl refl,
)
