-- ===== src/Ocr/Db/Calm.antt =====
-- What each function of db.py does where every call works.
use digital_cip.Prelude.{◌≡◌, ℤ, String, Option, some}
use digital_cip.Json.{Value, Fields, obj, or_empty}
use digital_cip.Error.{ok, returned}
use digital_cip.Tables.{Document, ProcessingEvent, ProcessedMessage}
use digital_cip.Services.{Services}
use digital_cip.World.{State}
use digital_cip.Exec.Calm.{calm}
use digital_cip.Sql.Transaction.{transaction-calm, connect-calm}
use digital_cip.Sql.Statements.{
  text_key, text_column, bigint_key, select_document, is_recorded, insert_event,
}
use digital_cip.Sql.Changes.{with_db, with_documents, with_event, with_processed}
use digital_cip.Ocr.Db.{
  connection, already_processed, record_processed, fetch_document, update_document_status,
  record_event,
}
use digital_cip.Ocr.Db.Status.{with_status, update_document_status_lem}

pub already_processed-calm :
    (message_id : Value) (m : Option String) (st : State)
    → text_key message_id ≡ returned m
    → already_processed message_id (calm st)
      ≡ (ok (is_recorded m st.db.processed_messages), calm st)
unfolding already_processed connection
already_processed-calm message_id m st e = transaction-calm _ _ st _ st.db (connect-calm st) (rw e)

module _ (s : Services) (document_id : Value) (k : ℤ)
    (keyed : bigint_key s document_id ≡ returned (some k)) (st : State) where
  pub fetch_document-calm :
      fetch_document s document_id (calm st)
      ≡ (ok (select_document (some k) st.db.documents), calm st)
  unfolding fetch_document connection
  fetch_document-calm = transaction-calm _ _ st _ st.db (connect-calm st) (rw keyed)

  pub update_document_status-calm :
      (status : String) (t r c f : Option String)
      → update_document_status s document_id status t r c f (calm st)
        ≡ (ok tt, calm (with_db (with_documents (with_status status t r c f st.clock) (some k)) st))
  unfolding connection
  update_document_status-calm status t r c f =
      rw (update_document_status_lem s document_id status t r c f)
        (transaction-calm _ _ st _ _ (connect-calm st) (rw keyed))

  abbrev pub event_row :
      (stage : String) (from : Option String) (to : String) (message : Option String)
      (payload : Option Fields)
      → ProcessingEvent
  event_row stage from to message payload = record {
    document_id = k;
    stage = stage;
    from_state = from;
    to_state = to;
    actor = "system";
    message = message;
    payload = obj (or_empty payload);
    created_at = st.clock;
  }

  pub record_event-calm :
      (stage : String) (from : Option String) (to : String) (message : Option String)
      (payload : Option Fields) (d : Document)
      → select_document (some k) st.db.documents ≡ some d
      → record_event s document_id stage from to message payload "system" (calm st)
        ≡ (ok tt, calm (with_db (with_event (event_row stage from to message payload)) st))
  unfolding record_event connection insert_event
  record_event-calm stage from to message payload d found =
      transaction-calm _ _ st _ _ (connect-calm st) (rw (keyed, insert_event, found))

  abbrev pub processed_row :
      (id key stage consumer : String) (result : Option Fields) → ProcessedMessage
  processed_row id key stage consumer result = record {
    message_id = id;
    idempotency_key = key;
    stage = stage;
    document_id = some k;
    consumer = consumer;
    result = or_empty result;
    processed_at = st.clock;
  }

  pub record_processed-calm :
      (message_id idempotency_key : Value) (id key stage consumer : String) (result : Option Fields)
      → text_column s message_id ≡ returned id
      → text_column s idempotency_key ≡ returned key
      → record_processed s message_id idempotency_key stage document_id consumer result (calm st)
        ≡ (ok tt, calm (with_db (with_processed (processed_row id key stage consumer result)) st))
  unfolding record_processed connection
  record_processed-calm message_id idempotency_key id key stage consumer result e e' =
      transaction-calm _ _ st _ _ (connect-calm st) (rw (e, e', keyed))
