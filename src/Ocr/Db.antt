-- ===== src/Ocr/Db.antt =====
-- workers/ocr/app/db.py: one transaction for each function.
pub mod Status
pub mod Rules
pub mod Calm
pub mod RoundTrip
use digital_cip.Prelude.{Bool, String, Option, List, [], ◌∷◌, ◌++◌}
use digital_cip.Json.{Value, Fields, obj, or_empty}
use digital_cip.Error.{returned, ◌>>=◌}
use digital_cip.Tables.{Document, ProcessedMessage, Db}
use digital_cip.Services.{Services}
use digital_cip.Exec.{Exec}
use digital_cip.Sql.Transaction.{transaction, connect}
use digital_cip.Sql.Statements.{
  text_key, text_column, bigint_key, select_document, is_recorded, insert_processed, insert_event,
}
use digital_cip.Sql.Update.{
  SetItem, placeholder, updated_at_now, Param, text, key, Column, append_field, update_documents,
}

-- `_connection`: the credentials are the environment's.
unfoldable pub connection : Exec Db
connection = connect

unfoldable pub already_processed : Value → Exec Bool
already_processed message_id =
    transaction connection
      λ now db. do m ← text_key message_id; returned (is_recorded m db.processed_messages, db)

module _ (s : Services) where
  unfoldable pub record_processed :
      (message_id idempotency_key : Value) (stage : String) (document_id : Value)
      (consumer : String) (result : Option Fields)
      → Exec (Unit {0})
  record_processed message_id idempotency_key stage document_id consumer result =
      transaction connection λ now db. do
        m ← text_column s message_id
        k ← text_column s idempotency_key
        d ← bigint_key s document_id
        let row : ProcessedMessage = record {
          message_id = m;
          idempotency_key = k;
          stage = stage;
          document_id = d;
          consumer = consumer;
          result = or_empty result;
          processed_at = now;
        }
        returned (tt, record db { processed_messages = insert_processed row db.processed_messages })

  unfoldable pub fetch_document : Value → Exec (Option Document)
  fetch_document document_id =
      transaction connection
        λ now db. do k ← bigint_key s document_id; returned (select_document k db.documents, db)

  unfoldable pub update_document_status :
      (document_id : Value) (status : String)
      (raw_text failure_reason ocr_completed_at failed_at : Option String)
      → Exec (Unit {0})
  update_document_status document_id status raw_text failure_reason ocr_completed_at failed_at =
      let f₀ : List SetItem × List Param = (placeholder Column.status ∷ [], text status ∷ []) in
      let f₁ = append_field Column.raw_text raw_text f₀ in
      let f₂ = append_field Column.failure_reason failure_reason f₁ in
      let f₃ = append_field Column.ocr_completed_at ocr_completed_at f₂ in
      let (fields, values) = append_field Column.failed_at failed_at f₃ in
      transaction connection
        (update_documents s (fields ++ (updated_at_now ∷ [])) (values ++ (key document_id ∷ [])))

  -- Every caller leaves `actor` at its default.
  unfoldable pub record_event :
      (document_id : Value) (stage : String) (from_state : Option String) (to_state : String)
      (message : Option String) (payload : Option Fields) (actor : String)
      → Exec (Unit {0})
  record_event document_id stage from_state to_state message payload actor =
      transaction connection λ now db. do
        d ← bigint_key s document_id
        insert_event
            (λ id. record {
              document_id = id;
              stage = stage;
              from_state = from_state;
              to_state = to_state;
              actor = actor;
              message = message;
              payload = obj (or_empty payload);
              created_at = now;
            })
            d db
