-- ===== src/Ocr/Db/Rules.antt =====
-- A rule for each function of db.py: what holds before it (`P`), after it (`Q`), and after an
-- exception of it (`I`), whichever of its calls fail.
use digital_cip.Prelude.{◌≡◌, refl, ℤ, Bool, String, Option, some}
use digital_cip.Json.{Value, Fields}
use digital_cip.Error.{returned}
use digital_cip.Tables.{Document, ProcessingEvent, ProcessedMessage}
use digital_cip.Services.{Services}
use digital_cip.World.{State}
use digital_cip.Exec.Rules.{Meets, Raises, Raises-again}
use digital_cip.Sql.Transaction.{connect-Meets}
use digital_cip.Sql.Rules.{Opens, seen-Meets, keyed-Meets, update-Meets, event-Meets, record-Meets}
use digital_cip.Sql.Statements.{text_key, text_column, bigint_key, select_document, is_recorded}
use digital_cip.Sql.Changes.{with_db, with_documents, with_event, with_processed}
use digital_cip.Ocr.Db.{
  connection, already_processed, record_processed, fetch_document, update_document_status,
  record_event,
}
use digital_cip.Ocr.Db.Status.{with_status, update_document_status_lem}

connection-Opens : Opens connection
unfolding connection
connection-Opens = record {
  opened = λ P I before. connect-Meets (λ st f. before st) (Raises-again I);
}

module _ {P I : State → Type 0} (before : (st : State) → P st → I st) where
  pub already_processed-Meets :
      (Q : Bool → State → Type 0) (message_id : Value)
      → ((st : State) (b : Bool) → Q b st → I st)
      → ((st : State) (m : Option String)
          → P st
          → text_key message_id ≡ returned m
          → Q (is_recorded m st.db.processed_messages) st)
      → Meets P (already_processed message_id) Q (Raises I)
  unfolding already_processed
  already_processed-Meets = seen-Meets connection connection-Opens before

  module _ (s : Services) where
    pub fetch_document-Meets :
        (Q : Option Document → State → Type 0) (document_id : Value)
        → ((st : State) (d : Option Document) → Q d st → I st)
        → ((st : State) (k : Option ℤ)
            → P st
            → bigint_key s document_id ≡ returned k
            → Q (select_document k st.db.documents) st)
        → Meets P (fetch_document s document_id) Q (Raises I)
    unfolding fetch_document
    fetch_document-Meets Q document_id =
        keyed-Meets connection connection-Opens before s document_id Q
          (λ k now db. (select_document k db.documents, db))

    pub update_document_status-Meets :
        (Q : State → Type 0) (document_id : Value) (status : String)
        (raw_text failure_reason ocr_completed_at failed_at : Option String)
        → ((st : State) → Q st → I st)
        → ((st : State) (k : Option ℤ)
            → P st
            → bigint_key s document_id ≡ returned k
            → Q (
                with_db
                  (with_documents
                    (with_status status raw_text failure_reason ocr_completed_at failed_at st.clock)
                    k)
                  st))
        → Meets P
            (update_document_status s document_id status raw_text failure_reason ocr_completed_at
              failed_at)
            (λ _. Q)
            (Raises I)
    update_document_status-Meets Q document_id status t r c f after all =
        rw (update_document_status_lem s document_id status t r c f) (
          update-Meets connection connection-Opens before s document_id Q
            (with_status status t r c f) after all)

    pub record_event-Meets :
        (Q : State → Type 0) (document_id : Value) (stage : String) (from_state : Option String)
        (to_state : String) (message : Option String) (payload : Option Fields) (actor : String)
        → ((st : State) → Q st → I st)
        → ((st : State) (k : ℤ) (row : ProcessingEvent)
            → P st
            → bigint_key s document_id ≡ returned (some k)
            → (row.document_id ≡ k) × (row.stage ≡ stage)
            → Q (with_db (with_event row) st))
        → Meets P
            (record_event s document_id stage from_state to_state message payload actor)
            (λ _. Q)
            (Raises I)
    unfolding record_event
    record_event-Meets Q document_id stage from to message payload actor after all =
        event-Meets connection connection-Opens before s document_id stage Q _
          (λ id now. (refl, refl)) after all

    pub record_processed-Meets :
        (Q : State → Type 0) (message_id idempotency_key : Value) (stage : String)
        (document_id : Value) (consumer : String) (result : Option Fields)
        → ((st : State) → Q st → I st)
        → ((st : State) (row : ProcessedMessage)
            → P st
            → text_column s message_id ≡ returned row.message_id
            → Q (with_db (with_processed row) st))
        → Meets P
            (record_processed s message_id idempotency_key stage document_id consumer result)
            (λ _. Q)
            (Raises I)
    unfolding record_processed
    record_processed-Meets Q message_id idempotency_key stage document_id consumer result after
          all =
        record-Meets connection connection-Opens before s message_id idempotency_key document_id Q _
          (λ m k d now. refl) after all
