-- ===== src/Embedder/Db/Rules.antt =====
-- A rule for each function of the embedder's db.py: what holds before it (`P`), after it (`Q`), and
-- after an exception of it (`I`), whichever of its calls fail.
use digital_cip.Prelude.{◌≡◌, refl, ℕ, ℤ, Bool, String, Option, some, List, [], ◌∷◌}
use digital_cip.Json.{Value, Fields}
use digital_cip.Error.{returned}
use digital_cip.Tables.{Vector, Chunk, Document, ProcessingEvent, ProcessedMessage, Db}
use digital_cip.Services.{Services}
use digital_cip.World.{State}
use digital_cip.Exec.Rules.{
  Meets, Raises, Raises-again, Meets-bind, Meets-idle, Meets-pure, Meets-weaken,
}
use digital_cip.Sql.Transaction.{connect-Meets}
use digital_cip.Sql.Rules.{
  Opens, answered, statement-Meets, seen-Meets, keyed-Meets, update-Meets, event-Meets,
  record-Meets,
}
use digital_cip.Sql.Statements.{text_key, text_column, bigint_key, select_document, is_recorded}
use digital_cip.Sql.Chunks.{select_missing, set_embeddings}
use digital_cip.Sql.Changes.{with_db, with_documents, with_event, with_processed}
use digital_cip.Embedder.Connection.{register_vector, connection}
use digital_cip.Embedder.Db.{
  already_processed, record_processed, fetch_document, fetch_chunks_without_embedding,
  write_embeddings, update_document, record_event,
}
use digital_cip.Embedder.Db.Status.{with_progress, update_document_lem}

abbrev pub with_embeddings : ℕ → List (ℤ × Vector) → Db → Db
with_embeddings now rows db = record db {
  document_chunks = set_embeddings now rows db.document_chunks;
}

connection-Opens : Opens connection
unfolding connection register_vector
connection-Opens = record {
  opened = λ P I before.
      Meets-bind (connect-Meets (λ st f. before st) (Raises-again I))
        λ conn. Meets-bind (Meets-idle (λ st f h. before st h.1)) λ _. Meets-pure conn;
}

module _ {P I : State → Type 0} (before : (st : State) → P st → I st) where
  pub already_processed-Meets :
      (Q : Bool → State → Type 0) (message_id : Value)
      → ((st : State) (b : Bool) → Q b st → I st)
      → ((st : State) (m : Option String)
          → P st
          → text_key message_id ≡ returned m
          → Q (is_recorded m st.db.processed_messages) st)
      → Meets P (already_processed message_id) Q (Raises I)
  unfolding already_processed
  already_processed-Meets = seen-Meets connection connection-Opens before

  module _ (s : Services) where
    pub fetch_document-Meets :
        (Q : Option Document → State → Type 0) (document_id : Value)
        → ((st : State) (d : Option Document) → Q d st → I st)
        → ((st : State) (k : Option ℤ)
            → P st
            → bigint_key s document_id ≡ returned k
            → Q (select_document k st.db.documents) st)
        → Meets P (fetch_document s document_id) Q (Raises I)
    unfolding fetch_document
    fetch_document-Meets Q document_id =
        keyed-Meets connection connection-Opens before s document_id Q
          (λ k now db. (select_document k db.documents, db))

    pub fetch_chunks-Meets :
        (Q : List Chunk → State → Type 0) (document_id : Value)
        → ((st : State) (cs : List Chunk) → Q cs st → I st)
        → ((st : State) (k : Option ℤ)
            → P st
            → bigint_key s document_id ≡ returned k
            → Q (select_missing k st.db.document_chunks) st)
        → Meets P (fetch_chunks_without_embedding s document_id) Q (Raises I)
    unfolding fetch_chunks_without_embedding
    fetch_chunks-Meets Q document_id =
        keyed-Meets connection connection-Opens before s document_id Q
          (λ k now db. (select_missing k db.document_chunks, db))

    pub write_embeddings-Meets :
        (Q : State → Type 0) (rows : List (ℤ × Vector))
        → ((st : State) → Q st → I st)
        → ((st : State) → P st → Q (with_db (with_embeddings st.clock rows) st))
        → Meets P (write_embeddings s rows) (λ _. Q) (Raises I)
    unfolding write_embeddings set_embeddings
    write_embeddings-Meets Q [] after all = Meets-weaken all (Meets-pure tt)
    write_embeddings-Meets Q (row ∷ rows) after all =
        statement-Meets connection connection-Opens before (λ _. Q) _ (λ st a. after st)
          λ st a db p h. answered (λ _. Q) st h (all st p)

    pub update_document-Meets :
        (Q : State → Type 0) (document_id : Value) (status : String)
        (embedded_at failure_reason failed_at : Option String)
        → ((st : State) → Q st → I st)
        → ((st : State) (k : Option ℤ)
            → P st
            → bigint_key s document_id ≡ returned k
            → Q (
                with_db
                  (with_documents
                    (with_progress status embedded_at failure_reason failed_at st.clock)
                    k)
                  st))
        → Meets P
            (update_document s document_id status embedded_at failure_reason failed_at)
            (λ _. Q)
            (Raises I)
    update_document-Meets Q document_id status e r f after all =
        rw (update_document_lem s document_id status e r f) (
          update-Meets connection connection-Opens before s document_id Q
            (with_progress status e r f) after all)

    pub record_event-Meets :
        (Q : State → Type 0) (document_id : Value) (stage : String) (from_state : Option String)
        (to_state : String) (message : Option String) (payload : Option Fields)
        → ((st : State) → Q st → I st)
        → ((st : State) (k : ℤ) (row : ProcessingEvent)
            → P st
            → bigint_key s document_id ≡ returned (some k)
            → (row.document_id ≡ k) × (row.stage ≡ stage)
            → Q (with_db (with_event row) st))
        → Meets P
            (record_event s document_id stage from_state to_state message payload)
            (λ _. Q)
            (Raises I)
    unfolding record_event
    record_event-Meets Q document_id stage from to message payload after all =
        event-Meets connection connection-Opens before s document_id stage Q _
          (λ id now. (refl, refl)) after all

    pub record_processed-Meets :
        (Q : State → Type 0) (message_id idempotency_key document_id : Value) (consumer : String)
        (result : Option Fields)
        → ((st : State) → Q st → I st)
        → ((st : State) (row : ProcessedMessage)
            → P st
            → text_column s message_id ≡ returned row.message_id
            → Q (with_db (with_processed row) st))
        → Meets P
            (record_processed s message_id idempotency_key document_id consumer result)
            (λ _. Q)
            (Raises I)
    unfolding record_processed
    record_processed-Meets Q message_id idempotency_key document_id consumer result after all =
        record-Meets connection connection-Opens before s message_id idempotency_key document_id Q _
          (λ m k d now. refl) after all
