-- ===== src/Embedder/Handle.antt =====
-- `handle` of workers/embedder/app/worker.py, and the consumer's `on_message` with it.
pub mod Progress
pub mod Attempt
pub mod Ending
pub mod Induction
pub mod Frame
pub mod Completion
pub mod Success
use digital_cip.Prelude.{
  ℕ, ◌+◌, pos, ℤ, String, Option, none, some, List, [], ◌∷◌, length, map, if◌then◌else◌,
}
use digital_cip.Prelude.Text.{concat, decimal}
use digital_cip.Json.{Value, Fields, no_fields, field, num, str_of}
use digital_cip.Error.{Error, permanent, transient, text_of}
use digital_cip.Tables.{Vector, Document, Chunk}
use digital_cip.Services.{Services}
use digital_cip.World.{Metrics}
use digital_cip.Exec.{Exec, pure, raise, lift, modify, try, ◌>>=◌, ◌>>◌}
use digital_cip.Consumer.Effects.{on_metrics}
use digital_cip.Consumer.OnMessage
use digital_cip.Consumer.OnMessage.{Delivery}
use digital_cip.Ocr.Handle.{item, is_terminal, utc_now}
use digital_cip.Embedder.Config.{Config, service_name}
use digital_cip.Embedder.Embeddings.{embed_batch}
use digital_cip.Embedder.Db.{
  already_processed, record_processed, fetch_document, fetch_chunks_without_embedding,
  write_embeddings, update_document, record_event,
}

-- `[(c['id'], v) for c, v in zip(chunks, vectors)]`
unfoldable pub rows_of : List Chunk → List Vector → List (ℤ × Vector)
rows_of (c ∷ chunks) (v ∷ vectors) = (c.id, v) ∷ rows_of chunks vectors
rows_of _ _ = []

-- `CHUNKS_EMBEDDED.inc(n)`
abbrev pub embedded : ℕ → Metrics → Metrics
embedded n m = record m { chunks_embedded = m.chunks_embedded + n }

abbrev pub count_of : String → ℕ → Fields
count_of key n = field key (num (pos n)) no_fields

module _ (s : Services) (config : Config) where
  -- the last calls of the `try`, which the case without chunks has too
  unfoldable pub finish :
      (envelope : Fields) (message_id document_id : Value) (message : String)
      (payload : Option Fields) (n : ℕ)
      → Exec (Unit {0})
  finish envelope message_id document_id message payload n = do
    now ← utc_now s
    update_document s document_id "embedded" (some now) none none
    record_event s document_id "embed" (some "embedding") "embedded" (some message) payload
    idempotency_key ← lift (item "idempotency_key" envelope)
    record_processed s message_id idempotency_key document_id service_name
        (some (count_of "embedded" n))

  -- from the test of the chunks on
  unfoldable pub embed_chunks :
      (envelope : Fields) (message_id document_id : Value) → List Chunk → Exec (Unit {0})
  embed_chunks envelope message_id document_id [] =
      finish envelope message_id document_id "Already embedded; nothing to do" none 0
  embed_chunks envelope message_id document_id (c ∷ chunks) = do
    vectors ← embed_batch s config (map (λ x. x.content) (c ∷ chunks))
    let rows = rows_of (c ∷ chunks) vectors
    write_embeddings s rows
    modify (on_metrics (embedded (length rows)))
    finish envelope message_id document_id
        (concat ("Embedded " ∷ decimal (length rows) ∷ " chunks" ∷ []))
        (some (count_of "chunks" (length rows))) (length rows)

  -- the body of the `try`
  unfoldable pub process :
      (envelope : Fields) (message_id document_id : Value) → Document → Exec (Unit {0})
  process envelope message_id document_id document = do
    update_document s document_id "embedding" none none none
    record_event s document_id "embed" (some document.status) "embedding" (some "Embedding started")
        none
    chunks ← fetch_chunks_without_embedding s document_id
    embed_chunks envelope message_id document_id chunks

  -- the `except` clauses
  unfoldable pub rescue : Value → Error → Exec (Unit {0})
  rescue document_id (permanent m) = do
    now ← utc_now s
    update_document s document_id "failed" none (some m) (some now)
    record_event s document_id "embed" (some "embedding") "failed" (some m) none
    raise (permanent m)
  rescue document_id e = do
    record_event s document_id "embed" (some "embedding") "embedding"
        (some (concat ("transient: " ∷ text_of e ∷ []))) none
    raise (transient (text_of e))

  -- from the test of the document on
  unfoldable pub handle_document :
      (envelope : Fields) (message_id document_id : Value) → Option Document → Exec (Unit {0})
  handle_document envelope message_id document_id none =
      raise (permanent (concat ("document " ∷ str_of s.repr document_id ∷ " not found" ∷ [])))
  handle_document envelope message_id document_id (some document) =
      if is_terminal document.status
      then pure tt
      else try (process envelope message_id document_id document) (rescue document_id)

  -- from the test of `already_processed` on
  unfoldable pub handle_message :
      (envelope : Fields) (message_id document_id : Value) → Exec (Unit {0})
  handle_message envelope message_id document_id = do
    seen ← already_processed message_id
    if seen then pure tt else do
      document ← fetch_document s document_id
      handle_document envelope message_id document_id document

  unfoldable pub handle : Fields → Exec (Unit {0})
  handle envelope = do
    message_id ← lift (item "message_id" envelope)
    document_id ← lift (item "document_id" envelope)
    handle_message envelope message_id document_id

  unfoldable pub on_message : Delivery → Exec (Unit {0})
  on_message = OnMessage.on_message "embed" config.max_retries handle
