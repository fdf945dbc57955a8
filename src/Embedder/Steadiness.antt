-- ===== src/Embedder/Steadiness.antt =====
-- The embedder in the world in which every call works.
use digital_cip.Prelude.{ℕ, ℤ, String, Option, none, some, List, [], ◌∷◌}
use digital_cip.Json.{Value, Fields}
use digital_cip.Error.{Error, permanent, Outcome}
use digital_cip.Tables.{Vector, Document, Chunk, Db}
use digital_cip.Services.{Services}
use digital_cip.Exec.Steady.{Steady, Steady-call, Steady-pure, Steady-lift, steady_rules}
use digital_cip.Sql.Transaction.{transaction}
use digital_cip.Sql.Steadiness.{connect-Steady, transaction-Steady}
use digital_cip.Consumer.OnMessage.{Delivery}
use digital_cip.Consumer.Steadiness.{on_message-Steady}
use digital_cip.Ocr.Handle.{utc_now}
use digital_cip.Ocr.Extract.{external}
use digital_cip.Embedder.Config.{Config}
use digital_cip.Embedder.Connection.{register_vector, connection}
use digital_cip.Embedder.Db.{
  already_processed, record_processed, fetch_document, fetch_chunks_without_embedding,
  write_embeddings, update_document, record_event,
}
use digital_cip.Embedder.Embeddings.{load, model, embed_batch}
use digital_cip.Embedder.Handle.{
  finish, embed_chunks, process, rescue, handle_document, handle_message, handle, on_message,
}

external-Steady : {A : Type 0} (o : Outcome A) → Steady (external o)
unfolding external
external-Steady o = Steady-call _ (Steady-lift o)

register-Steady : Steady register_vector
unfolding register_vector
register-Steady = Steady-call _ (Steady-pure tt)

connection-Steady : Steady connection
unfolding connection
connection-Steady = search (steady_rules, connect-Steady, register-Steady) depth 12

statement-Steady :
    {A : Type 0} (body : ℕ → Db → Outcome (A × Db)) → Steady (transaction connection body)
statement-Steady body = transaction-Steady connection body connection-Steady

seen-Steady : (m : Value) → Steady (already_processed m)
unfolding already_processed
seen-Steady m = statement-Steady _

module _ (s : Services) where
  record-Steady :
      (m k d : Value) (consumer : String) (result : Option Fields)
      → Steady (record_processed s m k d consumer result)
  unfolding record_processed
  record-Steady m k d consumer result = statement-Steady _

  fetch-Steady : (d : Value) → Steady (fetch_document s d)
  unfolding fetch_document
  fetch-Steady d = statement-Steady _

  chunks-Steady : (d : Value) → Steady (fetch_chunks_without_embedding s d)
  unfolding fetch_chunks_without_embedding
  chunks-Steady d = statement-Steady _

  write-Steady : (rows : List (ℤ × Vector)) → Steady (write_embeddings s rows)
  unfolding write_embeddings
  write-Steady [] = search steady_rules
  write-Steady (row ∷ rows) = statement-Steady _

  update-Steady :
      (d : Value) (status : String) (e r f : Option String)
      → Steady (update_document s d status e r f)
  unfolding update_document
  update-Steady d status e r f = statement-Steady _

  event-Steady :
      (d : Value) (stage : String) (from : Option String) (to : String) (message : Option String)
      (payload : Option Fields)
      → Steady (record_event s d stage from to message payload)
  unfolding record_event
  event-Steady d stage from to message payload = statement-Steady _

  tick-Steady : Steady (utc_now s)
  unfolding utc_now
  tick-Steady = record { at = λ w h. h }

  module _ (config : Config) where
    load-Steady : Steady (load s config)
    unfolding load
    load-Steady = search (steady_rules, external-Steady) depth 12

    model-Steady : Steady (model s config)
    unfolding model
    model-Steady = search (steady_rules, load-Steady) depth 12

    batch-Steady : (texts : List String) → Steady (embed_batch s config texts)
    unfolding embed_batch
    batch-Steady texts = search (steady_rules, model-Steady, external-Steady) depth 12

    finish-Steady :
        (f : Fields) (m d : Value) (message : String) (payload : Option Fields) (n : ℕ)
        → Steady (finish s config f m d message payload n)
    unfolding finish
    finish-Steady f m d message payload n =
        search (steady_rules, tick-Steady, update-Steady, event-Steady, record-Steady) depth 12

    embed-Steady :
        (f : Fields) (m d : Value) (chunks : List Chunk)
        → Steady (embed_chunks s config f m d chunks)
    unfolding embed_chunks
    embed-Steady f m d [] = finish-Steady f m d _ none 0
    embed-Steady f m d (c ∷ chunks) =
        search (steady_rules, batch-Steady, write-Steady, finish-Steady) depth 12

    process-Steady :
        (f : Fields) (m d : Value) (document : Document) → Steady (process s config f m d document)
    unfolding process
    process-Steady f m d document =
        search (steady_rules, update-Steady, event-Steady, chunks-Steady, embed-Steady) depth 12

    rescue-Steady : (d : Value) (e : Error) → Steady (rescue s config d e)
    unfolding rescue
    rescue-Steady d (permanent m) =
        search (steady_rules, tick-Steady, update-Steady, event-Steady) depth 12
    rescue-Steady d _ = search (steady_rules, event-Steady) depth 12

    document-Steady :
        (f : Fields) (m d : Value) (document : Option Document)
        → Steady (handle_document s config f m d document)
    unfolding handle_document
    document-Steady f m d none = search steady_rules
    document-Steady f m d (some x) = search (steady_rules, process-Steady, rescue-Steady) depth 12

    message-Steady : (f : Fields) (m d : Value) → Steady (handle_message s config f m d)
    unfolding handle_message
    message-Steady f m d =
        search (steady_rules, seen-Steady, fetch-Steady, document-Steady) depth 12

    handle-Steady : (f : Fields) → Steady (handle s config f)
    unfolding handle
    handle-Steady f = search (steady_rules, message-Steady) depth 12

    pub embedder-Steady : (d : Delivery) → Steady (on_message s config d)
    unfolding on_message
    embedder-Steady d =
        on_message-Steady "embed" config.max_retries (handle s config) handle-Steady d
