-- ===== src/Embedder/Handle/Induction.antt =====
-- What every writing step of the embedder's `handle` keeps, `handle` keeps.
use digital_cip.Prelude.{◌≡◌, ℕ, ℤ, String, Option, none, some, List, [], ◌∷◌}
use digital_cip.Json.{Value, Fields, get}
use digital_cip.Error.{Error, permanent, returned}
use digital_cip.Tables.{Vector, Document, Chunk}
use digital_cip.Services.{Services}
use digital_cip.World.{State}
use digital_cip.Exec.{modify}
use digital_cip.Exec.Rules.{Meets-strengthen, Meets-bind, Meets-lift}
use digital_cip.Exec.Keeps.{Keeps, Keeps-of_Raises, keeps_rules}
use digital_cip.Consumer.Effects.{on_metrics}
use digital_cip.Ocr.Handle.{item, utc_now}
use digital_cip.Ocr.Handle.Frame.{item-returned}
use digital_cip.Embedder.Config.{Config}
use digital_cip.Embedder.Db.{
  already_processed, record_processed, fetch_document, fetch_chunks_without_embedding,
  write_embeddings, update_document, record_event,
}
use digital_cip.Embedder.Db.Rules.{
  already_processed-Meets, fetch_document-Meets, fetch_chunks-Meets,
}
use digital_cip.Embedder.Embeddings.{with_model, embed_batch}
use digital_cip.Embedder.Embeddings.Rules.{embed_batch-Meets}
use digital_cip.Embedder.Handle.{
  embedded, finish, embed_chunks, process, rescue, handle_document, handle_message, handle,
}

-- The writing steps for one document, the counter of the chunks, and the clock.
pub record WritesKeep (s : Services) (document_id message_id : Value) (P : State → Type 0)
    : Type 0 where
  pub updates :
      (status : String) (e r f : Option String)
      → Keeps P (update_document s document_id status e r f)
  pub events :
      (from : Option String) (to : String) (message : Option String) (payload : Option Fields)
      → Keeps P (record_event s document_id "embed" from to message payload)
  pub records :
      (idempotency_key : Value) (consumer : String) (result : Option Fields)
      → Keeps P (record_processed s message_id idempotency_key document_id consumer result)
  pub writes : (rows : List (ℤ × Vector)) → Keeps P (write_embeddings s rows)
  pub counts : (n : ℕ) → Keeps P (modify (on_metrics (embedded n)))
  pub ticks : Keeps P (utc_now s)
  pub loads : (st : State) → P st → P (with_model st)

module _ (s : Services) (config : Config) (document_id message_id : Value) {P : State → Type 0}
    (keep : WritesKeep s document_id message_id P) where
  open keep use {updates, events, records, writes, counts}

  tick-Keeps : Keeps P (utc_now s)
  tick-Keeps = keep.ticks

  seen-Keeps : Keeps P (already_processed message_id)
  seen-Keeps =
      Keeps-of_Raises
        (already_processed-Meets (λ st h. h) (λ _. P) message_id (λ st b h. h) λ st m h e. h)

  fetch-Keeps : Keeps P (fetch_document s document_id)
  fetch-Keeps =
      Keeps-of_Raises
        (fetch_document-Meets (λ st h. h) s (λ _. P) document_id (λ st b h. h) λ st m h e. h)

  chunks-Keeps : Keeps P (fetch_chunks_without_embedding s document_id)
  chunks-Keeps =
      Keeps-of_Raises
        (fetch_chunks-Meets (λ st h. h) s (λ _. P) document_id (λ st b h. h) λ st m h e. h)

  batch-Keeps : (texts : List String) → Keeps P (embed_batch s config texts)
  batch-Keeps texts = Keeps-of_Raises (
      Meets-strengthen (λ vs st h. h.0) (λ e st h. h)
        (embed_batch-Meets s config {Q = P} (λ st h. h) (λ st h. h) (λ st h e. h) keep.loads texts))

  finish-Keeps :
      (envelope : Fields) (message : String) (payload : Option Fields) (k : ℕ)
      → Keeps P (finish s config envelope message_id document_id message payload k)
  unfolding finish
  finish-Keeps envelope message payload k =
      search (keeps_rules, tick-Keeps, updates, events, records) depth 12

  embed_chunks-Keeps :
      (envelope : Fields) (chunks : List Chunk)
      → Keeps P (embed_chunks s config envelope message_id document_id chunks)
  unfolding embed_chunks
  embed_chunks-Keeps envelope [] = finish-Keeps envelope _ none 0
  embed_chunks-Keeps envelope (c ∷ chunks) =
      search (keeps_rules, batch-Keeps, writes, counts, finish-Keeps) depth 12

  process-Keeps :
      (envelope : Fields) (document : Document)
      → Keeps P (process s config envelope message_id document_id document)
  unfolding process
  process-Keeps envelope document =
      search (keeps_rules, updates, events, chunks-Keeps, embed_chunks-Keeps) depth 12

  rescue-Keeps : (e : Error) → Keeps P (rescue s config document_id e)
  unfolding rescue
  rescue-Keeps (permanent x) = search (keeps_rules, tick-Keeps, updates, events) depth 12
  rescue-Keeps _ = search (keeps_rules, events) depth 12

  handle_document-Keeps :
      (envelope : Fields) (document : Option Document)
      → Keeps P (handle_document s config envelope message_id document_id document)
  unfolding handle_document
  handle_document-Keeps envelope none = search keeps_rules
  handle_document-Keeps envelope (some document) =
      search (keeps_rules, process-Keeps, rescue-Keeps) depth 12

  pub handle_message-Keeps :
      (envelope : Fields) → Keeps P (handle_message s config envelope message_id document_id)
  unfolding handle_message
  handle_message-Keeps envelope =
      search (keeps_rules, seen-Keeps, fetch-Keeps, handle_document-Keeps) depth 12

-- for an envelope that names the document
pub handle-Keeps :
    (s : Services) (config : Config) (document_id : Value) {P : State → Type 0} (envelope : Fields)
    → get "document_id" envelope ≡ some document_id
    → ((message_id : Value)
        → item "message_id" envelope ≡ returned message_id
        → WritesKeep s document_id message_id P)
    → Keeps P (handle s config envelope)
unfolding handle
handle-Keeps s config document_id {P} envelope known keep = record {
  meets =
      Meets-bind {R = λ m st. P st × (item "message_id" envelope ≡ returned m)}
        (Meets-lift (item "message_id" envelope) (λ st m e h. (h, e)) (λ st f e h. h))
        λ m. rw (item-returned "document_id" envelope document_id known) record {
          at = λ w (h, e).
              (handle_message-Keeps s config document_id m (keep m e) envelope).meets.at w h;
        };
}
