-- ===== src/Embedder/Delivery.antt =====
-- The gauge and the histogram of the embedder's `on_message`.
use digital_cip.Prelude.{ℕ, ℤ, String, Option, List}
use digital_cip.Json.{Value, Fields}
use digital_cip.Tables.{Vector}
use digital_cip.Services.{Services}
use digital_cip.World.{World}
use digital_cip.Exec.{modify}
use digital_cip.Exec.Rules.{Post}
use digital_cip.Exec.Keeps.{Keeps, Keeps-of_Raises, keeps_rules}
use digital_cip.Consumer.Effects.{on_metrics}
use digital_cip.Consumer.Gauge.{Open, Closed, on_message-Closed}
use digital_cip.Consumer.OnMessage.{Delivery}
use digital_cip.Ocr.Handle.{utc_now}
use digital_cip.Embedder.Config.{Config}
use digital_cip.Embedder.Db.{record_processed, write_embeddings, update_document, record_event}
use digital_cip.Embedder.Db.Rules.{
  write_embeddings-Meets, update_document-Meets, record_event-Meets, record_processed-Meets,
}
use digital_cip.Embedder.Handle.{embedded, handle_message, handle, on_message}
use digital_cip.Embedder.Handle.Induction.{WritesKeep, handle_message-Keeps}

module _ (n : ℤ) (ds : List ℕ) (s : Services) (d : Value) where
  update-Open :
      (status : String) (e r f : Option String)
      → Keeps (Open n ds) (update_document s d status e r f)
  update-Open status e r f =
      Keeps-of_Raises
        (update_document-Meets (λ st h. h) s (Open n ds) d status e r f (λ st h. h) λ st k h eq. h)

  event-Open :
      (from : Option String) (to : String) (message : Option String) (payload : Option Fields)
      → Keeps (Open n ds) (record_event s d "embed" from to message payload)
  event-Open from to message payload = Keeps-of_Raises (
      record_event-Meets (λ st h. h) s (Open n ds) d "embed" from to message payload (λ st h. h)
        λ st k row h e same. h)

  record-Open :
      (m k : Value) (consumer : String) (result : Option Fields)
      → Keeps (Open n ds) (record_processed s m k d consumer result)
  record-Open m k consumer result = Keeps-of_Raises (
      record_processed-Meets (λ st h. h) s (Open n ds) m k d consumer result (λ st h. h)
        λ st row h e. h)

  write-Open : (rows : List (ℤ × Vector)) → Keeps (Open n ds) (write_embeddings s rows)
  write-Open rows =
      Keeps-of_Raises (write_embeddings-Meets (λ st h. h) s (Open n ds) rows (λ st h. h) λ st h. h)

  count-Open : (k : ℕ) → Keeps (Open n ds) (modify (on_metrics (embedded k)))
  count-Open k = record { meets = record { at = λ w h. h } }

  tick-Open : Keeps (Open n ds) (utc_now s)
  unfolding utc_now
  tick-Open = record { meets = record { at = λ w h. h } }

  abbrev kept_open : (m : Value) → WritesKeep s d m (Open n ds)
  kept_open m = record {
    updates = update-Open;
    events = event-Open;
    records = record-Open m;
    writes = write-Open;
    counts = count-Open;
    ticks = tick-Open;
    loads = λ st h. h;
  }

module _ (n : ℤ) (ds : List ℕ) (s : Services) (config : Config) where
  message-Open :
      (envelope : Fields) (m d : Value) → Keeps (Open n ds) (handle_message s config envelope m d)
  message-Open envelope m d = handle_message-Keeps s config d m (kept_open n ds s d m) envelope

  handle-Open : (envelope : Fields) → Keeps (Open n ds) (handle s config envelope)
  unfolding handle
  handle-Open envelope = search (keeps_rules, message-Open) depth 12

-- Whatever the message is and whichever calls of the database, the model and the broker fail, the
-- embedder's gauge of messages in flight is in the end what it was before, and exactly one
-- duration was added to the histogram.
pub embedder-balanced :
    (s : Services) (config : Config) (d : Delivery) (w : World)
    → Post
        (λ _. Closed w.metrics.in_flight w.metrics.durations)
        (λ _. Closed w.metrics.in_flight w.metrics.durations)
        (on_message s config d w)
unfolding on_message
embedder-balanced s config d w =
    on_message-Closed "embed" config.max_retries (handle s config) d w
      λ n ds. handle-Open n ds s config
