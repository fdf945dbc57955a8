-- ===== src/Ocr/Delivery.antt =====
-- The OCR worker's `on_message`: its handler and `_publish_next` in the consumer.
use digital_cip.Prelude.{◌≡◌, ℕ, suc, ◌-◌, ℤ, String, Option, none, some, List, true}
use digital_cip.Json.{Value, Fields, obj, get}
use digital_cip.Error.{ok, returned}
use digital_cip.Services.{Services}
use digital_cip.World.{State, World, Body, text, Publication}
use digital_cip.Exec.{modify}
use digital_cip.Exec.Calm.{calm}
use digital_cip.Exec.Rules.{Post}
use digital_cip.Exec.Keeps.{Keeps, Keeps-call, keeps_rules}
use digital_cip.Sql.Statements.{text_key, is_recorded}
use digital_cip.Consumer.Effects
use digital_cip.Consumer.Effects.{
  on_channel, on_metrics, published_also, acked_also, processed, observed, ended, basic_publish,
  basic_ack, monotonic,
}
use digital_cip.Consumer.Gauge.{Open, Closed, on_message-Closed}
use digital_cip.Consumer.OnMessage
use digital_cip.Consumer.OnMessage.{Delivery, work, load, as_dict}
use digital_cip.Ocr.Config.{Config}
use digital_cip.Ocr.Db.Calm.{already_processed-calm}
use digital_cip.Ocr.Handle.{utc_now, handle, handle_message}
use digital_cip.Ocr.Handle.Frame.{item-returned}
use digital_cip.Ocr.Handle.Local.{IsLocal, utc_now-Local, handle-Local}
use digital_cip.Ocr.Consumer.{publish_next, forward, deliver, on_message}

module _ (s : Services) (config : Config) where
  module _ (n : ℤ) (ds : List ℕ) where
    Open-IsLocal : IsLocal (Open n ds)
    Open-IsLocal = record { any_db = λ st db h. h; any_clock = λ st clock h. h }

    publish-Open : (p : Publication) → Keeps (Open n ds) (basic_publish p)
    unfolding basic_publish
    publish-Open p =
        Keeps-call (modify (on_channel (published_also p)))
          record { meets = record { at = λ w h. h } }

    tick-Open : Keeps (Open n ds) (utc_now s)
    tick-Open = utc_now-Local s config Open-IsLocal

    next-Open :
        (envelope : Fields) (payload : Value) → Keeps (Open n ds) (publish_next s envelope payload)
    unfolding publish_next
    next-Open envelope payload = search (keeps_rules, tick-Open, publish-Open) depth 12

    forward-Open :
        (envelope : Fields) (r : Option Fields) → Keeps (Open n ds) (forward s envelope r)
    unfolding forward
    forward-Open envelope none = search keeps_rules
    forward-Open envelope (some r) = search (keeps_rules, next-Open)

    handle-Open : (envelope : Fields) → Keeps (Open n ds) (handle s config envelope)
    handle-Open envelope = handle-Local s config Open-IsLocal envelope

    deliver-Open : (envelope : Fields) → Keeps (Open n ds) (deliver s config envelope)
    unfolding deliver
    deliver-Open envelope = search (keeps_rules, handle-Open, forward-Open)

  -- Whatever the message is and whichever calls of the database, the object store, the libraries
  -- and the broker fail, the gauge of messages in flight is in the end what it was before, and
  -- exactly one duration was added to the histogram.
  pub on_message-balanced :
      (d : Delivery) (w : World)
      → Post
          (λ _. Closed w.metrics.in_flight w.metrics.durations)
          (λ _. Closed w.metrics.in_flight w.metrics.durations)
          (on_message s config d w)
  unfolding on_message
  on_message-balanced d w =
      on_message-Closed "ocr" config.max_retries (deliver s config) d w deliver-Open

  -- the metrics of a message that came through
  abbrev pub counted_once : ℕ → State → State
  counted_once tag st = record st {
    channel = acked_also tag st.channel;
    metrics = ended (observed (suc st.clock - st.clock) (processed (Effects.started st.metrics)));
    clock = suc (suc st.clock);
  }

  pub handle-recorded :
      (envelope : Fields) (message_id document_id : Value) (m : Option String) (st : State)
      → get "message_id" envelope ≡ some message_id
      → get "document_id" envelope ≡ some document_id
      → text_key message_id ≡ returned m
      → is_recorded m st.db.processed_messages ≡ true
      → handle s config envelope (calm st) ≡ (ok none, calm st)
  unfolding handle handle_message
  handle-recorded envelope message_id document_id m st has_id has_document named recorded = rw (
    item-returned "message_id" envelope message_id has_id,
    item-returned "document_id" envelope document_id has_document,
    already_processed-calm message_id m st named,
    recorded,
  )

  -- the state in which the handler begins
  abbrev pub began : State → State
  began st = record st { metrics = Effects.started st.metrics; clock = suc st.clock }

  load-recorded :
      (d : Delivery) (body : Body) (envelope : Fields) (message_id document_id : Value)
      (m : Option String) (st : State)
      → body ≡ text (obj envelope)
      → get "message_id" envelope ≡ some message_id
      → get "document_id" envelope ≡ some document_id
      → text_key message_id ≡ returned m
      → is_recorded m st.db.processed_messages ≡ true
      → load "ocr" config.max_retries (deliver s config) d body (calm st)
        ≡ (ok tt, calm (on_metrics processed (on_channel (acked_also d.tag) st)))
  unfolding load work as_dict deliver forward basic_ack
  load-recorded d body envelope message_id document_id m st e has_id has_document named recorded =
      rw
        (e, handle-recorded envelope message_id document_id m st has_id has_document named recorded)

  -- Where every call works, a redelivery of a message that the database has recorded is acked and
  -- counted as processed, and that is all: no table changes and nothing is published, whether or
  -- not the message for the next stage was ever sent.
  pub on_message-recorded :
      (d : Delivery) (envelope : Fields) (message_id document_id : Value) (m : Option String)
      (st : State)
      → d.body ≡ text (obj envelope)
      → get "message_id" envelope ≡ some message_id
      → get "document_id" envelope ≡ some document_id
      → text_key message_id ≡ returned m
      → is_recorded m st.db.processed_messages ≡ true
      → on_message s config d (calm st) ≡ (ok tt, calm (counted_once d.tag st))
  unfolding on_message OnMessage.on_message monotonic
  on_message-recorded d envelope message_id document_id m st e has_id has_document named recorded =
      rw (
        load-recorded d d.body envelope message_id document_id m (began st) e has_id has_document
          named recorded)
