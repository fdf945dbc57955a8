-- ===== src/Ocr/Consumer.antt =====
-- workers/ocr/app/consumer.py with the worker's `handle` and `_publish_next`.
use digital_cip.Prelude.{pos, String, Option, none, some, [], ◌∷◌, if◌then◌else◌}
use digital_cip.Prelude.Text.{concat}
use digital_cip.Json.{Value, Fields, no_fields, field, null, num, str, obj, get_or, truthy, str_of}
use digital_cip.Error.{Outcome, returned, raised, other}
use digital_cip.Services.{Services}
use digital_cip.World.{text, Publication}
use digital_cip.Exec.{Exec, pure, lift, ◌>>=◌}
use digital_cip.Consumer.Effects.{basic_publish}
use digital_cip.Consumer.OnMessage
use digital_cip.Consumer.OnMessage.{Delivery}
use digital_cip.Ocr.Config.{Config}
use digital_cip.Ocr.Handle.{item, utc_now, handle}

-- `v + text` of a value that ought to be a `str`
unfoldable pub append_text : Value → String → Outcome Value
append_text (str t) suffix = returned (str (concat (t ∷ suffix ∷ [])))
append_text _ suffix = raised (other "unsupported operand type(s) for +")

module _ (s : Services) where
  abbrev pub next_key : Value → String
  next_key document_id = concat (str_of s.repr document_id ∷ ":chunk" ∷ [])

  abbrev pub next_envelope : Fields → Value → Value → String → Value → Fields
  next_envelope envelope message_id document_id published_at payload =
      field "message_id" message_id (
        field "idempotency_key" (str (next_key document_id)) (
          field "trace_id" (get_or "trace_id" null envelope) (
            field "stage" (str "chunk") (
              field "document_id" document_id (
                field "tenant_id" (get_or "tenant_id" null envelope) (
                  field "attempt" (num (pos 1)) (
                    field "published_at" (str published_at)
                      (field "payload" payload no_fields))))))))

  abbrev pub next_headers : Value → Fields
  next_headers document_id = field "x-idempotency-key" (str (next_key document_id)) (
      field "x-attempt" (num (pos 1))
        (field "x-stage" (str "chunk") (field "x-document-id" document_id no_fields)))

  abbrev pub next_message : Fields → Value → Value → String → Value → Publication
  next_message envelope message_id document_id published_at payload = record {
    exchange = "ingest";
    routing_key = "ingest.chunk";
    body = text (obj (next_envelope envelope message_id document_id published_at payload));
    properties = record {
      content_type = some "application/json";
      delivery_mode = some 2;
      message_id = none;
      headers = some (next_headers document_id);
    };
  }

  unfoldable pub publish_next : Fields → Value → Exec (Unit {0})
  publish_next envelope payload = do
    own_id ← lift (item "message_id" envelope)
    message_id ← lift (append_text own_id ":chunk")
    document_id ← lift (item "document_id" envelope)
    published_at ← utc_now s
    basic_publish (next_message envelope message_id document_id published_at payload)

  -- `if publish_next and result and result.get('publish_next')`
  unfoldable pub forward : Fields → Option Fields → Exec (Unit {0})
  forward envelope none = pure tt
  forward envelope (some result) =
      let payload = get_or "publish_next" null result in
      if truthy payload then publish_next envelope payload else pure tt

  module _ (config : Config) where
    unfoldable pub deliver : Fields → Exec (Unit {0})
    deliver envelope = do result ← handle s config envelope; forward envelope result

    unfoldable pub on_message : Delivery → Exec (Unit {0})
    on_message = OnMessage.on_message "ocr" config.max_retries deliver
