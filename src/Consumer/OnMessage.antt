-- ===== src/Consumer/OnMessage.antt =====
-- `on_message` (workers/ocr/app/consumer.py and workers/embedder/app/consumer.py).
use digital_cip.Prelude.{
  ℕ, ℤ, pos, ◌-◌, suc_ℤ, leb_ℤ, String, false, none, some, [], ◌∷◌, if◌then◌else◌,
}
use digital_cip.Prelude.Text.{concat}
use digital_cip.Json.{Value, Fields, no_fields, num, obj, get_or, set, as_int, or_empty}
use digital_cip.Error.{Error, Outcome, returned, raised, permanent, transient, foreign, other}
use digital_cip.World.{Body, text, junk, Properties, Publication, Reason}
use digital_cip.Exec.{Exec, pure, lift, modify, try, finally, ◌>>=◌, ◌>>◌}
use digital_cip.Consumer.Effects
use digital_cip.Consumer.Effects.{
  on_metrics, basic_publish, basic_ack, basic_nack, failed, processed, retried, observed, ended,
  monotonic,
}

-- A delivery: its tag, its properties and its body.
pub record Delivery : Type 0 where
  pub tag : ℕ
  pub properties : Properties
  pub body : Body

-- What has a `get`: a dict.
unfoldable pub as_dict : Value → Outcome Fields
as_dict (obj fields) = returned fields
as_dict _ = raised (other "object has no attribute 'get'")

unfoldable pub int_operand : Value → Outcome ℤ
unfolding as_int
int_operand v = elim (as_int v) [
  | none ↦ raised (other "unsupported operand type")
  | some n ↦ returned n
]

-- `f'ingest.{stage}.dlq'` and `f'ingest.{stage}.retry'`
abbrev pub queue_key : String → String → String
queue_key stage suffix = concat ("ingest." ∷ stage ∷ "." ∷ suffix ∷ [])

-- the message for the retry queue
abbrev pub retry_properties : Properties → ℤ → Properties
retry_properties properties attempt = record {
  content_type = some "application/json";
  delivery_mode = some 2;
  message_id = properties.message_id;
  headers = some (set "x-attempt" (num attempt) (or_empty properties.headers));
}

abbrev pub retry_message : String → Fields → Properties → ℤ → Publication
retry_message stage envelope properties attempt = record {
  exchange = "ingest.retry";
  routing_key = queue_key stage "retry";
  body = text (obj (set "attempt" (num attempt) envelope));
  properties = retry_properties properties attempt;
}

abbrev pub dead_letter : String → Delivery → Publication
dead_letter stage d = record {
  exchange = "ingest.dlx";
  routing_key = queue_key stage "dlq";
  body = d.body;
  properties = d.properties;
}

module _ (stage : String) (max_retries : ℤ) where
  -- `except TransientError`, from the comparison of the attempt on
  unfoldable pub retry_or_bury : Delivery → Fields → ℤ → Exec (Unit {0})
  retry_or_bury d envelope attempt =
      if leb_ℤ max_retries attempt
      then (do
        modify (on_metrics (failed Reason.exhausted))
        basic_publish (dead_letter stage d)
        basic_ack d.tag)
      else (do
        modify (on_metrics retried)
        basic_publish (retry_message stage envelope d.properties (suc_ℤ attempt))
        basic_ack d.tag)

  -- the `except` clauses; `envelope` is the variable's value when the exception came
  unfoldable pub settle_error : Delivery → Value → Error → Exec (Unit {0})
  settle_error d envelope (permanent m) = do
    modify (on_metrics (failed Reason.permanent))
    basic_ack d.tag
  settle_error d envelope (transient m) = do
    fields ← lift (as_dict envelope)
    attempt ← lift (int_operand (get_or "attempt" (num (pos 1)) fields))
    retry_or_bury d fields attempt
  settle_error d envelope (foreign f) = do
    modify (on_metrics (failed Reason.unhandled))
    try (basic_nack d.tag false) (λ e. pure tt)

  module _ (deliver : Fields → Exec (Unit {0})) where
    -- the `try` after `json.loads`
    unfoldable pub work : Delivery → Value → Exec (Unit {0})
    work d envelope = do
      fields ← lift (as_dict envelope)
      deliver fields
      basic_ack d.tag
      modify (on_metrics processed)

    unfoldable pub load : Delivery → Body → Exec (Unit {0})
    load d (junk m) = settle_error d (obj no_fields) (foreign (other m))
    load d (text v) = try (work d v) (settle_error d v)

    unfoldable pub on_message : Delivery → Exec (Unit {0})
    on_message d = do
      modify (on_metrics Effects.started)
      started ← monotonic
      finally (load d d.body) do
        now ← monotonic
        modify (on_metrics (observed (now - started)))
        modify (on_metrics ended)
