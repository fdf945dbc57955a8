-- ===== src/Ocr/Handle/Local.antt =====
-- Conditions on the channel and the metrics, while the OCR worker's `handle` runs.
use digital_cip.Prelude.{ℕ}
use digital_cip.Json.{Value, Fields}
use digital_cip.Services.{Services}
use digital_cip.Tables.{Db}
use digital_cip.World.{State}
use digital_cip.Exec.{lift}
use digital_cip.Exec.Keeps.{Keeps, Keeps-of_Raises, Keeps-bind, Keeps-lift}
use digital_cip.Ocr.Config.{Config}
use digital_cip.Ocr.Db.Rules.{
  update_document_status-Meets, record_event-Meets, record_processed-Meets,
}
use digital_cip.Ocr.Handle.{item, utc_now, handle_message, handle}
use digital_cip.Ocr.Handle.Induction.{WritesKeep, handle_message-Keeps}

-- A condition on the channel and the metrics.
pub record IsLocal (P : State → Type 0) : Type 0 where
  pub any_db : (st : State) (db : Db) → P st → P (record st { db = db })
  pub any_clock : (st : State) (clock : ℕ) → P st → P (record st { clock = clock })

module _ (s : Services) (config : Config) {P : State → Type 0} (local : IsLocal P) where
  pub utc_now-Local : Keeps P (utc_now s)
  unfolding utc_now
  utc_now-Local = record { meets = record { at = λ w h. local.any_clock w.state _ h } }

  writes : (document_id message_id : Value) → WritesKeep s document_id message_id P
  writes document_id message_id = record {
    updates = λ status t r c f. Keeps-of_Raises (
        update_document_status-Meets (λ st h. h) s P document_id status t r c f (λ st h. h)
          λ st k h e. local.any_db st _ h);
    events = λ from to message payload. Keeps-of_Raises (
        record_event-Meets (λ st h. h) s P document_id "ocr" from to message payload "system"
          (λ st h. h) λ st k row h e same. local.any_db st _ h);
    records = λ key consumer result. Keeps-of_Raises (
        record_processed-Meets (λ st h. h) s P message_id key "ocr" document_id consumer result
          (λ st h. h) λ st row h e. local.any_db st _ h);
    ticks = utc_now-Local;
  }

  pub handle-Local : (envelope : Fields) → Keeps P (handle s config envelope)
  unfolding handle
  handle-Local envelope = Keeps-bind (lift (item "message_id" envelope)) _ (Keeps-lift _) λ m.
      Keeps-bind (lift (item "document_id" envelope)) (handle_message s config envelope m)
        (Keeps-lift _) λ d. handle_message-Keeps s config d m (writes d m) envelope
