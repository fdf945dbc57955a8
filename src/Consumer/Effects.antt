-- ===== src/Consumer/Effects.antt =====
-- What `on_message` does to the channel and to the metrics. The channel's methods are calls of
-- the outside; a metric's methods cannot fail.
use digital_cip.Prelude.{ℕ, suc, suc_ℤ, pred_ℤ, Bool, [], ◌∷◌, ◌++◌}
use digital_cip.Error.{ok}
use digital_cip.World.{
  State, Channel, Metrics, Reason, permanent, exhausted, unhandled, Publication,
}
use digital_cip.Exec.{Exec, modify, call}

abbrev pub on_channel : (Channel → Channel) → State → State
on_channel f st = record st { channel = f st.channel }

abbrev pub on_metrics : (Metrics → Metrics) → State → State
on_metrics f st = record st { metrics = f st.metrics }

-- `basic_publish`
abbrev pub published_also : Publication → Channel → Channel
published_also p c = record c { published = c.published ++ (p ∷ []) }

-- `basic_ack`
abbrev pub acked_also : ℕ → Channel → Channel
acked_also tag c = record c { acked = c.acked ++ (tag ∷ []) }

-- `basic_nack`
abbrev pub nacked_also : ℕ → Bool → Channel → Channel
nacked_also tag requeue c = record c { nacked = c.nacked ++ ((tag, requeue) ∷ []) }

unfoldable pub basic_publish : Publication → Exec (Unit {0})
unfolding call
basic_publish p = call (modify (on_channel (published_also p)))

unfoldable pub basic_ack : ℕ → Exec (Unit {0})
unfolding call
basic_ack tag = call (modify (on_channel (acked_also tag)))

unfoldable pub basic_nack : ℕ → Bool → Exec (Unit {0})
unfolding call
basic_nack tag requeue = call (modify (on_channel (nacked_also tag requeue)))

-- `FAILED.labels(stage=…, reason=…).inc()`
abbrev pub failed : Reason → Metrics → Metrics
failed permanent m = record m { failed_permanent = suc m.failed_permanent }
failed exhausted m = record m { failed_exhausted = suc m.failed_exhausted }
failed unhandled m = record m { failed_unhandled = suc m.failed_unhandled }

-- `PROCESSED` and `RETRIED`
abbrev pub processed : Metrics → Metrics
processed m = record m { processed = suc m.processed }

abbrev pub retried : Metrics → Metrics
retried m = record m { retried = suc m.retried }

-- `IN_FLIGHT` and `DURATION`
abbrev pub started : Metrics → Metrics
started m = record m { in_flight = suc_ℤ m.in_flight }

abbrev pub observed : ℕ → Metrics → Metrics
observed t m = record m { durations = m.durations ++ (t ∷ []) }

abbrev pub ended : Metrics → Metrics
ended m = record m { in_flight = pred_ℤ m.in_flight }

-- `time.monotonic()`; the clock goes on.
unfoldable pub monotonic : Exec ℕ
monotonic w = (ok w.clock, record w { state = record w.state { clock = suc w.clock } })
