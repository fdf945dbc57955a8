-- ===== src/Chunker/Worker.antt =====
-- `Worker.handle` and the loop of `Run` in workers/chunker/internal/worker/worker.go.
use digital_cip.Prelude.{suc, ℤ, pos, ◌-◌, suc_ℤ, leb_ℤ, eq_ℤ, if◌then◌else◌}
use digital_cip.Error.{permanent, transient, foreign, Result, ok, err, returned, raised, Outcome}
use digital_cip.World.{Reason}
use digital_cip.Exec.{Exec, modify, finally, ◌>>=◌, ◌>>◌}
use digital_cip.World.{Metrics}
use digital_cip.Consumer.Effects
use digital_cip.Consumer.Effects.{
  on_metrics, basic_publish, basic_ack, failed, processed, retried, observed, ended, monotonic,
}
use digital_cip.Consumer.OnMessage.{Delivery}
use digital_cip.Chunker.Config.{Config}
use digital_cip.Chunker.Envelope.{Envelope, unmarshal}
use digital_cip.Chunker.Db.{ignore}
use digital_cip.Chunker.Handle.{Host, process, retry_message, dead_letter}

-- `err := m`: the error is a value.
abbrev pub outcome_of : Exec (Unit {0}) → Exec (Result (Unit {0}))
outcome_of m w = (ok (m w).0, (m w).1)

-- `metrics.Failed.WithLabelValues("chunk", "invalid_envelope").Inc()`
abbrev pub failed_to_decode : Metrics → Metrics
failed_to_decode m = record m { failed_invalid_envelope = suc m.failed_invalid_envelope }

-- `env.Attempt = 1` where it is 0, and `env.Attempt++`
abbrev pub with_attempt : ℤ → Envelope → Envelope
with_attempt n env = record env { attempt = n }

abbrev pub defaulted : Envelope → Envelope
defaulted env = if eq_ℤ env.attempt (pos 0) then with_attempt (pos 1) env else env

module _ (host : Host) (config : Config) where
  -- the `default` case
  unfoldable pub retry_or_bury : Delivery → Envelope → Exec (Unit {0})
  retry_or_bury d env =
      if leb_ℤ config.max_retries env.attempt
      then (do
        modify (on_metrics (failed Reason.exhausted))
        ignore (basic_publish (dead_letter host config env d))
        ignore (basic_ack d.tag))
      else (do
        modify (on_metrics retried)
        ignore (basic_publish (retry_message host config (with_attempt (suc_ℤ env.attempt) env)))
        ignore (basic_ack d.tag))

  -- the `switch`
  unfoldable pub settle : Delivery → Envelope → Result (Unit {0}) → Exec (Unit {0})
  unfolding retry_or_bury
  settle d env (ok _) = do modify (on_metrics processed); ignore (basic_ack d.tag)
  settle d env (err (permanent m)) = do
    modify (on_metrics (failed Reason.permanent))
    ignore (basic_ack d.tag)
  settle d env (err (transient m)) = retry_or_bury d env
  settle d env (err (foreign f)) = retry_or_bury d env

  unfoldable pub receive : Delivery → Outcome Envelope → Exec (Unit {0})
  unfolding settle
  receive d (raised f) = do modify (on_metrics failed_to_decode); ignore (basic_ack d.tag)
  receive d (returned env) = do
    result ← outcome_of (process host config (defaulted env))
    settle d (defaulted env) result

  unfoldable pub handle : Delivery → Exec (Unit {0})
  unfolding receive unmarshal
  handle d = do
    modify (on_metrics Effects.started)
    started ← monotonic
    finally (receive d (unmarshal d.body)) do
      now ← monotonic
      modify (on_metrics (observed (now - started)))
      modify (on_metrics ended)
