-- ===== src/Consumer/Gauge.antt =====
-- The gauge and the histogram of `on_message`.
use digital_cip.Prelude.{
  ◌≡◌, refl, ap, ℕ, suc, ◌-◌, ℤ, suc_ℤ, pred_ℤ-suc_ℤ, String, Bool, List, [], ◌∷◌, ◌++◌,
}
use digital_cip.Json.{Value, Fields}
use digital_cip.Error.{Error, permanent, transient, foreign}
use digital_cip.World.{State, World, Body, text, junk, Publication, Reason}
use digital_cip.Exec.{Exec, modify, ◌>>=◌, ◌>>◌}
use digital_cip.Exec.Rules.{Meets, Post, Meets-finally}
use digital_cip.Exec.Keeps.{Keeps, Keeps-call, keeps_rules}
use digital_cip.Consumer.Effects
use digital_cip.Consumer.Effects.{
  on_channel, on_metrics, published_also, acked_also, nacked_also, basic_publish, basic_ack,
  basic_nack, failed, processed, retried, observed, ended, monotonic,
}
use digital_cip.Consumer.OnMessage.{Delivery, retry_or_bury, settle_error, work, load, on_message}

-- The message that is being worked on is counted in the gauge, and not yet in the histogram.
abbrev pub Open : ℤ → List ℕ → State → Type 0
Open n ds st = (st.metrics.in_flight ≡ n) × (st.metrics.durations ≡ ds)

-- The gauge is back, and one duration was added.
abbrev pub Closed : ℤ → List ℕ → State → Type 0
Closed n ds st = (st.metrics.in_flight ≡ n) × (t : ℕ) × (st.metrics.durations ≡ ds ++ (t ∷ []))

module _ (n : ℤ) (ds : List ℕ) where
  failed-Open : (r : Reason) → Keeps (Open n ds) (modify (on_metrics (failed r)))
  failed-Open Reason.permanent = record { meets = record { at = λ w h. h } }
  failed-Open Reason.exhausted = record { meets = record { at = λ w h. h } }
  failed-Open Reason.unhandled = record { meets = record { at = λ w h. h } }

  retried-Open : Keeps (Open n ds) (modify (on_metrics retried))
  retried-Open = record { meets = record { at = λ w h. h } }

  processed-Open : Keeps (Open n ds) (modify (on_metrics processed))
  processed-Open = record { meets = record { at = λ w h. h } }

  publish-Open : (p : Publication) → Keeps (Open n ds) (basic_publish p)
  unfolding basic_publish
  publish-Open p =
      Keeps-call (modify (on_channel (published_also p)))
        record { meets = record { at = λ w h. h } }

  ack-Open : (tag : ℕ) → Keeps (Open n ds) (basic_ack tag)
  unfolding basic_ack
  ack-Open tag =
      Keeps-call (modify (on_channel (acked_also tag))) record { meets = record { at = λ w h. h } }

  nack-Open : (tag : ℕ) (requeue : Bool) → Keeps (Open n ds) (basic_nack tag requeue)
  unfolding basic_nack
  nack-Open tag requeue =
      Keeps-call (modify (on_channel (nacked_also tag requeue)))
        record { meets = record { at = λ w h. h } }

  module _ (stage : String) (max_retries : ℤ) where
    bury-Open :
        (d : Delivery) (envelope : Fields) (attempt : ℤ)
        → Keeps (Open n ds) (retry_or_bury stage max_retries d envelope attempt)
    unfolding retry_or_bury
    bury-Open d envelope attempt =
        search (keeps_rules, failed-Open, retried-Open, publish-Open, ack-Open) depth 12

    error-Open :
        (d : Delivery) (v : Value) (e : Error)
        → Keeps (Open n ds) (settle_error stage max_retries d v e)
    unfolding settle_error
    error-Open d v (permanent m) = search (keeps_rules, failed-Open, ack-Open) depth 12
    error-Open d v (transient m) = search (keeps_rules, bury-Open) depth 12
    error-Open d v (foreign f) = search (keeps_rules, failed-Open, nack-Open) depth 12

    module _ (deliver : Fields → Exec (Unit {0}))
        (quiet : (fields : Fields) → Keeps (Open n ds) (deliver fields)) where
      work-Open :
          (d : Delivery) (v : Value) → Keeps (Open n ds) (work stage max_retries deliver d v)
      unfolding work
      work-Open d v = search (keeps_rules, quiet, ack-Open, processed-Open) depth 12

      pub load-Open :
          (d : Delivery) (body : Body) → Keeps (Open n ds) (load stage max_retries deliver d body)
      unfolding load
      load-Open d (junk m) = error-Open d _ _
      load-Open d (text v) = search (keeps_rules, work-Open, error-Open) depth 12

module _ (stage : String) (max_retries : ℤ) (deliver : Fields → Exec (Unit {0})) where
  tail-Closed :
      (n : ℤ) (ds : List ℕ) (began : ℕ)
      → Meets
          (Open (suc_ℤ n) ds)
          (do
            now ← monotonic
            modify (on_metrics (observed (now - began)))
            modify (on_metrics ended))
          (λ _. Closed n ds)
          (λ _. Closed n ds)
  unfolding monotonic
  tail-Closed n ds began = record {
    at = λ w h. (
      rw (h.0) (pred_ℤ-suc_ℤ n),
      w.clock - began,
      ap (λ (xs : List ℕ). xs ++ ((w.clock - began) ∷ [])) h.1,
    );
  }

  pub on_message-Closed :
      (d : Delivery) (w : World)
      → ((n : ℤ) (ds : List ℕ) (fields : Fields) → Keeps (Open n ds) (deliver fields))
      → Post
          (λ _. Closed w.metrics.in_flight w.metrics.durations)
          (λ _. Closed w.metrics.in_flight w.metrics.durations)
          (on_message stage max_retries deliver d w)
  unfolding on_message monotonic
  on_message-Closed d w quiet =
      (Meets-finally {Q' = λ _. Open _ _} {E' = λ _. Open _ _}
          (load-Open (suc_ℤ w.metrics.in_flight) w.metrics.durations stage max_retries deliver
            (quiet _ _) d d.body).meets
          (λ _. tail-Closed w.metrics.in_flight w.metrics.durations w.clock)
          (λ _. tail-Closed w.metrics.in_flight w.metrics.durations w.clock)).at
        (record w {
          state = record w.state { metrics = Effects.started w.metrics; clock = suc w.clock };
        })
        (refl, refl)
