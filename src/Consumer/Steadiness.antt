-- ===== src/Consumer/Steadiness.antt =====
-- `on_message` in the world in which every call works.
use digital_cip.Prelude.{ℕ, ℤ, Bool, String}
use digital_cip.Json.{Value, Fields}
use digital_cip.Error.{Error, permanent, transient, foreign}
use digital_cip.World.{Body, text, junk, Publication}
use digital_cip.Exec.{Exec}
use digital_cip.Exec.Steady.{Steady, Steady-call, Steady-modify, steady_rules}
use digital_cip.Consumer.Effects.{basic_publish, basic_ack, basic_nack, monotonic}
use digital_cip.Consumer.OnMessage.{Delivery, retry_or_bury, settle_error, work, load, on_message}

pub publish-Steady : (p : Publication) → Steady (basic_publish p)
unfolding basic_publish
publish-Steady p = Steady-call _ (Steady-modify _)

ack-Steady : (tag : ℕ) → Steady (basic_ack tag)
unfolding basic_ack
ack-Steady tag = Steady-call _ (Steady-modify _)

nack-Steady : (tag : ℕ) (requeue : Bool) → Steady (basic_nack tag requeue)
unfolding basic_nack
nack-Steady tag requeue = Steady-call _ (Steady-modify _)

monotonic-Steady : Steady monotonic
unfolding monotonic
monotonic-Steady = record { at = λ w h. h }

module _ (stage : String) (max_retries : ℤ) where
  bury-Steady : (d : Delivery) (f : Fields) (a : ℤ) → Steady (retry_or_bury stage max_retries d f a)
  unfolding retry_or_bury
  bury-Steady d f a = search (steady_rules, publish-Steady, ack-Steady) depth 12

  error-Steady :
      (d : Delivery) (v : Value) (e : Error) → Steady (settle_error stage max_retries d v e)
  unfolding settle_error
  error-Steady d v (permanent m) = search (steady_rules, ack-Steady) depth 12
  error-Steady d v (transient m) = search (steady_rules, bury-Steady) depth 12
  error-Steady d v (foreign f) = search (steady_rules, nack-Steady) depth 12

  module _ (deliver : Fields → Exec (Unit {0})) (steady : (f : Fields) → Steady (deliver f)) where
    work-Steady : (d : Delivery) (v : Value) → Steady (work stage max_retries deliver d v)
    unfolding work
    work-Steady d v = search (steady_rules, steady, ack-Steady) depth 12

    load-Steady : (d : Delivery) (body : Body) → Steady (load stage max_retries deliver d body)
    unfolding load
    load-Steady d (junk m) = error-Steady d _ _
    load-Steady d (text v) = search (steady_rules, work-Steady, error-Steady) depth 12

    pub on_message-Steady : (d : Delivery) → Steady (on_message stage max_retries deliver d)
    unfolding on_message
    on_message-Steady d = search (steady_rules, load-Steady, monotonic-Steady) depth 12
