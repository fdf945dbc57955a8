-- ===== src/Consumer/Main.antt =====
-- `main` of a worker, which the OCR worker and the embedder share but for the callback.
use digital_cip.Prelude.{◌≡◌, refl, sym, ◌+◌, List, [], ◌∷◌, ◌++◌, length, arith}
use mathlib.Core.Path.{subst}
use digital_cip.Error.{Result, ok, err}
use digital_cip.World.{State, World}
use digital_cip.Exec.{Exec}
use digital_cip.Exec.Rules.{Post}
use digital_cip.Exec.Calm.{calm}
use digital_cip.Exec.Steady.{Steady}
use digital_cip.Consumer.Connect.{RetryCall, IsRetry}
use digital_cip.Consumer.Gauge.{Closed}
use digital_cip.Consumer.OnMessage.{Delivery}
use digital_cip.Consumer.Metrics.{
  start_metrics_server, start_metrics_server-state, start_metrics_server-calm,
}
use digital_cip.Consumer.Run.{Event, signalled, slept, Standing, crashed, run_consumer}
use digital_cip.Consumer.Run.Balance.{messages, Balanced, run_consumer-Balanced}
use digital_cip.Consumer.Run.Shutdown.{IsOver, IsCalm, calm_world, run_consumer-stops}

-- `consume` is the worker's call of `run_consumer`.
module _ (consume : List Event → World → Standing × World) where
  abbrev pub main_from : List Event → Result (Unit {0}) × World → Standing × World
  main_from es (ok _, w) = consume es w
  main_from es (err e, w) = (crashed e, w)

  unfoldable pub main : List Event → World → Standing × World
  main es w = main_from es (start_metrics_server w)

module _ (retry_call : RetryCall) (on_message : Delivery → Exec (Unit {0}))
    (is_retry : IsRetry retry_call) where
  abbrev consume : List Event → World → Standing × World
  consume = run_consumer retry_call on_message

  from-Balanced :
      (balanced : (d : Delivery) (w : World)
        → Post
            (λ _. Closed w.metrics.in_flight w.metrics.durations)
            (λ _. Closed w.metrics.in_flight w.metrics.durations)
            (on_message d w))
      (es : List Event) (r : Result (Unit {0}) × World) (w : World)
      → r.1.state ≡ w.state
      → Balanced w.metrics.in_flight
          (messages es + length w.metrics.durations)
          (main_from consume es r).1.state
  from-Balanced balanced es (ok _, w') w same =
      run_consumer-Balanced retry_call is_retry on_message w.metrics.in_flight balanced es
        (length w.metrics.durations) w' (rw same (refl, omega arith))
  from-Balanced balanced es (err e, w') w same = rw same (refl, omega arith)

  pub main-Balanced :
      (balanced : (d : Delivery) (w : World)
        → Post
            (λ _. Closed w.metrics.in_flight w.metrics.durations)
            (λ _. Closed w.metrics.in_flight w.metrics.durations)
            (on_message d w))
      (es : List Event) (w : World)
      → Balanced w.metrics.in_flight
          (messages es + length w.metrics.durations)
          (main consume es w).1.state
  unfolding main
  main-Balanced balanced es w =
      from-Balanced balanced es (start_metrics_server w) w (start_metrics_server-state w)

  main-stops_from :
      (steady : (d : Delivery) → Steady (on_message d)) (es fs : List Event) (st : State)
      → IsOver (main consume (es ++ (signalled ∷ slept ∷ fs)) (calm st)).0
        × (main consume (es ++ (signalled ∷ slept ∷ fs)) (calm st)
            ≡ main consume (es ++ (signalled ∷ slept ∷ [])) (calm st))
  unfolding main
  main-stops_from steady es fs st =
      rw (start_metrics_server-calm st)
        (run_consumer-stops retry_call is_retry on_message steady es fs (calm st) refl)

  pub main-stops :
      (steady : (d : Delivery) → Steady (on_message d)) (es fs : List Event) (w : World)
      → IsCalm w
      → IsOver (main consume (es ++ (signalled ∷ slept ∷ fs)) w).0
        × (main consume (es ++ (signalled ∷ slept ∷ fs)) w
            ≡ main consume (es ++ (signalled ∷ slept ∷ [])) w)
  main-stops steady es fs w h =
      subst
        (λ x.
          IsOver (main consume (es ++ (signalled ∷ slept ∷ fs)) x).0
          × (main consume (es ++ (signalled ∷ slept ∷ fs)) x
              ≡ main consume (es ++ (signalled ∷ slept ∷ [])) x))
        (sym (calm_world w h)) (main-stops_from steady es fs w.state)
