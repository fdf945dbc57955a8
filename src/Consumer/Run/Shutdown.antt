-- ===== src/Consumer/Run/Shutdown.antt =====
-- The end of a consumer that is told to stop, where the calls of the outside work.
use digital_cip.Prelude.{◌≡◌, refl, sym, Bool, true, false, List, [], ◌∷◌, ◌++◌}
use mathlib.Core.Path.{subst}
use digital_cip.Error.{
  Error, permanent, transient, foreign, amqp_connection, other, Result, ok, err,
}
use digital_cip.World.{State, World}
use digital_cip.Exec.{Exec}
use digital_cip.Exec.Calm.{calm}
use digital_cip.Exec.Steady.{Steady}
use digital_cip.Consumer.OnMessage.{Delivery}
use digital_cip.Consumer.Connect.{RetryCall, IsRetry, blocking_connection, connect}
use digital_cip.Consumer.Run.{
  Event, delivered, signalled, dropped, broken, slept, Phase, consuming, reconnecting, Standing,
  goes_on, finished, crashed, channel_call, subscribe, close, called_back, step, run, starts,
  run_consumer,
}

-- It has returned or raised.
pub data IsOver : Standing → Type 0 where
  returned_now : IsOver finished
  raised_now : (e : Error) → IsOver (crashed e)

abbrev pub IsCalm : World → Type 0
IsCalm w = w.fates ≡ []

pub calm_world : (w : World) → IsCalm w → w ≡ calm w.state
calm_world w h = λ i. record { state = w.state; fates = h i }

module _ (retry_call : RetryCall) (is_retry : IsRetry retry_call) where
  subscribe-calm : (st : State) → subscribe retry_call (calm st) ≡ (ok tt, calm st)
  unfolding subscribe connect channel_call blocking_connection
  subscribe-calm st = rw (is_retry.returns 19 blocking_connection (calm st) (calm st) refl)

  module _ (on_message : Delivery → Exec (Unit {0}))
      (steady : (d : Delivery) → Steady (on_message d)) where
    abbrev turn_of : Phase → Bool → Event → World → Standing × World
    turn_of = step retry_call on_message

    called_back-IsCalm :
        (flag : Bool) (r : Result (Unit {0}) × World)
        → IsCalm r.1
        → IsCalm (called_back retry_call on_message flag r).1
    called_back-IsCalm flag (ok _, w) h = h
    called_back-IsCalm flag (err (permanent m), w) h = h
    called_back-IsCalm flag (err (transient m), w) h = h
    called_back-IsCalm flag (err (foreign (amqp_connection m)), w) h = h
    called_back-IsCalm flag (err (foreign (other m)), w) h = h

    -- One event, in a world that is written out.
    step-calm :
        (phase : Phase) (flag : Bool) (e : Event) (st : State)
        → IsCalm (turn_of phase flag e (calm st)).1
    unfolding step close channel_call
    step-calm consuming flag (delivered d) st =
        called_back-IsCalm flag _ ((steady d).at (calm st) refl)
    step-calm consuming flag signalled st = refl
    step-calm consuming flag (dropped m) st = refl
    step-calm consuming flag (broken m) st = refl
    step-calm consuming flag slept st = refl
    step-calm reconnecting flag (delivered d) st = refl
    step-calm reconnecting flag signalled st = refl
    step-calm reconnecting flag (dropped m) st = refl
    step-calm reconnecting flag (broken m) st = refl
    step-calm reconnecting true slept st = rw (subscribe-calm st)
    step-calm reconnecting false slept st = rw (subscribe-calm st)

    run-IsCalm :
        (es : List Event) (at : Standing × World)
        → IsCalm at.1
        → IsCalm (run retry_call on_message es at).1
    unfolding run
    run-IsCalm [] at h = h
    run-IsCalm (e ∷ es) (goes_on phase flag, w) h = run-IsCalm es _ (
        subst (λ x. IsCalm (turn_of phase flag e x).1) (sym (calm_world w h))
          (step-calm phase flag e w.state))
    run-IsCalm (e ∷ es) (finished, w) h = h
    run-IsCalm (e ∷ es) (crashed x, w) h = h

    run-append :
        (es fs : List Event) (at : Standing × World)
        → run retry_call on_message (es ++ fs) at
          ≡ run retry_call on_message fs (run retry_call on_message es at)
    unfolding run
    run-append [] fs at = refl
    run-append (e ∷ es) fs (goes_on phase flag, w) = run-append es fs _
    run-append (e ∷ es) [] (finished, w) = refl
    run-append (e ∷ es) (g ∷ fs) (finished, w) = refl
    run-append (e ∷ es) [] (crashed x, w) = refl
    run-append (e ∷ es) (g ∷ fs) (crashed x, w) = refl

    -- where the worker is after the signal and the time to reconnect
    abbrev ended : Standing × World → List Event → Standing × World
    ended at fs = run retry_call on_message (signalled ∷ slept ∷ fs) at

    abbrev Ends : List Event → Standing × World → Type 0
    Ends fs at = IsOver (ended at fs).0 × (ended at fs ≡ ended at [])

    run-finished :
        (fs : List Event) (w : World) → run retry_call on_message fs (finished, w) ≡ (finished, w)
    unfolding run
    run-finished [] w = refl
    run-finished (e ∷ fs) w = refl

    Ends-from :
        (fs : List Event) (phase : Phase) (flag : Bool) (st : State)
        → Ends fs (goes_on phase flag, calm st)
    unfolding run step close channel_call
    Ends-from fs consuming flag st = (returned_now, refl)
    Ends-from fs reconnecting flag st =
        rw (subscribe-calm st, run-finished fs (calm st)) (returned_now, refl)

    ends : (fs : List Event) (at : Standing × World) → IsCalm at.1 → Ends fs at
    unfolding run
    ends fs (goes_on phase flag, w) h =
        subst (λ x. Ends fs (goes_on phase flag, x)) (sym (calm_world w h))
          (Ends-from fs phase flag w.state)
    ends fs (finished, w) h = (returned_now, refl)
    ends fs (crashed x, w) h = (raised_now x, refl)

    starts-IsCalm :
        (r : Result (Unit {0}) × World) → IsCalm r.1 → IsCalm (starts retry_call on_message r).1
    starts-IsCalm (ok _, w) h = h
    starts-IsCalm (err e, w) h = h

    -- A signal ends the consumer, whatever happened to it before, and what happens later does not
    -- matter: neither the standing nor the world depends on it.
    pub run_consumer-stops :
        (es fs : List Event) (w : World)
        → IsCalm w
        → IsOver (run_consumer retry_call on_message (es ++ (signalled ∷ slept ∷ fs)) w).0
          × (run_consumer retry_call on_message (es ++ (signalled ∷ slept ∷ fs)) w
              ≡ run_consumer retry_call on_message (es ++ (signalled ∷ slept ∷ [])) w)
    unfolding run_consumer
    run_consumer-stops es fs w h =
        let at = starts retry_call on_message (subscribe retry_call w) in
        let calm_start : IsCalm at.1 =
          subst (λ x. IsCalm (starts retry_call on_message (subscribe retry_call x)).1)
            (sym (calm_world w h)) (rw (subscribe-calm w.state)) in
        let over = ends fs (run retry_call on_message es at) (run-IsCalm es at calm_start) in
        rw (run-append es (signalled ∷ slept ∷ fs) at, run-append es (signalled ∷ slept ∷ []) at)
          over
