-- ===== src/Consumer/Run/Balance.antt =====
-- The gauge and the histogram over the life of a consumer.
use digital_cip.Prelude.{
  ◌≡◌, refl, sym, ap, ◌∙◌, ℕ, zero, suc, ◌+◌, ◌≤◌, ℤ, Bool, true, false, List, [], ◌∷◌, length,
  length-append, arith, if◌then◌else◌,
}
use mathlib.Core.Path.{subst}
use digital_cip.Error.{
  Error, permanent, transient, foreign, amqp_connection, other, Result, ok, err,
}
use digital_cip.World.{State, World, Fate, works, fails, lands, next_fate}
use digital_cip.Exec.{Exec, continue, recover, settle, pure}
use digital_cip.Exec.Rules.{Post}
use digital_cip.Consumer.OnMessage.{Delivery}
use digital_cip.Consumer.Connect.{RetryCall, IsRetry, blocking_connection, connect}
use digital_cip.Consumer.Gauge.{Closed}
use digital_cip.Consumer.Run.{
  Event, delivered, signalled, dropped, broken, slept, Phase, consuming, reconnecting, Standing,
  goes_on, finished, crashed, channel_call, subscribe, close, stops, stop_consuming, handle_error,
  called_back, subscribed, step, run, starts, run_consumer,
}

-- how many of the events are messages
abbrev pub messages : List Event → ℕ
messages [] = 0
messages (delivered d ∷ es) = suc (messages es)
messages (_ ∷ es) = messages es

-- The gauge is `n`, and at most `k` durations were taken.
abbrev pub Balanced : ℤ → ℕ → State → Type 0
Balanced n k st = (st.metrics.in_flight ≡ n) × (length st.metrics.durations ≤ k)

same_state : (fate : Fate) (w : World) → (settle {A = Unit {0}} fate (ok tt, w) w).1 ≡ w
same_state works w = refl
same_state (fails f) w = refl
same_state (lands f) w = refl

channel_call-state : (w : World) → (channel_call w).1.state ≡ w.state
unfolding channel_call
channel_call-state w = ap (λ (x : World). x.state) (same_state (next_fate w.fates) _)

module _ (retry_call : RetryCall) (is_retry : IsRetry retry_call) where
  -- A call that keeps the state keeps it however often it is tried.
  tries-state :
      (n : ℕ) (m : Exec (Unit {0})) (w : World) (r : Result (Unit {0}) × World)
      → ((w : World) → (m w).1.state ≡ w.state)
      → m w ≡ r
      → (retry_call (suc n) m w).1.state ≡ w.state
  tries-state n m w (ok _, w') still e =
      ap (λ (x : Result (Unit {0}) × World). x.1.state) (is_retry.returns n m w w' e ∙ sym e)
      ∙ still w
  tries-state zero m w (err x, w') still e =
      ap (λ (y : Result (Unit {0}) × World). y.1.state) (is_retry.reraises m x w w' e ∙ sym e)
      ∙ still w
  tries-state (suc n) m w (err x, w') still e =
      ap (λ (y : Result (Unit {0}) × World). y.1.state) (is_retry.tries_again n m x w w' e)
      ∙ tries-state n m w' (m w') still refl
      ∙ ap (λ (y : Result (Unit {0}) × World). y.1.state) (sym e)
      ∙ still w

  connect-state : (w : World) → (connect retry_call w).1.state ≡ w.state
  unfolding connect blocking_connection channel_call
  connect-state w = tries-state 19 blocking_connection w _ attempt-state refl
    where
      attempt-state : (w : World) → (blocking_connection w).1.state ≡ w.state
      attempt-state w = channel_call-state w

  then-state :
      (r : Result (Unit {0}) × World) (m : Exec (Unit {0})) (st : State)
      → r.1.state ≡ st
      → ((w : World) → (m w).1.state ≡ w.state)
      → (continue r λ _. m).1.state ≡ st
  then-state (ok _, w) m st e still = still w ∙ e
  then-state (err x, w) m st e still = e

  subscribe-state : (w : World) → (subscribe retry_call w).1.state ≡ w.state
  unfolding subscribe
  subscribe-state w = then-state (connect retry_call w) _ w.state (connect-state w) λ w1.
      then-state (channel_call w1) _ w1.state (channel_call-state w1) λ w2.
        then-state (channel_call w2) channel_call w2.state (channel_call-state w2)
          channel_call-state

close-state : (w : World) → (close w).1.state ≡ w.state
unfolding close
close-state w = tried (channel_call w) (channel_call-state w)
  where
    tried :
        (r : Result (Unit {0}) × World)
        → r.1.state ≡ w.state
        → (recover r (λ e. pure tt)).1.state ≡ w.state
    tried (ok _, w') e = e
    tried (err x, w') e = e

module _ (retry_call : RetryCall) (is_retry : IsRetry retry_call)
    (on_message : Delivery → Exec (Unit {0})) (n : ℤ) where
  subscribed-Balanced :
      (flag : Bool) (k : ℕ) (r : Result (Unit {0}) × World)
      → Balanced n k r.1.state
      → Balanced n k (subscribed retry_call on_message flag r).1.state
  subscribed-Balanced true k (ok _, w) h = rw (close-state w) h
  subscribed-Balanced false k (ok _, w) h = h
  subscribed-Balanced flag k (err e, w) h = h

  error-Balanced :
      (flag : Bool) (k : ℕ) (e : Error) (w : World)
      → Balanced n k w.state
      → Balanced n k (handle_error retry_call on_message flag e w).1.state
  error-Balanced flag k (permanent m) w h = h
  error-Balanced flag k (transient m) w h = h
  error-Balanced flag k (foreign (amqp_connection m)) w h = h
  error-Balanced flag k (foreign (other m)) w h = h

  Closed-Balanced :
      (k : ℕ) (ds : List ℕ) (st : State) → length ds ≤ k → Closed n ds st → Balanced n (suc k) st
  Closed-Balanced k ds st le h = (h.0, omega (arith, ap length h.2, length-append ds (h.1 ∷ [])))

  back-Balanced :
      (flag : Bool) (k : ℕ) (ds : List ℕ) (r : Result (Unit {0}) × World)
      → length ds ≤ k
      → Post (λ _. Closed n ds) (λ _. Closed n ds) r
      → Balanced n (suc k) (called_back retry_call on_message flag r).1.state
  back-Balanced flag k ds (ok _, w) le h = Closed-Balanced k ds w.state le h
  back-Balanced flag k ds (err e, w) le h =
      error-Balanced flag (suc k) e w (Closed-Balanced k ds w.state le h)

  module _
      (balanced : (d : Delivery) (w : World)
        → Post
            (λ _. Closed w.metrics.in_flight w.metrics.durations)
            (λ _. Closed w.metrics.in_flight w.metrics.durations)
            (on_message d w)) where
    abbrev cost : Event → ℕ → ℕ
    cost (delivered d) k = suc k
    cost _ k = k

    deliver-Balanced :
        (flag : Bool) (k : ℕ) (d : Delivery) (w : World)
        → Balanced n k w.state
        → Balanced n (suc k) (called_back retry_call on_message flag (on_message d w)).1.state
    deliver-Balanced flag k d w h = back-Balanced flag k w.metrics.durations (on_message d w) h.1 (
        subst
          (λ i.
            Post (λ _. Closed i w.metrics.durations) (λ _. Closed i w.metrics.durations)
              (on_message d w))
          h.0 (balanced d w))

    signal-Balanced :
        (flag : Bool) (k : ℕ) (w : World)
        → Balanced n k w.state
        → (stopped : Bool)
        → Balanced n k
            (if stopped
              then close (stop_consuming w).1
              else (goes_on consuming true, (stop_consuming w).1)).1.state
    signal-Balanced flag k w h true = rw (close-state (stop_consuming w).1) h
    signal-Balanced flag k w h false = h

    step-Balanced :
        (phase : Phase) (flag : Bool) (e : Event) (k : ℕ) (w : World)
        → Balanced n k w.state
        → Balanced n (cost e k) (step retry_call on_message phase flag e w).1.state
    unfolding step
    step-Balanced consuming flag (delivered d) k w h = deliver-Balanced flag k d w h
    step-Balanced consuming flag signalled k w h =
        signal-Balanced flag k w h (stops (next_fate w.fates))
    step-Balanced consuming flag (dropped m) k w h = h
    step-Balanced consuming flag (broken m) k w h = h
    step-Balanced consuming flag slept k w h = h
    step-Balanced reconnecting flag (delivered d) k w h = (h.0, omega arith)
    step-Balanced reconnecting flag signalled k w h = h
    step-Balanced reconnecting flag (dropped m) k w h = h
    step-Balanced reconnecting flag (broken m) k w h = h
    step-Balanced reconnecting flag slept k w h =
        subscribed-Balanced flag k (subscribe retry_call w)
          (rw (subscribe-state retry_call is_retry w) h)

    run-Balanced :
        (es : List Event) (k : ℕ) (at : Standing × World)
        → Balanced n k at.1.state
        → Balanced n (messages es + k) (run retry_call on_message es at).1.state
    unfolding run
    run-Balanced [] k at h = (h.0, omega (arith, h.1))
    run-Balanced (e ∷ es) k (goes_on phase flag, w) h =
        let later = run-Balanced es (cost e k) _ (step-Balanced phase flag e k w h) in
        (later.0, costs e later.1)
      where
        costs : (e : Event) {m : ℕ} → m ≤ messages es + cost e k → m ≤ messages (e ∷ es) + k
        costs (delivered d) le = omega arith
        costs signalled le = le
        costs (dropped m) le = le
        costs (broken m) le = le
        costs slept le = le
    run-Balanced (e ∷ es) k (finished, w) h = (h.0, costs e h.1)
      where
        costs : (e : Event) {m : ℕ} → m ≤ k → m ≤ messages (e ∷ es) + k
        costs e le = omega arith
    run-Balanced (e ∷ es) k (crashed x, w) h = (h.0, costs e h.1)
      where
        costs : (e : Event) {m : ℕ} → m ≤ k → m ≤ messages (e ∷ es) + k
        costs e le = omega arith

    starts-Balanced :
        (k : ℕ) (r : Result (Unit {0}) × World)
        → Balanced n k r.1.state
        → Balanced n k (starts retry_call on_message r).1.state
    starts-Balanced k (ok _, w) h = h
    starts-Balanced k (err e, w) h = h

    pub run_consumer-Balanced :
        (es : List Event) (k : ℕ) (w : World)
        → Balanced n k w.state
        → Balanced n (messages es + k) (run_consumer retry_call on_message es w).1.state
    unfolding run_consumer
    run_consumer-Balanced es k w h =
        run-Balanced es k (starts retry_call on_message (subscribe retry_call w)) (
          starts-Balanced k (subscribe retry_call w) (rw (subscribe-state retry_call is_retry w) h))
