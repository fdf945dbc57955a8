-- ===== src/Consumer/Tally.antt =====
-- What `on_message` answers and counts where every call works.
use digital_cip.Prelude.{
  ◌≡◌, refl, ℕ, suc, ◌+◌, ◌-◌, ℤ, List, ◌++◌, Bool, true, false, String, length, length-append,
  leb_ℤ, [], ◌∷◌, if◌then◌else◌, pos,
}
use native.Mathlib.Omega.{arith}
use digital_cip.Json.{Fields, num, obj, get_or}
use digital_cip.Error.{Error, permanent, transient, foreign, Result, ok, err, returned}
use digital_cip.World.{State, World, Body, text, Channel, Metrics}
use digital_cip.Exec.{Exec, modify, conclude, ◌>>=◌, ◌>>◌}
use digital_cip.Exec.Calm.{calm}
use digital_cip.Consumer.Effects
use digital_cip.Consumer.Effects.{
  on_metrics, observed, ended, basic_publish, basic_ack, basic_nack, monotonic,
}
use digital_cip.Consumer.OnMessage.{
  Delivery, as_dict, int_operand, retry_or_bury, settle_error, work, load, on_message,
}

-- how many messages were counted by their outcome
abbrev pub outcomes : Metrics → ℕ
outcomes m = m.processed + m.failed_permanent + m.failed_exhausted + m.failed_unhandled + m.retried

-- how many deliveries were answered
abbrev pub answers : Channel → ℕ
answers c = length c.acked + length c.nacked

-- Every call works from here on, one more message was counted and one more delivery answered.
abbrev pub Once : State → Result (Unit {0}) × World → Type 0
Once st (r, w) =
    (r ≡ ok tt)
    × (w.fates ≡ [])
    × (outcomes w.metrics ≡ suc (outcomes st.metrics))
    × (answers w.channel ≡ suc (answers st.channel))

-- the state in which the handler begins
abbrev pub began : State → State
began st = record st { metrics = Effects.started st.metrics; clock = suc st.clock }

closed :
    (st : State) (since : ℕ) (done : Result (Unit {0}) × World)
    → Once st done
    → Once st (
        conclude done.0 (
          (do
            now ← monotonic
            modify (on_metrics (observed (now - since)))
            modify (on_metrics ended))
            done.1))
unfolding monotonic
closed st since (r, w) h = h

Once-if :
    (st : State) (b : Bool) (m n : Exec (Unit {0}))
    → Once st (m (calm st))
    → Once st (n (calm st))
    → Once st ((if b then m else n) (calm st))
Once-if st true m n p q = p
Once-if st false m n p q = q

answered_ack :
    (acked : List ℕ) (n tag : ℕ) → length (acked ++ (tag ∷ [])) + n ≡ suc (length acked + n)
answered_ack acked n tag = omega (arith, length-append acked (tag ∷ []))

answered_nack :
    (n : ℕ) (nacked : List (ℕ × Bool)) (x : ℕ × Bool)
    → n + length (nacked ++ (x ∷ [])) ≡ suc (n + length nacked)
answered_nack n nacked x = omega (arith, length-append nacked (x ∷ []))

module _ (stage : String) (max_retries : ℤ) where
  bury-Once :
      (d : Delivery) (envelope : Fields) (attempt : ℤ) (st : State)
      → Once st (retry_or_bury stage max_retries d envelope attempt (calm st))
  unfolding retry_or_bury basic_publish basic_ack
  bury-Once d envelope attempt st =
      Once-if st (leb_ℤ max_retries attempt) _ _
        (refl, refl, omega arith, answered_ack st.channel.acked _ d.tag)
        (refl, refl, omega arith, answered_ack st.channel.acked _ d.tag)

  error-Once :
      (d : Delivery) (envelope : Fields) (attempt : ℤ) (e : Error) (st : State)
      → int_operand (get_or "attempt" (num (pos 1)) envelope) ≡ returned attempt
      → Once st (settle_error stage max_retries d (obj envelope) e (calm st))
  unfolding settle_error as_dict basic_ack basic_nack
  error-Once d envelope attempt (permanent m) st h =
      (refl, refl, omega arith, answered_ack st.channel.acked _ d.tag)
  error-Once d envelope attempt (transient m) st h = rw h (bury-Once d envelope attempt st)
  error-Once d envelope attempt (foreign f) st h =
      (refl, refl, omega arith, answered_nack (length st.channel.acked) st.channel.nacked _)

  module _ (deliver : Fields → Exec (Unit {0})) where
    load-Once :
        (d : Delivery) (body : Body) (envelope : Fields) (attempt : ℤ) (w : World) (st : State)
        (r : Result (Unit {0}))
        → body ≡ text (obj envelope)
        → int_operand (get_or "attempt" (num (pos 1)) envelope) ≡ returned attempt
        → deliver envelope w ≡ (r, calm st)
        → Once st (load stage max_retries deliver d body w)
    unfolding load work as_dict basic_ack
    load-Once d body envelope attempt w st (ok _) e h run =
        rw (e, run) (refl, refl, omega arith, answered_ack st.channel.acked _ d.tag)
    load-Once d body envelope attempt w st (err x) e h run =
        rw (e, run) (error-Once d envelope attempt x st h)

    -- Where every call of the broker works, whatever came of the handler's run, `on_message`
    -- returns, answers the delivery by exactly one ack or nack, and counts the message by exactly
    -- one of its five outcomes. The message's body is an object whose `attempt` is a number.
    pub on_message-Once :
        (d : Delivery) (envelope : Fields) (attempt : ℤ) (st st' : State) (r : Result (Unit {0}))
        → d.body ≡ text (obj envelope)
        → int_operand (get_or "attempt" (num (pos 1)) envelope) ≡ returned attempt
        → deliver envelope (calm (began st)) ≡ (r, calm st')
        → Once st' (on_message stage max_retries deliver d (calm st))
    unfolding on_message monotonic
    on_message-Once d envelope attempt st st' r e h run =
        closed st' st.clock (load stage max_retries deliver d d.body (calm (began st)))
          (load-Once d d.body envelope attempt (calm (began st)) st' r e h run)
