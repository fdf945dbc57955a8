-- ===== src/Consumer/Settlement.antt =====
-- What becomes of a message in `on_message`, whichever calls fail.
use digital_cip.Prelude.{
  ◌≡◌, refl, ap, ℕ, suc, ◌-◌, ℤ, Bool, false, String, [], ◌∷◌, ◌++◌, ◌⊎◌, inl, inr,
}
use digital_cip.Json.{Value, Fields, obj}
use digital_cip.Error.{
  Error, permanent, transient, foreign, Result, ok, err, Outcome, returned, raised,
}
use digital_cip.World.{State, World, Body, text, Channel, Reason}
use digital_cip.Exec.{Exec, pure, modify, recover, conclude, continue, ◌>>=◌, ◌>>◌}
use digital_cip.Exec.Rules.{Meets, Post, Raises, Raises-again, Meets-bind, Meets-call, Meets-try}
use digital_cip.Consumer.Effects
use digital_cip.Consumer.Effects.{
  on_channel, on_metrics, published_also, acked_also, nacked_also, basic_publish, basic_ack,
  basic_nack, failed, processed, retried, observed, ended, monotonic,
}
use digital_cip.Consumer.OnMessage.{Delivery, as_dict, settle_error, work, load, on_message}
use digital_cip.Consumer.Verdict.{Untouched, Acked, CopiedAt, Verdict, error-Verdict}

module _ (stage : String) (max_retries : ℤ) (deliver : Fields → Exec (Unit {0})) where
  -- After the handler has returned, with the channel `c` and `n` unhandled failures: nothing is
  -- published, and the ack was done or not.
  Answered : Channel → ℕ → ℕ → State → Type 0
  Answered c n tag st =
      (st.channel.published ≡ c.published)
      × ((st.channel.acked ≡ c.acked) ⊎ Acked tag c st)
      × (st.metrics.failed_unhandled ≡ n)

  -- the verdict on a handler that has returned
  Returned : Channel → ℕ → ℕ → State → Type 0
  Returned c n tag st =
      (st.channel.published ≡ c.published)
      × (Acked tag c st ⊎ ((st.channel.acked ≡ c.acked) × (st.metrics.failed_unhandled ≡ suc n)))

  ack-Answered :
      (c : Channel) (n tag : ℕ)
      → Meets
          (Untouched c n)
          (basic_ack tag)
          (λ _ st.
            (st.channel.published ≡ c.published)
            × Acked tag c st
            × (st.metrics.failed_unhandled ≡ n))
          (Raises (Answered c n tag))
  unfolding basic_ack Answered
  ack-Answered c n tag =
      Meets-call (modify (on_channel (acked_also tag)))
        record {
          at = λ w h. (
            ap (λ (x : Channel). x.published) h.0,
            ap (λ (x : Channel). x.acked ++ (tag ∷ [])) h.0,
            h.1,
          );
        }
        (λ st f h.
          (ap (λ (x : Channel). x.published) h.0, inl (ap (λ (x : Channel). x.acked) h.0), h.1))
        (λ st a f h. (h.0, inr h.1, h.2)) (λ st e f h. Raises-again (Answered c n tag) st e f h)

  nack-Returned :
      (c : Channel) (n tag : ℕ) (requeue : Bool)
      → Meets
          (Returned c n tag)
          (basic_nack tag requeue)
          (λ _. Returned c n tag)
          (λ _. Returned c n tag)
  unfolding basic_nack Returned
  nack-Returned c n tag requeue =
      Meets-call (modify (on_channel (nacked_also tag requeue))) (record { at = λ w h. h })
        (λ st f h. h) (λ st a f h. h) (λ st e f h. h)

  counted_once :
      (c : Channel) (n tag : ℕ) (st : State)
      → Answered c n tag st
      → Returned c n tag (on_metrics (failed Reason.unhandled) st)
  unfolding Answered Returned
  counted_once c n tag st (p, inl same, e) = (p, inr (same, ap suc e))
  counted_once c n tag st (p, inr acked, e) = (p, inl acked)

  error-Returned :
      (c : Channel) (n : ℕ) (d : Delivery) (v : Value) (e : Error)
      → Meets
          (Raises (Answered c n d.tag) e)
          (settle_error stage max_retries d v e)
          (λ _. Returned c n d.tag)
          (λ _. Returned c n d.tag)
  unfolding settle_error
  error-Returned c n d v (permanent m) = record { at = λ w h. absurd h }
  error-Returned c n d v (transient m) = record { at = λ w h. absurd h }
  error-Returned c n d v (foreign f) =
      Meets-bind {R = λ _. Returned c n d.tag} {m = modify (on_metrics (failed Reason.unhandled))}
        (record { at = λ w h. counted_once c n d.tag w.state h })
        λ _.
          Meets-try {rescue = λ e. pure tt} (nack-Returned c n d.tag false)
            λ e. record { at = λ w h. h }

  -- What the handler's run, and `on_message`, came to.
  abbrev Ends : Delivery → Fields → Result (Unit {0}) × World → Result (Unit {0}) → State → Type 0
  Ends d fields run done st =
      Verdict stage max_retries run.1.channel run.1.metrics.failed_unhandled d fields run.0 done st

  -- the rest of `work`, and the `except` clauses, from the handler's result on
  rest-Verdict :
      (d : Delivery) (fields : Fields) (run : Result (Unit {0}) × World)
      → Post
          (λ a. Ends d fields run (ok a))
          (λ e. Ends d fields run (err e))
          (recover
            (continue run λ _. do basic_ack d.tag; modify (on_metrics processed))
            (settle_error stage max_retries d (obj fields)))
  unfolding Returned
  rest-Verdict d fields (ok _, w) =
      (Meets-try {E' = Raises (Answered w.channel w.metrics.failed_unhandled d.tag)}
          (Meets-bind (ack-Answered w.channel w.metrics.failed_unhandled d.tag)
            λ _. record { at = λ w' h. (h.0, inl h.1) })
          (error-Returned w.channel w.metrics.failed_unhandled d (obj fields))).at
        w (refl, refl)
  rest-Verdict d fields (err e, w) =
      (error-Verdict stage max_retries w.channel w.metrics.failed_unhandled d fields e).at w
        (refl, refl)

  load-Verdict :
      (d : Delivery) (fields : Fields) (w : World)
      → let run = deliver fields w in
        Post
          (λ a. Ends d fields run (ok a))
          (λ e. Ends d fields run (err e))
          (load stage max_retries deliver d (text (obj fields)) w)
  unfolding load work as_dict
  load-Verdict d fields w = rest-Verdict d fields (deliver fields w)

  body-Verdict :
      (d : Delivery) (body : Body) (fields : Fields) (w : World)
      → body ≡ text (obj fields)
      → let run = deliver fields w in
        Post
          (λ a. Ends d fields run (ok a))
          (λ e. Ends d fields run (err e))
          (load stage max_retries deliver d body w)
  body-Verdict d body fields w h = rw h (load-Verdict d fields w)

  -- The state after the `finally` clause.
  abbrev finished : ℕ → ℕ → State → State
  finished t clock st = record st { metrics = ended (observed t st.metrics); clock = clock }

  CopiedAt-still :
      (c : Channel) (n : ℕ) (d : Delivery) (fields : Fields) (o : Outcome ℤ)
      (done : Result (Unit {0})) (st : State) (t clock : ℕ)
      → CopiedAt stage max_retries c n d fields o done st
      → CopiedAt stage max_retries c n d fields o done (finished t clock st)
  CopiedAt-still c n d envelope (returned a) (ok _) st t clock h = h
  CopiedAt-still c n d envelope (returned a) (err _) st t clock h = h
  CopiedAt-still c n d envelope (raised f) (ok _) st t clock h = h
  CopiedAt-still c n d envelope (raised f) (err _) st t clock h = h

  Verdict-still :
      (c : Channel) (n : ℕ) (d : Delivery) (fields : Fields) (r done : Result (Unit {0}))
      (st : State) (t clock : ℕ)
      → Verdict stage max_retries c n d fields r done st
      → Verdict stage max_retries c n d fields r done (finished t clock st)
  Verdict-still c n d envelope (ok _) done st t clock h = h
  Verdict-still c n d envelope (err (permanent x)) (ok _) st t clock h = h
  Verdict-still c n d envelope (err (permanent x)) (err _) st t clock h = h
  Verdict-still c n d envelope (err (transient x)) done st t clock h =
      CopiedAt-still c n d envelope _ done st t clock h
  Verdict-still c n d envelope (err (foreign f)) done st t clock h = h

  closed :
      (V : Result (Unit {0}) → State → Type 0) (since : ℕ)
      → ((r : Result (Unit {0})) (st : State) (t clock : ℕ) → V r st → V r (finished t clock st))
      → (done : Result (Unit {0}) × World) → Post (λ a. V (ok a)) (λ e. V (err e)) done
      → let after = conclude done.0 (
          (do
            now ← monotonic
            modify (on_metrics (observed (now - since)))
            modify (on_metrics ended))
            done.1) in
        V after.0 after.1.state
  unfolding monotonic
  closed V since k (ok a, w) h = k (ok a) w.state _ _ h
  closed V since k (err e, w) h = k (err e) w.state _ _ h

  -- the world in which the handler begins
  abbrev pub began : World → World
  began w = record w {
    state = record w.state { metrics = Effects.started w.metrics; clock = suc w.clock };
  }

  -- Whichever calls of the handler and of the broker fail, what `on_message` says of a message whose
  -- body is an object is determined by what its handler's run came to, by whether `on_message`
  -- itself returns or raises, and by whether a failure was counted as unhandled. If the handler
  -- returned, nothing more is published, and the message is acked unless an unhandled failure is
  -- counted. After `PermanentError` nothing more is published or nacked, and the message is acked
  -- unless `on_message` raises. After `TransientError`, where `attempt` is a number, a copy is
  -- published, to the dead-letter exchange when `attempt` has reached `max_retries` and else to the
  -- retry exchange, and then the message is acked; if `on_message` raises, it has come only a part
  -- of this way, in this order. Where `attempt` is no number, `on_message` raises and has neither
  -- published nor acked. After any other exception the message is neither copied nor acked, one
  -- failure is counted as unhandled, and at most this message is nacked, without requeueing. An ack
  -- is always that of the message's own tag.
  pub on_message-Verdict :
      (d : Delivery) (fields : Fields) (w : World)
      → d.body ≡ text (obj fields)
      → let run = deliver fields (began w) in
        let after = on_message stage max_retries deliver d w in
        Verdict stage max_retries run.1.channel run.1.metrics.failed_unhandled d fields run.0
          after.0 after.1.state
  unfolding on_message monotonic
  on_message-Verdict d fields w h =
      closed (Ends d fields (deliver fields (began w))) w.clock
        (Verdict-still _ _ d fields (deliver fields (began w)).0)
        (load stage max_retries deliver d d.body (began w))
        (body-Verdict d d.body fields (began w) h)
