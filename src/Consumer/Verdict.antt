-- ===== src/Consumer/Verdict.antt =====
-- What `on_message` tells the broker about a message, by what its handler's run came to.
use digital_cip.Prelude.{
  ◌≡◌, ap, ℕ, ℤ, pos, leb_ℤ, suc, suc_ℤ, Bool, true, false, String, List, [], ◌∷◌, ◌++◌, ◌⊎◌, inl,
  inr, if◌then◌else◌,
}
use digital_cip.Json.{Fields, num, obj, get_or}
use digital_cip.Error.{
  Error, permanent, transient, Foreign, foreign, Result, ok, err, Outcome, returned, raised,
}
use digital_cip.World.{State, Channel, Metrics, Publication, Reason}
use digital_cip.Exec.{Exec, pure, modify, lift, ◌>>=◌, ◌>>◌}
use digital_cip.Exec.Rules.{Meets, Meets-bind, Meets-call, Meets-try}
use digital_cip.Consumer.Effects.{
  on_channel, on_metrics, published_also, acked_also, nacked_also, basic_publish, basic_ack,
  basic_nack, failed, retried,
}
use digital_cip.Consumer.OnMessage.{
  Delivery, as_dict, int_operand, retry_message, dead_letter, retry_or_bury, settle_error,
}

-- The channel as it was when the handler was done, after `n` unhandled failures.
abbrev pub Untouched : Channel → ℕ → State → Type 0
Untouched c n st = (st.channel ≡ c) × (st.metrics.failed_unhandled ≡ n)

-- the copy that a message leaves behind when its attempt failed
abbrev pub copy : String → ℤ → Delivery → Fields → ℤ → Publication
copy stage max_retries d envelope attempt =
    if leb_ℤ max_retries attempt
    then dead_letter stage d
    else retry_message stage envelope d.properties (suc_ℤ attempt)

-- Nothing more was published and the message was not acked.
abbrev pub Kept : Channel → State → Type 0
Kept c st = (st.channel.published ≡ c.published) × (st.channel.acked ≡ c.acked)

-- Just this message was acked.
abbrev pub Acked : ℕ → Channel → State → Type 0
Acked tag c st = st.channel.acked ≡ c.acked ++ (tag ∷ [])

-- The copy was published and the message was not acked yet.
abbrev pub Sent : Publication → Channel → State → Type 0
Sent p c st = (st.channel.published ≡ c.published ++ (p ∷ [])) × (st.channel.acked ≡ c.acked)

-- The copy was published and then the message was acked.
abbrev pub Copied : Publication → ℕ → Channel → State → Type 0
Copied p tag c st = (st.channel.published ≡ c.published ++ (p ∷ [])) × Acked tag c st

-- How far it came before a call failed: it was kept, a copy was published, or it was then acked.
abbrev pub Broken : Publication → ℕ → Channel → State → Type 0
Broken p tag c st = Kept c st ⊎ (Sent p c st ⊎ Copied p tag c st)

pub counted :
    {P : State → Type 0} {Q : Unit {0} → State → Type 0} {E : Error → State → Type 0}
    (f : Metrics → Metrics) (m : Exec (Unit {0}))
    → ((st : State) → P st → P (on_metrics f st))
    → Meets P m Q E
    → Meets P (modify (on_metrics f) >>= λ _. m) Q E
counted f m k h = record {
  at = λ w p. h.at (record w { state = on_metrics f w.state }) (k w.state p);
}

module _ (stage : String) (max_retries : ℤ) (c : Channel) (n : ℕ) where
  publish-Sent :
      (p : Publication) (tag : ℕ)
      → Meets (Untouched c n) (basic_publish p) (λ _. Sent p c) (λ _. Broken p tag c)
  unfolding basic_publish
  publish-Sent p tag =
      Meets-call (modify (on_channel (published_also p)))
        record {
          at = λ w h. (
            ap (λ (x : Channel). x.published ++ (p ∷ [])) h.0,
            ap (λ (x : Channel). x.acked) h.0,
          );
        }
        (λ st f h. inl (ap (λ (x : Channel). x.published) h.0, ap (λ (x : Channel). x.acked) h.0))
        (λ st a f h. inr (inl h)) (λ st e f h. h)

  ack-Copied :
      (p : Publication) (tag : ℕ)
      → Meets (Sent p c) (basic_ack tag) (λ _. Copied p tag c) (λ _. Broken p tag c)
  unfolding basic_ack
  ack-Copied p tag =
      Meets-call (modify (on_channel (acked_also tag)))
        record { at = λ w h. (h.0, ap (λ (xs : List ℕ). xs ++ (tag ∷ [])) h.1) }
        (λ st f h. inr (inl h)) (λ st a f h. inr (inr h)) (λ st e f h. h)

  Copied-when :
      (d : Delivery) (envelope : Fields) (next : ℤ) (b : Bool)
      → let p = if b then dead_letter stage d else retry_message stage envelope d.properties next in
        Meets
          (Untouched c n)
          (if b
            then (do
              modify (on_metrics (failed Reason.exhausted))
              basic_publish (dead_letter stage d)
              basic_ack d.tag)
            else (do
              modify (on_metrics retried)
              basic_publish (retry_message stage envelope d.properties next)
              basic_ack d.tag))
          (λ _. Copied p d.tag c)
          (λ _. Broken p d.tag c)
  Copied-when d envelope next true =
      counted (failed Reason.exhausted) _ (λ st h. h)
        (Meets-bind (publish-Sent (dead_letter stage d) d.tag) λ _. ack-Copied _ d.tag)
  Copied-when d envelope next false =
      counted retried _ (λ st h. h)
        (Meets-bind (publish-Sent (retry_message stage envelope d.properties next) d.tag)
          λ _. ack-Copied _ d.tag)

  bury-Copied :
      (d : Delivery) (envelope : Fields) (attempt : ℤ)
      → Meets
          (Untouched c n)
          (retry_or_bury stage max_retries d envelope attempt)
          (λ _. Copied (copy stage max_retries d envelope attempt) d.tag c)
          (λ _. Broken (copy stage max_retries d envelope attempt) d.tag c)
  unfolding retry_or_bury
  bury-Copied d envelope attempt =
      Copied-when d envelope (suc_ℤ attempt) (leb_ℤ max_retries attempt)

  -- By what the envelope's `attempt` is, a number or something else, and by whether `on_message`
  -- returns or raises.
  abbrev pub CopiedAt : Delivery → Fields → Outcome ℤ → Result (Unit {0}) → State → Type 0
  CopiedAt d envelope (returned a) (ok _) st =
      Copied (copy stage max_retries d envelope a) d.tag c st
  CopiedAt d envelope (returned a) (err _) st =
      Broken (copy stage max_retries d envelope a) d.tag c st
  CopiedAt d envelope (raised f) (ok _) st = ⊥
  CopiedAt d envelope (raised f) (err _) st = Kept c st

  -- The failure was counted as unhandled.
  abbrev pub Unhandled : State → Type 0
  Unhandled st = st.metrics.failed_unhandled ≡ suc n

  -- By what the handler's run came to, and by whether `on_message` returns or raises.
  abbrev pub Verdict : Delivery → Fields → Result (Unit {0}) → Result (Unit {0}) → State → Type 0
  Verdict d envelope (ok _) done st =
      (st.channel.published ≡ c.published)
      × (Acked d.tag c st ⊎ ((st.channel.acked ≡ c.acked) × Unhandled st))
  Verdict d envelope (err (permanent m)) (ok _) st =
      (st.channel.published ≡ c.published) × (st.channel.nacked ≡ c.nacked) × Acked d.tag c st
  Verdict d envelope (err (permanent m)) (err _) st =
      (st.channel.published ≡ c.published)
      × (st.channel.nacked ≡ c.nacked)
      × ((st.channel.acked ≡ c.acked) ⊎ Acked d.tag c st)
  Verdict d envelope (err (transient m)) done st =
      CopiedAt d envelope (int_operand (get_or "attempt" (num (pos 1)) envelope)) done st
  Verdict d envelope (err (foreign f)) done st =
      Kept c st
      × Unhandled st
      × ((st.channel.nacked ≡ c.nacked) ⊎ (st.channel.nacked ≡ c.nacked ++ ((d.tag, false) ∷ [])))

  CopiedAt-lift :
      (d : Delivery) (envelope : Fields) (attempt : Outcome ℤ)
      → Meets
          (Untouched c n)
          (lift attempt >>= retry_or_bury stage max_retries d envelope)
          (λ a. CopiedAt d envelope attempt (ok a))
          (λ e. CopiedAt d envelope attempt (err e))
  CopiedAt-lift d envelope (returned a) = record { at = λ w h. (bury-Copied d envelope a).at w h }
  CopiedAt-lift d envelope (raised f) = record {
    at = λ w h. (ap (λ (x : Channel). x.published) h.0, ap (λ (x : Channel). x.acked) h.0);
  }

  -- What holds once an unhandled failure is counted.
  abbrev Counted : State → Type 0
  Counted st = (st.channel ≡ c) × Unhandled st

  -- Whether or not the nack goes through.
  nack-Verdict :
      (d : Delivery) (envelope : Fields) (f : Foreign)
      → Meets Counted
          (basic_nack d.tag false)
          (λ _. Verdict d envelope (err (foreign f)) (ok tt))
          (λ _. Verdict d envelope (err (foreign f)) (ok tt))
  unfolding basic_nack
  nack-Verdict d envelope f =
      Meets-call (modify (on_channel (nacked_also d.tag false)))
        record {
          at = λ w h. (
            (ap (λ (x : Channel). x.published) h.0, ap (λ (x : Channel). x.acked) h.0),
            h.1,
            inr (ap (λ (x : Channel). x.nacked ++ ((d.tag, false) ∷ [])) h.0),
          );
        }
        (λ st e h. (
          (ap (λ (x : Channel). x.published) h.0, ap (λ (x : Channel). x.acked) h.0),
          h.1,
          inl (ap (λ (x : Channel). x.nacked) h.0),
        ))
        (λ st a e h. h) (λ st e e' h. h)

  pub error-Verdict :
      (d : Delivery) (envelope : Fields) (e : Error)
      → Meets
          (Untouched c n)
          (settle_error stage max_retries d (obj envelope) e)
          (λ a. Verdict d envelope (err e) (ok a))
          (λ x. Verdict d envelope (err e) (err x))
  unfolding settle_error as_dict basic_ack
  error-Verdict d envelope (permanent m) =
      counted (failed Reason.permanent) _ (λ st h. h)
        (Meets-call (modify (on_channel (acked_also d.tag)))
          record {
            at = λ w h. (
              ap (λ (x : Channel). x.published) h.0,
              ap (λ (x : Channel). x.nacked) h.0,
              ap (λ (x : Channel). x.acked ++ (d.tag ∷ [])) h.0,
            );
          }
          (λ st f h. (
            ap (λ (x : Channel). x.published) h.0,
            ap (λ (x : Channel). x.nacked) h.0,
            inl (ap (λ (x : Channel). x.acked) h.0),
          ))
          (λ st a f h. (h.0, h.1, inr h.2)) (λ st e f h. h))
  error-Verdict d envelope (transient m) = CopiedAt-lift d envelope _
  error-Verdict d envelope (foreign f) =
      Meets-bind {R = λ _. Counted} {m = modify (on_metrics (failed Reason.unhandled))}
        (record { at = λ w h. (h.0, ap suc h.1) })
        λ _.
          Meets-try {rescue = λ e. pure tt} (nack-Verdict d envelope f)
            λ e. record { at = λ w h. h }
