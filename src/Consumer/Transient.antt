-- ===== src/Consumer/Transient.antt =====
-- `on_message` after a `TransientError`, where the broker's calls work.
use digital_cip.Prelude.{
  ◌≡◌, ℕ, suc, ◌-◌, ℤ, pos, leb_ℤ, Bool-cases, inl, inr, String, [], ◌∷◌, ◌++◌, if◌then◌else◌,
}
use digital_cip.Json.{Fields, num, obj, get_or}
use digital_cip.Error.{transient, ok, err, returned}
use digital_cip.World.{State, Body, text, Channel, Reason}
use digital_cip.Exec.{Exec}
use digital_cip.Exec.Calm.{calm}
use digital_cip.Consumer.Effects.{
  failed, retried, observed, ended, basic_publish, basic_ack, monotonic,
}
use digital_cip.Consumer.OnMessage.{
  Delivery, as_dict, int_operand, retry_or_bury, settle_error, work, load, on_message,
}
use digital_cip.Consumer.Tally.{began}
use digital_cip.Consumer.Verdict.{copy}

-- what the worker says after it has given up an attempt
abbrev pub copied : String → ℤ → Delivery → Fields → ℤ → Channel → Channel
copied stage max_retries d envelope attempt c = record c {
  published = c.published ++ (copy stage max_retries d envelope attempt ∷ []);
  acked = c.acked ++ (d.tag ∷ []);
}

-- the end of `on_message`, which began at `since`
abbrev pub closing : ℕ → State → State
closing since st = record st {
  metrics = ended (observed (st.clock - since) st.metrics);
  clock = suc st.clock;
}

module _ (stage : String) (max_retries : ℤ) (d : Delivery) (envelope : Fields) (attempt : ℤ) where
  abbrev pub gave_up : State → State
  gave_up st = record st {
    metrics =
        if leb_ℤ max_retries attempt
        then failed Reason.exhausted st.metrics
        else retried st.metrics;
    channel = copied stage max_retries d envelope attempt st.channel;
  }

  bury-calm :
      (st : State)
      → retry_or_bury stage max_retries d envelope attempt (calm st) ≡ (ok tt, calm (gave_up st))
  unfolding retry_or_bury basic_publish basic_ack
  bury-calm st = elim (Bool-cases (leb_ℤ max_retries attempt)) [ inl e ↦ rw e | inr e ↦ rw e ]

  module _ (deliver : Fields → Exec (Unit {0})) (reason : String)
      (number : int_operand (get_or "attempt" (num (pos 1)) envelope) ≡ returned attempt) where
    load-transient :
        (body : Body) (st st' : State)
        → body ≡ text (obj envelope)
        → deliver envelope (calm st) ≡ (err (transient reason), calm st')
        → load stage max_retries deliver d body (calm st) ≡ (ok tt, calm (gave_up st'))
    unfolding load work as_dict settle_error
    load-transient body st st' e run = rw (e, run, number, bury-calm st')

    -- A run that raises `TransientError` ends in one copy of the message and an ack.
    pub on_message-transient :
        (st st' : State)
        → d.body ≡ text (obj envelope)
        → deliver envelope (calm (began st)) ≡ (err (transient reason), calm st')
        → on_message stage max_retries deliver d (calm st)
          ≡ (ok tt, calm (closing st.clock (gave_up st')))
    unfolding on_message monotonic
    on_message-transient st st' e run = rw (load-transient d.body (began st) st' e run)
