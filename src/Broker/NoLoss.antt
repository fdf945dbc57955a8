-- ===== src/Broker/NoLoss.antt =====
-- What a turn of a stage's worker does to the number of messages, whichever calls fail.
use digital_cip.Prelude.{
  ◌≡◌, sym, ◌∙◌, ℕ, suc, ◌≤◌, ℤ, leb_ℤ, suc_ℤ, Bool, true, false, Bool-cases, inl, inr, String,
  List, [], ◌∷◌, ◌++◌, arith,
}
use mathlib.Core.Path.{subst}
use digital_cip.Json.{Fields, obj}
use digital_cip.Error.{transient, Foreign, foreign, Result, ok, err, Outcome, returned, raised}
use digital_cip.World.{Properties, Publication, Channel, State, World, text}
use digital_cip.Exec.{Exec}
use digital_cip.Consumer.OnMessage.{on_message, retry_message, dead_letter}
use digital_cip.Consumer.Settlement
use digital_cip.Consumer.Settlement.{on_message-Verdict}
use digital_cip.Consumer.Verdict.{copy, Broken, CopiedAt, Verdict}
use digital_cip.Broker.{Message, Store, put_all, publish, moved}
use digital_cip.Broker.Stages.{
  Stage, RunsConsumer, stage_name, main_queue, queue_key-retry, queue_key-dlq, publish-retry,
  publish-dead, dead_letter-main,
}
use digital_cip.Broker.Turn.{
  System, listening, message_of, delivery_of, publish_each, answer, obey, turn_on, turn,
}
use digital_cip.Broker.Conservation.{
  held, held-Grows, publish_each-Grows, publish_each-append, held-put_retry, held-put_dead,
  held-put_back, held-taken,
}

-- The handler did not see its work through, and the exception is not that the work is in vain.
pub data GaveUp : Result (Unit {0}) → Type 0 where
  for_now : (x : String) → GaveUp (err (transient x))
  by_surprise : (f : Foreign) → GaveUp (err (foreign f))

module _ (mark : Properties → Properties) (s : Stage) (m : Message) where
  -- A message that was not acked is still there.
  held-answer :
      (nacked : List (ℕ × Bool)) (store : Store)
      → held s (answer mark (main_queue s) m [] nacked store) ≡ suc (held s store)
  held-answer [] store = held-put_back m store s
  held-answer ((tag, true) ∷ nacked) store = held-put_back m store s
  held-answer ((tag, false) ∷ nacked) store =
      rw (dead_letter-main m store mark s) (held-put_retry (moved mark m) store s)

  held-obey :
      (c : Channel) (store : Store)
      → c.acked ≡ []
      → suc (held s store) ≤ held s (obey mark (main_queue s) m c store)
  held-obey c store e = rw e (
      omega (
        arith,
        held-answer c.nacked (publish_each c.published store),
        held-Grows s store (publish_each c.published store) (publish_each-Grows c.published store),
      ))

  held-le-answer :
      (acked : List ℕ) (nacked : List (ℕ × Bool)) (store : Store)
      → held s store ≤ held s (answer mark (main_queue s) m acked nacked store)
  held-le-answer (tag ∷ tags) nacked store = omega arith
  held-le-answer [] nacked store = omega (arith, held-answer nacked store)

  -- A copy goes to a queue of the stage.
  held-copy :
      (max_retries : ℤ) (f : Fields) (a : ℤ) (store : Store)
      → let c = copy (stage_name s) max_retries (delivery_of m) f a in
        held s (publish c.exchange c.routing_key (message_of c) store) ≡ suc (held s store)
  held-copy max_retries f a store = elim (Bool-cases (leb_ℤ max_retries a)) [
    | inl e ↦
        let c = message_of (dead_letter (stage_name s) (delivery_of m)) in
        rw (e, queue_key-dlq s, publish-dead) (held-put_dead c store s)
    | inr e ↦
        let c = message_of (retry_message (stage_name s) f m.properties (suc_ℤ a)) in
        rw (e, queue_key-retry s, publish-retry) (held-put_retry c store s)
  ]

  held-obey-copy :
      (max_retries : ℤ) (f : Fields) (a : ℤ) (before : List Publication) (c : Channel)
      (store : Store)
      → c.published ≡ before ++ (copy (stage_name s) max_retries (delivery_of m) f a ∷ [])
      → suc (held s store) ≤ held s (obey mark (main_queue s) m c store)
  held-obey-copy max_retries f a before c store e =
      let p = copy (stage_name s) max_retries (delivery_of m) f a in
      let sent = publish_each before store in
      rw (e, publish_each-append before p store)
        (omega (
          arith,
          held-Grows s store sent (publish_each-Grows before store),
          held-copy max_retries f a sent,
          held-le-answer c.acked c.nacked (publish p.exchange p.routing_key (message_of p) sent),
        ))

  -- However far the copy and the ack have come.
  held-Broken :
      (max_retries : ℤ) (f : Fields) (a : ℤ) (before : Channel) (st : State) (store : Store)
      → before.acked ≡ []
      → Broken (copy (stage_name s) max_retries (delivery_of m) f a) (delivery_of m).tag before st
      → suc (held s store) ≤ held s (obey mark (main_queue s) m st.channel store)
  held-Broken max_retries f a before st store none_acked (inl h) =
      held-obey st.channel store (h.1 ∙ none_acked)
  held-Broken max_retries f a before st store none_acked (inr (inl h)) =
      held-obey-copy max_retries f a before.published st.channel store h.0
  held-Broken max_retries f a before st store none_acked (inr (inr h)) =
      held-obey-copy max_retries f a before.published st.channel store h.0

  held-CopiedAt :
      (max_retries : ℤ) (f : Fields) (o : Outcome ℤ) (done : Result (Unit {0})) (before : Channel)
      (n : ℕ) (st : State) (store : Store)
      → before.acked ≡ []
      → CopiedAt (stage_name s) max_retries before n (delivery_of m) f o done st
      → suc (held s store) ≤ held s (obey mark (main_queue s) m st.channel store)
  held-CopiedAt max_retries f (raised x) (ok _) before n st store none_acked h = absurd h
  held-CopiedAt max_retries f (raised x) (err _) before n st store none_acked h =
      held-obey st.channel store (h.1 ∙ none_acked)
  held-CopiedAt max_retries f (returned a) (ok _) before n st store none_acked h =
      held-Broken max_retries f a before st store none_acked (inr (inr h))
  held-CopiedAt max_retries f (returned a) (err _) before n st store none_acked h =
      held-Broken max_retries f a before st store none_acked h

  held-Verdict :
      (max_retries : ℤ) (f : Fields) {r : Result (Unit {0})} (done : Result (Unit {0}))
      (before : Channel) (n : ℕ) (st : State) (store : Store)
      → GaveUp r
      → before.acked ≡ []
      → Verdict (stage_name s) max_retries before n (delivery_of m) f r done st
      → suc (held s store) ≤ held s (obey mark (main_queue s) m st.channel store)
  held-Verdict max_retries f done before n st store (for_now x) none_acked h =
      held-CopiedAt max_retries f _ done before n st store none_acked h
  held-Verdict max_retries f done before n st store (by_surprise x) none_acked h =
      held-obey st.channel store (h.0.1 ∙ none_acked)

held-turn :
    (mark : Properties → Properties) (s : Stage) (max_retries : ℤ)
    (deliver : Fields → Exec (Unit {0})) (sys : System) (m : Message) (ms : List Message)
    (f : Fields) (queue : List Message)
    → queue ≡ m ∷ ms
    → m.body ≡ text (obj f)
    → let run =
        deliver f (Settlement.began (stage_name s) max_retries deliver (listening sys.world)) in
      GaveUp run.0
      → run.1.channel.acked ≡ []
      → suc (held s (put_all (main_queue s) ms sys.store))
        ≤ held s (turn_on mark s (on_message (stage_name s) max_retries deliver) queue sys).store
held-turn mark s max_retries deliver sys m ms f queue head reads gave_up none_acked =
    let w = listening sys.world in
    let run = deliver f (Settlement.began (stage_name s) max_retries deliver w) in
    let after = on_message (stage_name s) max_retries deliver (delivery_of m) w in
    let rest = put_all (main_queue s) ms sys.store in
    let verdict = on_message-Verdict (stage_name s) max_retries deliver (delivery_of m) f w reads in
    rw head (
      held-Verdict mark s m max_retries f after.0 run.1.channel run.1.metrics.failed_unhandled
        after.1.state rest gave_up none_acked verdict)

-- In the stages `ocr` and `embed`, whose workers run consumer.py: whichever calls of the handler and
-- the broker fail, after a turn on a message whose body is an object, and whose handler raised an
-- exception that is no `PermanentError` and acked nothing itself, the stage's queues hold at least
-- as many messages as before.
pub turn_keeps_messages :
    (mark : Properties → Properties) (s : Stage) (max_retries : ℤ)
    (deliver : Fields → Exec (Unit {0})) (sys : System) (m : Message) (ms : List Message)
    (f : Fields) (run : Result (Unit {0}) × World)
    → RunsConsumer s
    → sys.store (main_queue s) ≡ m ∷ ms
    → m.body ≡ text (obj f)
    → deliver f (Settlement.began (stage_name s) max_retries deliver (listening sys.world)) ≡ run
    → GaveUp run.0
    → run.1.channel.acked ≡ []
    → held s sys.store
      ≤ held s (turn mark s (on_message (stage_name s) max_retries deliver) sys).store
unfolding turn
turn_keeps_messages mark s max_retries deliver sys m ms f run python head reads ran gave_up
      none_acked =
    rw (held-taken m sys.store s ms head) (
      held-turn mark s max_retries deliver sys m ms f (sys.store (main_queue s)) head reads
        (subst (λ (x : Result (Unit {0}) × World). GaveUp x.0) (sym ran) gave_up)
        (subst (λ (x : Result (Unit {0}) × World). x.1.channel.acked ≡ []) (sym ran) none_acked))
