-- ===== src/Broker/Poison.antt =====
-- A message that no worker can work on, on its way through the retry queue.
use digital_cip.Prelude.{◌≡◌, refl, sym, ℕ, zero, suc, ◌+◌, ℤ, List, [], ◌∷◌, arith}
use mathlib.Core.Path.{subst}
use digital_cip.Json.{Fields}
use digital_cip.World.{Body, Properties, State}
use digital_cip.Exec.{Exec}
use digital_cip.Exec.Calm.{calm}
use digital_cip.Consumer.OnMessage.{Delivery, on_message}
use digital_cip.Consumer.Poison.{IsPoison, on_message-poison, refused_by}
use digital_cip.Consumer.Tally.{began}
use digital_cip.Consumer.Transient.{closing}
use digital_cip.Broker.{Message, Store, put, put_all, moved}
use digital_cip.Broker.Stages.{
  Stage, RunsConsumer, stage_name, main_queue, retry_queue, dead_letter-main,
}
use digital_cip.Broker.Turn.{System, silent, delivery_of, turn, cycle, cycles}
use digital_cip.Broker.Retries.{Holds, retried-Holds, at_rest}

-- One message with this body waits in the stage's queue; the broker's calls work, and `n` messages
-- failed with an exception that the worker does not handle.
pub record Waiting (s : Stage) (dead : List Message) (body : Body) (n : ℕ) (sys : System)
    : Type 0 where
  pub message : Message
  pub state : State
  pub reads : message.body ≡ body
  pub works : sys.world ≡ calm state
  pub holds : Holds s (message ∷ []) [] dead sys.store
  pub counted : state.metrics.failed_unhandled ≡ n

module _ (mark : Properties → Properties) (s : Stage) (max_retries : ℤ)
    (deliver : Fields → Exec (Unit {0})) (body : Body) (poison : IsPoison deliver body) where
  abbrev pub callback : Delivery → Exec (Unit {0})
  callback = on_message (stage_name s) max_retries deliver

  abbrev tried : Message → State → State
  tried m st = closing st.clock (
      refused_by (stage_name s) max_retries deliver (delivery_of m)
        (began (record st { channel = silent })))

  turn-nack :
      (store : Store) (st : State) (m : Message)
      → store (main_queue s) ≡ m ∷ []
      → m.body ≡ body
      → turn mark s callback (record { store = store; world = calm st }) ≡ record {
        store = put (retry_queue s) (moved mark m) (put_all (main_queue s) [] store);
        world = calm (tried m st);
      }
  unfolding turn
  turn-nack store st m head same = rw (
    head,
    on_message-poison (stage_name s) max_retries deliver (delivery_of m)
        (record st { channel = silent }) (subst (IsPoison deliver) (sym same) poison),
    dead_letter-main m (put_all (main_queue s) [] store) mark s,
  )

  cycle-Waiting_from :
      (store : Store) (st : State) (m : Message) (dead : List Message)
      → Holds s (m ∷ []) [] dead store
      → m.body ≡ body
      → Waiting s dead body
          (suc st.metrics.failed_unhandled)
          (cycle mark s callback (record { store = store; world = calm st }))
  unfolding cycle
  cycle-Waiting_from store st m dead h same = record {
    message = moved mark (moved mark m);
    state = tried m st;
    reads = same;
    works = rw (turn-nack store st m h.0 same);
    holds = rw (turn-nack store st m h.0 same) (retried-Holds mark (moved mark m) m dead store s h);
    counted = refl;
  }

  cycle-Waiting :
      (n : ℕ) (dead : List Message) (sys : System)
      → Waiting s dead body n sys
      → Waiting s dead body (suc n) (cycle mark s callback sys)
  cycle-Waiting n dead sys h =
      subst (λ k. Waiting s dead body (suc k) (cycle mark s callback sys)) h.counted
        (subst
          (λ x.
            Waiting s dead body (suc h.state.metrics.failed_unhandled) (cycle mark s callback x))
          (sym (at_rest sys h.state h.works))
          (cycle-Waiting_from sys.store h.state h.message dead h.holds h.reads))

  -- In the stages `ocr` and `embed`, where the broker's calls work, such a message goes round for
  -- ever: after any number of turns it waits in the stage's queue
  -- with the body that it had, the dead-letter queue is as it was, and each turn was one more
  -- failure that the worker does not handle.
  pub poison_goes_round :
      (k n : ℕ) (dead : List Message) (sys : System)
      → RunsConsumer s
      → Waiting s dead body n sys
      → Waiting s dead body (k + n) (cycles mark s callback k sys)
  unfolding cycles
  poison_goes_round zero n dead sys python h =
      subst (λ j. Waiting s dead body j sys) (omega arith) h
  poison_goes_round (suc k) n dead sys python h =
      subst (λ j. Waiting s dead body j (cycles mark s callback k (cycle mark s callback sys)))
        (omega arith) (poison_goes_round k (suc n) dead _ python (cycle-Waiting n dead sys h))
