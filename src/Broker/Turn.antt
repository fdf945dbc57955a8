-- ===== src/Broker/Turn.antt =====
-- The broker and one worker of a stage: the oldest message of the stage's queue is delivered, the
-- worker's callback runs, and the broker carries out what it was told on the channel.
use digital_cip.Prelude.{ℕ, zero, suc, Bool, true, false, String, List, [], ◌∷◌}
use digital_cip.World.{Properties, Publication, Channel, World}
use digital_cip.Exec.{Exec}
use digital_cip.Consumer.OnMessage.{Delivery}
use digital_cip.Broker.{Message, Store, put_all, publish, dead_letter, expire}
use digital_cip.Broker.Stages.{Stage, main_queue, retry_queue}

pub record System : Type 0 where
  pub store : Store
  pub world : World

abbrev pub silent : Channel
silent = record { published = []; acked = []; nacked = [] }

-- The worker has said nothing yet.
abbrev pub listening : World → World
listening w = record w { state = record w.state { channel = silent } }

abbrev pub message_of : Publication → Message
message_of p = record { body = p.body; properties = p.properties }

abbrev pub delivery_of : Message → Delivery
delivery_of m = record { tag = 1; properties = m.properties; body = m.body }

abbrev pub publish_each : List Publication → Store → Store
publish_each [] store = store
publish_each (p ∷ ps) store =
    publish_each ps (publish p.exchange p.routing_key (message_of p) store)

-- The message is back at the head of its queue.
abbrev pub put_back : String → Message → Store → Store
put_back queue m store = put_all queue (m ∷ store queue) store

module _ (mark : Properties → Properties) where
  -- The first answer counts. A message without an answer is queued again when the channel closes.
  abbrev pub answer : String → Message → List ℕ → List (ℕ × Bool) → Store → Store
  answer queue m (tag ∷ tags) nacked store = store
  answer queue m [] [] store = put_back queue m store
  answer queue m [] ((tag, true) ∷ nacked) store = put_back queue m store
  answer queue m [] ((tag, false) ∷ nacked) store = dead_letter mark queue m store

  abbrev pub obey : String → Message → Channel → Store → Store
  obey queue m c store = answer queue m c.acked c.nacked (publish_each c.published store)

  module _ (s : Stage) (on_message : Delivery → Exec (Unit {0})) where
    abbrev pub turn_on : List Message → System → System
    turn_on [] sys = sys
    turn_on (m ∷ ms) sys =
        let w = (on_message (delivery_of m) (listening sys.world)).1 in
        record {
          store = obey (main_queue s) m w.channel (put_all (main_queue s) ms sys.store);
          world = w;
        }

    unfoldable pub turn : System → System
    turn sys = turn_on (sys.store (main_queue s)) sys

    -- A turn, and the time in which the oldest message of the retry queue comes of age.
    unfoldable pub cycle : System → System
    unfolding turn
    cycle sys = record (turn sys) { store = expire mark (retry_queue s) (turn sys).store }

    unfoldable pub cycles : ℕ → System → System
    unfolding cycle
    cycles zero sys = sys
    cycles (suc n) sys = cycles n (cycle sys)
