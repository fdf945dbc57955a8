-- ===== src/Broker/Retries.antt =====
-- A message that fails for good, on its way through the retry queue.
use digital_cip.Prelude.{
  ◌≡◌, refl, sym, ap, ℕ, suc, ◌≤◌, ◌<◌, pos, leb_ℤ, true, false, String, List, [], ◌∷◌, ◌++◌, arith,
}
use mathlib.Core.Path.{subst}
use digital_cip.Json.{Fields, num, obj, get_or, set}
use digital_cip.Error.{transient, err, returned}
use digital_cip.Tables.{Db}
use digital_cip.World.{Properties, State, World, text}
use digital_cip.Exec.{Exec}
use digital_cip.Exec.Calm.{calm}
use digital_cip.Consumer.OnMessage.{Delivery, int_operand, on_message, retry_message, dead_letter}
use digital_cip.Consumer.Tally.{began}
use digital_cip.Consumer.Verdict.{copy}
use digital_cip.Consumer.Transient.{closing, gave_up, on_message-transient}
use digital_cip.Broker.{Message, Store, put, put_all, publish, moved, expire}
use digital_cip.Broker.Stages.{
  Stage, ocr, chunk, embed, stage_name, main_queue, retry_queue, dead_queue, queue_key-retry,
  queue_key-dlq, publish-retry, publish-dead,
}
use digital_cip.Broker.Turn.{System, silent, message_of, delivery_of, turn, cycle}

-- the number of the attempt that a message is
abbrev pub Numbered : Fields → ℕ → Type 0
Numbered f a = int_operand (get_or "attempt" (num (pos 1)) f) ≡ returned (pos a)

-- the fields of the next attempt
abbrev pub again : Fields → ℕ → Fields
again f a = set "attempt" (num (pos (suc a))) f

-- A handler that raises `TransientError` on each message that `About` speaks of, whenever the tables
-- are as `Blocked` says. It leaves them so, and says nothing on the channel. What it does besides
-- is `after`.
pub record Stubborn (deliver : Fields → Exec (Unit {0})) (About : Fields → Type 0)
    (Blocked : Db → Type 0) : Type 0 where
  pub reason : String
  pub after : (f : Fields) (st : State) → About f → Blocked st.db → State
  pub fails :
      (f : Fields) (st : State) (about : About f) (blocked : Blocked st.db)
      → deliver f (calm st) ≡ (err (transient reason), calm (after f st about blocked))
  pub quiet :
      (f : Fields) (st : State) (about : About f) (blocked : Blocked st.db)
      → (after f st about blocked).channel ≡ st.channel
  pub still :
      (f : Fields) (st : State) (about : About f) (blocked : Blocked st.db)
      → Blocked (after f st about blocked).db
  pub again_about : (f : Fields) (a : ℕ) → About f → About (again f a)

-- What a stage's three queues hold.
abbrev pub Holds : Stage → List Message → List Message → List Message → Store → Type 0
Holds s main retry dead store =
    (store (main_queue s) ≡ main) × (store (retry_queue s) ≡ retry) × (store (dead_queue s) ≡ dead)

module _ (mark : Properties → Properties) (c m : Message) (dead : List Message)
    (store : Store) where
  pub retried-Holds :
      (s : Stage)
      → Holds s (m ∷ []) [] dead store
      → Holds s
          (moved mark c ∷ [])
          []
          dead
          (expire mark (retry_queue s) (put (retry_queue s) c (put_all (main_queue s) [] store)))
  unfolding expire
  retried-Holds ocr h = (rw h.1, rw h.1, rw h.1 h.2)
  retried-Holds chunk h = (rw h.1, rw h.1, rw h.1 h.2)
  retried-Holds embed h = (rw h.1, rw h.1, rw h.1 h.2)

  buried-Holds :
      (s : Stage)
      → Holds s (m ∷ []) [] dead store
      → Holds s [] []
          (dead ++ (c ∷ []))
          (expire mark (retry_queue s) (put (dead_queue s) c (put_all (main_queue s) [] store)))
  unfolding expire
  buried-Holds ocr h = (rw h.1, rw h.1 h.1, rw (h.1, h.2))
  buried-Holds chunk h = (rw h.1, rw h.1 h.1, rw (h.1, h.2))
  buried-Holds embed h = (rw h.1, rw h.1 h.1, rw (h.1, h.2))

leb_ℤ-of_le : (m a : ℕ) → m ≤ a → leb_ℤ (pos m) (pos a) ≡ true
leb_ℤ-of_le m a h = ground arith

leb_ℤ-of_lt : (m a : ℕ) → a < m → leb_ℤ (pos m) (pos a) ≡ false
leb_ℤ-of_lt m a h = ground arith

-- The system with its world in the form that the lemmas have.
pub at_rest :
    (sys : System) (st : State)
    → sys.world ≡ calm st
    → sys ≡ record { store = sys.store; world = calm st }
at_rest sys st e = ap (λ (w : World). record { store = sys.store; world = w }) e

-- One message is on its way in the stage, with these fields; the broker's calls work, and the tables
-- are as `Blocked` says.
pub record Alone (Blocked : Db → Type 0) (s : Stage) (dead : List Message) (f : Fields)
    (sys : System) : Type 0 where
  pub message : Message
  pub state : State
  pub reads : message.body ≡ text (obj f)
  pub works : sys.world ≡ calm state
  pub blocked : Blocked state.db
  pub holds : Holds s (message ∷ []) [] dead sys.store

-- The message has come to its end, with these fields.
pub record Buried (s : Stage) (dead : List Message) (f : Fields) (sys : System) : Type 0 where
  pub message : Message
  pub reads : message.body ≡ text (obj f)
  pub holds : Holds s [] [] (dead ++ (message ∷ [])) sys.store

module _ (mark : Properties → Properties) (s : Stage) (max_retries : ℕ)
    (deliver : Fields → Exec (Unit {0})) {About : Fields → Type 0} {Blocked : Db → Type 0}
    (stubborn : Stubborn deliver About Blocked) where
  -- the state after the attempt
  abbrev tried : Message → (f : Fields) → ℕ → (st : State) → About f → Blocked st.db → State
  tried m f a st about blocked = closing st.clock (
      gave_up (stage_name s) (pos max_retries) (delivery_of m) f (pos a)
        (stubborn.after f (began (record st { channel = silent })) about blocked))

  turn-copy :
      (store : Store) (st : State) (m : Message) (f : Fields) (a : ℕ) (about : About f)
      (blocked : Blocked st.db)
      → store (main_queue s) ≡ m ∷ []
      → m.body ≡ text (obj f)
      → Numbered f a
      → turn mark s
          (on_message (stage_name s) (pos max_retries) deliver)
          (record { store = store; world = calm st })
        ≡ (let c = copy (stage_name s) (pos max_retries) (delivery_of m) f (pos a) in
            record {
              store =
                  publish c.exchange c.routing_key (message_of c) (put_all (main_queue s) [] store);
              world = calm (tried m f a st about blocked);
            })
  unfolding turn
  turn-copy store st m f a about blocked head reads number =
      let st' = record st { channel = silent } in
      rw (
        head,
        on_message-transient (stage_name s) (pos max_retries) (delivery_of m) f (pos a) deliver
            stubborn.reason number st' (stubborn.after f (began st') about blocked) reads
            (stubborn.fails f (began st') about blocked),
        stubborn.quiet f (began st') about blocked,
      )

  abbrev pub callback : Delivery → Exec (Unit {0})
  callback = on_message (stage_name s) (pos max_retries) deliver

  cycle-Alone_from :
      (store : Store) (st : State) (m : Message) (f : Fields) (a : ℕ) (dead : List Message)
      (about : About f) (blocked : Blocked st.db)
      → Holds s (m ∷ []) [] dead store
      → m.body ≡ text (obj f)
      → Numbered f a
      → a < max_retries
      → Alone Blocked s dead
          (again f a)
          (cycle mark s callback (record { store = store; world = calm st }))
  unfolding cycle
  cycle-Alone_from store st m f a dead about blocked h reads number more =
      let c = message_of (retry_message (stage_name s) f m.properties (pos (suc a))) in
      record {
        message = moved mark c;
        state = tried m f a st about blocked;
        blocked = stubborn.still f (began (record st { channel = silent })) about blocked;
        reads = refl;
        works = rw (turn-copy store st m f a about blocked h.0 reads number);
        holds =
            rw
              (
                turn-copy store st m f a about blocked h.0 reads number,
                leb_ℤ-of_lt max_retries a more,
                queue_key-retry s,
                publish-retry,
              )
              (retried-Holds mark c m dead store s h);
      }

  cycle-Buried_from :
      (store : Store) (st : State) (m : Message) (f : Fields) (a : ℕ) (dead : List Message)
      (about : About f) (blocked : Blocked st.db)
      → Holds s (m ∷ []) [] dead store
      → m.body ≡ text (obj f)
      → Numbered f a
      → max_retries ≤ a
      → Buried s dead f (cycle mark s callback (record { store = store; world = calm st }))
  unfolding cycle
  cycle-Buried_from store st m f a dead about blocked h reads number done =
      let c = message_of (dead_letter (stage_name s) (delivery_of m)) in
      record {
        message = c;
        reads = reads;
        holds =
            rw
              (
                turn-copy store st m f a about blocked h.0 reads number,
                leb_ℤ-of_le max_retries a done,
                queue_key-dlq s,
                publish-dead,
              )
              (buried-Holds mark c m dead store s h);
      }

  pub cycle-Alone :
      (sys : System) (f : Fields) (a : ℕ) (dead : List Message)
      → About f
      → Alone Blocked s dead f sys
      → Numbered f a
      → a < max_retries
      → Alone Blocked s dead (again f a) (cycle mark s callback sys)
  cycle-Alone sys f a dead about h number more =
      subst (λ x. Alone Blocked s dead (again f a) (cycle mark s callback x))
        (sym (at_rest sys h.state h.works))
        (cycle-Alone_from sys.store h.state h.message f a dead about h.blocked h.holds h.reads
          number more)

  pub cycle-Buried :
      (sys : System) (f : Fields) (a : ℕ) (dead : List Message)
      → About f
      → Alone Blocked s dead f sys
      → Numbered f a
      → max_retries ≤ a
      → Buried s dead f (cycle mark s callback sys)
  cycle-Buried sys f a dead about h number done =
      subst (λ x. Buried s dead f (cycle mark s callback x)) (sym (at_rest sys h.state h.works))
        (cycle-Buried_from sys.store h.state h.message f a dead about h.blocked h.holds h.reads
          number done)
