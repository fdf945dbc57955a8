-- ===== src/Broker.antt =====
-- The queues, exchanges and bindings of infra/rabbitmq/definitions.json, and what the broker does
-- with them. The exchanges are topic exchanges and no binding's key has a wildcard, so a message
-- goes to the queues that are bound to its exchange by its very routing key.
pub mod Stages
pub mod Turn
pub mod Retries
pub mod Burial
pub mod Conservation
pub mod NoLoss
pub mod Poison
use digital_cip.Prelude.{
  ℕ, String, Bool, Option, none, some, List, [], ◌∷◌, ◌++◌, ◌==◌, ◌&&◌, if◌then◌else◌,
}
use digital_cip.World.{Body, Properties, Publication}

pub record Queue : Type 0 where
  pub name : String
  pub message_ttl : Option ℕ
  pub dead_letter : Option (String × String)

pub record Binding : Type 0 where
  pub source : String
  pub destination : String
  pub routing_key : String

abbrev pub work_queue : String → String → Queue
work_queue name key = record {
  name = name;
  message_ttl = none;
  dead_letter = some ("ingest.retry", key);
}

abbrev pub delay_queue : String → String → Queue
delay_queue name key = record {
  name = name;
  message_ttl = some 5000;
  dead_letter = some ("ingest", key);
}

abbrev pub final_queue : String → Queue
final_queue name = record { name = name; message_ttl = none; dead_letter = none }

unfoldable pub queues : List Queue
queues =
    work_queue "ingest.ocr" "ingest.ocr.retry"
    ∷ delay_queue "ingest.ocr.retry" "ingest.ocr"
    ∷ final_queue "ingest.ocr.dlq"
    ∷ work_queue "ingest.chunk" "ingest.chunk.retry"
    ∷ delay_queue "ingest.chunk.retry" "ingest.chunk"
    ∷ final_queue "ingest.chunk.dlq"
    ∷ work_queue "ingest.embed" "ingest.embed.retry"
    ∷ delay_queue "ingest.embed.retry" "ingest.embed"
    ∷ final_queue "ingest.embed.dlq"
    ∷ []

abbrev pub bound : String → String → Binding
bound source queue = record { source = source; destination = queue; routing_key = queue }

unfoldable pub bindings : List Binding
bindings =
    bound "ingest" "ingest.ocr"
    ∷ bound "ingest.retry" "ingest.ocr.retry"
    ∷ bound "ingest.dlx" "ingest.ocr.dlq"
    ∷ bound "ingest" "ingest.chunk"
    ∷ bound "ingest.retry" "ingest.chunk.retry"
    ∷ bound "ingest.dlx" "ingest.chunk.dlq"
    ∷ bound "ingest" "ingest.embed"
    ∷ bound "ingest.retry" "ingest.embed.retry"
    ∷ bound "ingest.dlx" "ingest.embed.dlq"
    ∷ []

pub record Message : Type 0 where
  pub body : Body
  pub properties : Properties

-- What each queue holds, the oldest message first.
abbrev pub Store : Type 0
Store = String → List Message

abbrev pub put_all : String → List Message → Store → Store
put_all queue ms store name = if queue == name then ms else store name

abbrev pub put : String → Message → Store → Store
put queue m store = put_all queue (store queue ++ (m ∷ [])) store

unfoldable pub deliver_to : List Binding → String → String → Message → Store → Store
deliver_to [] exchange key m store = store
deliver_to (b ∷ bs) exchange key m store =
    let rest = deliver_to bs exchange key m in
    if b.source == exchange && b.routing_key == key
    then rest (put b.destination m store)
    else rest store

unfoldable pub publish : String → String → Message → Store → Store
unfolding deliver_to bindings
publish exchange key m store = deliver_to bindings exchange key m store

unfoldable pub dead_letter_of : List Queue → String → Option (String × String)
dead_letter_of [] name = none
dead_letter_of (q ∷ qs) name =
    let rest = dead_letter_of qs name in if q.name == name then q.dead_letter else rest

-- `mark` is what the broker adds to the headers of a message that it moves.
module _ (mark : Properties → Properties) where
  abbrev pub moved : Message → Message
  moved m = record m { properties = mark m.properties }

  -- A message that leaves its queue by a nack or by its age.
  unfoldable pub dead_letter : String → Message → Store → Store
  unfolding publish dead_letter_of queues
  dead_letter queue m store = elim (dead_letter_of queues queue) [
    | none ↦ store
    | some (exchange, key) ↦ publish exchange key (moved m) store
  ]

  -- The oldest message of a queue has come of age.
  unfoldable pub expire : String → Store → Store
  unfolding dead_letter
  expire queue store = elim (store queue) [
    | [] ↦ store
    | m ∷ ms ↦ dead_letter queue m (put_all queue ms store)
  ]
