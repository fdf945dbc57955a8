-- ===== src/Tests/Broker.antt =====
-- The theorems about the broker's queues, with one message in the queue of the OCR stage.
use digital_cip.Prelude.{◌≡◌, refl, ap, ◌≤◌, pos, some, ◌==◌, [], ◌∷◌, arith, if◌then◌else◌}
use digital_cip.Json.{Value, Fields, no_fields, num, get, get_or}
use digital_cip.Tables.{Db}
use digital_cip.Services.{Services}
use digital_cip.Sql.Statements.{bigint_key, is_recorded, select_document}
use digital_cip.Ocr.Handle.{is_terminal}
use digital_cip.Ocr.Outage
use digital_cip.Error.{Foreign, other, transient, err, returned, raised}
use digital_cip.World.{World, Channel, Body, junk, Properties}
use digital_cip.Exec.{Exec}
use digital_cip.Exec.Calm.{calm}
use digital_cip.Consumer.OnMessage.{Delivery, int_operand, on_message}
use digital_cip.Consumer.Poison.{IsPoison}
use digital_cip.Consumer.Settlement
use digital_cip.Broker.{Message, Store}
use digital_cip.Broker.Stages.{Stage}
use digital_cip.Broker.Turn.{System, listening, turn, cycles}
use digital_cip.Broker.Retries.{Stubborn, Numbered, Alone, Buried}
use digital_cip.Broker.Burial.{SameMessage, retries_end, retries_go_on}
use digital_cip.Broker.Conservation.{held}
use digital_cip.Broker.NoLoss.{for_now, turn_keeps_messages}
use digital_cip.Broker.Poison.{Waiting, poison_goes_round}
use digital_cip.Ocr.Consumer.{deliver}
use digital_cip.Fixture.{services, config, envelope, uploaded, delivery, fresh}

abbrev mark : Properties → Properties
mark p = record p { message_id = some "moved" }

-- The object store cannot be reached.
abbrev timed_out : Foreign
timed_out = other "timed out"

abbrev cut_off : Services
cut_off = record services { download_fileobj = λ bucket key. raised timed_out }

keyed_off : bigint_key cut_off (num (pos 7)) ≡ returned (some (pos 7))
unfolding bigint_key
keyed_off = refl

abbrev down : (key : Value) → cut_off.download_fileobj config.minio_bucket key ≡ raised timed_out
down key = refl

abbrev About : Fields → Type 0
About = Outage.About cut_off config "m1" (num (pos 7)) (pos 7) no_fields timed_out keyed_off

abbrev Blocked : Db → Type 0
Blocked = Outage.Blocked cut_off config "m1" (num (pos 7)) (pos 7) no_fields timed_out keyed_off

stubborn : Stubborn (deliver cut_off config) About Blocked
stubborn =
    Outage.deliver-Stubborn cut_off config "m1" (num (pos 7)) (pos 7) no_fields timed_out keyed_off
      down

about : About envelope
unfolding get
about = (refl, refl, refl)

blocked : Blocked fresh.db
unfolding is_recorded select_document is_terminal
blocked = (refl, uploaded, refl, refl)

abbrev callback : Delivery → Exec (Unit {0})
callback = on_message "ocr" (pos 5) (deliver cut_off config)

abbrev message_with : Body → Message
message_with body = record { body = body; properties = delivery.properties }

abbrev only : Message → Store
only m name = if "ingest.ocr" == name then m ∷ [] else []

abbrev system_of : Body → System
system_of body = record { store = only (message_with body); world = calm fresh }

alone : Alone Blocked Stage.ocr [] envelope (system_of delivery.body)
alone = record {
  message = message_with delivery.body;
  state = fresh;
  reads = refl;
  works = refl;
  blocked = blocked;
  holds = (refl, refl, refl);
}

numbered : Numbered envelope 2
unfolding int_operand get_or
numbered = refl

abbrev waiting : Waiting Stage.ocr [] (junk "{") 0 (system_of (junk "{"))
waiting = record {
  message = message_with (junk "{");
  state = fresh;
  reads = refl;
  works = refl;
  holds = (refl, refl, refl);
  counted = refl;
}

retries_end_example :
    (g : Fields) × Buried Stage.ocr [] g
      (cycles mark Stage.ocr callback 4 (system_of delivery.body))
    × SameMessage envelope g
retries_end_example =
    retries_end mark Stage.ocr 5 (deliver cut_off config) stubborn [] envelope 2
      (system_of delivery.body) tt about alone numbered

retries_go_on_example :
    (g : Fields) × Alone Blocked Stage.ocr [] g
      (cycles mark Stage.ocr callback 3 (system_of delivery.body))
    × Numbered g 5
    × SameMessage envelope g
retries_go_on_example =
    retries_go_on mark Stage.ocr 5 (deliver cut_off config) stubborn 3 [] envelope 2
      (system_of delivery.body) tt about alone numbered (omega arith)

poison_goes_round_example : Waiting Stage.ocr [] (junk "{") 100 (
    cycles mark Stage.ocr
      (on_message "ocr" config.max_retries (deliver services config))
      100
      (system_of (junk "{")))
poison_goes_round_example =
    poison_goes_round mark Stage.ocr config.max_retries (deliver services config) (junk "{")
      (IsPoison.no_json "{" refl) 100 0 [] (system_of (junk "{")) tt waiting

abbrev began_ocr : World
began_ocr = Settlement.began "ocr" (pos 5) (deliver cut_off config) (listening (calm fresh))

turn_keeps_messages_example :
    held Stage.ocr (only (message_with delivery.body))
    ≤ held Stage.ocr (turn mark Stage.ocr callback (system_of delivery.body)).store
turn_keeps_messages_example =
    turn_keeps_messages mark Stage.ocr (pos 5) (deliver cut_off config) (system_of delivery.body)
      (message_with delivery.body) [] envelope
      (
        err (transient stubborn.reason),
        calm (stubborn.after envelope began_ocr.state about blocked),
      )
      tt refl refl (stubborn.fails envelope began_ocr.state about blocked) (for_now stubborn.reason)
      (ap (λ (c : Channel). c.acked) (stubborn.quiet envelope began_ocr.state about blocked))
