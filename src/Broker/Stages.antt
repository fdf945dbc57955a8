-- ===== src/Broker/Stages.antt =====
-- The three stages and their queues.
use digital_cip.Prelude.{◌≡◌, refl, String}
use digital_cip.Prelude.Text.{concat}
use digital_cip.World.{Properties}
use digital_cip.Consumer.OnMessage.{queue_key}
use digital_cip.Broker.{Message, Store, put, publish, moved, dead_letter}

pub data Stage : Type 0 where
  ocr chunk embed : Stage

-- The stages whose worker is in Python and calls `on_message` of its consumer.py; the worker of the
-- stage `chunk` is in Go and has its own loop.
abbrev pub RunsConsumer : Stage → Type 0
RunsConsumer ocr = Unit
RunsConsumer chunk = ⊥
RunsConsumer embed = Unit

abbrev pub stage_name : Stage → String
stage_name ocr = "ocr"
stage_name chunk = "chunk"
stage_name embed = "embed"

abbrev pub main_queue : Stage → String
main_queue ocr = "ingest.ocr"
main_queue chunk = "ingest.chunk"
main_queue embed = "ingest.embed"

abbrev pub retry_queue : Stage → String
retry_queue ocr = "ingest.ocr.retry"
retry_queue chunk = "ingest.chunk.retry"
retry_queue embed = "ingest.embed.retry"

abbrev pub dead_queue : Stage → String
dead_queue ocr = "ingest.ocr.dlq"
dead_queue chunk = "ingest.chunk.dlq"
dead_queue embed = "ingest.embed.dlq"

pub queue_key-retry : (s : Stage) → queue_key (stage_name s) "retry" ≡ retry_queue s
unfolding concat
queue_key-retry ocr = refl
queue_key-retry chunk = refl
queue_key-retry embed = refl

pub queue_key-dlq : (s : Stage) → queue_key (stage_name s) "dlq" ≡ dead_queue s
unfolding concat
queue_key-dlq ocr = refl
queue_key-dlq chunk = refl
queue_key-dlq embed = refl

module _ (m : Message) (store : Store) where
  pub publish-retry :
      (s : Stage) → publish "ingest.retry" (retry_queue s) m store ≡ put (retry_queue s) m store
  unfolding publish
  publish-retry ocr = refl
  publish-retry chunk = refl
  publish-retry embed = refl

  pub publish-dead :
      (s : Stage) → publish "ingest.dlx" (dead_queue s) m store ≡ put (dead_queue s) m store
  unfolding publish
  publish-dead ocr = refl
  publish-dead chunk = refl
  publish-dead embed = refl

  module _ (mark : Properties → Properties) where
    pub dead_letter-main :
        (s : Stage)
        → dead_letter mark (main_queue s) m store ≡ put (retry_queue s) (moved mark m) store
    unfolding dead_letter
    dead_letter-main ocr = refl
    dead_letter-main chunk = refl
    dead_letter-main embed = refl

    pub dead_letter-retry :
        (s : Stage)
        → dead_letter mark (retry_queue s) m store ≡ put (main_queue s) (moved mark m) store
    unfolding dead_letter
    dead_letter-retry ocr = refl
    dead_letter-retry chunk = refl
    dead_letter-retry embed = refl
