-- ===== src/Lib.antt =====
-- A model of the workers of the ingestion pipeline.
--
-- A document goes through the stages ocr, chunk and embed. A worker for each stage takes messages
-- from a queue of RabbitMQ, works on the rows of one document in PostgreSQL, and publishes the message
-- for the next stage. Modelled here are the OCR worker, workers/ocr/app, and the embedder,
-- workers/embedder/app, both in Python, which share the consumer, and the chunker between them,
-- workers/chunker, in Go.
--
--   worker.py    Ocr/Handle (`handle`: each definition begins at a guard or a clause of the function
--                and ends where the function ends), Ocr/Consumer (`_publish_next`), Ocr/Main (`main`)
--   consumer.py  Consumer/OnMessage (`on_message` over the argument `deliver`, what is done between
--                `json.loads` and the ack), Consumer/Effects, Ocr/Consumer (the OCR worker's
--                `deliver`), Consumer/Connect (`_connect`), Consumer/Run (`run_consumer`)
--   metrics.py   World (`Metrics`), Consumer/Effects, Consumer/Metrics (`start_metrics_server`)
--   db.py        Ocr/Db, Sql/Transaction (`transaction`), Sql/Statements (the queries on lists of
--                rows), Sql/Update (the UPDATE that is built from lists)
--   ocr.py, storage.py   Ocr/Extract
--   config.py    Ocr/Config, Environment (`os.getenv` and `int`)
--   logger.py    Ocr/Logger, Logging (`configure_logging`)
--   embedder     Embedder/Handle (worker.py), Embedder/Embeddings (embeddings.py), Embedder/Main
--                (`main`), Embedder/Db and Embedder/Connection (db.py), Sql/Chunks (its queries on
--                chunks), Embedder/Config; the consumer is shared
--   chunker      Chunker/Words, Chunker/Split (chunk.go), Chunker/Db, Chunker/Db/Chunks (db.go),
--                Chunker/Envelope, Chunker/Handle (`process` and what it publishes), Chunker/Worker
--                (`handle`) and Chunker/Run (`Run`; all of worker.go), Chunker/Config (config.go)
--   infra/rabbitmq/definitions.json   Broker (queues, exchanges, bindings), Broker/Turn (one worker
--                at the broker)
--   api/db/migrate       Tables (the rows, as far as the workers name their columns)
--
-- The code runs in the monad `Exec` of a state and an exception: what was done before an exception
-- stays done. The state (World) is the tables, what was published, acked and nacked, the metrics, a
-- clock, and whether the embedder's model is loaded. A world also has a list of fates: each call of
-- the outside (a statement, a commit, a download, a publish, an ack) takes the next one, which says
-- whether the call works, fails with nothing done, or is done and raises all the same. A theorem about
-- any world so holds whichever calls fail; `calm` is a world in which all work. Exec/Rules, Exec/Keeps,
-- Exec/Steady and Exec/Works are the rules of the proofs.
--
-- What happens to a consumer from outside is a list of events (Consumer/Run): a message, a signal, the
-- loss of the connection, another exception of `start_consuming`, the end of the pause before it
-- connects again. tenacity's `retry` is a parameter with the laws that it documents (Consumer/Connect).
--
-- Of RabbitMQ the Broker modules take what it documents: a message goes to the queues that are bound
-- to its exchange by its routing key, a rejected message and one that has come of age go to the
-- queue's dead-letter exchange, and an unanswered one is queued again when the channel closes. What it
-- adds to the headers of a message that it moves is the parameter `mark`. The chunker is not a part of
-- these modules: its stage has queues there, and the theorems are about the stages `ocr` and `embed`,
-- whose workers run consumer.py. A turn there is the delivery
-- of a queue's oldest message, the callback's run, and what the broker does about its answers.
--
-- Ocr/Outage has the OCR worker's handler while the object store cannot be reached.
--
-- Pipeline has the three workers' handlers run on the same tables, one message after the other, and what
-- a document's status then becomes. Pipeline/Handover follows one document from the OCR worker
-- to the chunker.
--
-- Go's errors are exceptions of `Exec` too: one that wraps ErrPermanent or ErrTransient is `permanent` or
-- `transient`, any other is foreign, and an error that the code drops is caught and forgotten. A
-- statement outside a transaction is one call of the outside. Go's `int` is taken to have 64 bits; a
-- number that does not fit is refused where JSON is decoded, and `int32(…)` wraps. UUIDs and times are
-- fields of Host. The loop of `Split` has as much fuel as there are words, which is enough since each
-- round goes at least one word on.
--
-- The libraries are the fields of Services: the object store, the conversion of PDFs, the recognition
-- of text, the embedding model, the printing of containers and of times. Numbers of the source are
-- Python's integers, so nothing overflows there, and its loops are over lists that are given, so there is
-- no fuel but the number of attempts of `_connect`, which is the source's. JSON's floating-point numbers
-- are not modelled, also where Go makes such a number of an integer of a payload. A column of a time keeps
-- the text that was sent, and a number that is no bigint is not refused. A dict is a list of fields in order.
--
-- Not modelled: log lines, which nothing reads back; digits in the environment other than ASCII's; a signal that
-- comes before the loop of `run_consumer` begins or between two calls of its reconnection; a second
-- worker that writes between two calls of one handler; the chunker's connections and metrics server; keys
-- of a JSON object in another case or given twice; the API (Ruby).
pub mod Prelude
pub mod Json
pub mod Error
pub mod Tables
pub mod Services
pub mod World
pub mod Environment
pub mod Logging
pub mod Exec
pub mod Sql
pub mod Consumer
pub mod Broker
pub mod Chunker
pub mod Ocr
pub mod Embedder
pub mod Pipeline
pub mod Fixture
pub mod Tests
