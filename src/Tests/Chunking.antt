-- ===== src/Tests/Chunking.antt =====
-- The theorems about the chunker, with a document that the OCR worker has read.
use digital_cip.Environment.{in_int64}
use digital_cip.Prelude.{
  ◌≡◌, refl, ◌<◌, ◌≤◌, ◌⊎◌, inl, pos, true, false, none, some, String, List, [], ◌∷◌, map, All,
}
use digital_cip.Error.{ok, other, returned}
use digital_cip.Tables.{Document}
use digital_cip.World.{State, World, works, fails}
use digital_cip.Exec.Rules.{Post}
use digital_cip.Sql.Statements.{select_document, is_recorded}
use digital_cip.Consumer.OnMessage.{Delivery}
use digital_cip.Ocr.Handle.{is_terminal, lacks_text}
use digital_cip.Chunker.Config.{Config}
use digital_cip.Chunker.Envelope.{Envelope, marshal, unmarshal, unmarshal-marshal}
use digital_cip.Chunker.Words.{split_words, approx_token_count}
use digital_cip.Chunker.Split.{split, stride, piece_size}
use digital_cip.Chunker.Split.Windows.{glue, Overlaps}
use digital_cip.Chunker.Split.Pieces.{split-glue, split-IsSized}
use digital_cip.Chunker.Accepted.{split-cons}
use digital_cip.Chunker.Db.Chunks.{insert_chunks}
use digital_cip.Chunker.Db.Replace.{replaced, insert_chunks-Atomic}
use digital_cip.Chunker.Handle.{Host, process, rows_of}
use digital_cip.Chunker.Delivered.{began}
use digital_cip.Chunker.Settled.{process-settled}
use digital_cip.Chunker.Success.{Ready}
use digital_cip.Chunker.Verdict as Verdict
use digital_cip.Chunker.Verdict.{settled_channel, handle-channel}
use digital_cip.Chunker.Worker.{defaulted, handle}
use digital_cip.Fixture as Fixture
use digital_cip.Fixture.{uploaded, fresh, seen, seen_recorded}

abbrev text : String
text = "one two three four five six"

abbrev few : lacks_text text ≡ false
unfolding lacks_text
few = refl

abbrev pub config : Config
config = record {
  service_name = "chunker-worker";
  rabbitmq_url = "amqp://localhost/";
  queue_in = "ingest.chunk";
  routing_key_out = "ingest.embed";
  exchange = "ingest";
  retry_exchange = "ingest.retry";
  dlx_exchange = "ingest.dlx";
  pg_host = "postgres";
  pg_port = pos 5432;
  pg_user = "cip";
  pg_password = "";
  pg_db = "cip";
  chunk_size = pos 4;
  chunk_overlap = pos 1;
  max_retries = pos 5;
  metrics_port = pos 9101;
  concurrency = pos 4;
  log_level = "info";
}

abbrev pub host : Host
host = record {
  new_string = λ n. "7f1c";
  rfc3339 = λ n. "2024-01-01T00:00:00Z";
  timestamp = λ n. "2024-01-01 00:00:00+00";
}

abbrev pub env : Envelope
env = record {
  message_id = "m1";
  idempotency_key = "7:chunk";
  trace_id = "t";
  stage = "chunk";
  document_id = pos 7;
  tenant_id = "default";
  attempt = pos 2;
  published_at = "2024-01-01T00:00:00Z";
  payload = none;
}

abbrev read : Document
read = record uploaded { status = "ocr_completed"; raw_text = some text }

abbrev state : State
state = record fresh { db = record fresh.db { documents = read ∷ [] } }

abbrev ready : Ready env (began state)
unfolding is_recorded select_document is_terminal lacks_text
ready = record {
  row = read;
  content_type = "image/png";
  text = text;
  numbered = refl;
  fresh = refl;
  found = refl;
  typed = refl;
  live = refl;
  has_text = refl;
  accepted = refl;
}

abbrev delivery : Delivery
delivery = record Fixture.delivery { body = marshal env }

small : in_int64 (pos 7) ≡ true
unfolding in_int64
small = refl

small' : in_int64 (pos 2) ≡ true
unfolding in_int64
small' = refl

decoded : unmarshal delivery.body ≡ returned env
decoded = unmarshal-marshal env small small'

split-glue_example :
    (pieces : List String) × (split text (pos 4) (pos 1) ≡ some pieces)
    × (glue (stride (pos 4) (pos 1)) (map split_words pieces) ≡ split_words text)
split-glue_example = split-glue text (pos 4) (pos 1)

split-IsSized_example :
    (pieces : List String) × (split text (pos 4) (pos 1) ≡ some pieces)
    × All (λ p. (0 < approx_token_count p) × (approx_token_count p ≤ piece_size (pos 4))) pieces
    × Overlaps (piece_size (pos 4)) (stride (pos 4) (pos 1)) (map split_words pieces)
split-IsSized_example = split-IsSized text (pos 4) (pos 1)

split-cons_example :
    (piece : String) × (pieces : List String) × (split text (pos 4) (pos 1) ≡ some (piece ∷ pieces))
split-cons_example = split-cons text few (pos 4) (pos 1)

-- The third call of the transaction fails.
abbrev failing : World
failing = record { state = state; fates = works ∷ works ∷ fails (other "timeout") ∷ [] }

insert_chunks-Atomic_example :
    Post
      (λ _ st. st ≡ replaced (pos 7) (rows_of ("a" ∷ "b" ∷ [])) failing.state)
      (λ _ st.
        (st ≡ failing.state) ⊎ (st ≡ replaced (pos 7) (rows_of ("a" ∷ "b" ∷ [])) failing.state))
      (insert_chunks (pos 7) (rows_of ("a" ∷ "b" ∷ [])) failing)
insert_chunks-Atomic_example = insert_chunks-Atomic (pos 7) (rows_of ("a" ∷ "b" ∷ [])) failing

process-settled_example : (process host config env (Fixture.in_trouble seen)).1.state ≡ seen
process-settled_example =
    process-settled host config env (Fixture.in_trouble seen) (inl seen_recorded)

handle-channel_example :
    let run =
      process host config (defaulted env) (Verdict.began host config (Fixture.in_trouble state)) in
    ((handle host config delivery (Fixture.in_trouble state)).0 ≡ ok tt)
    × ((handle host config delivery (Fixture.in_trouble state)).1.channel
        ≡ settled_channel host config (defaulted env) delivery run.0 run.1)
handle-channel_example = handle-channel host config delivery env (Fixture.in_trouble state) decoded
