-- ===== src/Fixture.antt =====
-- A worker, a document and its messages, for the tests.
use mathlib.Core.Bool.{false≢true}
use digital_cip.Environment.{in_int64}
use digital_cip.Pipeline.Handover.{chunk_id}
use digital_cip.Prelude.{
  eq_ℤ, Option, ℤ, length, map, ◌≡◌, ◌≢◌, refl, pos, true, false, none, some, List, [], ◌∷◌,
}
use digital_cip.Prelude.Text.{contains, join}
use digital_cip.Json.{Fields, no_fields, field, num, str, obj, get, get_or}
use digital_cip.Error.{ok, other, returned}
use digital_cip.Tables.{Document, ProcessedMessage, Db, Vector, Chunk}
use digital_cip.Services.{Services}
use digital_cip.World.{Fate, works, fails, text, State, World}
use digital_cip.Exec.Calm.{calm}
use digital_cip.Sql.Statements.{text_key, bigint_key, select_document, is_recorded}
use digital_cip.Consumer.OnMessage.{Delivery, int_operand}
use digital_cip.Consumer.Tally
use digital_cip.Consumer.Tally.{Once}
use digital_cip.Ocr.Config.{Config}
use digital_cip.Embedder.Config as Embedder
use digital_cip.Sql.Chunks.{select_missing}
use digital_cip.Ocr.Extract.{is_pdf}
use digital_cip.Ocr.Extract.Calm.{ReadAll, TextOf, read_as_pdf}
use digital_cip.Ocr.Handle.{lacks_text, is_terminal, no_bytes}
use digital_cip.Ocr.Handle.Success.{Ready}
use digital_cip.Ocr.Consumer.{deliver, forward}
use digital_cip.Ocr.Delivery.{handle-recorded}

abbrev pub services : Services
services = record {
  download_fileobj = λ bucket key. returned (37 ∷ 80 ∷ []);
  convert_from_bytes = λ blob dpi. returned (blob ∷ blob ∷ []);
  image_open = λ blob. returned blob;
  image_to_string = λ image lang. returned "a page";
  encode = λ texts size. returned (map (λ t. 5 ∷ []) texts);
  sentence_transformer = λ name. returned tt;
  sentence_embedding_dimension = returned (pos 384);
  isoformat = λ n. "2024-01-01T00:00:00+00:00";
  bigint_in = λ t. none;
  array_text = λ xs. returned "{}";
  repr = λ v. "{}";
}

abbrev pub config : Config
config = record {
  rabbitmq_url = "amqp://localhost/";
  pg_host = "postgres";
  pg_port = pos 5432;
  pg_user = "cip";
  pg_password = "";
  pg_db = "cip";
  minio_endpoint = "http://minio:9000";
  minio_access_key = "minio";
  minio_secret_key = "";
  minio_bucket = "documents";
  minio_region = "us-east-1";
  ocr_lang = "eng";
  ocr_dpi = pos 200;
  max_retries = pos 5;
  metrics_port = pos 9100;
  concurrency = pos 2;
  log_level = "info";
}

abbrev pub uploaded : Document
uploaded = record {
  id = pos 7;
  status = "uploaded";
  object_key = "a.png";
  content_type = some "image/png";
  raw_text = none;
  failure_reason = none;
  ocr_completed_at = none;
  chunked_at = none;
  embedded_at = none;
  failed_at = none;
  updated_at = 0;
}

abbrev pub envelope : Fields
envelope = field "message_id" (str "m1") (
    field "document_id" (num (pos 7)) (
      field "idempotency_key" (str "7:ocr")
        (field "attempt" (num (pos 2)) (field "payload" (obj no_fields) no_fields))))

abbrev pub delivery : Delivery
delivery = record {
  tag = 4;
  properties = record {
    content_type = some "application/json";
    delivery_mode = some 2;
    message_id = none;
    headers = none;
  };
  body = text (obj envelope);
}

abbrev pub recorded : ProcessedMessage
recorded = record {
  message_id = "m1";
  idempotency_key = "7:ocr";
  stage = "ocr";
  document_id = some (pos 7);
  consumer = "ocr-worker";
  result = no_fields;
  processed_at = 0;
}

abbrev pub state_of : Db → State
state_of db = record {
  db = db;
  channel = record { published = []; acked = []; nacked = [] };
  metrics = record {
    processed = 0;
    failed_permanent = 0;
    failed_exhausted = 0;
    failed_unhandled = 0;
    failed_invalid_envelope = 0;
    retried = 0;
    in_flight = pos 0;
    durations = [];
    chunks_embedded = 0;
  };
  clock = 10;
  model_loaded = false;
}

-- before the message came
abbrev pub fresh : State
fresh = state_of record {
  documents = uploaded ∷ [];
  document_chunks = [];
  next_chunk_id = 1;
  processing_events = [];
  processed_messages = [];
}

-- after it was recorded
abbrev pub seen : State
seen = state_of record {
  documents = uploaded ∷ [];
  document_chunks = [];
  next_chunk_id = 1;
  processing_events = [];
  processed_messages = recorded ∷ [];
}

-- The calls work until the object is downloaded, which times out.
abbrev pub faulty : List Fate
faulty =
    works
    ∷ works
    ∷ works
    ∷ works
    ∷ works
    ∷ works
    ∷ works
    ∷ works
    ∷ works
    ∷ works
    ∷ works
    ∷ works
    ∷ works
    ∷ works
    ∷ works
    ∷ works
    ∷ fails (other "timeout")
    ∷ []

abbrev pub in_trouble : State → World
in_trouble st = record { state = st; fates = faulty }

pub knows_message : get "message_id" envelope ≡ some (str "m1")
unfolding get
knows_message = refl

pub knows_document : get "document_id" envelope ≡ some (num (pos 7))
unfolding get
knows_document = refl

pub keyed_seven : bigint_key services (num (pos 7)) ≡ returned (some (pos 7))
unfolding bigint_key
keyed_seven = refl

pub named_first : text_key (str "m1") ≡ returned (some "m1")
unfolding text_key
named_first = refl

pub seen_recorded : is_recorded (some "m1") seen.db.processed_messages ≡ true
unfolding is_recorded
seen_recorded = refl

pub found_seven : select_document (some (pos 7)) fresh.db.documents ≡ some uploaded
unfolding select_document
found_seven = refl

pub deliver-seen :
    deliver services config envelope (calm (Tally.began seen)) ≡ (ok tt, calm (Tally.began seen))
unfolding deliver forward
deliver-seen = rw (
    handle-recorded services config envelope (str "m1") (num (pos 7)) (some "m1") (Tally.began seen)
      knows_message knows_document named_first seen_recorded)

pub second_attempt : int_operand (get_or "attempt" (num (pos 1)) envelope) ≡ returned (pos 2)
unfolding int_operand get_or
second_attempt = refl

pub page_text : TextOf services config (37 ∷ 80 ∷ []) (some "application/pdf") "a page\n\na page" 2
unfolding is_pdf contains join
page_text =
    TextOf.pdf (_ ∷ _ ∷ []) ("a page" ∷ "a page" ∷ []) "application/pdf" refl
      (record { before = "application/"; after = ""; parts = refl }) refl
      (ReadAll.page refl (ReadAll.page refl ReadAll.end)) refl refl

pub not_pdf : is_pdf (some "image/png") ≢ true
unfolding is_pdf contains
not_pdf = false≢true

abbrev pub ready : Ready services config envelope fresh
unfolding get bigint_key is_recorded select_document is_terminal no_bytes lacks_text is_pdf contains
ready = record {
  id = "m1";
  document_id = num (pos 7);
  payload = no_fields;
  key = "7:ocr";
  row_id = pos 7;
  row = uploaded;
  blob = 37 ∷ 80 ∷ [];
  text = "a page";
  pages = 1;
  names_itself = refl;
  names_document = refl;
  has_payload = refl;
  has_key = refl;
  keyed = refl;
  fresh = refl;
  found = refl;
  live = refl;
  stored = refl;
  some_bytes = refl;
  read = TextOf.image _ (λ t e h. not_pdf (read_as_pdf (some "image/png") t e h)) refl refl refl;
  some_text = refl;
}

pub ready_same : ready.document_id ≡ num ready.row_id
unfolding ready
ready_same = refl

pub ready_numbered : eq_ℤ ready.row_id (pos 0) ≡ false
unfolding ready
ready_numbered = refl

pub ready_typed : ready.row.content_type ≡ some "image/png"
unfolding ready
ready_typed = refl

pub ready_small : in_int64 ready.row_id ≡ true
unfolding ready in_int64
ready_small = refl

pub ready_unheard : is_recorded (some (chunk_id ready.id)) fresh.db.processed_messages ≡ false
unfolding ready is_recorded
ready_unheard = refl

abbrev pub embedder_config : Embedder.Config
embedder_config = record {
  rabbitmq_url = "amqp://localhost/";
  pg_host = "postgres";
  pg_port = pos 5432;
  pg_user = "cip";
  pg_password = "";
  pg_db = "cip";
  embedding_model = "all-MiniLM-L6-v2";
  embedding_dim = pos 384;
  batch_size = pos 32;
  max_retries = pos 5;
  metrics_port = pos 9102;
  concurrency = pos 2;
  log_level = "info";
}

abbrev pub chunk : ℤ → ℤ → Option Vector → Chunk
chunk id position embedding = record {
  id = id;
  document_id = pos 7;
  position = position;
  content = "a page";
  token_count = 2;
  metadata = no_fields;
  embedding = embedding;
  created_at = 0;
  updated_at = 0;
}

-- Of three chunks the second has an embedding; the other two come in the order of positions.
abbrev pub chunks : List Chunk
chunks =
    chunk (pos 1) (pos 2) none
    ∷ chunk (pos 2) (pos 1) (some (1 ∷ []))
    ∷ chunk (pos 3) (pos 0) none
    ∷ []

abbrev pub vectors : List Vector
vectors = (5 ∷ []) ∷ (6 ∷ []) ∷ []

pub two_missing : length vectors ≡ length (select_missing (some (pos 7)) chunks)
unfolding select_missing
two_missing = refl
