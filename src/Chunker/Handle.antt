-- ===== src/Chunker/Handle.antt =====
-- `handle`, `process`, `publishNext`, `publishRetry` and `publishDLQ` of
-- workers/chunker/internal/worker/worker.go. An error of Go is an exception here: `ErrPermanent` is
-- `permanent`, `ErrTransient` is `transient`, and an error that wraps neither is foreign.
use digital_cip.Prelude.{
  ℕ, suc, pos, eq_ℤ, String, Option, none, some, List, [], ◌∷◌, length, ◌==◌, ◌||◌, if◌then◌else◌,
}
use digital_cip.Prelude.Text.{concat, decimal, decimal_ℤ, is_empty}
use digital_cip.Json.{Fields, no_fields, field, num, str}
use digital_cip.Error.{permanent, transient, text_of}
use digital_cip.World.{Publication}
use digital_cip.Exec.{Exec, pure, raise, try, ◌>>=◌, ◌>>◌}
use digital_cip.Consumer.Effects.{basic_publish, monotonic}
use digital_cip.Consumer.OnMessage.{Delivery}
use digital_cip.Chunker.Config.{Config}
use digital_cip.Chunker.Envelope.{Envelope, marshal, to_int32}
use digital_cip.Chunker.Words.{approx_token_count}
use digital_cip.Chunker.Split.{split}
use digital_cip.Chunker.Db.{
  Document, ChunkRow, ignore, fetch_document, already_processed, record_processed, record_event,
  update_status,
}
use digital_cip.Chunker.Db.Chunks.{insert_chunks}

-- What Go's libraries give and this repository does not hold, at a tick of the clock: a fresh UUID,
-- the time as RFC 3339, and the time as PostgreSQL stores it.
pub record Host : Type 0 where
  pub new_string : ℕ → String
  pub rfc3339 : ℕ → String
  pub timestamp : ℕ → String

-- `fmt.Errorf("%w: what: %v", ErrTransient, err)`
abbrev pub wrapped : {A : Type 0} → String → Exec A → Exec A
wrapped what m =
    try m λ e. raise (transient (concat ("transient: " ∷ what ∷ ": " ∷ text_of e ∷ [])))

abbrev pub row_of : ℕ → String → ChunkRow
row_of i p = record {
  position = i;
  content = p;
  token_count = approx_token_count p;
  metadata = no_fields;
}

abbrev pub rows_from : ℕ → List String → List ChunkRow
rows_from i [] = []
rows_from i (p ∷ ps) = row_of i p ∷ rows_from (suc i) ps

-- the loop that makes the rows
abbrev pub rows_of : List String → List ChunkRow
rows_of pieces = rows_from 0 pieces

-- `Split` always gives a list.
abbrev pub all_pieces : Option (List String) → List String
all_pieces none = []
all_pieces (some pieces) = pieces

-- `map[string]any{"chunks": n}`
abbrev pub chunk_count : ℕ → Fields
chunk_count n = field "chunks" (num (pos n)) no_fields

module _ (host : Host) (config : Config) where
  -- `time.Now()`; the clock goes on.
  unfoldable pub now_as : (ℕ → String) → Exec String
  unfolding monotonic
  now_as format = do t ← monotonic; pure (format t)

  abbrev pub next_envelope : Envelope → ℕ → (message_id published_at : String) → Envelope
  next_envelope env chunks message_id published_at = record {
    message_id = message_id;
    idempotency_key = concat (decimal_ℤ env.document_id ∷ ":embed" ∷ []);
    trace_id = env.trace_id;
    stage = "embed";
    document_id = env.document_id;
    tenant_id = env.tenant_id;
    attempt = pos 1;
    published_at = published_at;
    payload = some (chunk_count chunks);
  }

  abbrev pub next_message : Envelope → Publication
  next_message next = record {
    exchange = config.exchange;
    routing_key = config.routing_key_out;
    body = marshal next;
    properties = record {
      content_type = some "application/json";
      delivery_mode = some 2;
      message_id = some next.message_id;
      headers = some (
          field "x-idempotency-key" (str next.idempotency_key) (
            field "x-attempt" (num (to_int32 (pos 1))) (
              field "x-stage" (str "embed")
                (field "x-document-id" (num next.document_id) no_fields))));
    };
  }

  unfoldable pub publish_next : Envelope → ℕ → Exec (Unit {0})
  unfolding now_as marshal
  publish_next env chunks = do
    message_id ← now_as host.new_string
    published_at ← now_as host.rfc3339
    basic_publish (next_message (next_envelope env chunks message_id published_at))

  abbrev pub retry_message : Envelope → Publication
  retry_message env = record {
    exchange = config.retry_exchange;
    routing_key = "ingest.chunk.retry";
    body = marshal env;
    properties = record {
      content_type = some "application/json";
      delivery_mode = some 2;
      message_id = some env.message_id;
      headers = some (
          field "x-attempt" (num (to_int32 env.attempt)) (field "x-stage" (str "chunk") no_fields));
    };
  }

  abbrev pub dead_letter : Envelope → Delivery → Publication
  dead_letter env d = record {
    exchange = config.dlx_exchange;
    routing_key = "ingest.chunk.dlq";
    body = d.body;
    properties = record {
      content_type = some "application/json";
      delivery_mode = some 2;
      message_id = some env.message_id;
      headers = d.properties.headers;
    };
  }

  -- from the pieces on, where there are none
  unfoldable pub fail_without_chunks : Document → Exec (Unit {0})
  unfolding now_as
  fail_without_chunks doc = do
    now ← now_as host.timestamp
    ignore (update_status doc.id "failed" none (some "no chunks produced") (some now))
    ignore (record_event doc.id "chunk" "chunking" "failed" "no chunks produced" none)
    raise (permanent "permanent: no chunks produced")

  -- and where there are some
  unfoldable pub store_chunks : Envelope → Document → List String → Exec (Unit {0})
  unfolding now_as publish_next
  store_chunks env doc pieces = do
    wrapped "insert chunks" (insert_chunks doc.id (rows_of pieces))
    now ← now_as host.timestamp
    wrapped "status update" (update_status doc.id "chunked" (some now) none none)
    ignore (
        record_event doc.id "chunk" "chunking" "chunked"
          (concat ("Created " ∷ decimal (length pieces) ∷ " chunks" ∷ []))
          (some (chunk_count (length pieces))))
    ignore (
        record_processed env.message_id env.idempotency_key "chunk" config.service_name doc.id
          (chunk_count (length pieces)))
    publish_next env (length pieces)

  unfoldable pub finish : Envelope → Document → List String → Exec (Unit {0})
  unfolding fail_without_chunks store_chunks
  finish env doc [] = fail_without_chunks doc
  finish env doc (p ∷ ps) = store_chunks env doc (p ∷ ps)

  -- from the test of the document on
  unfoldable pub process_document : Envelope → Option Document → Exec (Unit {0})
  unfolding finish
  process_document env none = raise (permanent "permanent: document not found")
  process_document env (some doc) =
      if doc.status == "embedded" || doc.status == "failed"
      then pure tt
      else if is_empty doc.raw_text
      then raise (permanent "permanent: document has no raw_text")
      else (do
        wrapped "status update" (update_status doc.id "chunking" none none none)
        ignore (record_event doc.id "chunk" doc.status "chunking" "Chunking started" none)
        finish env doc (all_pieces (split doc.raw_text config.chunk_size config.chunk_overlap)))

  unfoldable pub process : Envelope → Exec (Unit {0})
  unfolding process_document
  process env =
      if eq_ℤ env.document_id (pos 0)
      then raise (permanent "permanent: missing document_id")
      else (do
        seen ← wrapped "idempotency check failed" (already_processed env.message_id)
        if seen then pure tt else do
          doc ← wrapped "fetch" (fetch_document env.document_id)
          process_document env doc)
