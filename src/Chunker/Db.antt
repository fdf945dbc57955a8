-- ===== src/Chunker/Db.antt =====
-- workers/chunker/internal/db/db.go. A statement outside a transaction is one call of the outside
-- and commits itself.
pub mod Chunks
pub mod Rules
pub mod Replace
pub mod Calm
use digital_cip.Prelude.{
  ℕ, suc, ℤ, pos, String, Bool, true, false, Option, none, some, List, [], ◌∷◌, ◌++◌, ◌&&◌, ◌||◌,
  eq_ℤ, if◌then◌else◌,
}
use digital_cip.Json.{Value, Fields, no_fields, null, obj}
use digital_cip.Error.{Outcome, returned, raised, other}
use digital_cip.Tables
use digital_cip.Tables.{Chunk, ProcessedMessage, Db}
use digital_cip.Exec.{Exec, pure, raise, lift, modify, try, call, ◌>>=◌, ◌>>◌}
use digital_cip.Sql.Transaction.{connect, execute, commit, rollback, close}
use digital_cip.Sql.Statements.{
  has_id, select_document, update_where, is_recorded, insert_processed, insert_event,
}
use digital_cip.Sql.Update.{or_keep}

-- The columns that `FetchDocument` asks for, less `tenant_id`.
pub record Document : Type 0 where
  pub id : ℤ
  pub status : String
  pub content_type : String
  pub raw_text : String
  pub object_key : String

pub record ChunkRow : Type 0 where
  pub position : ℕ
  pub content : String
  pub token_count : ℕ
  pub metadata : Fields

-- `_ = m`: the error is dropped.
abbrev pub ignore : Exec (Unit {0}) → Exec (Unit {0})
ignore m = try m (λ e. pure tt)

-- `p.Exec` and `p.QueryRow`
unfoldable pub statement : {A : Type 0} → (ℕ → Db → Outcome (A × Db)) → Exec A
unfolding call
statement body =
    call do (a, db) ← λ w. lift (body w.clock w.db) w; modify (λ st. record st { db = db }); pure a

abbrev or_blank : Option String → String
or_blank none = ""
or_blank (some t) = t

-- `row.Scan`: a null is refused for a `string`, and `raw_text` is never null here.
unfoldable pub scan_document : Option Tables.Document → Outcome (Option Document)
scan_document none = returned none
scan_document (some d) = elim d.content_type [
  | none ↦ raised (other "can't scan into dest[3]: cannot scan NULL into *string")
  | some t ↦ returned (
      some record {
        id = d.id;
        status = d.status;
        content_type = t;
        raw_text = or_blank d.raw_text;
        object_key = d.object_key;
      })
]

abbrev pub beside : {A : Type 0} → Db → Outcome A → Outcome (A × Db)
beside db (returned a) = returned (a, db)
beside db (raised e) = raised e

unfoldable pub fetch_document : ℤ → Exec (Option Document)
unfolding statement
fetch_document id =
    statement λ now db. beside db (scan_document (select_document (some id) db.documents))

unfoldable pub already_processed : String → Exec Bool
unfolding statement
already_processed message_id =
    statement λ now db. returned (is_recorded (some message_id) db.processed_messages, db)

abbrev pub processed_row :
    (message_id idempotency_key stage consumer : String) (document_id : ℤ) (result : Fields)
    → ℕ
    → ProcessedMessage
processed_row message_id idempotency_key stage consumer document_id result now = record {
  message_id = message_id;
  idempotency_key = idempotency_key;
  stage = stage;
  document_id = some document_id;
  consumer = consumer;
  result = result;
  processed_at = now;
}

unfoldable pub record_processed :
    (message_id idempotency_key stage consumer : String) (document_id : ℤ) (result : Fields)
    → Exec (Unit {0})
unfolding statement
record_processed message_id idempotency_key stage consumer document_id result = statement λ now db.
    returned (
      tt,
      record db {
        processed_messages =
            insert_processed
              (processed_row message_id idempotency_key stage consumer document_id result now)
              db.processed_messages;
      },
    )

-- `json.Marshal(payload)`: a nil map is written as null.
abbrev pub json_map : Option Fields → Value
json_map none = null
json_map (some fields) = obj fields

unfoldable pub record_event :
    (document_id : ℤ) (stage from_state to_state message : String) (payload : Option Fields)
    → Exec (Unit {0})
unfolding statement
record_event document_id stage from_state to_state message payload = statement λ now db.
    insert_event
      (λ id. record {
        document_id = id;
        stage = stage;
        from_state = some from_state;
        to_state = to_state;
        actor = "system";
        message = some message;
        payload = json_map payload;
        created_at = now;
      })
      (some document_id) db

abbrev pub with_status :
    (status : String) (chunked_at failure_reason failed_at : Option String)
    → ℕ
    → Tables.Document
    → Tables.Document
with_status status chunked_at failure_reason failed_at now d = record d {
  status = status;
  chunked_at = or_keep chunked_at d.chunked_at;
  failure_reason = or_keep failure_reason d.failure_reason;
  failed_at = or_keep failed_at d.failed_at;
  updated_at = now;
}

unfoldable pub update_status :
    (document_id : ℤ) (status : String) (chunked_at failure_reason failed_at : Option String)
    → Exec (Unit {0})
unfolding statement
update_status document_id status chunked_at failure_reason failed_at = statement λ now db.
    returned (
      tt,
      record db {
        documents =
            update_where (with_status status chunked_at failure_reason failed_at now)
              (some document_id) db.documents;
      },
    )
