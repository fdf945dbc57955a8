-- ===== src/Tables.antt =====
-- The rows of the PostgreSQL tables that the workers read and write
-- (api/db/migrate/*.rb), as far as the workers' statements name their columns. A row's id is a
-- bigint. A floating-point number is its 64-bit pattern: the workers only pass vectors on.
use digital_cip.Prelude.{ℕ, ℤ, String, Option, List}
use digital_cip.Json.{Value, Fields}

abbrev pub Vector : Type 0
Vector = List ℕ

pub record Document : Type 0 where
  pub id : ℤ
  pub status : String
  pub object_key : String
  pub content_type : Option String
  pub raw_text : Option String
  pub failure_reason : Option String
  pub ocr_completed_at : Option String
  pub chunked_at : Option String
  pub embedded_at : Option String
  pub failed_at : Option String
  pub updated_at : ℕ

pub record Chunk : Type 0 where
  pub id : ℤ
  pub document_id : ℤ
  pub position : ℤ
  pub content : String
  pub token_count : ℕ
  pub metadata : Fields
  pub embedding : Option Vector
  pub created_at : ℕ
  pub updated_at : ℕ

pub record ProcessingEvent : Type 0 where
  pub document_id : ℤ
  pub stage : String
  pub from_state : Option String
  pub to_state : String
  pub actor : String
  pub message : Option String
  pub payload : Value
  pub created_at : ℕ

-- `message_id` is the primary key.
pub record ProcessedMessage : Type 0 where
  pub message_id : String
  pub idempotency_key : String
  pub stage : String
  pub document_id : Option ℤ
  pub consumer : String
  pub result : Fields
  pub processed_at : ℕ

pub record Db : Type 0 where
  pub documents : List Document
  pub document_chunks : List Chunk
  -- the sequence that the next chunk takes its id from
  pub next_chunk_id : ℕ
  pub processing_events : List ProcessingEvent
  pub processed_messages : List ProcessedMessage
