-- ===== src/Pipeline.antt =====
-- The statuses of a document, and the three workers at work on the same tables: the OCR worker's
-- `handle`, the chunker's `process` and the embedder's `handle` run one after the other, in any order
-- and as often as messages come.
pub mod Track
pub mod OcrCourse
pub mod OcrJob
pub mod ChunkCalls
pub mod ChunkCourse
pub mod ChunkJob
pub mod EmbedCourse
pub mod EmbedJob
pub mod Statuses
pub mod Handover
use digital_cip.Prelude.{
  ◌≡◌, refl, sym, ◌∙◌, Bool, true, false, String, List, [], ◌∷◌, ◌⊎◌, inl, inr,
}
use digital_cip.Broker.Stages.{Stage}
use mathlib.Core.Bool.{false≢true}
use digital_cip.Json.{Fields}
use digital_cip.Services.{Services}
use digital_cip.World.{World}
use digital_cip.Ocr.Config.{Config}
use digital_cip.Ocr.Handle as Ocr
use digital_cip.Ocr.Handle.{is_terminal}
use digital_cip.Chunker.Config as ChunkerConfig
use digital_cip.Chunker.Envelope.{Envelope}
use digital_cip.Chunker.Handle as Chunker
use digital_cip.Chunker.Handle.{Host}
use digital_cip.Embedder.Config as EmbedderConfig
use digital_cip.Embedder.Handle as Embedder

-- The steps of a status that a worker takes while it is on one message: it begins on any document
-- that has not come to an end, and goes on from its own status only.
pub data Moves : Stage → String → String → Type 0 where
  starts_ocr : {a : String} → is_terminal a ≡ false → Moves Stage.ocr a "ocr_processing"
  completes_ocr : Moves Stage.ocr "ocr_processing" "ocr_completed"
  fails_ocr : Moves Stage.ocr "ocr_processing" "failed"
  starts_chunking : {a : String} → is_terminal a ≡ false → Moves Stage.chunk a "chunking"
  completes_chunking : Moves Stage.chunk "chunking" "chunked"
  fails_chunking : Moves Stage.chunk "chunking" "failed"
  starts_embedding : {a : String} → is_terminal a ≡ false → Moves Stage.embed a "embedding"
  completes_embedding : Moves Stage.embed "embedding" "embedded"

pub data Course (s : Stage) (a : String) : String → Type 0 where
  stays : Course s a a
  goes : {b c : String} → Course s a b → Moves s b c → Course s a c

-- The statuses that a worker sets.
pub data Sets : Stage → String → Type 0 where
  begun_ocr : Sets Stage.ocr "ocr_processing"
  done_ocr : Sets Stage.ocr "ocr_completed"
  failed_ocr : Sets Stage.ocr "failed"
  begun_chunking : Sets Stage.chunk "chunking"
  done_chunking : Sets Stage.chunk "chunked"
  failed_chunking : Sets Stage.chunk "failed"
  begun_embedding : Sets Stage.embed "embedding"
  done_embedding : Sets Stage.embed "embedded"

-- No step leaves `embedded` or `failed`.
Moves-ends : {s : Stage} {a b : String} → Moves s a b → is_terminal a ≡ false
unfolding is_terminal
Moves-ends (starts_ocr h) = h
Moves-ends completes_ocr = refl
Moves-ends fails_ocr = refl
Moves-ends (starts_chunking h) = h
Moves-ends completes_chunking = refl
Moves-ends fails_chunking = refl
Moves-ends (starts_embedding h) = h
Moves-ends completes_embedding = refl

Moves-Sets : {s : Stage} {a b : String} → Moves s a b → Sets s b
Moves-Sets (starts_ocr h) = begun_ocr
Moves-Sets completes_ocr = done_ocr
Moves-Sets fails_ocr = failed_ocr
Moves-Sets (starts_chunking h) = begun_chunking
Moves-Sets completes_chunking = done_chunking
Moves-Sets fails_chunking = failed_chunking
Moves-Sets (starts_embedding h) = begun_embedding
Moves-Sets completes_embedding = done_embedding

Course-live :
    {s : Stage} {a b : String} → Course s a b → is_terminal b ≡ false → is_terminal a ≡ false
Course-live stays h = h
Course-live (goes p m) h = Course-live p (Moves-ends m)

-- What a worker's work on one message makes of a status.
pub Course-Sets :
    {s : Stage} {a b : String} → Course s a b → (b ≡ a) ⊎ ((is_terminal a ≡ false) × Sets s b)
Course-Sets stays = inl refl
Course-Sets (goes p m) = inr (Course-live p (Moves-ends m), Moves-Sets m)

-- a message for one of the three workers
pub data Job : Type 0 where
  for_ocr for_embedder : Fields → Job
  for_chunker : Envelope → Job

abbrev pub stage_of : Job → Stage
stage_of (for_ocr envelope) = Stage.ocr
stage_of (for_chunker env) = Stage.chunk
stage_of (for_embedder envelope) = Stage.embed

-- The course of a status over a list of messages: each message leaves it as it is, or finds it
-- neither `embedded` nor `failed` and sets it to one of its own worker's statuses.
pub data Chain : List Job → String → String → Type 0 where
  done : {a : String} → Chain [] a a
  keeps : {job : Job} {jobs : List Job} {a b : String} → Chain jobs a b → Chain (job ∷ jobs) a b
  sets :
      {job : Job} {jobs : List Job} {a b c : String}
      → is_terminal a ≡ false
      → Sets (stage_of job) b
      → Chain jobs b c
      → Chain (job ∷ jobs) a c

-- A status that is `embedded` or `failed` stays.
pub Chain-ends : {jobs : List Job} {a b : String} → is_terminal a ≡ true → Chain jobs a b → b ≡ a
Chain-ends h done = refl
Chain-ends h (keeps c) = Chain-ends h c
Chain-ends h (sets live own c) = absurd (false≢true (sym live ∙ h))

-- The workers' settings, and what Go's libraries give the chunker.
pub record Workers : Type 0 where
  pub ocr : Config
  pub host : Host
  pub chunker : ChunkerConfig.Config
  pub embedder : EmbedderConfig.Config

module _ (s : Services) (workers : Workers) where
  abbrev pub do_job : Job → World → World
  do_job (for_ocr envelope) w = (Ocr.handle s workers.ocr envelope w).1
  do_job (for_chunker env) w = (Chunker.process workers.host workers.chunker env w).1
  do_job (for_embedder envelope) w = (Embedder.handle s workers.embedder envelope w).1

  unfoldable pub do_jobs : List Job → World → World
  do_jobs [] w = w
  do_jobs (job ∷ jobs) w = do_jobs jobs (do_job job w)
