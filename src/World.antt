-- ===== src/World.antt =====
-- What a worker's calls change: the database, what it has told the broker, its metrics,
-- the clock, and what becomes of its next calls of the outside.
use digital_cip.Prelude.{ℕ, ℤ, Bool, String, Option, List, [], ◌∷◌}
use digital_cip.Json.{Value, Fields}
use digital_cip.Error.{Foreign}
use digital_cip.Tables.{Db}

-- A call of the outside works, fails with nothing done, or is carried out and raises all the same,
-- as when the connection drops before the answer.
pub data Fate : Type 0 where
  works : Fate
  fails : Foreign → Fate
  lands : Foreign → Fate

-- A message's bytes, by what `json.loads` makes of them: a value, or an exception.
pub data Body : Type 0 where
  text : Value → Body
  junk : String → Body

pub record Properties : Type 0 where
  pub content_type : Option String
  pub delivery_mode : Option ℕ
  pub message_id : Option String
  pub headers : Option Fields

pub record Publication : Type 0 where
  pub exchange : String
  pub routing_key : String
  pub body : Body
  pub properties : Properties

-- What the worker has done on its channel, oldest first.
pub record Channel : Type 0 where
  pub published : List Publication
  pub acked : List ℕ
  pub nacked : List (ℕ × Bool)

pub data Reason : Type 0 where
  permanent exhausted unhandled : Reason

-- metrics.py; a worker sets one `stage` label only, so a metric has one value for each reason.
pub record Metrics : Type 0 where
  pub processed : ℕ
  pub failed_permanent : ℕ
  pub failed_exhausted : ℕ
  pub failed_unhandled : ℕ
  -- the chunker's reason `invalid_envelope`
  pub failed_invalid_envelope : ℕ
  pub retried : ℕ
  pub in_flight : ℤ
  pub durations : List ℕ
  pub chunks_embedded : ℕ

pub record State : Type 0 where
  pub db : Db
  pub channel : Channel
  pub metrics : Metrics
  pub clock : ℕ
  -- whether the embedder's process has its model
  pub model_loaded : Bool

pub record World : Type 0 where
  pub state : State
  pub open state use *
  pub fates : List Fate

-- An empty list of fates is a world where every call works.
abbrev pub next_fate : List Fate → Fate
next_fate [] = works
next_fate (f ∷ fs) = f

abbrev pub later_fates : List Fate → List Fate
later_fates [] = []
later_fates (f ∷ fs) = fs
