-- ===== src/Sql/Statements.antt =====
-- The statements of db.py on the tables. A statement answers with the new tables, or raises and
-- leaves them.
use digital_cip.Prelude.{
  ℤ, String, Bool, true, false, Option, none, some, List, [], ◌∷◌, ◌++◌, ◌==◌, ◌||◌, eq_ℤ,
  if◌then◌else◌,
}
use digital_cip.Prelude.Text.{decimal_ℤ}
use digital_cip.Json.{Value, null, bool, num, str, arr, obj}
use digital_cip.Error.{Outcome, returned, raised, other}
use digital_cip.Tables.{Document, ProcessingEvent, ProcessedMessage, Db}
use digital_cip.Services.{Services}

-- A value compared with a varchar: SQL's null equals nothing, and there is no operator for a
-- value of another type.
unfoldable pub text_key : Value → Outcome (Option String)
text_key (str t) = returned (some t)
text_key null = returned none
text_key _ = raised (other "operator does not exist")

-- A value stored in a varchar that is not null.
unfoldable pub text_column : Services → Value → Outcome String
unfolding decimal_ℤ
text_column s (str t) = returned t
text_column s (num n) = returned (decimal_ℤ n)
text_column s (bool true) = returned "true"
text_column s (bool false) = returned "false"
text_column s (arr xs) = s.array_text xs
text_column s (obj fs) = raised (other "cannot adapt type 'dict'")
text_column s null = raised (other "null value violates not-null constraint")

-- A value sent for a bigint.
unfoldable pub bigint_key : Services → Value → Outcome (Option ℤ)
bigint_key s (num n) = returned (some n)
bigint_key s null = returned none
bigint_key s (str t) = elim (s.bigint_in t) [
  | none ↦ raised (other "invalid input syntax for type bigint")
  | some n ↦ returned (some n)
]
bigint_key s _ = raised (other "cannot cast to bigint")

-- `WHERE id = key`
abbrev pub has_id : Option ℤ → ℤ → Bool
has_id none id = false
has_id (some k) id = eq_ℤ k id

-- `SELECT … FROM documents WHERE id = key`, its first row
unfoldable pub select_document : Option ℤ → List Document → Option Document
select_document key [] = none
select_document key (d ∷ ds) = if has_id key d.id then some d else select_document key ds

-- `UPDATE documents SET … WHERE id = key`
unfoldable pub update_where : (Document → Document) → Option ℤ → List Document → List Document
update_where f key [] = []
update_where f key (d ∷ ds) = (if has_id key d.id then f d else d) ∷ update_where f key ds

-- `SELECT 1 FROM processed_messages WHERE message_id = key`
unfoldable pub is_recorded : Option String → List ProcessedMessage → Bool
is_recorded none rows = false
is_recorded (some m) [] = false
is_recorded (some m) (row ∷ rows) = row.message_id == m || is_recorded (some m) rows

-- `INSERT INTO processed_messages … ON CONFLICT (message_id) DO NOTHING`
unfoldable pub insert_processed : ProcessedMessage → List ProcessedMessage → List ProcessedMessage
unfolding is_recorded
insert_processed row rows =
    if is_recorded (some row.message_id) rows then rows else rows ++ (row ∷ [])

-- `INSERT INTO processing_events …`: the document is a foreign key that is not null.
unfoldable pub insert_event : (ℤ → ProcessingEvent) → Option ℤ → Db → Outcome (Unit {0} × Db)
unfolding select_document
insert_event row none db = raised (other "null value violates not-null constraint")
insert_event row (some k) db = elim (select_document (some k) db.documents) [
  | none ↦ raised (other "violates foreign key constraint")
  | some d ↦ returned (tt, record db { processing_events = db.processing_events ++ (row k ∷ []) })
]
