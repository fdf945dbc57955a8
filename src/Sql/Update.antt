-- ===== src/Sql/Update.antt =====
-- `UPDATE documents SET … WHERE id = %s` with a list of set items and a list of parameters, which
-- the placeholders of the text take in order.
use digital_cip.Prelude.{ℕ, String, Option, none, some, List, [], ◌∷◌, ◌++◌}
use digital_cip.Json.{Value}
use digital_cip.Error.{Outcome, returned, raised, other, ◌>>=◌}
use digital_cip.Tables.{Document, Db}
use digital_cip.Services.{Services}
use digital_cip.Sql.Statements.{bigint_key, update_where}

pub data Column : Type 0 where
  status raw_text failure_reason ocr_completed_at embedded_at failed_at : Column

-- `'status = %s'` and the like, and `'updated_at = NOW()'`
pub data SetItem : Type 0 where
  placeholder : Column → SetItem
  updated_at_now : SetItem

pub data Param : Type 0 where
  text : String → Param
  key : Value → Param

-- A column of a time keeps the text that was sent: that PostgreSQL reads it is left out.
unfoldable pub set_column : Column → String → Document → Document
set_column status v d = record d { status = v }
set_column raw_text v d = record d { raw_text = some v }
set_column failure_reason v d = record d { failure_reason = some v }
set_column ocr_completed_at v d = record d { ocr_completed_at = some v }
set_column embedded_at v d = record d { embedded_at = some v }
set_column failed_at v d = record d { failed_at = some v }

-- What the SET items do to a row, and the parameter that is left for the WHERE clause. A query
-- whose placeholders do not fit its parameters is refused.
unfoldable pub bind : List SetItem → List Param → ℕ → Outcome ((Document → Document) × Value)
unfolding set_column
bind [] (key k ∷ []) now = returned (λ d. d, k)
bind (updated_at_now ∷ items) params now = do
  (rest, k) ← bind items params now
  returned (λ d. rest (record d { updated_at = now }), k)
bind (placeholder c ∷ items) (text v ∷ params) now = do
  (rest, k) ← bind items params now
  returned (λ d. rest (set_column c v d), k)
bind _ _ _ = raised (other "the query's placeholders do not fit its parameters")

unfoldable pub update_documents :
    Services → List SetItem → List Param → ℕ → Db → Outcome (Unit {0} × Db)
unfolding bind
update_documents s items params now db = do
  (f, k) ← bind items params now
  id ← bigint_key s k
  returned (tt, record db { documents = update_where f id db.documents })

-- `if value is not None: fields.append(…); values.append(value)`
unfoldable pub append_field :
    Column → Option String → List SetItem × List Param → List SetItem × List Param
append_field c none (items, params) = (items, params)
append_field c (some v) (items, params) = (items ++ (placeholder c ∷ []), params ++ (text v ∷ []))

-- What the UPDATE of the workers' `update_document…` means for a row: the status and the time are
-- new, and so is each column that a value was given for.
abbrev pub or_keep : Option String → Option String → Option String
or_keep none old = old
or_keep (some v) old = some v

-- the same with the values in their places
abbrev pub set_status :
    Services → Value → (Document → ℕ → Document) → ℕ → Db → Outcome (Unit {0} × Db)
set_status s document_id f now db = do
  k ← bigint_key s document_id
  returned (tt, record db { documents = update_where (λ d. f d now) k db.documents })
