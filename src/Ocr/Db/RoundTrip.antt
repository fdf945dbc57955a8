-- ===== src/Ocr/Db/RoundTrip.antt =====
-- What a function of db.py finds after another one has written, where every call works.
use digital_cip.Prelude.{◌≡◌, refl, ℕ, ℤ, true, String, Option, none, some}
use mathlib.Core.Option
use digital_cip.Json.{Value, Fields, str}
use digital_cip.Error.{ok, returned}
use digital_cip.Services.{Services}
use digital_cip.Tables.{Document}
use digital_cip.World.{State}
use digital_cip.Exec.{pure, ◌>>=◌, ◌>>◌}
use digital_cip.Exec.Calm.{calm}
use digital_cip.Sql.Statements.{text_key, text_column, bigint_key, select_document}
use digital_cip.Sql.Laws.{is_recorded-insert_self, select-update_self}
use digital_cip.Sql.Changes.{with_db, with_documents, with_processed}
use digital_cip.Ocr.Db.{already_processed, record_processed, fetch_document, update_document_status}
use digital_cip.Sql.Update.{or_keep}
use digital_cip.Ocr.Db.Status.{with_status}
use digital_cip.Ocr.Db.Calm.{
  already_processed-calm, fetch_document-calm, update_document_status-calm, processed_row,
  record_processed-calm,
}

-- Once a message id was recorded, whether by this call or before it, `already_processed` says so;
-- the call in between changes nothing.
pub already_processed-record_processed :
    (s : Services) (document_id : Value) (k : ℤ) (st : State) (id key stage consumer : String)
    (result : Option Fields)
    → (keyed : bigint_key s document_id ≡ returned (some k))
    → (record_processed s (str id) (str key) stage document_id consumer result >>= λ _.
          already_processed (str id))
        (calm st)
      ≡ (
        ok true,
        calm (
            with_db
              (with_processed (processed_row s document_id k keyed st id key stage consumer result))
              st),
      )
unfolding text_key text_column
already_processed-record_processed s document_id k st id key stage consumer result keyed =
    let row = processed_row s document_id k keyed st id key stage consumer result in
    rw (
      record_processed-calm s document_id k keyed st (str id) (str key) id key stage consumer result
          refl refl,
      already_processed-calm (str id) (some id) (with_db (with_processed row) st) refl,
      is_recorded-insert_self row st.db.processed_messages,
    )

-- A row but for the two times that the worker sets. PostgreSQL reads their texts and gives back
-- times.
abbrev pub untimed : Document → Document
untimed d = record d { ocr_completed_at = none; failed_at = none }

-- After `update_document_status` with times that `isoformat` gave, `fetch_document` finds the row
-- that it found before with the new status, the given text and reason and the time of the change.
-- What it finds in the two columns of times is not stated; every other column is as it was.
pub fetch_document-update_document_status :
    (s : Services) (document_id : Value) (k : ℤ) (st : State) (status : String)
    (raw_text failure_reason : Option String) (ocr_completed_at failed_at : Option ℕ)
    → bigint_key s document_id ≡ returned (some k)
    → let shown = Option.map s.isoformat in
      let after =
        (do
          update_document_status s document_id status raw_text failure_reason
              (shown ocr_completed_at)
              (shown failed_at)
          found ← fetch_document s document_id
          pure (Option.map untimed found))
          (calm st) in
      after.0
      ≡ ok (
          Option.map
            (λ d. untimed record d {
              status = status;
              raw_text = or_keep raw_text d.raw_text;
              failure_reason = or_keep failure_reason d.failure_reason;
              updated_at = st.clock;
            })
            (select_document (some k) st.db.documents))
fetch_document-update_document_status s document_id k st status t r c f keyed =
    let g = with_status status t r (Option.map s.isoformat c) (Option.map s.isoformat f) st.clock in
    rw
      (
        update_document_status-calm s document_id k keyed st status t r (Option.map s.isoformat c)
            (Option.map s.isoformat f),
        fetch_document-calm s document_id k keyed (with_db (with_documents g (some k)) st),
        select-update_self g (λ d. refl) (some k) st.db.documents,
      )
      (untimed_row (select_document (some k) st.db.documents))
  where
    untimed_row :
        (found : Option Document)
        → ok (
            Option.map untimed (
              Option.map
                (with_status status t r
                  (Option.map s.isoformat c)
                  (Option.map s.isoformat f)
                  st.clock)
                found))
          ≡ ok (
              Option.map
                (λ d. untimed record d {
                  status = status;
                  raw_text = or_keep t d.raw_text;
                  failure_reason = or_keep r d.failure_reason;
                  updated_at = st.clock;
                })
                found)
    untimed_row none = refl
    untimed_row (some d) = refl
