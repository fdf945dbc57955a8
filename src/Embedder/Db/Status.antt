-- ===== src/Embedder/Db/Status.antt =====
-- `update_document` builds its statement from the values that it is given.
use digital_cip.Prelude.{◌≡◌, refl, ℕ, String, Option, none, some}
use digital_cip.Json.{Value}
use digital_cip.Tables.{Document}
use digital_cip.Services.{Services}
use digital_cip.Sql.Transaction.{transaction}
use digital_cip.Sql.Update.{append_field, or_keep, set_status, update_documents}
use digital_cip.Embedder.Connection.{connection}
use digital_cip.Embedder.Db.{update_document}

-- the row that the statement makes of a row
abbrev pub with_progress :
    (status : String) (embedded_at failure_reason failed_at : Option String) (now : ℕ)
    → Document
    → Document
with_progress status embedded_at failure_reason failed_at now d = record d {
  status = status;
  embedded_at = or_keep embedded_at d.embedded_at;
  failure_reason = or_keep failure_reason d.failure_reason;
  failed_at = or_keep failed_at d.failed_at;
  updated_at = now;
}

-- Whichever values are given, the placeholders meet their own values, the key is the WHERE
-- clause's, and the statement sets just the columns that a value was given for.
pub update_document_lem :
    (s : Services) (document_id : Value) (status : String)
    (embedded_at failure_reason failed_at : Option String)
    → update_document s document_id status embedded_at failure_reason failed_at
      ≡ transaction connection (
          set_status s document_id
            (λ d now. with_progress status embedded_at failure_reason failed_at now d))
unfolding update_document append_field update_documents
update_document_lem s document_id status none none none = refl
update_document_lem s document_id status none none (some _) = refl
update_document_lem s document_id status none (some _) none = refl
update_document_lem s document_id status none (some _) (some _) = refl
update_document_lem s document_id status (some _) none none = refl
update_document_lem s document_id status (some _) none (some _) = refl
update_document_lem s document_id status (some _) (some _) none = refl
update_document_lem s document_id status (some _) (some _) (some _) = refl
