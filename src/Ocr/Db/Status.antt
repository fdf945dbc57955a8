-- ===== src/Ocr/Db/Status.antt =====
-- `update_document_status` builds its statement from the values that it is given.
use digital_cip.Prelude.{ℕ, ◌≡◌, refl, String, Option, none, some}
use digital_cip.Json.{Value}
use digital_cip.Tables.{Document}
use digital_cip.Services.{Services}
use digital_cip.Sql.Transaction.{transaction}
use digital_cip.Sql.Update.{or_keep, append_field, set_status, update_documents}
use digital_cip.Ocr.Db.{connection, update_document_status}

-- The row after the call.
abbrev pub with_status :
    (status : String) (raw_text failure_reason ocr_completed_at failed_at : Option String) (now : ℕ)
    → Document
    → Document
with_status status raw_text failure_reason ocr_completed_at failed_at now d = record d {
  status = status;
  raw_text = or_keep raw_text d.raw_text;
  failure_reason = or_keep failure_reason d.failure_reason;
  ocr_completed_at = or_keep ocr_completed_at d.ocr_completed_at;
  failed_at = or_keep failed_at d.failed_at;
  updated_at = now;
}

-- Whichever values are given, the placeholders meet their own values, the key is the WHERE
-- clause's, and the statement sets just the columns that a value was given for.
pub update_document_status_lem :
    (s : Services) (document_id : Value) (status : String)
    (raw_text failure_reason ocr_completed_at failed_at : Option String)
    → update_document_status s document_id status raw_text failure_reason ocr_completed_at failed_at
      ≡ transaction connection (
          set_status s document_id
            (λ d now. with_status status raw_text failure_reason ocr_completed_at failed_at now d))
unfolding update_document_status append_field update_documents
update_document_status_lem s document_id status none none none none = refl
update_document_status_lem s document_id status none none none (some _) = refl
update_document_status_lem s document_id status none none (some _) none = refl
update_document_status_lem s document_id status none none (some _) (some _) = refl
update_document_status_lem s document_id status none (some _) none none = refl
update_document_status_lem s document_id status none (some _) none (some _) = refl
update_document_status_lem s document_id status none (some _) (some _) none = refl
update_document_status_lem s document_id status none (some _) (some _) (some _) = refl
update_document_status_lem s document_id status (some _) none none none = refl
update_document_status_lem s document_id status (some _) none none (some _) = refl
update_document_status_lem s document_id status (some _) none (some _) none = refl
update_document_status_lem s document_id status (some _) none (some _) (some _) = refl
update_document_status_lem s document_id status (some _) (some _) none none = refl
update_document_status_lem s document_id status (some _) (some _) none (some _) = refl
update_document_status_lem s document_id status (some _) (some _) (some _) none = refl
update_document_status_lem s document_id status (some _) (some _) (some _) (some _) = refl
