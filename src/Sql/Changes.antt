-- ===== src/Sql/Changes.antt =====
-- How a worker's statements may change the tables while it works on one document.
use digital_cip.Prelude.{
  ◌≡◌, refl, ap, sym, ◌∙◌, ℤ, eq_ℤ_refl, true, false, String, Option, some, List, [], ◌∷◌, ◌++◌,
  append-nil, append_assoc, map, All, ◌⊎◌, inl, inr,
}
use digital_cip.Tables.{Document, ProcessingEvent, ProcessedMessage, Db}
use digital_cip.Error.{Outcome, returned}
use digital_cip.World.{State}
use digital_cip.Sql.Statements.{
  has_id, select_document, update_where, is_recorded, insert_processed,
}
use digital_cip.Sql.Laws.{
  select-update_ne, map-id-update, is_recorded-insert, is_recorded-insert_cases,
}

abbrev pub with_db : (Db → Db) → State → State
with_db f st = record st { db = f st.db }

abbrev pub with_documents : (Document → Document) → Option ℤ → Db → Db
with_documents f k db = record db { documents = update_where f k db.documents }

abbrev pub with_event : ProcessingEvent → Db → Db
with_event e db = record db { processing_events = db.processing_events ++ (e ∷ []) }

abbrev pub with_processed : ProcessedMessage → Db → Db
with_processed row db = record db {
  processed_messages = insert_processed row db.processed_messages;
}

-- From `old` to `new`, the work on one document: the rows of other documents are as they
-- were, events are added for that document and that stage, no record of a processed message is
-- lost, and none is added but that of `message`.
pub record Changes (stage : String) (key : Option ℤ) (message : Outcome String) (old new : Db)
    : Type 0 where
  pub ids : map (λ d. d.id) new.documents ≡ map (λ d. d.id) old.documents
  pub others :
      (j : ℤ)
      → has_id key j ≡ false
      → select_document (some j) new.documents ≡ select_document (some j) old.documents
  pub added : List ProcessingEvent
  pub events : new.processing_events ≡ old.processing_events ++ added
  pub own : All (λ e. (has_id key e.document_id ≡ true) × (e.stage ≡ stage)) added
  pub recorded :
      (m : String)
      → is_recorded (some m) old.processed_messages ≡ true
      → is_recorded (some m) new.processed_messages ≡ true
  pub own_message :
      (m : String)
      → is_recorded (some m) new.processed_messages ≡ true
      → (is_recorded (some m) old.processed_messages ≡ true) ⊎ (message ≡ returned m)

module _ (stage : String) (key : Option ℤ) (message : Outcome String) (old : Db) where
  pub Changes-refl : Changes stage key message old old
  Changes-refl = record {
    ids = refl;
    others = λ j h. refl;
    added = [];
    events = sym (append-nil _);
    own = tt;
    recorded = λ m h. h;
    own_message = λ m h. inl h;
  }

  pub Changes-documents :
      (f : Document → Document) (new : Db)
      → ((d : Document) → (f d).id ≡ d.id)
      → Changes stage key message old new
      → Changes stage key message old (with_documents f key new)
  Changes-documents f new same_id c = record {
    ids = map-id-update f same_id key new.documents ∙ c.ids;
    others = λ j h. select-update_ne f same_id key j new.documents h ∙ c.others j h;
    added = c.added;
    events = c.events;
    own = c.own;
    recorded = c.recorded;
    own_message = c.own_message;
  }

  pub Changes-processed :
      (row : ProcessedMessage) (new : Db)
      → message ≡ returned row.message_id
      → Changes stage key message old new
      → Changes stage key message old (with_processed row new)
  Changes-processed row new named c = record {
    ids = c.ids;
    others = c.others;
    added = c.added;
    events = c.events;
    own = c.own;
    recorded = λ m h. is_recorded-insert m row new.processed_messages (c.recorded m h);
    own_message = λ m h. elim (is_recorded-insert_cases m row new.processed_messages h) [
      | inl old ↦ c.own_message m old
      | inr same ↦ inr (named ∙ ap returned same)
    ];
  }

All-append :
    (P : ProcessingEvent → Type 0) (xs : List ProcessingEvent) (e : ProcessingEvent)
    → All P xs
    → P e
    → All P (xs ++ (e ∷ []))
All-append P [] e h p = (p, tt)
All-append P (x ∷ xs) e h p = (h.0, All-append P xs e h.1 p)

pub Changes-event :
    (stage : String) (k : ℤ) (message : Outcome String) (old new : Db) (row : ProcessingEvent)
    → row.document_id ≡ k
    → row.stage ≡ stage
    → Changes stage (some k) message old new
    → Changes stage (some k) message old (with_event row new)
Changes-event stage k message old new row id same c = record {
  ids = c.ids;
  others = c.others;
  recorded = c.recorded;
  own_message = c.own_message;
  added = c.added ++ (row ∷ []);
  events =
      ap (λ es. es ++ (row ∷ [])) c.events ∙ append_assoc old.processing_events c.added (row ∷ []);
  own = All-append _ c.added row c.own (ap (has_id (some k)) id ∙ eq_ℤ_refl k, same);
}
