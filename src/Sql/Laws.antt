-- ===== src/Sql/Laws.antt =====
-- What the statements leave and what they change.
use digital_cip.Prelude.{
  ◌≡◌, ◌⊎◌, eq_iff, refl, ap, ℤ, Bool, true, false, Option, none, some, List, [], ◌∷◌, ◌++◌, String,
  ◌==◌, ◌||◌, map, eq_ℤ, eq_ℤ_sound, eq_refl, arith, Bool-cases, inl, inr, sym, ◌∙◌, if◌then◌else◌,
}
use digital_cip.Error.{returned}
use digital_cip.Tables.{Document, ProcessingEvent, ProcessedMessage, Db}
use digital_cip.Sql.Statements.{
  has_id, select_document, update_where, is_recorded, insert_processed, insert_event,
}
use mathlib.Core.Option
use mathlib.Core.Option.{some-injective}
use mathlib.Core.Bool.{false≢true}

module _ (f : Document → Document) (same_id : (d : Document) → (f d).id ≡ d.id) where
  -- An UPDATE changes the row that a SELECT with the same key finds.
  pub select-update_self :
      (key : Option ℤ) (ds : List Document)
      → select_document key (update_where f key ds) ≡ Option.map f (select_document key ds)
  unfolding select_document update_where
  select-update_self key [] = refl
  select-update_self key (d ∷ ds) = elim (Bool-cases (has_id key d.id)) [
    | inl e ↦ rw (e, same_id d, e)
    | inr e ↦ rw (e, e) (select-update_self key ds)
  ]

  -- A row that is there before an UPDATE is there after it.
  pub select-update_found :
      (key : Option ℤ) (ds : List Document) (d : Document)
      → select_document key ds ≡ some d
      → select_document key (update_where f key ds) ≡ some (f d)
  select-update_found key ds d found = select-update_self key ds ∙ ap (Option.map f) found

  -- An UPDATE leaves the rows with another id.
  pub select-update_ne :
      (key : Option ℤ) (j : ℤ) (ds : List Document)
      → has_id key j ≡ false
      → select_document (some j) (update_where f key ds) ≡ select_document (some j) ds
  unfolding select_document update_where
  select-update_ne key j [] ne = refl
  select-update_ne key j (d ∷ ds) ne = elim (Bool-cases (has_id key d.id)) [
    | inl e ↦ elim (Bool-cases (eq_ℤ j d.id)) [
      | inl same ↦ absurd (false≢true (sym ne ∙ ap (has_id key) (eq_ℤ_sound j d.id same) ∙ e))
      | inr other ↦ rw (e, same_id d, other) (select-update_ne key j ds ne)
    ]
    | inr e ↦
        rw e (ap (λ rest. if eq_ℤ j d.id then some d else rest) (select-update_ne key j ds ne))
  ]

  pub map-id-update :
      (key : Option ℤ) (ds : List Document)
      → map (λ d. d.id) (update_where f key ds) ≡ map (λ d. d.id) ds
  unfolding update_where
  map-id-update key [] = refl
  map-id-update key (d ∷ ds) = elim (Bool-cases (has_id key d.id)) [
    | inl e ↦ rw (e, same_id d, map-id-update key ds)
    | inr e ↦ rw (e, map-id-update key ds)
  ]

-- A SELECT finds a row with its key.
pub select_document-id :
    (k : ℤ) (ds : List Document) (d : Document) → select_document (some k) ds ≡ some d → k ≡ d.id
unfolding select_document
select_document-id k [] d h = cc
select_document-id k (x ∷ ds) d h = elim (Bool-cases (eq_ℤ k x.id)) [
  | inl e ↦ eq_ℤ_sound k x.id e ∙ ap (λ (y : Document). y.id) (some-injective x d (rw e at h))
  | inr e ↦ select_document-id k ds d (rw e at h)
]

pub is_recorded-append :
    (m : String) (rows : List ProcessedMessage) (row : ProcessedMessage)
    → is_recorded (some m) (rows ++ (row ∷ [])) ≡ (is_recorded (some m) rows || row.message_id == m)
unfolding is_recorded
is_recorded-append m [] row = ground arith
is_recorded-append m (r ∷ rows) row = ground (arith, is_recorded-append m rows row)

-- The message is recorded after its INSERT, also where the row was there before.
pub is_recorded-insert_self :
    (row : ProcessedMessage) (rows : List ProcessedMessage)
    → is_recorded (some row.message_id) (insert_processed row rows) ≡ true
unfolding insert_processed
is_recorded-insert_self row rows = elim (Bool-cases (is_recorded (some row.message_id) rows)) [
  | inl old ↦ rw old old
  | inr new ↦ rw new (rw (is_recorded-append, new, eq_refl row.message_id))
]

-- An INSERT removes no row.
pub is_recorded-insert :
    (m : String) (row : ProcessedMessage) (rows : List ProcessedMessage)
    → is_recorded (some m) rows ≡ true
    → is_recorded (some m) (insert_processed row rows) ≡ true
unfolding insert_processed
is_recorded-insert m row rows h = elim (Bool-cases (is_recorded (some row.message_id) rows)) [
  | inl old ↦ rw old h
  | inr new ↦ rw new (rw (is_recorded-append, h))
]

or_cases : (a b : Bool) → (a || b) ≡ true → (a ≡ true) ⊎ (b ≡ true)
or_cases true b h = inl refl
or_cases false b h = inr h

-- An INSERT adds no record but its row's.
pub is_recorded-insert_cases :
    (m : String) (row : ProcessedMessage) (rows : List ProcessedMessage)
    → is_recorded (some m) (insert_processed row rows) ≡ true
    → (is_recorded (some m) rows ≡ true) ⊎ (row.message_id ≡ m)
unfolding insert_processed
is_recorded-insert_cases m row rows h = elim (Bool-cases (is_recorded (some row.message_id) rows)) [
  | inl old ↦ inl (rw old at h)
  | inr new ↦ elim (or_cases _ _ (sym (is_recorded-append m rows row) ∙ (rw new at h))) [
    | inl before ↦ inl before
    | inr same ↦ inr ((eq_iff row.message_id m).0 same)
  ]
]

pub insert_event-returned :
    (row : ℤ → ProcessingEvent) (key : Option ℤ) (db db' : Db)
    → insert_event row key db ≡ returned (tt, db')
    → (k : ℤ) × (key ≡ some k)
      × (db' ≡ record db { processing_events = db.processing_events ++ (row k ∷ []) })
unfolding insert_event
insert_event-returned row none db db' h = ground arith
insert_event-returned row (some k) db db' h = (k, refl, ground arith)
