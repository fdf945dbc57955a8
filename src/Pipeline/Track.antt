-- ===== src/Pipeline/Track.antt =====
-- The status of one document while a worker works on another or on the same one.
use mathlib.Core.Option
use mathlib.Core.Option.{some-injective}
use mathlib.Core.Path.{subst}
use digital_cip.Prelude.{
  ◌≡◌, sym, ap, ◌∙◌, ℤ, true, Bool-cases, inl, inr, eq_ℤ_sound, String, Option, none, some,
}
use digital_cip.Tables.{Document}
use digital_cip.World.{State}
use digital_cip.Sql.Statements.{has_id, select_document}
use digital_cip.Sql.Laws.{select-update_self, select-update_ne}
use digital_cip.Sql.Changes.{with_db, with_documents}
use digital_cip.Ocr.Handle.Attempt.{Row, Row-update}
use digital_cip.Broker.Stages.{Stage}
use digital_cip.Pipeline.{Moves, Course, goes}

has_id_sound : (key : Option ℤ) (j : ℤ) → has_id key j ≡ true → key ≡ some j
has_id_sound none j h = cc
has_id_sound (some k) j h = ap some (eq_ℤ_sound k j h)

-- The row of the document `j`, whose status was `a` when the stage's worker got its message.
pub record Track (s : Stage) (j : ℤ) (a : String) (st : State) : Type 0 where
  pub row : Document
  pub found : select_document (some j) st.db.documents ≡ some row
  pub path : Course s a row.status

module _ (s : Stage) (j : ℤ) (a : String) (key : Option ℤ) where
  abbrev pub Has : String → Document → Type 0
  Has b d = d.status ≡ b

  -- What the worker knows of its own document is its status.
  abbrev pub On : String → State → Type 0
  On b st = Track s j a st × Row key (Has b) st.db

  pub Track-same :
      (st st' : State) → st'.db.documents ≡ st.db.documents → Track s j a st → Track s j a st'
  Track-same st st' same t = record {
    row = t.row;
    found = ap (select_document (some j)) same ∙ t.found;
    path = t.path;
  }

  pub On-same :
      (b : String) (st st' : State) → st'.db.documents ≡ st.db.documents → On b st → On b st'
  On-same b st st' same h = (
    Track-same st st' same h.0,
    record { row = h.1.row; found = ap (select_document key) same ∙ h.1.found; holds = h.1.holds },
  )

  module _ (f : Document → Document) (same_id : (d : Document) → (f d).id ≡ d.id) (b c : String)
      (sets : (d : Document) → (f d).status ≡ c) (move : Moves s b c) where
    Track-update : (st : State) → On b st → Track s j a (with_db (with_documents f key) st)
    Track-update st (t, r) = elim (Bool-cases (has_id key j)) [
      | inl own ↦
          let same : t.row ≡ r.row = some-injective t.row r.row (
            sym t.found
            ∙ ap (λ k. select_document k st.db.documents) (sym (has_id_sound key j own))
            ∙ r.found) in
          record {
            row = f t.row;
            found =
                ap (λ k. select_document (some j) (with_documents f k st.db).documents)
                  (has_id_sound key j own)
                ∙ select-update_self f same_id (some j) st.db.documents
                ∙ ap (Option.map f) t.found;
            path = subst (Course s a) (sym (sets t.row)) (
                goes (subst (Course s a) (ap (λ (d : Document). d.status) same ∙ r.holds) t.path)
                  move);
          }
      | inr other ↦ record {
        row = t.row;
        found = select-update_ne f same_id key j st.db.documents other ∙ t.found;
        path = t.path;
      }
    ]

    pub On-update : (st : State) → On b st → On c (with_db (with_documents f key) st)
    On-update st h = (Track-update st h, Row-update key f st.db same_id (λ d e. sets d) h.1)
