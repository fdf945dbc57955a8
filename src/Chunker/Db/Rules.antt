-- ===== src/Chunker/Db/Rules.antt =====
-- What holds before and after a call of workers/chunker/internal/db/db.go, whichever calls fail.
use digital_cip.Prelude.{arith, ◌≡◌, refl, sym, ap, ◌∙◌, ℕ, ℤ, String, Bool, Option, some}
use digital_cip.Error.{Error, transient, Foreign, foreign, Outcome, returned, raised}
use digital_cip.Tables
use digital_cip.Tables.{Db}
use digital_cip.World.{State, World}
use digital_cip.Exec.{Exec, pure, lift, modify, continue, ◌>>=◌}
use digital_cip.Exec.Rules.{Meets, Post, Meets-call, Meets-try, Meets-raise, Meets-weaken}
use digital_cip.Sql.Statements.{select_document, is_recorded}
use digital_cip.Ocr.Handle.Frame.{returned-injective}
use digital_cip.Chunker.Db.{
  Document, beside, statement, scan_document, fetch_document, already_processed,
}
use digital_cip.Chunker.Handle.{wrapped}

module _ {A : Type 0} {P : State → Type 0} {Q : A → State → Type 0}
    {E : Error → State → Type 0} where
  -- A statement that fails has done nothing, or its work.
  pub statement-Meets :
      (body : ℕ → Db → Outcome (A × Db))
      → ((st : State) (a : A) (db : Db)
          → P st
          → body st.clock st.db ≡ returned (a, db)
          → Q a (record st { db = db }))
      → ((st : State) (f : Foreign) → P st → E (foreign f) st)
      → ((st : State) (a : A) (f : Foreign) → Q a st → E (foreign f) st)
      → ((st : State) (e : Error) (f : Foreign) → E e st → E (foreign f) st)
      → Meets P (statement body) Q E
  unfolding statement
  statement-Meets body all nothing late again =
      Meets-call _ (record { at = λ w p. after w p (body w.clock w.db) refl }) nothing late again
    where
      after :
          (w : World)
          → P w.state
          → (o : Outcome (A × Db)) → body w.clock w.db ≡ o
          → Post Q E
              (continue (lift o w) (λ r. modify (λ st. record st { db = r.1 }) >>= λ _. pure r.0))
      after w p (returned (a, db)) e = all w.state a db p e
      after w p (raised f) e = nothing w.state f p

  pub wrapped-Meets :
      {m : Exec A} (E' : Error → State → Type 0) (what : String)
      → Meets P m Q E'
      → ((st : State) (e : Error) (t : String) → E' e st → E (transient t) st)
      → Meets P (wrapped what m) Q E
  wrapped-Meets E' what h k =
      Meets-try {E' = E'} h (λ e. Meets-weaken (λ st. k st e _) (Meets-raise _))

abbrev pub Same : State → State → Type 0
Same old st = st ≡ old

-- A statement that reads the tables and answers.
module _ {A : Type 0} (old : State) (answer : A → Type 0) where
  pub read-Meets :
      (body : ℕ → Db → Outcome (A × Db)) (what : String)
      → ((a : A) (db : Db) → body old.clock old.db ≡ returned (a, db) → answer a × (db ≡ old.db))
      → Meets
          (Same old)
          (wrapped what (statement body))
          (λ a st. (st ≡ old) × answer a)
          (λ _. Same old)
  read-Meets body what reads =
      wrapped-Meets (λ _. Same old) what
        (statement-Meets body
          (λ st a db p h.
            let (known, same) = reads a db (ap (λ (s : State). body s.clock s.db) (sym p) ∙ h) in
            (
              ap (λ (s : State). record s { db = db }) p
                  ∙ ap (λ (d : Db). record old { db = d }) same,
              known,
            ))
          (λ st f h. h) (λ st a f h. h.0) (λ st e f h. h))
        (λ st e t h. h)

-- The document that a row is read as has the row's status and id.
pub scan_document-row :
    (row : Tables.Document) (doc : Document)
    → scan_document (some row) ≡ returned (some doc)
    → (doc.status ≡ row.status) × (doc.id ≡ row.id)
unfolding scan_document
scan_document-row row doc h = ground arith

pub beside-returned :
    {doc : Option Document} {old db : Db} (o : Outcome (Option Document))
    → beside old o ≡ returned (doc, db)
    → (o ≡ returned doc) × (db ≡ old)
beside-returned (returned d) h =
    let e = returned-injective h in
    (
      ap (λ (r : Option Document × Db). returned r.0) e,
      sym (ap (λ (r : Option Document × Db). r.1) e),
    )
beside-returned (raised f) h = cc

module _ (old : State) where
  pub already_processed-Meets :
      (message_id : String)
      → Meets
          (Same old)
          (wrapped "idempotency check failed" (already_processed message_id))
          (λ seen st. (st ≡ old) × (seen ≡ is_recorded (some message_id) old.db.processed_messages))
          (λ _. Same old)
  unfolding already_processed
  already_processed-Meets message_id =
      read-Meets old (λ seen. seen ≡ is_recorded (some message_id) old.db.processed_messages)
        (λ now db. returned (is_recorded (some message_id) db.processed_messages, db)) _
        λ a db h.
          let e = returned-injective h in
          (sym (ap (λ (r : Bool × Db). r.0) e), sym (ap (λ (r : Bool × Db). r.1) e))

  pub fetch_document-Meets :
      (id : ℤ)
      → Meets
          (Same old)
          (wrapped "fetch" (fetch_document id))
          (λ doc st.
            (st ≡ old)
            × (scan_document (select_document (some id) old.db.documents) ≡ returned doc))
          (λ _. Same old)
  unfolding fetch_document
  fetch_document-Meets id =
      read-Meets old
        (λ doc. scan_document (select_document (some id) old.db.documents) ≡ returned doc) _ _
        λ a db h. beside-returned _ h
