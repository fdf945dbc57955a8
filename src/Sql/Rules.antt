-- ===== src/Sql/Rules.antt =====
-- Rules for the transactions that both workers make: what holds before one (`P`), after it (`Q`),
-- and after an exception of it (`I`), whichever of its calls fail.
use mathlib.Core.Path.{subst}
use digital_cip.Prelude.{◌≡◌, refl, sym, ap, ◌∙◌, ℕ, ℤ, Bool, String, Option, some}
use digital_cip.Json.{Value}
use digital_cip.Error.{Outcome, returned, raised, ◌>>=◌}
use digital_cip.Tables.{Document, ProcessingEvent, ProcessedMessage, Db}
use digital_cip.Services.{Services}
use digital_cip.World.{State}
use digital_cip.Exec.{Exec}
use digital_cip.Exec.Rules.{Meets, Raises, Raises-again}
use digital_cip.Sql.Transaction.{transaction, transaction-Meets}
use digital_cip.Sql.Statements.{
  text_key, text_column, bigint_key, is_recorded, insert_processed, insert_event,
}
use digital_cip.Sql.Laws.{insert_event-returned}
use digital_cip.Sql.Update.{set_status}
use digital_cip.Sql.Changes.{with_db, with_documents, with_event, with_processed}

-- A connection sees the tables as they are, and opening one changes nothing.
pub record Opens (connection : Exec Db) : Type 1 where
  pub opened :
      (P I : State → Type 0)
      → ((st : State) → P st → I st)
      → Meets P connection (λ conn st. (conn ≡ st.db) × P st) (Raises I)

pub bind-returned :
    {A B : Type 0} (m : Outcome A) (f : A → Outcome B) (b : B)
    → (m >>= f) ≡ returned b
    → (a : A) × (m ≡ returned a) × (f a ≡ returned b)
bind-returned (returned a) f b h = (a, refl, h)
bind-returned (raised e) f b h = cc

abbrev answer_or : {A : Type 0} → A → Outcome A → A
answer_or d (returned a) = a
answer_or d (raised e) = d

-- What holds of an answer and its tables holds of an equal answer.
pub answered :
    {A : Type 0} (Q : A → State → Type 0) (st : State) {r r' : A × Db}
    → returned r ≡ returned r'
    → Q r.0 (record st { db = r.1 })
    → Q r'.0 (record st { db = r'.1 })
answered Q st {r} e = subst (λ x. Q x.0 (record st { db = x.1 })) (ap (answer_or r) e)

module _ (connection : Exec Db) (opens : Opens connection) {P I : State → Type 0}
    (before : (st : State) → P st → I st) where
  pub statement-Meets :
      {A : Type 0} (Q : A → State → Type 0) (body : ℕ → Db → Outcome (A × Db))
      → ((st : State) (a : A) → Q a st → I st)
      → ((st : State) (a : A) (db : Db)
          → P st
          → body st.clock st.db ≡ returned (a, db)
          → Q a (record st { db = db }))
      → Meets P (transaction connection body) Q (Raises I)
  statement-Meets Q body after all =
      transaction-Meets body (λ st f. before st) (Raises-again I) (opens.opened P I before) all
        (λ st a f. after st a)

  pub seen-Meets :
      (Q : Bool → State → Type 0) (message_id : Value)
      → ((st : State) (b : Bool) → Q b st → I st)
      → ((st : State) (m : Option String)
          → P st
          → text_key message_id ≡ returned m
          → Q (is_recorded m st.db.processed_messages) st)
      → Meets P
          (transaction connection λ now db. do
            m ← text_key message_id
            returned (is_recorded m db.processed_messages, db))
          Q
          (Raises I)
  seen-Meets Q message_id after all = statement-Meets Q _ after λ st b db p h.
      let (m, e, r) = bind-returned (text_key message_id) _ (b, db) h in
      answered Q st r (all st m p e)

  -- Statements that first read the document's key.
  pub keyed-Meets :
      {A : Type 0} (s : Services) (document_id : Value) (Q : A → State → Type 0)
      (answer : Option ℤ → ℕ → Db → A × Db)
      → ((st : State) (a : A) → Q a st → I st)
      → ((st : State) (k : Option ℤ)
          → P st
          → bigint_key s document_id ≡ returned k
          → Q (answer k st.clock st.db).0 (record st { db = (answer k st.clock st.db).1 }))
      → Meets P
          (transaction connection
            λ now db. do k ← bigint_key s document_id; returned (answer k now db))
          Q
          (Raises I)
  keyed-Meets s document_id Q answer after all = statement-Meets Q _ after λ st a db p h.
      let (k, e, r) = bind-returned (bigint_key s document_id) _ (a, db) h in
      answered Q st r (all st k p e)

  pub update-Meets :
      (s : Services) (document_id : Value) (Q : State → Type 0) (f : ℕ → Document → Document)
      → ((st : State) → Q st → I st)
      → ((st : State) (k : Option ℤ)
          → P st
          → bigint_key s document_id ≡ returned k
          → Q (with_db (with_documents (f st.clock) k) st))
      → Meets P
          (transaction connection (set_status s document_id (λ d now. f now d)))
          (λ _. Q)
          (Raises I)
  update-Meets s document_id Q f after all =
      keyed-Meets s document_id (λ _. Q) (λ k now db. (tt, with_documents (f now) k db))
        (λ st a. after st) all

  pub event-Meets :
      (s : Services) (document_id : Value) (stage : String) (Q : State → Type 0)
      (row : ℤ → ℕ → ProcessingEvent)
      → ((id : ℤ) (now : ℕ) → ((row id now).document_id ≡ id) × ((row id now).stage ≡ stage))
      → ((st : State) → Q st → I st)
      → ((st : State) (k : ℤ) (e : ProcessingEvent)
          → P st
          → bigint_key s document_id ≡ returned (some k)
          → (e.document_id ≡ k) × (e.stage ≡ stage)
          → Q (with_db (with_event e) st))
      → Meets P
          (transaction connection
            λ now db. do d ← bigint_key s document_id; insert_event (λ id. row id now) d db)
          (λ _. Q)
          (Raises I)
  event-Meets s document_id stage Q row about after all =
      statement-Meets (λ _. Q) _ (λ st a. after st)
        λ st a db p h.
          let (k, e, q) = bind-returned (bigint_key s document_id) _ (a, db) h in
          let (n, known, inserted) = insert_event-returned _ k st.db db q in
          rw inserted (all st n _ p (e ∙ ap returned known) (about n st.clock))

  pub record-Meets :
      (s : Services) (message_id idempotency_key document_id : Value) (Q : State → Type 0)
      (row : String → String → Option ℤ → ℕ → ProcessedMessage)
      → ((m k : String) (d : Option ℤ) (now : ℕ) → (row m k d now).message_id ≡ m)
      → ((st : State) → Q st → I st)
      → ((st : State) (r : ProcessedMessage)
          → P st
          → text_column s message_id ≡ returned r.message_id
          → Q (with_db (with_processed r) st))
      → Meets P
          (transaction connection λ now db. do
            m ← text_column s message_id
            k ← text_column s idempotency_key
            d ← bigint_key s document_id
            returned (
              tt,
              record db {
                processed_messages = insert_processed (row m k d now) db.processed_messages;
              },
            ))
          (λ _. Q)
          (Raises I)
  record-Meets s message_id idempotency_key document_id Q row named after all =
      statement-Meets (λ _. Q) _ (λ st a. after st)
        λ st a db p h.
          let (m, e, q) = bind-returned (text_column s message_id) _ (a, db) h in
          let (k, _, q') = bind-returned (text_column s idempotency_key) _ (a, db) q in
          let (d, _, q'') = bind-returned (bigint_key s document_id) _ (a, db) q' in
          answered (λ _. Q) st q''
            (all st (row m k d st.clock) p (e ∙ ap returned (sym (named m k d st.clock))))
