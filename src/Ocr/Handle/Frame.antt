-- ===== src/Ocr/Handle/Frame.antt =====
-- What the OCR worker's `handle` may do to the tables, whichever of its calls fail.
use digital_cip.Prelude.{◌≡◌, refl, sym, ap, ◌∙◌, ℤ, String, Option, some}
use digital_cip.Json.{Value, Fields, get}
use digital_cip.Error.{Result, ok, err, Outcome, returned, ◌>>=◌}
use digital_cip.Tables.{Db}
use digital_cip.Services.{Services}
use digital_cip.World.{State, World}
use digital_cip.Exec.Rules.{Post, Meets-bind, Meets-lift}
use digital_cip.Exec.Keeps.{Keeps, Keeps-of_Raises}
use digital_cip.Sql.Statements.{bigint_key, text_column}
use digital_cip.Sql.Changes.{
  Changes, Changes-refl, Changes-documents, Changes-event, Changes-processed,
}
use digital_cip.Ocr.Config.{Config}
use digital_cip.Ocr.Db.{record_processed, update_document_status, record_event}
use digital_cip.Ocr.Handle.Induction.{WritesKeep, handle_message-Keeps}
use digital_cip.Ocr.Db.Rules.{
  update_document_status-Meets, record_event-Meets, record_processed-Meets,
}
use digital_cip.Ocr.Handle.{item, utc_now, handle}

abbrev pub stored : Services → Outcome Value → Outcome String
stored s o = o >>= text_column s

-- The message's own id, as it is stored.
abbrev pub own_id : Services → Fields → Outcome String
own_id s envelope = stored s (item "message_id" envelope)

-- The tables differ from `old` by work on one document, and the chunks are as they were.
abbrev pub Framed : Option ℤ → Outcome String → Db → State → Type 0
Framed key message old st =
    Changes "ocr" key message old st.db × (st.db.document_chunks ≡ old.document_chunks)

pub item-returned :
    (key : String) (envelope : Fields) (v : Value)
    → get key envelope ≡ some v
    → item key envelope ≡ returned v
unfolding item
item-returned key envelope v h = rw (h, item)

pub returned-injective : {A : Type 0} {a b : A} → returned a ≡ returned b → a ≡ b
returned-injective e = cc

module _ (s : Services) (config : Config) (message : Outcome String) (old : Db)
    (document_id : Value) (key : Option ℤ) (keyed : bigint_key s document_id ≡ returned key) where
  update-Framed :
      (status : String) (t r c f : Option String)
      → Keeps (Framed key message old) (update_document_status s document_id status t r c f)
  update-Framed status t r c f = Keeps-of_Raises (
      update_document_status-Meets (λ st h. h) s (Framed key message old) document_id status t r c f
        (λ st h. h)
        λ st k h e.
          rw (returned-injective (sym e ∙ keyed))
            (Changes-documents "ocr" key message old _ st.db (λ d. refl) h.0, h.1))

  event-Framed :
      (from : Option String) (to : String) (note : Option String) (payload : Option Fields)
      → Keeps
          (Framed key message old)
          (record_event s document_id "ocr" from to note payload "system")
  event-Framed from to note payload = Keeps-of_Raises (
      record_event-Meets (λ st h. h) s (Framed key message old) document_id "ocr" from to note
        payload "system" (λ st h. h)
        λ st k row h e same.
          let known : some k ≡ key = returned-injective (sym e ∙ keyed) in
          rw (← known)
            (Changes-event "ocr" k message old st.db row same.0 same.1 (rw (← known) at h.0), h.1))

  record-Framed :
      (message_id idempotency_key : Value) (consumer : String) (result : Option Fields)
      → message ≡ text_column s message_id
      → Keeps
          (Framed key message old)
          (record_processed s message_id idempotency_key "ocr" document_id consumer result)
  record-Framed message_id idempotency_key consumer result named = Keeps-of_Raises (
      record_processed-Meets (λ st h. h) s (Framed key message old) message_id idempotency_key "ocr"
        document_id consumer result (λ st h. h)
        λ st row h e. (Changes-processed "ocr" key message old row st.db (named ∙ e) h.0, h.1))

  tick-Framed : Keeps (Framed key message old) (utc_now s)
  unfolding utc_now
  tick-Framed = record { meets = record { at = λ w h. h } }

  abbrev writes :
      (message_id : Value)
      → message ≡ text_column s message_id
      → WritesKeep s document_id message_id (Framed key message old)
  writes message_id named = record {
    updates = update-Framed;
    events = event-Framed;
    records = λ k c r. record-Framed message_id k c r named;
    ticks = tick-Framed;
  }

handle-Keeps :
    (s : Services) (config : Config) (old : Db) (document_id : Value) (key : Option ℤ)
    → bigint_key s document_id ≡ returned key
    → (envelope : Fields) → get "document_id" envelope ≡ some document_id
    → Keeps (Framed key (own_id s envelope) old) (handle s config envelope)
unfolding handle
handle-Keeps s config old document_id key keyed envelope known = record {
  meets =
      Meets-bind
        {R = λ m st.
          Framed key (own_id s envelope) old st × (item "message_id" envelope ≡ returned m)}
        (Meets-lift (item "message_id" envelope) (λ st m e h. (h, e)) (λ st f e h. h))
        λ m. rw (item-returned "document_id" envelope document_id known) record {
          at = λ w (h, e).
              (handle_message-Keeps s config document_id m
                  (writes s config (own_id s envelope) old document_id key keyed m
                    (ap (stored s) e))
                  envelope).meets.at
                w h;
        };
}

-- Whichever calls of the database, the object store and the libraries fail, the worker changes
-- no row of another document and no chunk, deletes no event and no record of a processed message,
-- adds no record of a message but of its own, and every event that it adds is about the message's
-- document and the stage `ocr`. A message whose key is no bigint is not covered.
pub handle-Changes :
    (s : Services) (config : Config) (envelope : Fields) (document_id : Value) (key : Option ℤ)
    (w : World)
    → get "document_id" envelope ≡ some document_id
    → bigint_key s document_id ≡ returned key
    → let after = (handle s config envelope w).1 in
      Changes "ocr" key (own_id s envelope) w.db after.db
      × (after.db.document_chunks ≡ w.db.document_chunks)
handle-Changes s config envelope document_id key w known keyed =
    after (handle s config envelope w) (
      (handle-Keeps s config w.db document_id key keyed envelope known).meets.at w
        (Changes-refl "ocr" key (own_id s envelope) w.db, refl))
  where
    after :
        (done : Result (Option Fields) × World)
        → Post
            (λ _. Framed key (own_id s envelope) w.db)
            (λ _. Framed key (own_id s envelope) w.db)
            done
        → Framed key (own_id s envelope) w.db done.1.state
    after (ok a, w') h = h
    after (err e, w') h = h
