-- ===== src/Embedder/Handle/Frame.antt =====
-- What the embedder's `handle` may do to the tables, whichever of its calls fail.
use digital_cip.Prelude.{
  ◌≡◌, refl, sym, ap, ◌∙◌, ℕ, ℤ, Bool-cases, inl, inr, eq_ℤ, String, Option, none, some, List, [],
  ◌∷◌, map,
}
use digital_cip.Json.{Value, Fields, get}
use digital_cip.Error.{Result, ok, err, Outcome, returned}
use digital_cip.Tables.{Vector, Chunk, Db}
use digital_cip.Services.{Services}
use digital_cip.World.{State, World}
use digital_cip.Exec.{modify}
use digital_cip.Exec.Rules.{Post}
use digital_cip.Exec.Keeps.{Keeps, Keeps-of_Raises}
use digital_cip.Sql.Statements.{bigint_key, text_column}
use digital_cip.Sql.Chunks.{set_embedding, set_embeddings}
use digital_cip.Sql.Changes.{
  Changes, Changes-refl, Changes-documents, Changes-event, Changes-processed,
}
use digital_cip.Consumer.Effects.{on_metrics}
use digital_cip.Ocr.Handle.{utc_now}
use digital_cip.Ocr.Handle.Frame.{returned-injective, stored, own_id}
use digital_cip.Embedder.Config.{Config}
use digital_cip.Embedder.Db.{record_processed, write_embeddings, update_document, record_event}
use digital_cip.Embedder.Db.Rules.{
  write_embeddings-Meets, update_document-Meets, record_event-Meets, record_processed-Meets,
}
use digital_cip.Embedder.Handle.{embedded, handle}
use digital_cip.Embedder.Handle.Induction.{WritesKeep, handle-Keeps}

-- A chunk but for its embedding and the time of its last change.
abbrev pub part_of : Chunk → Chunk
part_of c = record c { embedding = none; updated_at = 0 }

map-set_embedding :
    (now : ℕ) (row : ℤ × Vector) (cs : List Chunk)
    → map part_of (set_embedding now row cs) ≡ map part_of cs
unfolding set_embedding
map-set_embedding now (id, v) [] = refl
map-set_embedding now (id, v) (c ∷ cs) = elim (Bool-cases (eq_ℤ id c.id)) [
  | inl e ↦ rw (e, map-set_embedding now (id, v) cs)
  | inr e ↦ rw (e, map-set_embedding now (id, v) cs)
]

map-set_embeddings :
    (now : ℕ) (rows : List (ℤ × Vector)) (cs : List Chunk)
    → map part_of (set_embeddings now rows cs) ≡ map part_of cs
unfolding set_embeddings
map-set_embeddings now [] cs = refl
map-set_embeddings now (row ∷ rows) cs =
    map-set_embeddings now rows (set_embedding now row cs) ∙ map-set_embedding now row cs

-- The tables differ from `old` by work on one document, and of the chunks only the embeddings and
-- the times differ.
abbrev pub Framed : Option ℤ → Outcome String → Db → State → Type 0
Framed key message old st =
    Changes "embed" key message old st.db
    × (map part_of st.db.document_chunks ≡ map part_of old.document_chunks)

module _ (s : Services) (message : Outcome String) (old : Db) (document_id : Value) (key : Option ℤ)
    (keyed : bigint_key s document_id ≡ returned key) where
  update-Framed :
      (status : String) (e r f : Option String)
      → Keeps (Framed key message old) (update_document s document_id status e r f)
  update-Framed status e r f = Keeps-of_Raises (
      update_document-Meets (λ st h. h) s (Framed key message old) document_id status e r f
        (λ st h. h)
        λ st k h eq.
          rw (returned-injective (sym eq ∙ keyed))
            (Changes-documents "embed" key message old _ st.db (λ d. refl) h.0, h.1))

  event-Framed :
      (from : Option String) (to : String) (note : Option String) (payload : Option Fields)
      → Keeps (Framed key message old) (record_event s document_id "embed" from to note payload)
  event-Framed from to note payload = Keeps-of_Raises (
      record_event-Meets (λ st h. h) s (Framed key message old) document_id "embed" from to note
        payload (λ st h. h)
        λ st k row h e same.
          let known : some k ≡ key = returned-injective (sym e ∙ keyed) in
          rw (← known) (
            Changes-event "embed" k message old st.db row same.0 same.1 (rw (← known) at h.0),
            h.1,
          ))

  record-Framed :
      (message_id idempotency_key : Value) (consumer : String) (result : Option Fields)
      → message ≡ text_column s message_id
      → Keeps
          (Framed key message old)
          (record_processed s message_id idempotency_key document_id consumer result)
  record-Framed message_id idempotency_key consumer result named = Keeps-of_Raises (
      record_processed-Meets (λ st h. h) s (Framed key message old) message_id idempotency_key
        document_id consumer result (λ st h. h)
        λ st row h e. (Changes-processed "embed" key message old row st.db (named ∙ e) h.0, h.1))

  write-Framed :
      (rows : List (ℤ × Vector)) → Keeps (Framed key message old) (write_embeddings s rows)
  write-Framed rows = Keeps-of_Raises (
      write_embeddings-Meets (λ st h. h) s (Framed key message old) rows (λ st h. h)
        λ st h. (
          record {
            ids = h.0.ids;
            others = h.0.others;
            added = h.0.added;
            events = h.0.events;
            own = h.0.own;
            recorded = h.0.recorded;
            own_message = h.0.own_message;
          },
          map-set_embeddings st.clock rows st.db.document_chunks ∙ h.1,
        ))

  count-Framed : (n : ℕ) → Keeps (Framed key message old) (modify (on_metrics (embedded n)))
  count-Framed n = record { meets = record { at = λ w h. h } }

  tick-Framed : Keeps (Framed key message old) (utc_now s)
  unfolding utc_now
  tick-Framed = record { meets = record { at = λ w h. h } }

  abbrev framed :
      (message_id : Value)
      → message ≡ text_column s message_id
      → WritesKeep s document_id message_id (Framed key message old)
  framed message_id named = record {
    updates = update-Framed;
    events = event-Framed;
    records = λ k c r. record-Framed message_id k c r named;
    writes = write-Framed;
    counts = count-Framed;
    ticks = tick-Framed;
    loads = λ st h. h;
  }

-- Whichever calls of the database and the model fail, the embedder changes no row of another
-- document, of the chunks only the embeddings and the times of change, deletes no event and no
-- record of a processed message, adds no record of a message but of its own, and every event that it adds is about the message's document and
-- the stage `embed`. A message whose key is no bigint is not covered.
pub embed-Changes :
    (s : Services) (config : Config) (envelope : Fields) (document_id : Value) (key : Option ℤ)
    (w : World)
    → get "document_id" envelope ≡ some document_id
    → bigint_key s document_id ≡ returned key
    → let after = (handle s config envelope w).1 in
      Changes "embed" key (own_id s envelope) w.db after.db
      × (map part_of after.db.document_chunks ≡ map part_of w.db.document_chunks)
embed-Changes s config envelope document_id key w known keyed = after (handle s config envelope w) (
    (handle-Keeps s config document_id envelope known
        λ m e. framed s (own_id s envelope) w.db document_id key keyed m (ap (stored s) e)).meets.at
      w (Changes-refl "embed" key (own_id s envelope) w.db, refl))
  where
    after :
        (done : Result (Unit {0}) × World)
        → Post
            (λ _. Framed key (own_id s envelope) w.db)
            (λ _. Framed key (own_id s envelope) w.db)
            done
        → Framed key (own_id s envelope) w.db done.1.state
    after (ok a, w') h = h
    after (err e, w') h = h
