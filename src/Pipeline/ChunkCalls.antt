-- ===== src/Pipeline/ChunkCalls.antt =====
-- The chunker's calls that leave the rows of the documents, whichever of them fail.
use digital_cip.Prelude.{◌≡◌, refl, sym, ap, ◌∙◌, ℕ, ℤ, String, Option, some, List, ◌⊎◌, inl, inr}
use digital_cip.Json.{Fields}
use digital_cip.Error.{Error, Outcome, returned, Result, ok, err}
use digital_cip.Tables.{Db}
use digital_cip.World.{State, World, Publication}
use digital_cip.Exec.{Exec, modify}
use digital_cip.Exec.Rules.{Meets, Post, Meets-bind, Meets-call, Meets-try}
use digital_cip.Sql.Laws.{insert_event-returned}
use digital_cip.Sql.Statements.{insert_processed}
use digital_cip.Ocr.Handle.Frame.{returned-injective}
use digital_cip.Chunker.Config.{Config}
use digital_cip.Chunker.Db.{
  ChunkRow, ignore, statement, record_event, record_processed, processed_row,
}
use digital_cip.Chunker.Db.Chunks.{insert_chunks}
use digital_cip.Chunker.Db.Rules.{statement-Meets}
use digital_cip.Chunker.Db.Replace.{replaced, without_chunks, insert_chunks-Atomic}
use digital_cip.Chunker.Db.Calm.{documents-with_chunks}
use digital_cip.Chunker.Handle.{Host, now_as, next_envelope, next_message, publish_next}
use digital_cip.Chunker.Envelope.{Envelope}
use digital_cip.Consumer.Effects.{on_channel, published_also, basic_publish}

-- What holds of the documents' rows alone.
abbrev pub IsOfRows : (State → Type 0) → Type 0
IsOfRows P = (st st' : State) → st'.db.documents ≡ st.db.documents → P st → P st'

module _ {P : State → Type 0} (rows : IsOfRows P) where
  pub statement-Rows :
      {A : Type 0} (body : ℕ → Db → Outcome (A × Db))
      → ((now : ℕ) (old db : Db) (a : A)
          → body now old ≡ returned (a, db)
          → db.documents ≡ old.documents)
      → Meets P (statement body) (λ _. P) (λ _. P)
  statement-Rows body same =
      statement-Meets body (λ st a db p h. rows st _ (same st.clock st.db db a h) p) (λ st f h. h)
        (λ st a f h. h) (λ st e f h. h)

  pub ignore-Rows :
      {E : Error → State → Type 0} {m : Exec (Unit {0})}
      → Meets P m (λ _. P) (λ _. P)
      → Meets P (ignore m) (λ _. P) E
  ignore-Rows h = Meets-try {E' = λ _. P} h (λ e. record { at = λ w p. p })

  pub event-Rows :
      (id : ℤ) (stage from to message : String) (payload : Option Fields)
      → Meets P (record_event id stage from to message payload) (λ _. P) (λ _. P)
  unfolding record_event
  event-Rows id stage from to message payload = statement-Rows _ λ now old db a h.
      let (k, known, e) = insert_event-returned _ (some id) old db h in
      ap (λ (x : Db). x.documents) e

  pub processed-Rows :
      (m key stage consumer : String) (id : ℤ) (result : Fields)
      → Meets P (record_processed m key stage consumer id result) (λ _. P) (λ _. P)
  unfolding record_processed
  processed-Rows m key stage consumer id result =
      statement-Rows
        (λ now db. returned (
          tt,
          record db {
            processed_messages =
                insert_processed (processed_row m key stage consumer id result now)
                  db.processed_messages;
          },
        ))
        λ now old db a h. sym (ap (λ (r : Unit {0} × Db). r.1.documents) (returned-injective h))

  pub insert-Rows :
      (id : ℤ) (chunks : List ChunkRow) → Meets P (insert_chunks id chunks) (λ _. P) (λ _. P)
  insert-Rows id chunks = record {
    at = λ w p. after w p (insert_chunks id chunks w) (insert_chunks-Atomic id chunks w);
  }
    where
      same :
          (w : World) (st : State)
          → st ≡ replaced id chunks w.state
          → st.db.documents ≡ w.db.documents
      same w st e =
          ap (λ (x : State). x.db.documents) e
          ∙ documents-with_chunks id chunks w.clock (without_chunks id w.db)

      after :
          (w : World)
          → P w.state
          → (done : Result (Unit {0}) × World)
          → Post
              (λ _ st. st ≡ replaced id chunks w.state)
              (λ _ st. (st ≡ w.state) ⊎ (st ≡ replaced id chunks w.state))
              done
          → Post (λ _. P) (λ _. P) done
      after w p (ok _, w') e = rows w.state w'.state (same w w'.state e) p
      after w p (err x, w') (inl e) = rows w.state w'.state (ap (λ (y : State). y.db.documents) e) p
      after w p (err x, w') (inr e) = rows w.state w'.state (same w w'.state e) p

  pub now-Rows :
      (host : Host) (config : Config) (format : ℕ → String)
      → Meets P (now_as host config format) (λ _. P) (λ _. P)
  unfolding now_as
  now-Rows host config format = record { at = λ w p. rows w.state _ refl p }

  send-Rows : (p : Publication) → Meets P (basic_publish p) (λ _. P) (λ _. P)
  unfolding basic_publish
  send-Rows p =
      Meets-call (modify (on_channel (published_also p)))
        (record { at = λ w h. rows w.state (on_channel (published_also p) w.state) refl h })
        (λ st f h. h) (λ st x f h. h) (λ st e f h. h)

  pub publish-Rows :
      (host : Host) (config : Config) (env : Envelope) (n : ℕ)
      → Meets P (publish_next host config env n) (λ _. P) (λ _. P)
  unfolding publish_next
  publish-Rows host config env n = Meets-bind (now-Rows host config host.new_string) λ message_id.
      Meets-bind (now-Rows host config host.rfc3339) λ published_at.
        send-Rows
          (next_message host config (next_envelope host config env n message_id published_at))
