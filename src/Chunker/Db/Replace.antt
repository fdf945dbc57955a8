-- ===== src/Chunker/Db/Replace.antt =====
-- What `InsertChunks` of workers/chunker/internal/db/db.go does to the tables.
use mathlib.Core.Path.{subst}
use digital_cip.Prelude.{◌≡◌, refl, sym, ap, ◌∙◌, ℕ, ℤ, List, [], ◌∷◌, ◌⊎◌, inl, inr, arith}
use digital_cip.Error.{Error, Outcome, returned, raised}
use digital_cip.Tables.{Db}
use digital_cip.World.{State, World}
use digital_cip.Exec.{Exec, raise, lift, modify, try, ◌>>=◌, ◌>>◌}
use digital_cip.Exec.Rules.{
  Meets, Post, Meets-call, Meets-try, Meets-bind, Meets-raise, Meets-idle, Meets-strengthen,
}
use digital_cip.Sql.Transaction.{connect-Meets, execute, commit, rollback, close}
use digital_cip.Chunker.Db.{ChunkRow, ignore}
use digital_cip.Chunker.Db.Chunks.{
  remove_chunks, delete_chunks, with_chunk, insert_chunk, send_batch, replace_in, insert_chunks,
}
use digital_cip.Chunker.Db.Rules.{Same}
use digital_cip.Ocr.Handle.Frame.{returned-injective}

-- The rows in their order, after the chunks that are there.
abbrev pub with_chunks : ℤ → List ChunkRow → ℕ → Db → Db
with_chunks id [] now db = db
with_chunks id (row ∷ rows) now db = with_chunks id rows now (with_chunk id row now db)

abbrev pub without_chunks : ℤ → Db → Db
without_chunks id db = record db { document_chunks = remove_chunks id db.document_chunks }

abbrev pub replaced : ℤ → List ChunkRow → State → State
replaced id rows st = record st { db = with_chunks id rows st.clock (without_chunks id st.db) }

insert_chunk-returned :
    (id : ℤ) (row : ChunkRow) (now : ℕ) (db db' : Db)
    → insert_chunk id row now db ≡ returned (tt, db')
    → db' ≡ with_chunk id row now db
unfolding insert_chunk
insert_chunk-returned id row now db db' h = ground arith

-- What is known of a value may be put in its place.
given-Meets :
    {X A : Type 0} {P : State → Type 0} {Q : A → State → Type 0} {E : Error → State → Type 0}
    (m : X → Exec A) (x y : X)
    → Meets P (m y) Q E
    → Meets (λ st. P st × (x ≡ y)) (m x) Q E
given-Meets {Q = Q} {E = E} m x y h = record {
  at = λ w p. subst (λ z. Post Q E (m z w)) (sym p.1) (h.at w p.0);
}

module _ (old : State) where
  execute-Same :
      {A : Type 0} (body : ℕ → Db → Outcome (A × Db)) (conn : Db)
      → Meets
          (Same old)
          (execute body conn)
          (λ r st. (st ≡ old) × (body old.clock conn ≡ returned r))
          (λ _. Same old)
  unfolding execute
  execute-Same {A = A} body conn =
      Meets-call (λ w. lift (body w.clock conn) w)
        (record { at = λ w p. after w p (body w.clock conn) refl }) (λ st f h. h) (λ st a f h. h.0)
        (λ st e f h. h)
    where
      after :
          (w : World)
          → w.state ≡ old
          → (o : Outcome (A × Db)) → body w.clock conn ≡ o
          → Post
              (λ r st. (st ≡ old) × (body old.clock conn ≡ returned r))
              (λ _. Same old)
              (lift o w)
      after w p (returned r) e = (p, ap (λ (s : State). body s.clock conn) (sym p) ∙ e)
      after w p (raised f) e = p

  idle-Same :
      {E : Error → State → Type 0} {m : Exec (Unit {0})}
      → Meets (Same old) m (λ _. Same old) (λ _. Same old)
      → Meets (Same old) (ignore m) (λ _. Same old) E
  idle-Same h = Meets-try h (λ e. record { at = λ w p. p })

  close-Same : Meets (Same old) close (λ _. Same old) (λ _. Same old)
  unfolding close
  close-Same = Meets-idle (λ st f h. h)

  module _ (id : ℤ) where
    send_batch-Same :
        (rows : List ChunkRow) (conn : Db)
        → Meets
            (Same old)
            (send_batch id rows conn)
            (λ conn' st. (st ≡ old) × (conn' ≡ with_chunks id rows old.clock conn))
            (λ _. Same old)
    unfolding send_batch
    send_batch-Same [] conn = record { at = λ w p. (p, refl) }
    send_batch-Same (row ∷ rows) conn =
        Meets-bind {R = λ r st. (st ≡ old) × (r.1 ≡ with_chunk id row old.clock conn)}
          (Meets-try {E' = λ _. Same old}
            (Meets-strengthen (λ r st h. (h.0, insert_chunk-returned id row old.clock conn r.1 h.1))
              (λ e st h. h) (execute-Same (insert_chunk id row) conn))
            (λ e. Meets-bind (idle-Same close-Same) (λ _. Meets-raise e)))
          λ r.
            given-Meets (send_batch id rows) r.1 _
              (send_batch-Same rows (with_chunk id row old.clock conn))

    delete-Same :
        (conn : Db)
        → Meets
            (Same old)
            (execute (delete_chunks id) conn)
            (λ r st. (st ≡ old) × (r.1 ≡ without_chunks id conn))
            (λ _. Same old)
    unfolding delete_chunks
    delete-Same conn =
        Meets-strengthen
          (λ r st h. (h.0, sym (ap (λ (x : Unit {0} × Db). x.1) (returned-injective h.1))))
          (λ e st h. h) (execute-Same (delete_chunks id) conn)

    -- nothing done, or all of it
    abbrev Either : List ChunkRow → State → Type 0
    Either rows st = (st ≡ old) ⊎ (st ≡ replaced id rows old)

    commit-Either :
        (rows : List ChunkRow) (conn : Db)
        → conn ≡ with_chunks id rows old.clock (without_chunks id old.db)
        → Meets (Same old) (commit conn) (λ _ st. st ≡ replaced id rows old) (λ _. Either rows)
    unfolding commit
    commit-Either rows conn e =
        Meets-call (modify (λ st. record st { db = conn }))
          (record {
            at = λ w p.
                ap (λ (s : State). record s { db = conn }) p
                ∙ ap (λ (d : Db). record old { db = d }) e;
          })
          (λ st f. inl) (λ st a f. inr) (λ st e f h. h)

    work-Either :
        (rows : List ChunkRow)
        → Meets
            (Same old)
            (replace_in id rows old.db)
            (λ _ st. st ≡ replaced id rows old)
            (λ _. Either rows)
    work-Either rows =
        Meets-bind (Meets-strengthen (λ r st h. h) (λ e st. inl) (delete-Same old.db)) λ r.
          given-Meets (λ conn'. send_batch id rows conn' >>= λ conn''. close >> commit conn'') r.1 _
            (Meets-bind
              (Meets-strengthen (λ r st h. h) (λ e st. inl)
                (send_batch-Same rows (without_chunks id old.db)))
              λ conn''.
                given-Meets (λ c. close >> commit c) conn'' _
                  (Meets-bind (Meets-strengthen (λ r st h. h) (λ e st. inl) close-Same)
                    λ _. commit-Either rows _ refl))

    undo-Either :
        (rows : List ChunkRow) {E : Error → State → Type 0}
        → Meets (Either rows) (ignore rollback) (λ _. Either rows) E
    unfolding rollback
    undo-Either rows =
        Meets-try {E' = λ _. Either rows} (Meets-idle (λ st f h. h)) (λ e. record { at = λ w p. p })

    insert_chunks-Either :
        (rows : List ChunkRow)
        → Meets
            (Same old)
            (insert_chunks id rows)
            (λ _ st. st ≡ replaced id rows old)
            (λ _. Either rows)
    unfolding insert_chunks
    insert_chunks-Either rows =
        Meets-bind {R = λ conn st. (st ≡ old) × (conn ≡ old.db)}
          (Meets-strengthen (λ conn st h. (h.1, h.0 ∙ ap (λ (s : State). s.db) h.1)) (λ e st. inl)
            (connect-Meets {E = λ _. Same old} (λ st f h. h) (λ st e f h. h)))
          λ conn.
            given-Meets (λ c. try (replace_in id rows c) (λ e. ignore rollback >> raise e)) conn
              old.db
              (Meets-try {E' = λ _. Either rows} (work-Either rows)
                (λ e. Meets-bind {R = λ _. Either rows} (undo-Either rows) (λ _. Meets-raise e)))

-- Whichever calls fail, `InsertChunks` is all or nothing: if it returns no error, the document's
-- chunks are the given rows, in their order and without embeddings, and nothing else has changed;
-- if it returns an error, either nothing has changed, or the commit has gone through.
pub insert_chunks-Atomic :
    (id : ℤ) (rows : List ChunkRow) (w : World)
    → Post
        (λ _ st. st ≡ replaced id rows w.state)
        (λ _ st. (st ≡ w.state) ⊎ (st ≡ replaced id rows w.state))
        (insert_chunks id rows w)
insert_chunks-Atomic id rows w = (insert_chunks-Either w.state id rows).at w refl
