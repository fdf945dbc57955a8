-- ===== src/Chunker/Settled.antt =====
-- The messages that `process` of workers/chunker/internal/worker/worker.go lets pass.
use mathlib.Core.Bool.{false≢true}
use digital_cip.Prelude.{
  ◌≡◌, refl, sym, ap, ◌∙◌, pos, eq_ℤ, true, false, Option, none, some, inl, inr,
}
use digital_cip.Error.{Result, ok, err, returned}
use digital_cip.Tables
use digital_cip.Tables.{Db}
use digital_cip.World.{State, World}
use digital_cip.Exec.{pure, ◌>>=◌}
use digital_cip.Exec.Rules.{Meets, Post, Meets-bind, Meets-if, Meets-raise}
use digital_cip.Sql.Statements.{select_document, is_recorded}
use digital_cip.Ocr.Handle.{is_terminal}
use digital_cip.Ocr.Handle.Idle.{IsSettled}
use digital_cip.Chunker.Config.{Config}
use digital_cip.Chunker.Envelope.{Envelope}
use digital_cip.Chunker.Db.{Document, scan_document, fetch_document}
use digital_cip.Chunker.Db.Rules.{
  Same, scan_document-row, already_processed-Meets, fetch_document-Meets,
}
use digital_cip.Chunker.Handle.{Host, wrapped, process_document, process}

module _ (host : Host) (config : Config) (env : Envelope) (old : State) where
  Found : Option Document → State → Type 0
  Found doc st =
      (st ≡ old)
      × (scan_document (select_document (some env.document_id) old.db.documents) ≡ returned doc)

  document-Same :
      (d : Tables.Document)
      → select_document (some env.document_id) old.db.documents ≡ some d
      → is_terminal d.status ≡ true
      → (doc : Option Document)
      → Meets (Found doc) (process_document host config env doc) (λ _. Same old) (λ _. Same old)
  unfolding Found process_document is_terminal
  document-Same d found ended none = record { at = λ w p. p.0 }
  document-Same d found ended (some doc) = record {
    at = λ w p.
        rw
          (ap is_terminal ((scan_document-row d doc (ap scan_document (sym found) ∙ p.1)).0)
            ∙ ended)
          p.0;
  }

  fresh-Same :
      IsSettled (some env.message_id) (some env.document_id) old.db
      → is_recorded (some env.message_id) old.db.processed_messages ≡ false
      → Meets
          (Same old)
          (wrapped "fetch" (fetch_document env.document_id) >>= process_document host config env)
          (λ _. Same old)
          (λ _. Same old)
  unfolding Found
  fresh-Same (inl recorded) fresh = absurd (false≢true (sym fresh ∙ recorded))
  fresh-Same (inr (d, found, ended)) fresh =
      Meets-bind {R = Found} (fetch_document-Meets old env.document_id)
        (document-Same d found ended)

  process-Same :
      IsSettled (some env.message_id) (some env.document_id) old.db
      → Meets (Same old) (process host config env) (λ _. Same old) (λ _. Same old)
  unfolding process
  process-Same settled =
      Meets-if (eq_ℤ env.document_id (pos 0)) _ _ (λ e. Meets-raise _)
        λ e. Meets-bind (already_processed-Meets old env.message_id) λ seen.
          Meets-if seen (pure tt) _ (λ h. record { at = λ w p. p.0 })
            λ h. record { at = λ w p. (fresh-Same settled (sym p.1 ∙ h)).at w p.0 }

same :
    {old : State} (r : Result (Unit {0}) × World)
    → Post (λ _. Same old) (λ _. Same old) r
    → r.1.state ≡ old
same (ok _, w) h = h
same (err e, w) h = h

-- A message that the worker has recorded, or whose document is `embedded` or `failed`, changes
-- nothing: whichever calls fail, the tables, the channel, the metrics and the clock are as they
-- were when `process` returns or raises.
pub process-settled :
    (host : Host) (config : Config) (env : Envelope) (w : World)
    → IsSettled (some env.message_id) (some env.document_id) w.db
    → (process host config env w).1.state ≡ w.state
process-settled host config env w settled =
    same (process host config env w) ((process-Same host config env w.state settled).at w refl)
