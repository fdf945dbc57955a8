-- ===== src/Pipeline/Statuses.antt =====
-- The course of a document's status while the three workers go on with their messages.
use digital_cip.Prelude.{◌≡◌, ℤ, true, false, String, some, List, [], ◌∷◌, ◌⊎◌, inl, inr}
use digital_cip.Error.{Result, ok, err}
use digital_cip.Tables.{Document}
use digital_cip.Services.{Services}
use digital_cip.World.{State, World}
use digital_cip.Exec.Rules.{Post}
use digital_cip.Sql.Statements.{select_document}
use digital_cip.Ocr.Handle as Ocr
use digital_cip.Ocr.Handle.{is_terminal}
use digital_cip.Chunker.Handle as Chunker
use digital_cip.Embedder.Handle as Embedder
use mathlib.Core.Path.{subst}
use digital_cip.Broker.Stages.{Stage}
use digital_cip.Pipeline.{
  stays, Sets, Course-Sets, Job, for_ocr, for_chunker, for_embedder, stage_of, Chain, done, keeps,
  sets, Chain-ends, Workers, do_job, do_jobs,
}
use digital_cip.Pipeline.Track.{Track}
use digital_cip.Pipeline.OcrJob.{ocr-Kept}
use digital_cip.Pipeline.ChunkJob.{chunk-Kept}
use digital_cip.Pipeline.EmbedJob.{embed-Kept}

left :
    {A : Type 0} (P : State → Type 0) (done : Result A × World)
    → Post (λ _. P) (λ _. P) done
    → P done.1.state
left P (ok x, w) h = h
left P (err e, w) h = h

-- The document `j` is there, and its status came from `a` over these messages.
pub record Followed (j : ℤ) (a : String) (jobs : List Job) (st : State) : Type 0 where
  pub row : Document
  pub found : select_document (some j) st.db.documents ≡ some row
  pub path : Chain jobs a row.status

module _ (s : Services) (workers : Workers) (j : ℤ) where
  do_job-Track :
      (job : Job) (w : World) (a : String)
      → Track (stage_of job) j a w.state
      → Track (stage_of job) j a (do_job s workers job w).state
  do_job-Track (for_ocr envelope) w a h =
      left (Track Stage.ocr j a) (Ocr.handle s workers.ocr envelope w)
        ((ocr-Kept s workers.ocr j a envelope).meets.at w h)
  do_job-Track (for_chunker env) w a h =
      left (Track Stage.chunk j a) (Chunker.process workers.host workers.chunker env w)
        ((chunk-Kept workers.host workers.chunker j a env).meets.at w h)
  do_job-Track (for_embedder envelope) w a h =
      left (Track Stage.embed j a) (Embedder.handle s workers.embedder envelope w)
        ((embed-Kept s workers.embedder j a envelope).meets.at w h)

  Chain-first :
      {job : Job} {jobs : List Job} {a b c : String}
      → (b ≡ a) ⊎ ((is_terminal a ≡ false) × Sets (stage_of job) b)
      → Chain jobs b c
      → Chain (job ∷ jobs) a c
  Chain-first {jobs = jobs} {c = c} (inl e) h = keeps (subst (λ x. Chain jobs x c) e h)
  Chain-first (inr (live, own)) h = sets live own h

  all-Followed :
      (jobs : List Job) (w : World) (d : Document)
      → select_document (some j) w.db.documents ≡ some d
      → Followed j d.status jobs (do_jobs s workers jobs w).state
  unfolding do_jobs
  all-Followed [] w d found = record { row = d; found = found; path = done }
  all-Followed (job ∷ jobs) w d found =
      let t = do_job-Track job w d.status (record { row = d; found = found; path = stays }) in
      let later = all-Followed jobs (do_job s workers job w) t.row t.found in
      record {
        row = later.row;
        found = later.found;
        path = Chain-first (Course-Sets t.path) later.path;
      }

-- Whatever messages the three workers work on, one after the other, and whichever of their calls
-- fail: a document that is there stays there. Each message leaves its status as it was, or finds
-- it neither `embedded` nor `failed` and leaves a status of its own worker's: `ocr_processing`,
-- `ocr_completed` or `failed` for the OCR worker, `chunking`, `chunked` or `failed` for the
-- chunker, `embedding` or `embedded` for the embedder.
pub do_jobs-Followed :
    (s : Services) (workers : Workers) (jobs : List Job) (w : World) (j : ℤ) (d : Document)
    → select_document (some j) w.db.documents ≡ some d
    → Followed j d.status jobs (do_jobs s workers jobs w).state
do_jobs-Followed s workers jobs w j d found = all-Followed s workers j jobs w d found

-- A document that is `embedded` or `failed` keeps its status, whatever messages the three workers
-- work on and whichever of their calls fail.
pub do_jobs-ended :
    (s : Services) (workers : Workers) (jobs : List Job) (w : World) (j : ℤ) (d : Document)
    → select_document (some j) w.db.documents ≡ some d
    → is_terminal d.status ≡ true
    → (d' : Document) × (select_document (some j) (do_jobs s workers jobs w).db.documents ≡ some d')
      × (d'.status ≡ d.status)
do_jobs-ended s workers jobs w j d found ended =
    let t = do_jobs-Followed s workers jobs w j d found in (t.row, t.found, Chain-ends ended t.path)
