-- ===== src/Tests/Statuses.antt =====
-- The theorems about the course of a status, with messages for the three workers.
use digital_cip.Prelude.{◌≡◌, refl, pos, some, true, List, [], ◌∷◌}
use digital_cip.Tables.{Document}
use digital_cip.World.{State}
use digital_cip.Sql.Statements.{select_document}
use digital_cip.Ocr.Handle.{is_terminal}
use digital_cip.Pipeline.{Job, for_ocr, for_chunker, for_embedder, Workers, do_jobs}
use digital_cip.Pipeline.Statuses.{Followed, do_jobs-Followed, do_jobs-ended}
use digital_cip.Tests.Chunking as Chunking
use digital_cip.Tests.Chunking.{host, env}
use digital_cip.Fixture.{
  services, config, embedder_config, envelope, uploaded, fresh, in_trouble, found_seven,
}

-- A message comes twice to the OCR worker, with the chunker and the embedder at work in between.
abbrev jobs : List Job
jobs = for_ocr envelope ∷ for_chunker env ∷ for_embedder envelope ∷ for_ocr envelope ∷ []

abbrev workers : Workers
workers = record {
  ocr = config;
  host = host;
  chunker = Chunking.config;
  embedder = embedder_config;
}

abbrev given_up : Document
given_up = record uploaded { status = "failed" }

abbrev after_failure : State
after_failure = record fresh { db = record fresh.db { documents = given_up ∷ [] } }

found_failed : select_document (some (pos 7)) after_failure.db.documents ≡ some given_up
unfolding select_document
found_failed = refl

ended_failed : is_terminal given_up.status ≡ true
unfolding is_terminal
ended_failed = refl

do_jobs-Followed_example :
    Followed (pos 7) "uploaded" jobs (do_jobs services workers jobs (in_trouble fresh)).state
do_jobs-Followed_example =
    do_jobs-Followed services workers jobs (in_trouble fresh) (pos 7) uploaded found_seven

do_jobs-ended_example :
    (d : Document) × (select_document
        (some (pos 7))
        (do_jobs services workers jobs (in_trouble after_failure)).db.documents
      ≡ some d)
    × (d.status ≡ "failed")
do_jobs-ended_example =
    do_jobs-ended services workers jobs (in_trouble after_failure) (pos 7) given_up found_failed
      ended_failed
