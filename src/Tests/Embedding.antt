-- ===== src/Tests/Embedding.antt =====
-- The theorems about the embedder's handler, with a document of three chunks.
use digital_cip.Prelude.{
  ◌≡◌, refl, sym, ap, ◌∙◌, pos, false, some, ◌⊎◌, [], ◌∷◌, String, length, length-map, map,
}
use digital_cip.Json.{num, str, get}
use digital_cip.World.{State, works, fails}
use digital_cip.Error.{other, ok, returned}
use digital_cip.Exec.{call}
use digital_cip.Ocr.Extract.{external}
use digital_cip.Embedder.Embeddings.{with_model, model, embed_batch}
use digital_cip.Embedder.Embeddings.Rules.{embed_batch-loads}
use digital_cip.Exec.Rules.{Post, Raises}
use digital_cip.Sql.Changes.{Changes}
use digital_cip.Ocr.Handle.Frame.{returned-injective}
use digital_cip.Exec.Calm.{calm}
use digital_cip.Sql.Statements.{text_column, bigint_key, select_document, is_recorded}
use digital_cip.Ocr.Handle.{item, is_terminal}
use digital_cip.Embedder.Handle.{handle}
use digital_cip.Embedder.Handle.Progress.{Embedded}
use digital_cip.Embedder.Handle.Completion.{Able}
use digital_cip.Embedder.Handle.Success.{Ready, embed-Ready}
use digital_cip.Embedder.Handle.Attempt.{OneEach}
use digital_cip.Embedder.Handle.Ending.{Embeds, Stops, embed-Ended}
use digital_cip.Embedder.Handle.Frame.{part_of, embed-Changes}
use digital_cip.Fixture.{
  services, embedder_config, envelope, uploaded, chunks, fresh, in_trouble, knows_message,
  knows_document, keyed_seven, named_first,
}

abbrev chunked : State
chunked = record fresh { db = record fresh.db { document_chunks = chunks } }

one_each : OneEach services embedder_config
one_each texts vectors e =
    sym (ap length (returned-injective e)) ∙ length-map (λ (t : String). 5 ∷ []) texts

embed-Ended_example :
    Post
      (Embeds services (str "m1") (some "m1") (some (pos 7)) chunked.db)
      (Stops services (str "m1") (some "m1") (some (pos 7)) chunked.db)
      (handle services embedder_config envelope (in_trouble chunked))
embed-Ended_example =
    embed-Ended services embedder_config envelope (str "m1") (num (pos 7)) (some "m1")
      (some (pos 7)) (in_trouble chunked) knows_message knows_document named_first keyed_seven
      one_each

embed-Changes_example :
    let after = (handle services embedder_config envelope (in_trouble chunked)).1 in
    Changes "embed" (some (pos 7)) (returned "m1") chunked.db after.db
    × (map part_of after.db.document_chunks ≡ map part_of chunks)
unfolding item get text_column
embed-Changes_example =
    embed-Changes services embedder_config envelope (num (pos 7)) (some (pos 7))
      (in_trouble chunked) knows_document keyed_seven

embed_batch-loads_example :
    Post
      (λ vectors st.
        (st ≡ with_model chunked)
        × (services.encode ("a page" ∷ []) embedder_config.batch_size ≡ returned vectors))
      (Raises (λ st. (st ≡ with_model chunked) ⊎ (st ≡ chunked) × (chunked.model_loaded ≡ false)))
      (embed_batch services embedder_config ("a page" ∷ []) (in_trouble chunked))
embed_batch-loads_example =
    embed_batch-loads services embedder_config ("a page" ∷ []) (in_trouble chunked)

-- The model is loaded by the first batch, not by the second.
loaded_once_test :
    embed_batch services embedder_config
      ("a page" ∷ [])
      (record { state = with_model chunked; fates = works ∷ fails (other "no") ∷ [] })
    ≡ (ok ((5 ∷ []) ∷ []), record { state = with_model chunked; fates = fails (other "no") ∷ [] })
unfolding embed_batch model external call
loaded_once_test = refl

abbrev able : Able services embedder_config
able = record {
  loads = refl;
  dimension = pos 384;
  tells = refl;
  vectors = map (λ t. 5 ∷ []);
  encodes = λ texts. refl;
}

abbrev ready_to_embed : Ready services envelope chunked
unfolding get bigint_key is_recorded select_document is_terminal
ready_to_embed = record {
  id = "m1";
  document_id = num (pos 7);
  key = "7:ocr";
  row_id = pos 7;
  row = uploaded;
  names_itself = refl;
  names_document = refl;
  has_key = refl;
  keyed = refl;
  fresh = refl;
  found = refl;
  live = refl;
}

embed-Ready_example :
    let done = handle services embedder_config envelope (calm chunked) in
    (done.0 ≡ ok tt) × Embedded (some (pos 7)) services (str "m1") done.1.db
unfolding ready_to_embed
embed-Ready_example =
    embed-Ready services embedder_config envelope chunked able one_each ready_to_embed
