-- ===== src/Embedder/Embeddings.antt =====
-- workers/embedder/app/embeddings.py. The model is loaded at the first batch and kept for the
-- process's life; its dimension is only logged.
pub mod Rules
use digital_cip.Prelude.{Bool, true, false, ℤ, String, List, if◌then◌else◌}
use digital_cip.Services.{Services}
use digital_cip.Tables.{Vector}
use digital_cip.World.{State}
use digital_cip.Exec.{Exec, pure, gets, modify, ◌>>=◌, ◌>>◌}
use digital_cip.Ocr.Extract.{external}
use digital_cip.Embedder.Config.{Config}

-- `_model = …`
abbrev pub with_model : State → State
with_model st = record st { model_loaded = true }

module _ (s : Services) (config : Config) where
  -- the body of `if _model is None`
  unfoldable pub load : Exec (Unit {0})
  load = do
    external (s.sentence_transformer config.embedding_model)
    modify with_model
    dim ← external s.sentence_embedding_dimension
    pure tt

  unfoldable pub model : Exec (Unit {0})
  unfolding load
  model = do loaded ← gets (λ st. st.model_loaded); if loaded then pure tt else load

  unfoldable pub embed_batch : List String → Exec (List Vector)
  unfolding model
  embed_batch texts = do model; external (s.encode texts config.batch_size)
