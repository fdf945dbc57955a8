-- ===== src/Embedder/Embeddings/Rules.antt =====
-- What a batch does, whichever of its calls fail.
use digital_cip.Prelude.{
  ◌≡◌, refl, sym, ap, ◌∙◌, Bool-cases, Bool, true, false, ◌⊎◌, inl, inr, String, List,
}
use digital_cip.Error.{Outcome, returned}
use digital_cip.Services.{Services}
use digital_cip.World.{State, World}
use digital_cip.Exec.{pure, gets, modify}
use digital_cip.Exec.Rules.{
  Meets, Post, Raises, Raises-again, Meets-bind, Meets-if, Meets-lift, Meets-call, Meets-weaken,
  Meets-pure,
}
use digital_cip.Ocr.Extract.{external}
use digital_cip.Embedder.Config.{Config}
use digital_cip.Embedder.Embeddings.{with_model, load, model, embed_batch}

external-Meets :
    {A : Type 0} {P I : State → Type 0} (o : Outcome A)
    → ((st : State) → P st → I st)
    → Meets P (external o) (λ x st. P st × (o ≡ returned x)) (Raises I)
unfolding external
external-Meets {I} o before =
    Meets-call _ (Meets-lift o (λ st x e h. (h, e)) (λ st f e h. before st h))
      (λ st f h. before st h) (λ st x f h. before st h.0) (Raises-again I)

-- `P` before the model is loaded and `Q` after.
module _ (s : Services) (config : Config) {P Q I : State → Type 0}
    (before : (st : State) → P st → I st) (after : (st : State) → Q st → I st)
    (there : (st : State) → P st → st.model_loaded ≡ true → Q st)
    (loads : (st : State) → P st → Q (with_model st)) where
  load-Meets : Meets P (load s config) (λ _. Q) (Raises I)
  unfolding load
  load-Meets =
      Meets-bind (external-Meets (s.sentence_transformer config.embedding_model) before) λ _.
        Meets-bind {A = Unit {0}} {R = λ _. Q} {m = modify with_model}
          (record { at = λ w h. loads w.state h.0 })
          λ _.
            Meets-bind {f = λ dim. pure tt} (external-Meets s.sentence_embedding_dimension after)
              λ dim. Meets-weaken (λ st h. h.0) (Meets-pure tt)

  abbrev Asked : Bool → State → Type 0
  Asked loaded st = P st × (st.model_loaded ≡ loaded)

  pub model-Meets : Meets P (model s config) (λ _. Q) (Raises I)
  unfolding model
  model-Meets =
      Meets-bind {A = Bool} {R = Asked} {m = gets (λ st. st.model_loaded)}
        (record { at = λ w h. (h, refl) })
        λ loaded.
          Meets-if loaded (pure tt) (load s config)
            (λ e. record { at = λ w h. there w.state h.0 (h.1 ∙ e) })
            (λ e. Meets-weaken {P = P} {P' = Asked loaded} (λ st h. h.0) load-Meets)

  pub embed_batch-Meets :
      (texts : List String)
      → Meets P
          (embed_batch s config texts)
          (λ vectors st. Q st × (s.encode texts config.batch_size ≡ returned vectors))
          (Raises I)
  unfolding embed_batch
  embed_batch-Meets texts = Meets-bind model-Meets λ _. external-Meets _ after

with_model_same : (st : State) → st.model_loaded ≡ true → st ≡ with_model st
with_model_same st e = λ i. record st { model_loaded = e i }

-- Whichever of its calls fail: a batch that returns answers with what the model says of the texts,
-- and the model is loaded from then on; a batch changes nothing else, and raises nothing but an
-- exception of the library, after which the model is loaded or was not there before.
pub embed_batch-loads :
    (s : Services) (config : Config) (texts : List String) (w : World)
    → Post
        (λ vectors st.
          (st ≡ with_model w.state) × (s.encode texts config.batch_size ≡ returned vectors))
        (Raises (λ st. (st ≡ with_model w.state) ⊎ (st ≡ w.state) × (w.model_loaded ≡ false)))
        (embed_batch s config texts w)
embed_batch-loads s config texts w =
    (embed_batch-Meets s config {P = λ st. st ≡ w.state} {Q = λ st. st ≡ with_model w.state} known
        (λ st h. inl h)
        (λ st h e. h ∙ with_model_same w.state (sym (ap (λ (x : State). x.model_loaded) h) ∙ e))
        (λ st h. ap with_model h) texts).at
      w refl
  where
    known :
        (st : State)
        → st ≡ w.state
        → (st ≡ with_model w.state) ⊎ (st ≡ w.state) × (w.model_loaded ≡ false)
    known st h = elim (Bool-cases w.model_loaded) [
      | inl e ↦ inl (h ∙ with_model_same w.state e)
      | inr e ↦ inr (h, e)
    ]
