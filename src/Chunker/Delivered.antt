-- ===== src/Chunker/Delivered.antt =====
-- `handle` of workers/chunker/internal/worker/worker.go where every call works and the document has
-- a text.
use digital_cip.Prelude.{ℕ, suc, ◌-◌}
use digital_cip.World.{State}
use digital_cip.Consumer.Effects
use digital_cip.Consumer.Effects.{on_channel, on_metrics, acked_also, processed, observed, ended}
use digital_cip.Chunker.Config.{Config}
use digital_cip.Chunker.Envelope.{Envelope}

-- when `process` begins
abbrev pub began : State → State
began st = record st { metrics = Effects.started st.metrics; clock = suc st.clock }

-- after the ack; `since` is when the message came
abbrev pub closed : ℕ → ℕ → State → State
closed since tag st =
    on_metrics (λ m. ended (observed (st.clock - since) (processed m)))
      (on_channel (acked_also tag) (record st { clock = suc st.clock }))
