-- ===== src/Consumer.antt =====
-- consumer.py and metrics.py, which the OCR worker and the embedder share but for what `on_message`
-- does between `json.loads` and the ack: the argument `deliver`. Log lines are left out: they change
-- nothing that the worker reads.
pub mod Effects
pub mod OnMessage
pub mod Gauge
pub mod Tally
pub mod Connect
pub mod Run
pub mod Steadiness
pub mod Metrics
pub mod Main
pub mod Transient
pub mod Poison
pub mod Verdict
pub mod Settlement
