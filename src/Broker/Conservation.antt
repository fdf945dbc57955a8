-- ===== src/Broker/Conservation.antt =====
-- How many messages a stage's queues hold, before and after a turn of its worker.
use digital_cip.Prelude.{
  ◌≡◌, refl, ap, ℕ, suc, ◌+◌, ◌≤◌, true, Bool-cases, inl, inr, String, ◌==◌, eq_iff, ◌&&◌, List, [],
  ◌∷◌, ◌++◌, length, length-append, arith,
}
use digital_cip.World.{Publication}
use digital_cip.Broker.{Message, Store, Binding, bindings, put, put_all, deliver_to, publish}
use digital_cip.Broker.Stages.{Stage, ocr, chunk, embed, main_queue, retry_queue, dead_queue}
use digital_cip.Broker.Turn.{message_of, publish_each, put_back}

-- how many messages a stage's queues hold
abbrev pub held : Stage → Store → ℕ
held s store =
    length (store (main_queue s)) + length (store (retry_queue s)) + length (store (dead_queue s))

-- Every queue holds at least as many messages.
abbrev pub Grows : Store → Store → Type 0
Grows a b = (queue : String) → length (a queue) ≤ length (b queue)

put-Grows : (queue : String) (m : Message) (store : Store) → Grows store (put queue m store)
put-Grows queue m store name = elim (Bool-cases (queue == name)) [
  | inl e ↦ rw (e, ← eq_iff_true queue name e, length-append) (omega arith)
  | inr e ↦ rw e (omega arith)
]
  where
    eq_iff_true : (a b : String) → (a == b) ≡ true → a ≡ b
    eq_iff_true a b h = (eq_iff a b).0 h

deliver_to-Grows :
    (bs : List Binding) (exchange key : String) (m : Message) (store : Store)
    → Grows store (deliver_to bs exchange key m store)
unfolding deliver_to
deliver_to-Grows [] exchange key m store name = omega arith
deliver_to-Grows (b ∷ bs) exchange key m store name =
    elim (Bool-cases (b.source == exchange && b.routing_key == key)) [
      | inl e ↦ rw e (
          omega (
            arith,
            put-Grows b.destination m store name,
            deliver_to-Grows bs exchange key m (put b.destination m store) name,
          ))
      | inr e ↦ rw e (deliver_to-Grows bs exchange key m store name)
    ]

publish-Grows :
    (exchange key : String) (m : Message) (store : Store)
    → Grows store (publish exchange key m store)
unfolding publish
publish-Grows exchange key m store = deliver_to-Grows bindings exchange key m store

pub publish_each-Grows :
    (ps : List Publication) (store : Store) → Grows store (publish_each ps store)
publish_each-Grows [] store name = omega arith
publish_each-Grows (p ∷ ps) store name = omega (
  arith,
  publish-Grows p.exchange p.routing_key (message_of p) store name,
  publish_each-Grows ps (publish p.exchange p.routing_key (message_of p) store) name,
)

pub publish_each-append :
    (ps : List Publication) (p : Publication) (store : Store)
    → publish_each (ps ++ (p ∷ [])) store
      ≡ publish p.exchange p.routing_key (message_of p) (publish_each ps store)
publish_each-append [] p store = refl
publish_each-append (q ∷ ps) p store = publish_each-append ps p _

pub held-Grows : (s : Stage) (a b : Store) → Grows a b → held s a ≤ held s b
held-Grows s a b h = omega (arith, h (main_queue s), h (retry_queue s), h (dead_queue s))

module _ (m : Message) (store : Store) where
  pub held-put_retry : (s : Stage) → held s (put (retry_queue s) m store) ≡ suc (held s store)
  held-put_retry ocr = omega (arith, length-append (store "ingest.ocr.retry") (m ∷ []))
  held-put_retry chunk = omega (arith, length-append (store "ingest.chunk.retry") (m ∷ []))
  held-put_retry embed = omega (arith, length-append (store "ingest.embed.retry") (m ∷ []))

  pub held-put_dead : (s : Stage) → held s (put (dead_queue s) m store) ≡ suc (held s store)
  held-put_dead ocr = omega (arith, length-append (store "ingest.ocr.dlq") (m ∷ []))
  held-put_dead chunk = omega (arith, length-append (store "ingest.chunk.dlq") (m ∷ []))
  held-put_dead embed = omega (arith, length-append (store "ingest.embed.dlq") (m ∷ []))

  pub held-put_back : (s : Stage) → held s (put_back (main_queue s) m store) ≡ suc (held s store)
  held-put_back ocr = omega arith
  held-put_back chunk = omega arith
  held-put_back embed = omega arith

  -- what is left when the oldest message is taken
  pub held-taken :
      (s : Stage) (ms : List Message)
      → store (main_queue s) ≡ m ∷ ms
      → held s store ≡ suc (held s (put_all (main_queue s) ms store))
  held-taken ocr ms e = omega (arith, ap length e)
  held-taken chunk ms e = omega (arith, ap length e)
  held-taken embed ms e = omega (arith, ap length e)
