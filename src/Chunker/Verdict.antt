-- ===== src/Chunker/Verdict.antt =====
-- What becomes of a delivery in `handle` of workers/chunker/internal/worker/worker.go, by what
-- `process` came to.
use digital_cip.Prelude.{◌≡◌, refl, ℕ, suc, suc_ℤ, leb_ℤ, inl, inr, List, if◌then◌else◌, Bool-cases}
use digital_cip.Error.{permanent, transient, foreign, Result, ok, err, returned}
use digital_cip.World.{
  World, Channel, Publication, Fate, works, fails, lands, next_fate, later_fates,
}
use digital_cip.Exec.{settle, pure, recover}
use digital_cip.Consumer.Effects
use digital_cip.Consumer.Effects.{
  on_channel, published_also, acked_also, basic_publish, basic_ack, monotonic,
}
use digital_cip.Consumer.OnMessage.{Delivery}
use digital_cip.Chunker.Config.{Config}
use digital_cip.Chunker.Envelope.{Envelope, unmarshal}
use digital_cip.Chunker.Db.{ignore}
use digital_cip.Chunker.Handle.{Host, process, retry_message, dead_letter}
use digital_cip.Chunker.Worker
use digital_cip.Chunker.Worker.{defaulted, with_attempt, retry_or_bury, receive, handle}

-- What a call of the broker does to the channel, by its fate.
abbrev pub landed : Fate → (Channel → Channel) → Channel → Channel
landed works g c = g c
landed (fails f) g c = c
landed (lands f) g c = g c

abbrev on_broker : (Channel → Channel) → World → World
on_broker g w = record {
  state = record w.state { channel = landed (next_fate w.fates) g w.channel };
  fates = later_fates w.fates;
}

by_fate :
    (g : Channel → Channel) (w : World) (fate : Fate) (fates : List Fate)
    → recover
        (settle {A = Unit {0}} fate
          (ok tt, record { state = record w.state { channel = g w.channel }; fates = fates })
          (record w { fates = fates }))
        (λ e. pure tt)
      ≡ (
        ok tt,
        record { state = record w.state { channel = landed fate g w.channel }; fates = fates },
      )
by_fate g w works fates = refl
by_fate g w (fails f) fates = refl
by_fate g w (lands f) fates = refl

publish_lem :
    (p : Publication) (w : World)
    → ignore (basic_publish p) w ≡ (ok tt, on_broker (published_also p) w)
unfolding basic_publish
publish_lem p w = by_fate (published_also p) w (next_fate w.fates) (later_fates w.fates)

ack_lem : (tag : ℕ) (w : World) → ignore (basic_ack tag) w ≡ (ok tt, on_broker (acked_also tag) w)
unfolding basic_ack
ack_lem tag w = by_fate (acked_also tag) w (next_fate w.fates) (later_fates w.fates)

module _ (host : Host) (config : Config) where
  -- The copy that a message leaves when its attempts are used up, and before.
  abbrev pub copy_of : Envelope → Delivery → Publication
  copy_of env d =
      if leb_ℤ config.max_retries env.attempt
      then dead_letter host config env d
      else retry_message host config (with_attempt (suc_ℤ env.attempt) env)

  -- The channel after the `switch`: `w` is the world when `process` has come to its result.
  abbrev pub settled_channel : Envelope → Delivery → Result (Unit {0}) → World → Channel
  settled_channel env d (ok _) w = landed (next_fate w.fates) (acked_also d.tag) w.channel
  settled_channel env d (err (permanent m)) w =
      landed (next_fate w.fates) (acked_also d.tag) w.channel
  settled_channel env d (err e) w =
      landed (next_fate (later_fates w.fates)) (acked_also d.tag)
        (landed (next_fate w.fates) (published_also (copy_of env d)) w.channel)

  retry_or_bury-channel :
      (d : Delivery) (env : Envelope) (w : World)
      → ((retry_or_bury host config d env w).0 ≡ ok tt)
        × ((retry_or_bury host config d env w).1.channel
            ≡ landed
                (next_fate (later_fates w.fates))
                (acked_also d.tag)
                (landed (next_fate w.fates) (published_also (copy_of env d)) w.channel))
  unfolding retry_or_bury
  retry_or_bury-channel d env w = elim (Bool-cases (leb_ℤ config.max_retries env.attempt)) [
    | inl e ↦ rw (e, publish_lem, ack_lem) (refl, refl)
    | inr e ↦ rw (e, publish_lem, ack_lem) (refl, refl)
  ]

  settle-channel :
      (d : Delivery) (env : Envelope) (r : Result (Unit {0})) (w : World)
      → ((Worker.settle host config d env r w).0 ≡ ok tt)
        × ((Worker.settle host config d env r w).1.channel ≡ settled_channel env d r w)
  unfolding Worker.settle
  settle-channel d env (ok _) w = rw ack_lem (refl, refl)
  settle-channel d env (err (permanent m)) w = rw ack_lem (refl, refl)
  settle-channel d env (err (transient m)) w = retry_or_bury-channel d env w
  settle-channel d env (err (foreign f)) w = retry_or_bury-channel d env w

  -- the world in which `process` begins
  abbrev pub began : World → World
  began w = record w {
    state = record w.state { metrics = Effects.started w.metrics; clock = suc w.clock };
  }

  -- `handle` never fails on a message that it can decode, whichever calls of `process` and of the
  -- broker fail. If `process` returned no error, or a permanent one, the message is acked and
  -- nothing more is published. After any other error a copy goes to the retry exchange, or to the
  -- dead-letter exchange when the attempts are used up, and the message is acked whether or not
  -- the broker took the copy: if that call fails, no copy is left.
  pub handle-channel :
      (d : Delivery) (env : Envelope) (w : World)
      → unmarshal d.body ≡ returned env
      → let run = process host config (defaulted env) (began w) in
        ((handle host config d w).0 ≡ ok tt)
        × ((handle host config d w).1.channel ≡ settled_channel (defaulted env) d run.0 run.1)
  unfolding handle receive monotonic
  handle-channel d env w decoded =
      let run = process host config (defaulted env) (began w) in
      rw decoded (settle-channel d (defaulted env) run.0 run.1)
