-- ===== src/Kafka/Consumer/Settling.antt =====
-- internal/platform/kafka/consumer.go: which records are marked, and why the others are not.
use sagaflow.Base.{ℕ, ◌≤◌, ◌^◌, ◌≡◌, true, false, List, [], ◌∷◌, ◌++◌, ◌⊎◌}
use sagaflow.Errors.{Error, Result, ok, err}
use sagaflow.Kafka.Wire.{KgoRecord, Record, wire_record, to_record}
use sagaflow.Kafka.Consumer.{
  Runtime, ConsumerConfig, Attempt, done, failed, panicked, Client, shifted, dead_letter_message,
}

module _ {S : Type 0} (rt : Runtime S) (cfg : ConsumerConfig) where
  -- The wait before some try has no bound that rand.Int64N takes.
  abbrev pub Panics : Type 0
  Panics = (n : ℕ) × ((shifted cfg.base_backoff n ≡ 0) ⊎ (2 ^ 63 ≤ shifted cfg.base_backoff n))

  -- What the handler returned last, and the state that is left.
  abbrev Tried : Record → Attempt → S → Type 0
  Tried r done t = (s : S) × (rt.handler r s ≡ (ok tt, t))
  Tried r (failed e) t = (s : S) × ((rt.handler r s).0 ≡ err e)
  Tried r panicked t = Panics

  -- The record's dead letter for this error, as the broker is given it.
  abbrev pub buried : KgoRecord → Error → List KgoRecord
  buried kr e = wire_record rt.map_walk (dead_letter_message rt (to_record kr) e) ∷ []

  -- A try of the handler that failed so.
  abbrev pub Failing : KgoRecord → Error → Type 0
  Failing kr e = (s : S) × ((rt.handler (to_record kr) s).0 ≡ err e)

  -- Why a record is settled: the handler took it, or the broker took its dead letter while the context
  -- was not done; `t` is the state just after that.
  abbrev pub Settled : KgoRecord → S → Type 0
  Settled kr t =
      ((s : S) × (rt.handler (to_record kr) s ≡ (ok tt, t)))
      ⊎ ((e : Error) × Failing kr e
          × (s : S) × (rt.cancelled s ≡ false)
          × (cfg.has_dlq ≡ true)
          × (rt.produce_sync (buried kr e) s ≡ (ok tt, t)))

  -- Why it is not: the handler failed, and the context was done, or there is no dead-letter topic, or the
  -- broker did not take the dead letter; or the wait for the next try panicked.
  abbrev pub Left : KgoRecord → S → Type 0
  Left kr t =
      ((e : Error) × Failing kr e
        × ((rt.cancelled t ≡ true)
            ⊎ (cfg.has_dlq ≡ false)
            ⊎ ((x : Error) × (s : S) × (rt.produce_sync (buried kr e) s ≡ (err x, t)))))
      ⊎ Panics

  abbrev Outcome : KgoRecord → Client S → Client S → Type 0
  Outcome kr c c' =
      ((c'.marks ≡ c.marks ++ kr ∷ []) × Settled kr c'.world)
      ⊎ ((c'.marks ≡ c.marks) × Left kr c'.world)

  -- What comes of the dead letter.
  abbrev Buried : KgoRecord → Error → S → Result (Unit {0}) → S → Type 0
  Buried kr e s (ok u) t = (cfg.has_dlq ≡ true) × (rt.produce_sync (buried kr e) s ≡ (ok tt, t))
  Buried kr e s (err x) t =
      (cfg.has_dlq ≡ false)
      ⊎ ((y : Error) × (s' : S) × (rt.produce_sync (buried kr e) s' ≡ (err y, t)))
