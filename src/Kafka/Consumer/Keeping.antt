-- ===== src/Kafka/Consumer/Keeping.antt =====
-- internal/platform/kafka/consumer.go: what every call of the code keeps, the consumer keeps.
use sagaflow.Base.{
  ℕ, zero, suc, ◌-◌, ◌^◌, Bool, true, false, ◌||◌, List, [], ◌∷◌, ◌++◌, All, if◌then◌else◌, any,
  map, nat_eq, leb, Bool-cases, ℤ, clamped, inl, inr, Option, none, some,
}
use sagaflow.Errors.{Error, Result, ok, err, permanent, errors_is}
use sagaflow.Envelope.{Message}
use sagaflow.Kafka.Wire.{KgoRecord, Record, wire_record, to_record, wrap_publish, publish}
use sagaflow.Kafka.Consumer.{
  Runtime, ConsumerConfig, Attempt, done, failed, panicked, Verdict, marked, unsettled, crashed,
  Client, Fetch, shifted, same_partition, backoff, dead_letter_message, pause, attempt_from,
  attempt, dead_letter, settle_failure, conclude, handle, batch_from, handle_batch, poll, run,
}

-- The calls of the code keep `I`.
pub record Keeps {S : Type 0} (I : S → Type 0) (rt : Runtime S) : Type 0 where
  pub by_handler : (r : Record) (s : S) → I s → I (rt.handler r s).1
  pub by_produce_sync : (rs : List KgoRecord) (s : S) → I s → I (rt.produce_sync rs s).1
  pub by_random : (n : ℕ) (s : S) → I s → I (rt.random n s).1
  pub by_interrupted : (n : ℕ) (s : S) → I s → I (rt.interrupted n s).1

module _ {S : Type 0} (I : S → Type 0) (rt : Runtime S) (cfg : ConsumerConfig)
    (k : Keeps I rt) where
  backoff-keeps : (base n : ℕ) (s : S) → I s → I (backoff rt base n s).1
  unfolding backoff
  backoff-keeps base n s h =
      elim (Bool-cases (nat_eq (shifted base n) 0 || leb (2 ^ 63) (shifted base n))) [
        | inl bad ↦ rw bad h
        | inr good ↦ rw good (k.by_random (shifted base n) s h)
      ]

  pause-keeps :
      (n : ℕ) (e : Error) (again : S → Attempt × S) (s : S)
      → ((t : S) → I t → I (again t).1)
      → I s
      → I (pause rt cfg n e again s).1
  unfolding pause
  pause-keeps n e again s more h =
      by_wait (backoff rt cfg.base_backoff n s).0 (backoff rt cfg.base_backoff n s).1
        (backoff-keeps cfg.base_backoff n s h)
    where
      by_stop :
          (stop : Bool) (t : S)
          → I t
          → I (elim stop as (λ b. Attempt × S) [ true ↦ (failed e, t) | false ↦ again t ]).1
      by_stop true t i = i
      by_stop false t i = more t i

      by_wait :
          (wait : Option ℤ) (t : S)
          → I t
          → I
              (elim wait as (λ o. Attempt × S) [
                | none ↦ (panicked, t)
                | some w ↦
                    let (stop, u) = rt.interrupted (clamped w) t in
                    elim stop [ true ↦ (failed e, u) | false ↦ again u ]
              ]).1
      by_wait none t i = i
      by_wait (some w) t i =
          by_stop (rt.interrupted (clamped w) t).0 (rt.interrupted (clamped w) t).1
            (k.by_interrupted (clamped w) t i)

  attempt_from-keeps :
      (left n : ℕ) (r : Record) (s : S) → I s → I (attempt_from rt cfg left n r s).1
  unfolding attempt_from
  attempt_from-keeps zero n r s h =
      by_result (rt.handler r s).0 (rt.handler r s).1 (k.by_handler r s h)
    where
      by_result :
          (result : Result (Unit {0})) (t : S)
          → I t
          → I (elim result as (λ x. Attempt × S) [ ok u ↦ (done, t) | err e ↦ (failed e, t) ]).1
      by_result (ok u) t i = i
      by_result (err e) t i = i
  attempt_from-keeps (suc left) n r s h =
      by_result (rt.handler r s).0 (rt.handler r s).1 (k.by_handler r s h)
        (λ t i. attempt_from-keeps left (suc n) r t i)
    where
      again : S → Attempt × S
      again t = attempt_from rt cfg left (suc n) r t

      by_last :
          (b : Bool) (e : Error) (t : S)
          → I t
          → ((u : S) → I u → I (again u).1)
          → I (if b then (failed e, t) else pause rt cfg n e again t).1
      by_last true e t i more = i
      by_last false e t i more = pause-keeps n e again t more i

      by_result :
          (result : Result (Unit {0})) (t : S)
          → I t
          → ((u : S) → I u → I (again u).1)
          → I
              (elim result as (λ x. Attempt × S) [
                | ok u ↦ (done, t)
                | err e ↦
                    if errors_is e permanent || leb cfg.max_attempts n
                    then (failed e, t)
                    else pause rt cfg n e again t
              ]).1
      by_result (ok u) t i more = i
      by_result (err e) t i more =
          by_last (errors_is e permanent || leb cfg.max_attempts n) e t i more

  publish-keeps :
      (msgs : List Message) (s : S) → I s → I (publish rt.produce_sync rt.map_walk msgs s).1
  unfolding publish
  publish-keeps [] s h = h
  publish-keeps (m ∷ msgs) s h = by_result (rt.produce_sync rs s) (k.by_produce_sync rs s h)
    where
      rs : List KgoRecord
      rs = map (wire_record rt.map_walk) (m ∷ msgs)

      by_result : (p : Result (Unit {0}) × S) → I p.1 → I (wrap_publish p).1
      by_result (ok u, t) i = i
      by_result (err e, t) i = i

  dead_letter-keeps : (r : Record) (e : Error) (s : S) → I s → I (dead_letter rt cfg r e s).1
  unfolding dead_letter
  dead_letter-keeps r e s h = elim (Bool-cases cfg.has_dlq) [
    | inl configured ↦ rw configured (publish-keeps (dead_letter_message rt r e ∷ []) s h)
    | inr missing ↦ rw missing h
  ]

  settle_failure-keeps :
      (kr : KgoRecord) (e : Error) (c : Client S) (s : S)
      → I s
      → I (settle_failure rt cfg kr e c s).1.world
  unfolding settle_failure
  settle_failure-keeps kr e c s h = by_cancelled (rt.cancelled s)
    where
      p : Result (Unit {0}) × S
      p = dead_letter rt cfg (to_record kr) e s

      by_published :
          (published : Result (Unit {0})) (t : S)
          → I t
          → I
              (elim published as (λ x. Verdict × Client S) [
                | ok u ↦ (marked, record c { world = t; marks = c.marks ++ kr ∷ [] })
                | err x ↦ (unsettled, record c { world = t })
              ]).1.world
      by_published (ok u) t i = i
      by_published (err x) t i = i

      by_cancelled :
          (b : Bool)
          → I
              (if b
                then (unsettled, record c { world = s })
                else elim p.0 as (λ x. Verdict × Client S) [
                  | ok u ↦ (marked, record c { world = p.1; marks = c.marks ++ kr ∷ [] })
                  | err x ↦ (unsettled, record c { world = p.1 })
                ]).1.world
      by_cancelled true = h
      by_cancelled false = by_published p.0 p.1 (dead_letter-keeps (to_record kr) e s h)

  handle-keeps : (kr : KgoRecord) (c : Client S) → I c.world → I (handle rt cfg kr c).1.world
  unfolding handle attempt conclude
  handle-keeps kr c h =
      by_outcome p.0 p.1 (attempt_from-keeps (cfg.max_attempts - 1) 1 (to_record kr) c.world h)
    where
      p : Attempt × S
      p = attempt_from rt cfg (cfg.max_attempts - 1) 1 (to_record kr) c.world

      by_outcome : (a : Attempt) (t : S) → I t → I (conclude rt cfg kr c a t).1.world
      by_outcome done t i = i
      by_outcome (failed e) t i = settle_failure-keeps kr e c t i
      by_outcome panicked t i = i

  batch_from-keeps :
      (stalled records : List KgoRecord) (c : Client S)
      → I c.world
      → I (batch_from rt cfg stalled records c).1.world
  unfolding batch_from
  batch_from-keeps stalled [] c h = h
  batch_from-keeps stalled (kr ∷ rest) c h =
      by_stalled (any (same_partition kr) stalled)
        (λ others c' i. batch_from-keeps others rest c' i)
    where
      Rest : Type 0
      Rest =
          (others : List KgoRecord) (c' : Client S)
          → I c'.world
          → I (batch_from rt cfg others rest c').1.world

      by_verdict :
          (v : Verdict) (c' : Client S)
          → I c'.world
          → Rest
          → I
              (elim v as (λ x. Bool × Client S) [
                | marked ↦ batch_from rt cfg stalled rest c'
                | unsettled ↦ batch_from rt cfg (kr ∷ stalled) rest c'
                | crashed ↦ (true, c')
              ]).1.world
      by_verdict marked c' i more = more stalled c' i
      by_verdict unsettled c' i more = more (kr ∷ stalled) c' i
      by_verdict crashed c' i more = i

      by_stalled :
          (b : Bool)
          → Rest
          → I
              (elim b as (λ x. Bool × Client S) [
                | true ↦ batch_from rt cfg stalled rest c
                | false ↦
                    let (verdict, c') = handle rt cfg kr c in
                    elim verdict [
                      | marked ↦ batch_from rt cfg stalled rest c'
                      | unsettled ↦ batch_from rt cfg (kr ∷ stalled) rest c'
                      | crashed ↦ (true, c')
                    ]
              ]).1.world
      by_stalled true more = more stalled c h
      by_stalled false more =
          by_verdict (handle rt cfg kr c).0 (handle rt cfg kr c).1 (handle-keeps kr c h) more

  -- What comes in with a fetch keeps `I`.
  abbrev pub Meanwhile : Fetch S → Type 0
  Meanwhile f = (s : S) → I s → I (f.meanwhile s)

  poll-keeps : (f : Fetch S) (c : Client S) → Meanwhile f → I c.world → I (poll rt cfg f c).1.world
  unfolding poll handle_batch
  poll-keeps f c m h = by_end (f.closed || rt.cancelled polled.world)
    where
      polled : Client S
      polled = record c { world = f.meanwhile c.world; rebalance_blocked = true }

      by_end :
          (b : Bool)
          → I (if b then (true, polled) else batch_from rt cfg [] f.records polled).1.world
      by_end true = m c.world h
      by_end false = batch_from-keeps [] f.records polled (m c.world h)

  pub run-keeps :
      (fetches : List (Fetch S)) (c : Client S)
      → All Meanwhile fetches
      → I c.world
      → I (run rt cfg fetches c).world
  unfolding run
  run-keeps [] c m h = h
  run-keeps (f ∷ fetches) c m h =
      by_stop (poll rt cfg f c).0 (poll rt cfg f c).1 (poll-keeps f c m.0 h)
        (λ c' i. run-keeps fetches c' m.1 i)
    where
      by_stop :
          (stop : Bool) (c' : Client S)
          → I c'.world
          → ((d : Client S) → I d.world → I (run rt cfg fetches d).world)
          → I (elim stop as (λ x. Client S) [ true ↦ c' | false ↦ run rt cfg fetches c' ]).world
      by_stop true c' i more = i
      by_stop false c' i more = more c' i
