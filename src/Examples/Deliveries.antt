-- ===== src/Examples/Deliveries.antt =====
-- The theorems on the consumer and on the outbox, at concrete inputs.
use sagaflow.Base.{
  pos, String, ◌⊎◌, true, ℕ, ◌+◌, ◌*◌, ◌≤◌, ◌<◌, ◌≡◌, refl, some, List, [], ◌∷◌, ◌++◌, arith,
}
use Prim.Native.String.{◌++◌ as concat}
use sagaflow.Errors.{message, errors_is}
use sagaflow.Envelope.{parse}
use sagaflow.Envelope.Headers.{has, get}
use sagaflow.Kafka.Wire.{KgoRecord, to_record}
use sagaflow.Kafka.Consumer.{
  unsettled, marked, shifted, backoff, dead_letter_message, attempt, attempt_from, settle_failure,
  dead_letter, handle, handle_batch, millisecond, rebalance_timeout,
}
use sagaflow.Kafka.Consumer.Backoff.{IsRandom, backoff_bounds, attempt-within_rebalance}
use sagaflow.Kafka.Consumer.Batches.{of_partition, handle_batch-marks, batch_passes_unsettled}
use sagaflow.Kafka.Consumer.DeadLetters.{is_added, dead_letter-replayable}
use sagaflow.Outbox.Poller.{drain}
use sagaflow.Outbox.Poller.Delivery.{reported}
use sagaflow.Outbox.Poller.Draining.{Published, drain-Published}
use sagaflow.Examples.World.{
  Trace, runtime, config, new_trace, client, record_at, header_json, environment, connection,
}

runtime-IsRandom : IsRandom runtime
runtime-IsRandom d s h = h

backoff_bounds_example :
    (w : ℕ) × ((backoff runtime 100 2 new_trace).0 ≡ some (pos w))
    × (shifted 100 2 ≤ w)
    × (w < 2 * shifted 100 2)
backoff_bounds_example =
    backoff_bounds runtime runtime-IsRandom 100 2 new_trace (omega arith) (omega arith)

attempt-within_rebalance_example :
    ((attempt runtime config (to_record (record_at 1)) new_trace).1.waited
      ≤ 0 + 3_000 * millisecond)
    × (3_000 * millisecond < rebalance_timeout)
attempt-within_rebalance_example =
    attempt-within_rebalance runtime config runtime-IsRandom (λ (t : Trace). t.waited) (λ r s. refl)
      (λ d s. refl) (λ w s. omega arith) (to_record (record_at 1)) new_trace refl refl

abbrev batch : List KgoRecord
batch = record_at 2 ∷ record_at 0 ∷ record_at 3 ∷ []

handle_batch-marks_example :
    (new : List KgoRecord) × ((handle_batch runtime config batch client).1.marks ≡ new)
    × ((p : KgoRecord)
        → (rest : List KgoRecord) × (of_partition p batch ≡ of_partition p new ++ rest))
handle_batch-marks_example = handle_batch-marks runtime config batch client

left_unsettled : (handle runtime config (record_at 0) client).0 ≡ unsettled
unfolding handle attempt attempt_from to_record errors_is settle_failure dead_letter
left_unsettled = refl

then_marked :
    (handle runtime config
      (record_at 3)
      (handle_batch runtime config (record_at 0 ∷ []) client).1).0
    ≡ marked
unfolding handle handle_batch attempt attempt_from to_record
then_marked = refl

batch_passes_unsettled_example :
    let c₁ = (handle_batch runtime config (record_at 0 ∷ []) client).1 in
    let c₂ = (handle_batch runtime config (record_at 3 ∷ []) c₁).1 in
    (c₁.marks ≡ [])
    × (of_partition (record_at 0) c₂.marks ≡ of_partition (record_at 0) [] ++ record_at 3 ∷ [])
batch_passes_unsettled_example =
    batch_passes_unsettled runtime config (record_at 0) (record_at 3) client refl left_unsettled
      then_marked

dead_letter-replayable_example :
    let r = to_record (record_at 1) in
    let m = dead_letter_message runtime r (message "busy") in
    (m.topic ≡ concat r.topic ".dlq")
    × (m.key ≡ "A1")
    × (m.payload ≡ 7 ∷ [])
    × (get m.headers "sagaflow_dlq_topic" ≡ "inventory.commands")
    × (get m.headers "sagaflow_dlq_partition" ≡ "0")
    × (get m.headers "sagaflow_dlq_offset" ≡ "0")
    × (get m.headers "sagaflow_dlq_error" ≡ "error")
    × ((k : String)
        → (is_added k ≡ true)
          ⊎ ((get m.headers k ≡ get r.headers k) × (has m.headers k ≡ has r.headers k)))
    × (parse m.headers ≡ parse r.headers)
dead_letter-replayable_example = dead_letter-replayable runtime (record_at 1) (message "busy")

drain-Published_example :
    let p = drain header_json environment connection in
    ((p.1.log ≡ []) × (reported p.0 ≡ 0)) ⊎ Published header_json environment connection p
drain-Published_example = drain-Published header_json environment connection
