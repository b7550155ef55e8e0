-- ===== src/Kafka/Consumer.antt =====
-- internal/platform/kafka/consumer.go: a consumer whose offsets advance only over settled records.
-- `S` is the state of all that the code calls: the handler, the broker, the clock, the context. A
-- negative `MaxAttempts` or `BaseBackoff` of a config is a 0 here: both are replaced.
pub mod Backoff
pub mod Attempts
pub mod Batches
pub mod DeadLetters
pub mod Keeping
pub mod Settling
use Prim.Native.Nat.{◌%◌}
use Prim.Native.String.{◌++◌ as concat}
use sagaflow.Base.{
  ℕ, zero, suc, ◌+◌, ◌-◌, ◌*◌, ◌^◌, String, ◌≡◌, refl, Bool, true, false, ◌&&◌, ◌||◌, Option, none,
  some, List, [], ◌∷◌, ◌++◌, ◌==◌, if◌then◌else◌, leb, nat_eq, any, ℤ, int64, clamped,
}
use sagaflow.Errors.{Error, Result, ok, err, wrap, message, permanent, errors_is}
use sagaflow.Envelope.Headers.{HeaderMap, put, put_all}
use sagaflow.Envelope.{Message}
use sagaflow.Kafka.Wire.{KgoRecord, Record, MapWalk, ProduceSync, to_record, publish}

-- Durations are in nanoseconds.
abbrev pub millisecond : ℕ
millisecond = 1_000_000

abbrev pub rebalance_timeout : ℕ
rebalance_timeout = 60_000 * millisecond

abbrev pub default_max_attempts : ℕ
default_max_attempts = 5

abbrev pub default_base_backoff : ℕ
default_base_backoff = 100 * millisecond

-- What the consumer calls.
pub record Runtime (S : Type 0) : Type 0 where
  pub handler : Record → S → Result (Unit {0}) × S
  pub produce_sync : ProduceSync S
  pub map_walk : MapWalk
  -- ctx.Err() != nil
  pub cancelled : S → Bool
  -- rand.Int64N, at a positive bound
  pub random : ℕ → S → ℕ × S
  -- The `select` of `attempt`: `true` if the context is done before the time is over.
  pub interrupted : ℕ → S → Bool × S
  -- error.Error(), strconv.Itoa and strconv.FormatInt
  pub error_text : Error → String
  pub itoa : ℕ → String

pub record ConsumerConfig : Type 0 where
  pub has_handler : Bool
  pub group : String
  pub has_dlq : Bool
  pub max_attempts : ℕ
  pub base_backoff : ℕ

abbrev or_default : ℕ → ℕ → ℕ
or_default zero d = d
or_default (suc n) d = suc n

-- `NewConsumer`, up to the client that it makes.
unfoldable pub new_consumer : ConsumerConfig → Result ConsumerConfig
new_consumer cfg =
    if cfg.has_handler
    then if cfg.group == ""
      then err (message "kafka: consumer needs a group")
      else ok (record cfg {
        max_attempts = or_default cfg.max_attempts default_max_attempts;
        base_backoff = or_default cfg.base_backoff default_base_backoff;
      })
    else err (message "kafka: consumer needs a handler")

-- `base << (attempt - 1)` as an int64, by its bit pattern.
abbrev pub shifted : ℕ → ℕ → ℕ
shifted base attempt = base * 2 ^ (attempt - 1) % 2 ^ 64

-- What one record's handling comes to. `rand.Int64N` panics at a bound that is not positive.
pub data Attempt : Type 0 where
  done : Attempt
  failed : Error → Attempt
  panicked : Attempt

pub data Verdict : Type 0 where
  marked unsettled crashed : Verdict

-- The client: the records given to `MarkCommitRecords`, in order, and whether a poll blocks the
-- group's rebalances.
pub record Client (S : Type 0) : Type 0 where
  pub world : S
  pub marks : List KgoRecord
  pub rebalance_blocked : Bool

-- The records of a partition: the key of the map `stalled`.
abbrev pub same_partition : KgoRecord → KgoRecord → Bool
same_partition a b = a.topic == b.topic && nat_eq a.partition b.partition

-- What one `PollRecords` brings: whether the client is closed, the records, and what changed in the
-- world while it waited.
pub record Fetch (S : Type 0) : Type 0 where
  pub closed : Bool
  pub records : List KgoRecord
  pub meanwhile : S → S

module _ {S : Type 0} (rt : Runtime S) where
  open rt use {map_walk, random, error_text, itoa}

  -- `none` is the panic. The sum is an int64, and negative where it passes 2^63.
  unfoldable pub backoff : ℕ → ℕ → S → Option ℤ × S
  backoff base attempt s =
      let d = shifted base attempt in
      if nat_eq d 0 || leb (2 ^ 63) d
      then (none, s)
      else let (r, s') = random d s in (some (int64 ((r + d) % 2 ^ 64)), s')

  unfoldable pub dead_letter_message : Record → Error → Message
  dead_letter_message r cause = record {
    topic = concat r.topic ".dlq";
    key = r.key;
    payload = r.value;
    headers = put "sagaflow_dlq_error" (error_text cause) (
        put "sagaflow_dlq_offset" (itoa r.offset) (
          put "sagaflow_dlq_partition" (itoa r.partition)
            (put "sagaflow_dlq_topic" r.topic (put_all (map_walk.walk r.headers) []))));
  }

module _ {S : Type 0} (rt : Runtime S) (cfg : ConsumerConfig) where
  open rt use {handler, produce_sync, map_walk, cancelled, interrupted}

  -- The wait between two tries: what is left of the loop is `again`. `time.After` fires at once where
  -- the wait is negative.
  unfoldable pub pause : ℕ → Error → (S → Attempt × S) → S → Attempt × S
  unfolding backoff
  pause n e again s =
      let (wait, s₁) = backoff rt cfg.base_backoff n s in
      elim wait [
        | none ↦ (panicked, s₁)
        | some w ↦
            let (stop, s₂) = interrupted (clamped w) s₁ in
            elim stop [ true ↦ (failed e, s₂) | false ↦ again s₂ ]
      ]

  -- The loop of `attempt` at its n-th try, with `left` tries after it.
  unfoldable pub attempt_from : ℕ → ℕ → Record → S → Attempt × S
  attempt_from zero n r s =
      let (result, s') = handler r s in elim result [ ok u ↦ (done, s') | err e ↦ (failed e, s') ]
  attempt_from (suc left) n r s =
      let (result, s') = handler r s in
      let again = λ (t : S). attempt_from left (suc n) r t in
      elim result [
        | ok u ↦ (done, s')
        | err e ↦
            if errors_is e permanent || leb cfg.max_attempts n
            then (failed e, s')
            else pause n e again s'
      ]

  unfoldable pub attempt : Record → S → Attempt × S
  attempt r s = attempt_from (cfg.max_attempts - 1) 1 r s

  unfoldable pub dead_letter : Record → Error → S → Result (Unit {0}) × S
  unfolding dead_letter_message publish
  dead_letter r cause s =
      if cfg.has_dlq
      then publish produce_sync map_walk (dead_letter_message rt r cause ∷ []) s
      else (err (wrap "kafka: no DLQ configured, cannot settle" cause), s)

  abbrev mark : KgoRecord → Client S → S → Client S
  mark kr c s = record c { world = s; marks = c.marks ++ kr ∷ [] }

  -- The second half of `handle`, after a failed attempt.
  unfoldable pub settle_failure : KgoRecord → Error → Client S → S → Verdict × Client S
  settle_failure kr e c s =
      if cancelled s
      then (unsettled, record c { world = s })
      else let (published, s') = dead_letter (to_record kr) e s in
        elim published [
          | ok u ↦ (marked, mark kr c s')
          | err x ↦ (unsettled, record c { world = s' })
        ]

  -- What `handle` does with the outcome of its attempt.
  unfoldable pub conclude : KgoRecord → Client S → Attempt → S → Verdict × Client S
  conclude kr c done s = (marked, mark kr c s)
  conclude kr c (failed e) s = settle_failure kr e c s
  conclude kr c panicked s = (crashed, record c { world = s })

  unfoldable pub handle : KgoRecord → Client S → Verdict × Client S
  unfolding conclude
  handle kr c = let (outcome, s) = attempt (to_record kr) c.world in conclude kr c outcome s

  -- `handleBatch`: `stalled` holds a record of each stalled partition. The flag says that the process
  -- panicked.
  unfoldable pub batch_from : List KgoRecord → List KgoRecord → Client S → Bool × Client S
  batch_from stalled [] c = (false, c)
  batch_from stalled (kr ∷ rest) c = elim (any (same_partition kr) stalled) [
    | true ↦ batch_from stalled rest c
    | false ↦
        let (verdict, c') = handle kr c in
        elim verdict [
          | marked ↦ batch_from stalled rest c'
          | unsettled ↦ batch_from (kr ∷ stalled) rest c'
          | crashed ↦ (true, c')
        ]
  ]

  unfoldable pub handle_batch : List KgoRecord → Client S → Bool × Client S
  handle_batch records c = batch_from [] records c

  abbrev allow_rebalance : Bool × Client S → Bool × Client S
  allow_rebalance (b, c) = (b, record c { rebalance_blocked = false })

  unfoldable pub poll : Fetch S → Client S → Bool × Client S
  unfolding handle_batch
  poll f c =
      let polled = record c { world = f.meanwhile c.world; rebalance_blocked = true } in
      allow_rebalance (
        if f.closed || cancelled polled.world
        then (true, polled)
        else handle_batch f.records polled)

  -- `Run` over the polls that happen; a panic ends it as well as a poll that says it is done.
  unfoldable pub run : List (Fetch S) → Client S → Client S
  run [] c = c
  run (f ∷ fetches) c =
      let (stop, c') = poll f c in elim stop [ true ↦ c' | false ↦ run fetches c' ]
