-- ===== src/Kafka/Consumer/DeadLetters.antt =====
-- internal/platform/kafka/consumer.go: what a dead letter keeps of the record it is made of.
use Prim.Native.String.{◌++◌ as concat}
use sagaflow.Base.{
  String, ◌≡◌, refl, Bool, true, false, [], ◌==◌, ◌∙◌, ◌||◌, ◌⊎◌, inl, inr, Bool-cases, arith,
  if◌then◌else◌,
}
use sagaflow.Errors.{Error}
use sagaflow.Envelope.Headers.{
  HeaderMap, get, has, has-put, has-put_all, put_all, IsMap, get-put, get-put_all, get_if_has,
  put_all-IsMap,
}
use sagaflow.Envelope.{parse}
use sagaflow.Kafka.Wire.{KgoRecord, Record, to_record}
use sagaflow.Kafka.Consumer.{Runtime, dead_letter_message}

-- The keys that a dead letter adds.
abbrev pub is_added : String → Bool
is_added k =
    "sagaflow_dlq_error" == k
    || "sagaflow_dlq_offset" == k
    || "sagaflow_dlq_partition" == k
    || "sagaflow_dlq_topic" == k

or_false : (b : Bool) → (if b then true else false) ≡ b
or_false true = refl
or_false false = refl

module _ {S : Type 0} (rt : Runtime S) where
  copied :
      (h : HeaderMap) (k : String) → IsMap h → get (put_all (rt.map_walk.walk h) []) k ≡ get h k
  copied h k m =
      get-put_all (rt.map_walk.walk h) [] k (rt.map_walk.walk-IsMap h m)
      ∙ rw (rt.map_walk.has-walk h k m, rt.map_walk.get-walk h k m) (get_if_has h k)

  kept :
      (r : Record) (e : Error) (k : String)
      → IsMap r.headers
      → ("sagaflow_dlq_error" == k) ≡ false
      → ("sagaflow_dlq_offset" == k) ≡ false
      → ("sagaflow_dlq_partition" == k) ≡ false
      → ("sagaflow_dlq_topic" == k) ≡ false
      → get (dead_letter_message rt r e).headers k ≡ get r.headers k
  unfolding dead_letter_message
  kept r e k m a b c d = simp (get-put, a, b, c, d) (copied r.headers k m)

  parse-dead_letter :
      (r : Record) (e : Error)
      → IsMap r.headers
      → parse (dead_letter_message rt r e).headers ≡ parse r.headers
  unfolding parse
  parse-dead_letter r e m = rw (
    kept r e "ce_specversion" m refl refl refl refl,
    kept r e "ce_id" m refl refl refl refl,
    kept r e "ce_source" m refl refl refl refl,
    kept r e "ce_type" m refl refl refl refl,
    kept r e "ce_subject" m refl refl refl refl,
    kept r e "ce_correlationid" m refl refl refl refl,
    kept r e "ce_causationid" m refl refl refl refl,
    kept r e "traceparent" m refl refl refl refl,
  )

  held : (h : HeaderMap) (k : String) → IsMap h → has (put_all (rt.map_walk.walk h) []) k ≡ has h k
  unfolding has
  held h k m =
      has-put_all (rt.map_walk.walk h) [] k ∙ rw (rt.map_walk.has-walk h k m) (or_false (has h k))

  -- Every key but the four that are added reads as in the record.
  untouched :
      (r : Record) (e : Error) (k : String)
      → IsMap r.headers
      → (is_added k ≡ true)
        ⊎ ((get (dead_letter_message rt r e).headers k ≡ get r.headers k)
            × (has (dead_letter_message rt r e).headers k ≡ has r.headers k))
  unfolding dead_letter_message
  untouched r e k m = elim (Bool-cases (is_added k)) [
    | inl added ↦ inl added
    | inr other ↦
        let a : ("sagaflow_dlq_error" == k) ≡ false = ground (arith, other) in
        let b : ("sagaflow_dlq_offset" == k) ≡ false = ground (arith, other) in
        let c : ("sagaflow_dlq_partition" == k) ≡ false = ground (arith, other) in
        let d : ("sagaflow_dlq_topic" == k) ≡ false = ground (arith, other) in
        inr (kept r e k m a b c d, simp (has-put, a, b, c, d) (held r.headers k m))
  ]

  -- A dead letter goes to the record's topic with `.dlq` behind it, under the record's key and with
  -- its payload; it names the topic, the partition and the offset it came from and the error; under every
  -- other key it has a header exactly if the record has, with the same text; and its envelope, or the
  -- reason why there is none, is the record's.
  pub dead_letter-replayable :
      (kr : KgoRecord) (e : Error)
      → let r = to_record kr in
        let m = dead_letter_message rt r e in
        (m.topic ≡ concat r.topic ".dlq")
        × (m.key ≡ kr.key)
        × (m.payload ≡ kr.value)
        × (get m.headers "sagaflow_dlq_topic" ≡ kr.topic)
        × (get m.headers "sagaflow_dlq_partition" ≡ rt.itoa kr.partition)
        × (get m.headers "sagaflow_dlq_offset" ≡ rt.itoa kr.offset)
        × (get m.headers "sagaflow_dlq_error" ≡ rt.error_text e)
        × ((k : String)
            → (is_added k ≡ true)
              ⊎ ((get m.headers k ≡ get r.headers k) × (has m.headers k ≡ has r.headers k)))
        × (parse m.headers ≡ parse r.headers)
  unfolding to_record dead_letter_message
  dead_letter-replayable kr e = (
    refl,
    refl,
    refl,
    simp get-put,
    simp get-put,
    simp get-put,
    simp get-put,
    λ k. unfold to_record in untouched (to_record kr) e k (put_all-IsMap kr.headers [] tt),
    unfold to_record in parse-dead_letter (to_record kr) e (put_all-IsMap kr.headers [] tt),
  )
