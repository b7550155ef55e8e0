-- ===== src/Kafka/Consumer/Attempts.antt =====
-- internal/platform/kafka/consumer.go: how often the handler is called for one record, and what
-- `attempt` returns.
use sagaflow.Base.{ℕ, zero, suc, ◌+◌, ◌-◌, ◌≤◌, ◌<◌, ◌≡◌, true, arith, inl, inr}
use sagaflow.Errors.{Error, ok, err, permanent, errors_is, Result-cases}
use sagaflow.Kafka.Wire.{Record}
use sagaflow.Kafka.Consumer.{
  Runtime, ConsumerConfig, Attempt, done, failed, pause, attempt_from, attempt,
}

module _ {S : Type 0} (rt : Runtime S) (cfg : ConsumerConfig) (calls : S → ℕ)
    (handler_calls : (r : Record) (s : S) → calls (rt.handler r s).1 ≡ suc (calls s))
    (random_calls : (d : ℕ) (s : S) → calls (rt.random d s).1 ≡ calls s)
    (interrupted_calls : (w : ℕ) (s : S) → calls (rt.interrupted w s).1 ≡ calls s) where
  pause-calls :
      (n k : ℕ) (e : Error) (again : S → Attempt × S) (s : S)
      → ((t : S) → (calls t ≤ calls (again t).1) × (calls (again t).1 ≤ calls t + k))
      → (calls s ≤ calls (pause rt cfg n e again s).1)
        × (calls (pause rt cfg n e again s).1 ≤ calls s + k)
  unfolding pause
  pause-calls n k e again s later = grind (arith, random_calls, interrupted_calls, later)

  attempt_from-calls :
      (left n : ℕ) (r : Record) (s : S)
      → (suc (calls s) ≤ calls (attempt_from rt cfg left n r s).1)
        × (calls (attempt_from rt cfg left n r s).1 ≤ calls s + suc left)
  unfolding attempt_from
  attempt_from-calls zero n r s = ground (arith, handler_calls r s)
  attempt_from-calls (suc left) n r s =
      let s' = (rt.handler r s).1 in
      let paused = λ (x : Error).
        pause-calls n (suc left) x (attempt_from rt cfg left (suc n) r) s'
          (λ t. omega (arith, attempt_from-calls left (suc n) r t)) in
      elim (Result-cases (rt.handler r s).0) [
        | inl (u, h) ↦ rw (h, attempt_from) (omega (arith, handler_calls r s))
        | inr (x, h) ↦ rw (h, attempt_from) (ground (arith, handler_calls r s, paused x))
      ]

  -- For one record the handler is called at least once, and at most as often as the budget says.
  attempt-calls :
      (r : Record) (s : S)
      → 0 < cfg.max_attempts
      → (suc (calls s) ≤ calls (attempt rt cfg r s).1)
        × (calls (attempt rt cfg r s).1 ≤ calls s + cfg.max_attempts)
  unfolding attempt
  attempt-calls r s pos = omega (arith, attempt_from-calls (cfg.max_attempts - 1) 1 r s)

module _ {S : Type 0} (rt : Runtime S) (cfg : ConsumerConfig) where
  attempt_from_permanent :
      (left n : ℕ) (r : Record) (s : S) (e : Error)
      → (rt.handler r s).0 ≡ err e
      → errors_is e permanent ≡ true
      → attempt_from rt cfg left n r s ≡ (failed e, (rt.handler r s).1)
  unfolding attempt_from
  attempt_from_permanent zero n r s e h p = rw (h, attempt_from)
  attempt_from_permanent (suc left) n r s e h p = rw (h, attempt_from) (rw p)

  attempt_from_ok :
      (left n : ℕ) (r : Record) (s : S)
      → (rt.handler r s).0 ≡ ok tt
      → attempt_from rt cfg left n r s ≡ (done, (rt.handler r s).1)
  unfolding attempt_from
  attempt_from_ok zero n r s h = rw (h, attempt_from)
  attempt_from_ok (suc left) n r s h = rw (h, attempt_from)

  -- A first try that succeeds or that fails for good is the only one.
  attempt_once :
      (r : Record) (s : S)
      → ((rt.handler r s).0 ≡ ok tt → attempt rt cfg r s ≡ (done, (rt.handler r s).1))
        × ((e : Error)
            → (rt.handler r s).0 ≡ err e
            → errors_is e permanent ≡ true
            → attempt rt cfg r s ≡ (failed e, (rt.handler r s).1))
  unfolding attempt
  attempt_once r s = (
    attempt_from_ok (cfg.max_attempts - 1) 1 r s,
    attempt_from_permanent (cfg.max_attempts - 1) 1 r s,
  )
