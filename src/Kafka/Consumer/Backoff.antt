-- ===== src/Kafka/Consumer/Backoff.antt =====
-- internal/platform/kafka/consumer.go: how long the retries of one record wait.
use Prim.Native.Nat.{◌%◌}
use native.Mathlib.Nat.{pow-suc}
use sagaflow.Base.{
  ℤ, int64, clamped, ℕ, zero, suc, ◌+◌, ◌-◌, ◌*◌, ◌^◌, ◌≤◌, ◌<◌, ◌≡◌, refl, some, arith, inl, inr,
}
use sagaflow.Errors.{Error, Result-cases}
use sagaflow.Kafka.Wire.{Record}
use sagaflow.Kafka.Consumer.{
  Runtime, ConsumerConfig, Attempt, shifted, backoff, pause, attempt_from, attempt, millisecond,
  rebalance_timeout, default_max_attempts, default_base_backoff,
}

-- rand.Int64N returns a number below its bound.
abbrev pub IsRandom : {S : Type 0} → Runtime S → Type 0
IsRandom {S} rt = (d : ℕ) (s : S) → 0 < d → (rt.random d s).0 < d

drawn : (r d : ℕ) → d < 2 ^ 63 → r < d → ((r + d) % 2 ^ 64 ≡ r + d)
drawn r d fits below = omega arith

module _ {S : Type 0} (rt : Runtime S) (random : IsRandom rt) where
  -- Where the shifted base is positive and below 2^62, the wait before the next try is there and is not
  -- negative, is at least the shifted base, and is below twice that.
  pub backoff_bounds :
      (base n : ℕ) (s : S)
      → 0 < shifted base n
      → shifted base n < 2 ^ 62
      → (w : ℕ) × ((backoff rt base n s).0 ≡ some (ℤ.pos w))
        × (shifted base n ≤ w)
        × (w < 2 * shifted base n)
  unfolding backoff int64
  backoff_bounds base n s pos fits = (
    (rt.random (shifted base n) s).0 + shifted base n,
    ground (
      arith,
      random (shifted base n) s pos,
      drawn (rt.random (shifted base n) s).0 (shifted base n) (omega (arith, fits))
          (random (shifted base n) s pos),
    ),
    omega arith,
    omega (arith, random (shifted base n) s pos),
  )

-- The longest that `left` waits together can take, the first below `2 * d` and each bound twice the
-- one before.
worst : ℕ → ℕ → ℕ
worst zero d = 0
worst (suc left) d = 2 * d + worst left (2 * d)

worst_default : worst 4 default_base_backoff ≡ 3_000 * millisecond
unfolding worst
worst_default = refl

-- Twice every wait fits into int64.
abbrev Fits : ℕ → ℕ → Type 0
Fits zero d = Unit {0}
Fits (suc left) d = (d < 2 ^ 62) × Fits left (2 * d)

shifted-suc : (base n d : ℕ) → d ≡ base * 2 ^ n → d < 2 ^ 63 → shifted base (suc n) ≡ d
shifted-suc base n d e fits =
    let same : suc n - 1 ≡ n = omega arith in rw same (rw (← e) (omega arith))

doubled : (base n d : ℕ) → d ≡ base * 2 ^ n → 2 * d ≡ base * 2 ^ suc n
doubled base n d e = simp pow-suc (omega (arith, e))

module _ {S : Type 0} (rt : Runtime S) (cfg : ConsumerConfig) (random : IsRandom rt)
    (waited : S → ℕ) (handler_waits : (r : Record) (s : S) → waited (rt.handler r s).1 ≡ waited s)
    (random_waits : (d : ℕ) (s : S) → waited (rt.random d s).1 ≡ waited s)
    (interrupted_waits : (w : ℕ) (s : S) → waited (rt.interrupted w s).1 ≤ waited s + w) where
  pause-waited :
      (n d k : ℕ) (e : Error) (again : S → Attempt × S) (s : S)
      → shifted cfg.base_backoff n ≡ d
      → d < 2 ^ 62
      → ((t : S) → waited (again t).1 ≤ waited t + k)
      → waited (pause rt cfg n e again s).1 ≤ waited s + (2 * d + k)
  unfolding pause int64
  pause-waited n d k e again s same fits later =
      let r = (rt.random d s).0 in
      let s₁ = (rt.random d s).1 in
      let w = clamped (int64 ((r + d) % 2 ^ 64)) in
      ground (
        arith,
        random d s,
        random_waits d s,
        interrupted_waits w s₁,
        later (rt.interrupted w s₁).1,
        drawn r d (omega (arith, fits)),
      )

  attempt_from-waited :
      (left n d : ℕ) (r : Record) (s : S)
      → d ≡ cfg.base_backoff * 2 ^ n
      → Fits left d
      → waited (attempt_from rt cfg left (suc n) r s).1 ≤ waited s + worst left d
  unfolding attempt_from worst
  attempt_from-waited zero n d r s e f = ground (arith, handler_waits r s)
  attempt_from-waited (suc left) n d r s e f = elim (Result-cases (rt.handler r s).0) [
    | inl (u, h) ↦ rw (h, attempt_from) (omega (arith, handler_waits r s))
    | inr (x, h) ↦
        let s' = (rt.handler r s).1 in
        let paused =
          pause-waited (suc n) d (worst left (2 * d)) x (attempt_from rt cfg left (suc (suc n)) r)
            s' (shifted-suc cfg.base_backoff n d e (omega (arith, f.0))) f.0
            (λ t.
              attempt_from-waited left (suc n) (2 * d) r t (doubled cfg.base_backoff n d e) f.1) in
        rw (h, attempt_from) (ground (arith, handler_waits r s, paused))
  ]

  -- With the default budget all the waits for one record together take at most three seconds, which
  -- is less than the time that a rebalance waits for.
  pub attempt-within_rebalance :
      (r : Record) (s : S)
      → cfg.base_backoff ≡ default_base_backoff
      → cfg.max_attempts ≡ default_max_attempts
      → (waited (attempt rt cfg r s).1 ≤ waited s + 3_000 * millisecond)
        × (3_000 * millisecond < rebalance_timeout)
  unfolding attempt
  attempt-within_rebalance r s b m = (
    let four : cfg.max_attempts - 1 ≡ 4 = omega (arith, m) in
        rw (four, ← worst_default)
          (attempt_from-waited 4 0 default_base_backoff r s (omega (arith, b)) (omega arith)),
    omega arith,
  )
