-- ===== src/Timers/Sleeping.antt =====
-- internal/platform/timers/scheduler.go: how long `sleep` waits, against what is scheduled.
use sagaflow.Base.{
  ◌-◌, ◌≤◌, ◌≡◌, refl, true, Option, none, some, List, [], ◌∷◌, ◌++◌, min, max, arith, inl, inr,
  Option-cases, Bool-cases,
}
use sagaflow.Errors.{Result, ok, err}
use sagaflow.Contracts.{Time}
use sagaflow.Database.{TimerRow, is_pending}
use sagaflow.Timers.{earliest}
use sagaflow.Timers.Scheduler.{sleep_from, min_sleep, max_sleep}

-- Whatever the query answered, the wait is between the minimum and the maximum.
sleep_from-bounds :
    (now : Time) (r : Result (Option Time))
    → (min_sleep ≤ sleep_from now r) × (sleep_from now r ≤ max_sleep)
unfolding sleep_from
sleep_from-bounds now (err e) = (omega arith, omega arith)
sleep_from-bounds now (ok none) = (omega arith, omega arith)
sleep_from-bounds now (ok (some next)) = (omega arith, omega arith)

-- A pending row has a time at most as late as its own.
earliest-at_most :
    (before : List TimerRow) (r : TimerRow) (after : List TimerRow)
    → is_pending r.fired_at ≡ true
    → (t : Time) × (earliest (before ++ r ∷ after) ≡ some t) × (t ≤ r.fire_at)
unfolding earliest
earliest-at_most [] r after h = elim (Option-cases (earliest after)) [
  | inl none_after ↦ rw (h, none_after) (r.fire_at, refl, omega arith)
  | inr (t, e) ↦ rw (h, e) (min r.fire_at t, refl, omega arith)
]
earliest-at_most (q ∷ before) r after h =
    let (t, e, le) = earliest-at_most before r after h in
    elim (Bool-cases (is_pending q.fired_at)) [
      | inl y ↦ rw (y, e) (min q.fire_at t, refl, omega (arith, le))
      | inr n ↦ rw (n, e) (t, refl, le)
    ]

-- The wait does not pass the deadline of any pending timer by more than the minimum: it is at most the
-- time that is left to the deadline, or the minimum where less is left.
pub sleep_from-not_late :
    (now : Time) (before : List TimerRow) (r : TimerRow) (after : List TimerRow)
    → is_pending r.fired_at ≡ true
    → sleep_from now (ok (earliest (before ++ r ∷ after))) ≤ max (r.fire_at - now) min_sleep
unfolding sleep_from
sleep_from-not_late now before r after h =
    let (t, e, le) = earliest-at_most before r after h in rw e (omega (arith, le))
