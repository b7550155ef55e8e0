-- ===== src/Timers/Scheduler.antt =====
-- internal/platform/timers/scheduler.go: firing what is due.
use sagaflow.Base.{
  ℕ, suc, ◌-◌, ◌*◌, Bool, true, false, Option, none, some, List, [], ◌∷◌, min, max, if◌then◌else◌,
}
use sagaflow.Errors.{Result, ok, err}
use sagaflow.Contracts.{Time}
use sagaflow.Session.{Session, Environment, Tx, pure, ◌>>=◌, with_tx}
use sagaflow.Timers.{Timer, due, claim_timer, next_due, prune}

abbrev pub batch_size : ℕ
batch_size = 100

-- In nanoseconds.
abbrev pub max_sleep : ℕ
max_sleep = 1_000_000_000

abbrev pub min_sleep : ℕ
min_sleep = 5_000_000

abbrev pub retention : ℕ
retention = 7 * 24 * 3_600 * 1_000_000_000

-- `Firer`
abbrev pub Firer : Type 0
Firer = Timer → Tx (Unit {0})

-- What ends the wait between two passes.
pub data Wake : Type 0 where
  stop elapsed prune_due : Wake

-- `sleep` at the time `now`: `time.Until` is negative where the deadline has passed, and `max` takes
-- the minimum then.
unfoldable pub sleep_from : Time → Result (Option Time) → ℕ
sleep_from now (err e) = max_sleep
sleep_from now (ok none) = max_sleep
sleep_from now (ok (some next)) = min (max (next - now) min_sleep) max_sleep

module _ (env : Environment) (fire : Firer) where
  -- `fireOne`: the claim is reported only by a transaction that ends well.
  unfoldable pub fire_one : Timer → Tx Bool
  fire_one t =
      with_tx env
        (do got ← claim_timer env t.id; if got then (do u ← fire t; pure true) else pure false)

  abbrev count_fired : Result Bool → ℕ → ℕ
  count_fired (ok true) n = suc n
  count_fired (ok false) n = n
  count_fired (err e) n = n

  -- The loop of `Tick`; a failure is logged and the next timer is tried.
  unfoldable pub fire_all : List Timer → ℕ → Session → ℕ × Session
  fire_all [] fired s = (fired, s)
  fire_all (t ∷ ts) fired s = let (r, s') = fire_one t s in fire_all ts (count_fired r fired) s'

  abbrev pub tick_due : Result (List Timer) × Session → Result ℕ × Session
  tick_due (err e, s) = (err e, s)
  tick_due (ok ts, s) = let (fired, s') = fire_all ts 0 s in (ok fired, s')

  unfoldable pub tick : Tx ℕ
  tick s = tick_due (due env batch_size s)

  unfoldable pub sleep : Session → ℕ × Session
  sleep s = let (r, s') = next_due env s in (sleep_from (env.clock s'.step) r, s')

  abbrev after_wake : Wake → Session → Session
  after_wake stop s = s
  after_wake elapsed s = s
  after_wake prune_due s = (prune env retention s).1

  -- `Run` over the wake-ups that happen.
  unfoldable pub run : List Wake → Session → Session
  run [] s = s
  run (w ∷ ws) s =
      let s' = (sleep (tick s).1).1 in
      elim w [ stop ↦ s' | elapsed ↦ run ws s' | prune_due ↦ run ws (after_wake prune_due s') ]
