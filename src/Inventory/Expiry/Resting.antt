-- ===== src/Inventory/Expiry/Resting.antt =====
-- internal/platform/timers/scheduler.go with internal/inventory/expiry.go as its `Firer`: the loop of the
-- timers leaves every stream's versions in order, and nothing pending.
use sagaflow.Base.{ℕ, List, [], ◌∷◌, refl}
use sagaflow.Errors.{Result, ok, err}
use sagaflow.Contracts.{Time}
use sagaflow.Session.{Session, annotate}
use sagaflow.Session.Quiet.{Quiet-write}
use sagaflow.Session.Resting.{IsAtRest, IsAtRest-IsOrdered, autocommit-IsAtRest, reading-IsAtRest}
use sagaflow.Timers.{Timer, due, next_due, prune}
use sagaflow.Timers.Scheduler.{
  batch_size, retention, fire_one, fire_all, tick_due, tick, sleep, run, Wake, stop, elapsed,
  prune_due,
}
use sagaflow.Inventory.Commands.{Deps}
use sagaflow.Inventory.Expiry.{fire}
use sagaflow.Inventory.Expiry.Linear.{fire_one-Ended}

module _ (d : Deps) where
  open d use {env}

  fire_one-IsAtRest :
      (t : Timer) (s : Session) → IsAtRest s → IsAtRest (fire_one env (fire d) t s).1
  fire_one-IsAtRest t s r =
      let e = fire_one-Ended d t s (IsAtRest-IsOrdered s r) r.none_pending in
      record { ordered = e.ordered.stored; none_pending = e.none_pending }

  fire_all-IsAtRest :
      (ts : List Timer) (n : ℕ) (s : Session)
      → IsAtRest s
      → IsAtRest (fire_all env (fire d) ts n s).1
  unfolding fire_all
  fire_all-IsAtRest [] n s r = r
  fire_all-IsAtRest (t ∷ ts) n s r =
      fire_all-IsAtRest ts _ (fire_one env (fire d) t s).1 (fire_one-IsAtRest t s r)

  due-IsAtRest : (limit : ℕ) (s : Session) → IsAtRest s → IsAtRest (due env limit s).1
  unfolding due annotate
  due-IsAtRest limit s r = reading-IsAtRest env _ s r

  tick-IsAtRest : (s : Session) → IsAtRest s → IsAtRest (tick env (fire d) s).1
  unfolding tick
  tick-IsAtRest s r =
      by_due (due env batch_size s).0 (due env batch_size s).1 (due-IsAtRest batch_size s r)
    where
      by_due :
          (x : Result (List Timer)) (t : Session)
          → IsAtRest t
          → IsAtRest (tick_due env (fire d) (x, t)).1
      by_due (err e) t i = i
      by_due (ok ts) t i = fire_all-IsAtRest ts 0 t i

  sleep-IsAtRest : (s : Session) → IsAtRest s → IsAtRest (sleep env (fire d) s).1
  unfolding sleep next_due annotate
  sleep-IsAtRest s r = reading-IsAtRest env _ s r

  prune-IsAtRest : (age : Time) (s : Session) → IsAtRest s → IsAtRest (prune env age s).1
  unfolding prune annotate
  prune-IsAtRest age s r =
      autocommit-IsAtRest env _ (record { at = λ t. Quiet-write (_ ∷ []) t refl }) s r

  pub run-IsAtRest :
      (wakes : List Wake) (s : Session) → IsAtRest s → IsAtRest (run env (fire d) wakes s)
  unfolding run
  run-IsAtRest [] s r = r
  run-IsAtRest (stop ∷ wakes) s r = sleep-IsAtRest _ (tick-IsAtRest s r)
  run-IsAtRest (elapsed ∷ wakes) s r = run-IsAtRest wakes _ (sleep-IsAtRest _ (tick-IsAtRest s r))
  run-IsAtRest (prune_due ∷ wakes) s r =
      run-IsAtRest wakes _ (prune-IsAtRest retention _ (sleep-IsAtRest _ (tick-IsAtRest s r)))
