-- ===== src/Timers.antt =====
-- internal/platform/timers/timers.go: durable wake-ups.
pub mod Scheduler
pub mod Sleeping
pub mod Once
pub mod Spent
use sagaflow.Base.{
  ℕ, suc, ◌+◌, String, ◌≡◌, Bool, true, false, ◌&&◌, Option, none, some, List, [], ◌∷◌, map, keep,
  take, leb, if◌then◌else◌, min,
}
use sagaflow.Errors.{Error, Result, ok, err}
use sagaflow.Contracts.{Time}
use sagaflow.Database.{
  TimerRow, timestamptz, insert_timer, mark_fired, prune_timers, is_pending, pending_timer,
}
use sagaflow.Database.Order.{order_by}
use sagaflow.Session.{Session, Environment, Tx, view, write, statement, autocommit, annotate}

pub record Timer : Type 0 where
  pub id : ℕ
  pub fire_at : Time
  pub subject : String
  pub token : String

abbrev timer_of : TimerRow → Timer
timer_of r = record { id = r.id; fire_at = r.fire_at; subject = r.subject; token = r.token }

-- `dueSQL`
unfoldable pub due_rows : Time → ℕ → List TimerRow → List TimerRow
due_rows now limit rows = take limit (
    order_by (λ (r : TimerRow). r.fire_at)
      (keep (λ (r : TimerRow). is_pending r.fired_at && leb r.fire_at now) rows))

-- `nextDueSQL`
unfoldable pub earliest : List TimerRow → Option Time
earliest [] = none
earliest (r ∷ rows) =
    let rest = earliest rows in
    if is_pending r.fired_at
    then elim rest [ none ↦ some r.fire_at | some t ↦ some (min r.fire_at t) ]
    else rest

module _ (env : Environment) where
  abbrev pub insert_row : Time → String → String → Tx (Unit {0})
  insert_row at subject token s = (
    ok tt,
    write
        (insert_timer (record {
          id = s.serial;
          fire_at = timestamptz at;
          subject = subject;
          token = token;
          fired_at = none;
        })
          ∷ [])
        (record s { serial = suc s.serial }),
  )

  unfoldable pub schedule : Time → String → String → Tx (Unit {0})
  schedule at subject token s = annotate "timers" (statement env (insert_row at subject token)) s

  -- Read on the pool, with no transaction open.
  unfoldable pub due : ℕ → Tx (List Timer)
  due limit s =
      annotate "timers"
        (statement env
          (λ t. (ok (map timer_of (due_rows (env.clock s.step) limit t.committed.timers)), t)))
        s

  -- `markFiredSQL`, and whether it changed a row.
  abbrev pub claim_row : ℕ → Tx Bool
  claim_row id s =
      if pending_timer id (view s).timers
      then (ok true, write (mark_fired id s.started ∷ []) s)
      else (ok false, s)

  unfoldable pub claim_timer : ℕ → Tx Bool
  claim_timer id s = annotate "timers" (statement env (claim_row id)) s

  unfoldable pub next_due : Tx (Option Time)
  next_due s = annotate "timers" (statement env (λ t. (ok (earliest t.committed.timers), t))) s

  -- The number of rows deleted is only logged, and left out.
  unfoldable pub prune : Time → Tx (Unit {0})
  prune age s =
      annotate "timers" (autocommit env (λ t. (ok tt, write (prune_timers t.started age ∷ []) t))) s
