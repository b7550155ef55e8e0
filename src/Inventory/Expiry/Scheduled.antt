-- ===== src/Inventory/Expiry/Scheduled.antt =====
-- internal/platform/timers/scheduler.go with internal/inventory/expiry.go as its `Firer`: the loop of the
-- timers.
use sagaflow.Base.{
  ℕ, ◌≡◌, refl, Bool, true, false, List, [], ◌∷◌, ◌++◌, ◌≤◌, any, keep, length, All, arith,
  Bool-cases, inl, inr,
}
use sagaflow.Errors.{Result, ok, err}
use sagaflow.Contracts.{Time}
use sagaflow.Database.{Write, mark_fired, prune_timers}
use sagaflow.Session.{Session}
use sagaflow.Session.Repeated.{Covered}
use sagaflow.Session.Repeated.Series.{has_writes, Calls, start, then_call, Effect, Calls-Once}
use sagaflow.Session.Repeated.Outside.{reading-Effect, autocommit-Effect}
use sagaflow.Timers.{Timer, due, next_due, prune}
use sagaflow.Timers.Scheduler.{
  batch_size, retention, fire_one, fire_all, tick_due, tick, sleep, run, Wake, stop, elapsed,
  prune_due,
}
use sagaflow.Timers.Spent.{inserts_timer}
use sagaflow.Inventory.Commands.{Deps}
use sagaflow.Inventory.Expiry.{fire}
use sagaflow.Inventory.Expiry.Claiming.{fires_timer, on_timers, Claimed, IsSpent, stays_spent}
use sagaflow.Inventory.Expiry.Once.{fire_one-Effect}

-- The writes with which a commit of the scheduler begins.
abbrev pub opens : Write → Bool
opens (mark_fired i now) = true
opens (prune_timers now age) = true
opens _ = false

-- A commit with writes fires a timer or prunes first, and writes nothing else to the timers.
abbrev pub Scheduled : List Write → Type 0
Scheduled ws = Covered opens on_timers (λ w. false) ws

fires_nothing_else :
    (id : ℕ) (ws : List Write) → All (λ w. on_timers w ≡ false) ws → any (fires_timer id) ws ≡ false
unfolding any
fires_nothing_else id [] clean = refl
fires_nothing_else id (mark_fired i now ∷ ws) clean = let no = clean.0 in cc
fires_nothing_else id (w ∷ ws) clean = fires_nothing_else id ws clean.1

module _ (d : Deps) (id : ℕ)
    (kept : (k : ℕ) → any (inserts_timer id) (d.env.others k) ≡ false) where
  open d use {env}

  abbrev Step : Session → Session → Type 0
  Step s t = Effect (IsSpent id) Scheduled (any (fires_timer id)) s t

  module _ (t : Timer) where
    marks : (w : Write) → fires_timer t.id w ≡ true → opens w ≡ true
    marks (mark_fired i now) h = refl
    marks _ h = cc

    shaped : (ws : List Write) → Claimed t.id (inserts_timer id) ws → Scheduled ws
    shaped [] c = tt
    shaped (w ∷ ws) c = (marks w c.0, c.1)

    one_timer : (w : Write) → fires_timer t.id w ≡ true → fires_timer id w ≡ true → t.id ≡ id
    one_timer (mark_fired i now) h k = ground (arith, h, k)
    one_timer _ h k = cc

    own :
        (ws : List Write)
        → Claimed t.id (inserts_timer id) ws
        → any (fires_timer id) ws ≡ true
        → (has_writes ws ≡ true) × (t.id ≡ id)
    unfolding any
    own [] c h = cc
    own (w ∷ ws) c h = elim (Bool-cases (fires_timer id w)) [
      | inl here ↦ (refl, one_timer w c.0 here)
      | inr other ↦ let none_behind = fires_nothing_else id ws c.1 in let no = rw other at h in cc
    ]

    firing-Step : (s : Session) → s.pending ≡ [] → Step s (fire_one env (fire d) t s).1
    unfolding any
    firing-Step s none_in =
        fire_one-Effect d t id kept Scheduled shaped (any (fires_timer id)) refl own s none_in

  -- From `s` the loop has come here.
  module _ (s : Session) where
    abbrev Reached : Session → Type 0
    Reached t = Calls (λ u v. u.pending ≡ [] → Step u v) s t

    fire_all-Reached :
        (ts : List Timer) (n : ℕ) (u : Session)
        → Reached u
        → Reached (fire_all env (fire d) ts n u).1
    unfolding fire_all
    fire_all-Reached [] n u h = h
    fire_all-Reached (t ∷ ts) n u h =
        fire_all-Reached ts _ (fire_one env (fire d) t u).1 (then_call h (firing-Step t u))

    due-Reached : (limit : ℕ) (u : Session) → Reached u → Reached (due env limit u).1
    unfolding due
    due-Reached limit u h = then_call h (
        reading-Effect env (IsSpent id) (inserts_timer id) (stays_spent id) kept Scheduled
          (any (fires_timer id)) "timers" _ u)

    tick-Reached : (u : Session) → Reached u → Reached (tick env (fire d) u).1
    unfolding tick
    tick-Reached u h =
        by_due (due env batch_size u).0 (due env batch_size u).1 (due-Reached batch_size u h)
      where
        by_due :
            (r : Result (List Timer)) (v : Session)
            → Reached v
            → Reached (tick_due env (fire d) (r, v)).1
        by_due (err e) v i = i
        by_due (ok ts) v i = fire_all-Reached ts 0 v i

    sleep-Reached : (u : Session) → Reached u → Reached (sleep env (fire d) u).1
    unfolding sleep next_due
    sleep-Reached u h = then_call h (
        reading-Effect env (IsSpent id) (inserts_timer id) (stays_spent id) kept Scheduled
          (any (fires_timer id)) "timers" _ u)

    prune-Reached : (age : Time) (u : Session) → Reached u → Reached (prune env age u).1
    unfolding prune any
    prune-Reached age u h = then_call h (λ none_in.
        autocommit-Effect env (IsSpent id) (inserts_timer id) (stays_spent id) kept Scheduled
          (any (fires_timer id)) "timers" (λ t. prune_timers t.started age) u none_in
          (λ t. (refl, tt)) (λ t. refl) (λ t. refl))

    run-Reached : (wakes : List Wake) (u : Session) → Reached u → Reached (run env (fire d) wakes u)
    unfolding run
    run-Reached [] u h = h
    run-Reached (stop ∷ wakes) u h = sleep-Reached _ (tick-Reached u h)
    run-Reached (elapsed ∷ wakes) u h = run-Reached wakes _ (sleep-Reached _ (tick-Reached u h))
    run-Reached (prune_due ∷ wakes) u h =
        run-Reached wakes _ (prune-Reached retention _ (sleep-Reached _ (tick-Reached u h)))

  -- The scheduler fires every deadline once. As long as no other transaction inserts a timer of the id,
  -- and nothing is pending at first, the scheduler's loop over whatever wake-ups commits only
  -- transactions that write nothing, or fire a timer or delete old timers with their first write and
  -- write nothing else to the timers; and at most one of these fires the timer of the id. This holds
  -- however often the timer is found due, whatever other transactions commit before every statement, and
  -- whichever statements fail or take effect and lose their answer.
  pub scheduler_once :
      (wakes : List Wake) (s : Session)
      → s.pending ≡ []
      → (new : List (List Write)) × ((run env (fire d) wakes s).log ≡ s.log ++ new)
        × All Scheduled new
        × (length (keep (any (fires_timer id)) new) ≤ 1)
  scheduler_once wakes s none_in =
      Calls-Once (IsSpent id) Scheduled (any (fires_timer id)) (λ u v. u.pending ≡ [] → Step u v)
        (λ u v step none_u. step none_u) none_in (run-Reached s wakes s start)
