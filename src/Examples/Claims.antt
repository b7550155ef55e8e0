-- ===== src/Examples/Claims.antt =====
-- The theorem on a deadline that is fired twice, at a concrete input.
use sagaflow.Base.{
  ◌≡◌, refl, false, none, [], ◌∷◌, any, ℕ, nat_eq, Bool-cases, inl, inr, All, keep, length, ◌≤◌,
  List, ◌++◌,
}
use sagaflow.Database.{Write}
use sagaflow.Session.{Session}
use sagaflow.Timers
use sagaflow.Timers.Scheduler.{Wake, stop, elapsed, prune_due, run}
use sagaflow.Timers.Spent.{inserts_timer}
use sagaflow.Inventory.Expiry.{fire}
use sagaflow.Inventory.Expiry.Claiming.{fires_timer}
use sagaflow.Inventory.Expiry.Scheduled.{Scheduled, scheduler_once}
use sagaflow.Examples.World.{environment, connection, empty_tables, deps}

abbrev due_timer : Timers.Timer
due_timer = record { id = 1; fire_at = 70; subject = "A1"; token = "h1" }

abbrev before_firing : Session
before_firing = record connection {
  committed = record empty_tables {
    timers = (record { id = 1; fire_at = 70; subject = "A1"; token = "h1"; fired_at = none }) ∷ [];
  };
}

no_insertion : (k : ℕ) → any (inserts_timer 1) (environment.others k) ≡ false
unfolding any
no_insertion k = elim (Bool-cases (nat_eq k 3)) [ inl y ↦ rw y refl | inr n ↦ rw n refl ]

-- Two passes, with a deletion of old timers between them.
abbrev wakes : List Wake
wakes = elapsed ∷ prune_due ∷ stop ∷ []

scheduler_once_example :
    (new : List (List Write)) × ((run environment (fire deps) wakes before_firing).log ≡ [] ++ new)
    × All Scheduled new
    × (length (keep (any (fires_timer 1)) new) ≤ 1)
scheduler_once_example = scheduler_once deps 1 no_insertion wakes before_firing refl
