-- ===== src/Inventory/Service.antt =====
-- internal/inventory/wire.go: the four loops of the service. What starts and stops them is a list of
-- their ends, in the order in which they return.
pub mod Resting
pub mod Ends
pub mod Startup
use sagaflow.Base.{
  String, ◌≡◌, Bool, true, false, ◌||◌, Option, none, some, List, [], ◌∷◌, ◌++◌, if◌then◌else◌,
}
use sagaflow.Errors.{Error, Result, ok, err, wrap, canceled, errors_is}

pub data Loop : Type 0 where
  commands_consumer events_consumer outbox_poller timer_scheduler : Loop

unfoldable pub loop_name : Loop → String
loop_name commands_consumer = "commands consumer"
loop_name events_consumer = "events consumer"
loop_name outbox_poller = "outbox poller"
loop_name timer_scheduler = "timer scheduler"

-- The channel `failures`, and whether the context of the loops is cancelled.
pub record Running : Type 0 where
  pub failures : List Error
  pub cancelled : Bool

-- What the goroutine of a loop does when the loop returns.
unfoldable pub loop_ends : Loop → Result (Unit {0}) → Running → Running
loop_ends l (ok u) r = r
loop_ends l (err e) r =
    if errors_is e canceled
    then r
    else record { failures = r.failures ++ wrap (loop_name l) e ∷ []; cancelled = true }

unfoldable pub all_end : List (Loop × Result (Unit {0})) → Running → Running
unfolding loop_ends
all_end [] r = r
all_end ((l, e) ∷ rest) r = all_end rest (loop_ends l e r)

-- A closed channel that is empty reads as nil.
abbrev pub first_of_channel : List Error → Option Error
first_of_channel [] = none
first_of_channel (e ∷ es) = some e

-- `Run`, given the ends of the loops.
unfoldable pub run : List (Loop × Result (Unit {0})) → Option Error
unfolding all_end
run ends = first_of_channel (all_end ends (record { failures = []; cancelled = false })).failures
