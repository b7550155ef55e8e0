-- ===== src/Inventory/Service/Resting.antt =====
-- internal/inventory/wire.go: the loops that `Service.Run` starts, each over what `connect` builds it from.
use sagaflow.Base.{ℕ, List, [], ◌∷◌, All, map, ◌≡◌, sym, subst}
use sagaflow.Errors.{Result}
use sagaflow.Contracts.{ProtoMessage}
use sagaflow.Database.{Bytes}
use sagaflow.Session.{Session}
use sagaflow.Session.Resting.{IsAtRest}
use sagaflow.Session.Repeated.Series.{Calls, start, then_call}
use sagaflow.Kafka.Consumer.{Runtime, ConsumerConfig, Client, Fetch, run}
use sagaflow.Kafka.Consumer.Keeping.{Keeps, run-keeps}
use sagaflow.Outbox.Poller.{lead}
use sagaflow.Outbox.Poller
use sagaflow.Outbox.Poller.Resting.{lead-IsAtRest}
use sagaflow.Timers.Scheduler
use sagaflow.Inventory.Commands.{Deps}
use sagaflow.Inventory.Expiry.{fire}
use sagaflow.Inventory.Expiry.Resting.{run-IsAtRest}
use sagaflow.Inventory.Projection.{rebuild}
use sagaflow.Inventory.Projection.Resting.{rebuild-IsAtRest}
use sagaflow.Inventory.Consumers.{commands_runtime, projections_runtime, beside}
use sagaflow.Inventory.Consumers.Resting.{commands-IsAtRest, projections-IsAtRest}

module _ (d : Deps) (unframe : Bytes → Result ProtoMessage) {W : Type 0} (rt : Runtime W)
    (cfg : ConsumerConfig) where
  open d use {json, timestamps, header_json, env}

  -- A run of one of the service's loops, or of `Rebuild`, on a connection. What the others do meanwhile
  -- is in the environment.
  pub data LoopRun (s : Session) : Session → Type 0 where
    consumes_commands :
        (fetches : List (Fetch W)) (c : Client (Session × W))
        → c.world.0 ≡ s
        → LoopRun s (run (commands_runtime d unframe rt) cfg (map beside fetches) c).world.0
    consumes_events :
        (fetches : List (Fetch W)) (c : Client (Session × W))
        → c.world.0 ≡ s
        → LoopRun s (run (projections_runtime d rt) cfg (map beside fetches) c).world.0
    polls_outbox :
        (fuel : ℕ) (wakes : List Poller.Wake) → LoopRun s (lead header_json env fuel wakes s)
    fires_timers : (wakes : List Scheduler.Wake) → LoopRun s (Scheduler.run env (fire d) wakes s)
    rebuilds_view : LoopRun s (rebuild json timestamps env s).1

  abbrev Resting : Session × W → Type 0
  Resting p = IsAtRest p.0

  waiting :
      (fetches : List (Fetch W))
      → All
          (λ (f : Fetch (Session × W)). (p : Session × W) → Resting p → Resting (f.meanwhile p))
          (map beside fetches)
  waiting [] = tt
  waiting (f ∷ fetches) = (λ p h. h, waiting fetches)

  commands_runtime-Keeps : Keeps Resting (commands_runtime d unframe rt)
  commands_runtime-Keeps = record {
    by_handler = λ r p h. commands-IsAtRest d unframe r p.0 h;
    by_produce_sync = λ rs p h. h;
    by_random = λ n p h. h;
    by_interrupted = λ n p h. h;
  }

  projections_runtime-Keeps : Keeps Resting (projections_runtime d rt)
  projections_runtime-Keeps = record {
    by_handler = λ r p h. projections-IsAtRest d r p.0 h;
    by_produce_sync = λ rs p h. h;
    by_random = λ n p h. h;
    by_interrupted = λ n p h. h;
  }

  LoopRun-IsAtRest : {s t : Session} → LoopRun s t → IsAtRest s → IsAtRest t
  LoopRun-IsAtRest (consumes_commands fetches c from) r =
      run-keeps Resting (commands_runtime d unframe rt) cfg commands_runtime-Keeps
        (map beside fetches) c (waiting fetches) (subst IsAtRest (sym from) r)
  LoopRun-IsAtRest (consumes_events fetches c from) r =
      run-keeps Resting (projections_runtime d rt) cfg projections_runtime-Keeps
        (map beside fetches) c (waiting fetches) (subst IsAtRest (sym from) r)
  LoopRun-IsAtRest {s} (polls_outbox fuel wakes) r = lead-IsAtRest header_json env fuel wakes s r
  LoopRun-IsAtRest {s} (fires_timers wakes) r = run-IsAtRest d wakes s r
  LoopRun-IsAtRest {s} rebuilds_view r = rebuild-IsAtRest d s r

  -- The log of every seat stays in order. From a state in which in every stream the versions are
  -- 1, 2, 3, … in the order of insertion, and nothing is pending, any runs of the service's loops, one
  -- after the other, and of `Rebuild`, lead to such a state again: of the consumers of the commands and of
  -- the events over whatever polls, of the poller of the outbox once it leads, and of the scheduler of the
  -- timers over whatever wake-ups. This holds whatever other transactions commit before every statement,
  -- and whichever statements fail or take effect and lose their answer.
  pub service_ordered : {s t : Session} → Calls LoopRun s t → IsAtRest s → IsAtRest t
  service_ordered start r = r
  service_ordered (then_call calls step) r = LoopRun-IsAtRest step (service_ordered calls r)
