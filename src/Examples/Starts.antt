-- ===== src/Examples/Starts.antt =====
-- Examples for the start of the service, the registry and the election of the poller.
use text.Mathlib.TextEquality.{eq_iff}
use sagaflow.Base.{
  ℕ, ◌<◌, ◌≡◌, refl, String, true, false, Option, none, some, List, [], ◌∷◌, map, any, ◌==◌,
  if◌then◌else◌, inl, inr, Bool-cases, arith, ◌↔◌, nat_eq, keep, ◌++◌,
}
use sagaflow.Errors.{Result, ok, err, message, sentinel, topic_already_exists}
use sagaflow.Io.{Io, annotate}
use sagaflow.Io.Ends.{Ends}
use sagaflow.Session.{Session}
use sagaflow.Process.{Drivers, Handles, Process, new_registry_client}
use sagaflow.Schema.{
  Registry, Level, backward, unset, Serde, global_level, new_topic_serde,
  ensure_backward_compatibility,
}
use sagaflow.Schema.Closed.{IsClosed, new_topic_serde-IsClosed}
use sagaflow.Schema.Compatibility.{Answers, last_or, ensure_backward_compatibility_iff}
use sagaflow.Schema.Durable.{IsDurable}
use sagaflow.Schemactl
use sagaflow.Schemactl.{register, register_bindings}
use sagaflow.Schemactl.Ready.{serdes-run, Serves}
use sagaflow.Inventory.Commands.{commands_topic}
use sagaflow.Inventory.Service.{Loop, outbox_poller, timer_scheduler}
use sagaflow.Inventory.Service.Startup.{Config, close, new, serdes, command_prototypes, run_command}
use sagaflow.Inventory.Service.Startup.Closing.{complete, new-Ends, run_command-close}
use sagaflow.Outbox.Poller.{drain_all, woken, stop}
use sagaflow.Outbox.Poller.Election
use sagaflow.Outbox.Poller.Election.{ElectionCalls, Candidate}
use sagaflow.Outbox.Poller.Standing.{Refused, run-Ended}
use sagaflow.Outbox.Poller.Progress.{drain_all_ends}
use sagaflow.Outbox.Poller.Emptied.{drain_all_empties}
use sagaflow.Outbox.Poller.Pending.{writes_outbox, pending_count}
use sagaflow.Database.{empty_db, OutboxRow}
use sagaflow.Envelope.{Message}
use sagaflow.Outbox.Poller.Queue.{Carries, queue}
use sagaflow.Outbox.Poller.Ordered.{drain_all_in_order}
use sagaflow.Examples.World.{header_json, environment, connection}

-- A registry that has a list of subjects, and drivers that always answer.
abbrev find : String → List String → Result ℕ
find s w = if any (λ t. t == s) w then ok 1 else err (message "subject not found")

abbrev registry : Registry (List String)
registry = record {
  set_compatibility = λ l w. (ok l ∷ [], w);
  compatibility = λ w. (ok backward ∷ [], w);
  schema_by_version = λ s w. (find s w, w);
  create_schema = λ s text w. (ok 1, s ∷ w);
}

abbrev exists_already : List String → List (String × Option sagaflow.Errors.Error)
exists_already topics = map (λ t. (t, some (sentinel topic_already_exists))) topics

abbrev drivers : Drivers (List String)
drivers = record {
  call = λ c w. (ok tt, w);
  create_topics = λ partitions replication topics w. (ok (exists_already topics), w);
}

abbrev read_file : String → Io (List String) String
read_file file w = (ok "syntax = proto3", w)

abbrev HasSubject : List String → String → Type 0
HasSubject w s = any (λ t. t == s) w ≡ true

same_text : (s : String) → (s == s) ≡ true
same_text s = (eq_iff s s).1 refl

found :
    (s : String) (w : List String)
    → HasSubject w s
    → Ends (λ id w'. Unit {0}) (λ w'. ⊥) (find s w, w)
found s w h = rw h tt

registry-IsDurable : IsDurable registry HasSubject
unfolding any
registry-IsDurable = record {
  created = λ s text w. rw (same_text s) refl;
  found = found;
  create_keeps = λ s t text w h. ground (arith, h);
  find_keeps = λ s t w h. h;
}

abbrev service_config : Config
service_config = record {
  dsn = "postgres://db";
  brokers = "kafka:9092" ∷ [];
  registry = "http://registry";
}

abbrev nothing_open : Handles
nothing_open = record { pools = 0; connections = 0; admins = 0; producers = 0; consumers = 0 }

abbrev process : Process (List String)
process = record {
  world =
      (Schemactl.run registry (λ url. drivers.call (new_registry_client url)) read_file
        "http://registry" []).1;
  handles = nothing_open;
}

new-Ends_example :
    Ends
      (λ s q. (s ≡ complete) × ((close s q).handles ≡ nothing_open))
      (λ q. q.handles ≡ nothing_open)
      (new drivers registry service_config process)
new-Ends_example = new-Ends drivers registry service_config process

abbrev loop_results : List (Loop × Result (Unit {0}))
loop_results = (outbox_poller, err (message "listen")) ∷ (timer_scheduler, ok tt) ∷ []

run_command-close_example :
    (run_command drivers registry service_config loop_results process).1.handles ≡ nothing_open
run_command-close_example = run_command-close drivers registry service_config process loop_results

registered :
    (Schemactl.run registry
      (λ url. drivers.call (new_registry_client url))
      read_file
      "http://registry"
      []).0
    ≡ ok tt
unfolding Schemactl.run ensure_backward_compatibility global_level register_bindings register
    annotate
registered = refl

serdes-run_example :
    (made : Serde × Serde) × ((serdes drivers registry "http://registry" process.world).0 ≡ ok made)
    × Serves made
serdes-run_example =
    serdes-run drivers registry read_file HasSubject registry-IsDurable (λ file s w h. h)
      "http://registry" (λ w. refl) "http://registry" [] registered

new_topic_serde-IsClosed_example :
    IsClosed commands_topic command_prototypes
      (new_topic_serde registry commands_topic command_prototypes process.world).0
new_topic_serde-IsClosed_example =
    new_topic_serde-IsClosed registry commands_topic command_prototypes process.world

ensure_backward_compatibility_iff_example :
    ((ensure_backward_compatibility registry []).0 ≡ ok tt) ↔ (
      ((accepted : List Level) × Answers (ok backward ∷ []) accepted)
      × ((levels : List Level) × Answers (ok backward ∷ []) levels
          × (last_or unset levels ≡ backward)))
ensure_backward_compatibility_iff_example = ensure_backward_compatibility_iff registry []

-- It gets the lock, and loses its connection before it can unlock.
abbrev election_calls : ElectionCalls
election_calls = record {
  acquire = λ s. (ok tt, s);
  try_advisory_lock = λ s. (ok true, s);
  advisory_unlock = λ s. (err (message "connection reset"), s);
  listen = λ s. (ok tt, s);
  lost = λ s. true;
}

abbrev candidate : Candidate
candidate = record { session = connection; connections = 0; has_lock = false; once_done = false }

run-Ended_example :
    let c =
      (Election.run header_json environment election_calls 5 (woken ∷ stop ∷ []) candidate).1 in
    (c.connections ≡ 0) × (c.has_lock ≡ true → Refused election_calls)
run-Ended_example =
    run-Ended header_json environment election_calls 5 (woken ∷ stop ∷ []) candidate refl

abbrev one_pending : Session
one_pending = record connection {
  committed = record empty_db {
    outbox =
        record {
          id = 1;
          topic = "inventory.events";
          key = "A1";
          payload = [];
          headers_json = 123 ∷ 125 ∷ [];
          published_at = none;
        }
        ∷ [];
  };
}

quiet_outbox : (k : ℕ) → any writes_outbox (environment.others k) ≡ false
unfolding any
quiet_outbox k = elim (Bool-cases (nat_eq k 3)) [ inl y ↦ rw y refl | inr n ↦ rw n refl ]

few_pending : pending_count one_pending.committed.outbox < 2
unfolding keep
few_pending = omega arith

drain_all_ends_example : (drain_all header_json environment 2 (one_pending)).0 ≡ true
drain_all_ends_example =
    drain_all_ends header_json environment quiet_outbox 2 one_pending few_pending

drain_all_empties_example :
    pending_count (drain_all header_json environment 2 one_pending).1.committed.outbox ≡ 0
unfolding keep
drain_all_empties_example =
    drain_all_empties header_json environment quiet_outbox (λ k. refl) (λ k. refl) (λ k. refl) 2
      one_pending (([], refl), tt) few_pending

abbrev row_numbered : ℕ → OutboxRow
row_numbered n = record {
  id = n;
  topic = "inventory.events";
  key = "A1";
  payload = n ∷ [];
  headers_json = 123 ∷ 125 ∷ [];
  published_at = none;
}

-- A row that was inserted late has the lower id.
abbrev two_pending : Session
two_pending = record connection {
  committed = record empty_db { outbox = row_numbered 8 ∷ row_numbered 7 ∷ [] };
}

drain_all_in_order_example :
    (new : List Message) × ((drain_all header_json environment 3 two_pending).1.sent ≡ [] ++ new)
    × Carries header_json (queue (row_numbered 8 ∷ row_numbered 7 ∷ [])) new
unfolding keep any
drain_all_in_order_example =
    drain_all_in_order header_json environment quiet_outbox (λ k. refl) (λ k. refl) (λ k. refl) 3
      two_pending (([], refl), (([], refl), tt)) (refl, (refl, tt)) (omega arith)
