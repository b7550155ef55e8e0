-- ===== src/Inventory/Expiry/Linear.antt =====
-- internal/inventory/expiry.go and internal/platform/timers/scheduler.go: what firing one timer commits,
-- whatever other transactions commit between the statements.
use sagaflow.Base.{
  ◌≡◌, refl, ◌∙◌, Bool, true, false, List, [], ◌∷◌, inl, inr, Bool-cases, if◌then◌else◌,
}
use sagaflow.Errors.{Result, ok, err}
use sagaflow.Contracts.{ProtoMessage}
use sagaflow.Codec.{Meta}
use sagaflow.Database.{stream_of, pending_timer}
use sagaflow.Database.Streams.{inserted}
use sagaflow.Session.{Session, Tx, view, pure, continue, ◌>>=◌}
use sagaflow.Session.Quiet.{IsOrdered, IsQuiet, Quiet-refl, Quiet-write, bind-IsQuiet, quiet_rules}
use sagaflow.Timers.{Timer, claim_timer, claim_row}
use sagaflow.Timers.Scheduler.{fire_one}
use sagaflow.Seat.{SeatState, Outcome, expire, messages}
use sagaflow.Inventory.Commands.{Deps}
use sagaflow.Inventory.Commands.Quiet.{outgoing-IsQuiet, enqueue-IsQuiet}
use sagaflow.Inventory.Commands.Loading.{read_seat}
use sagaflow.Inventory.Commands.Decided.{same_rows}
use sagaflow.Inventory.Commands.Running.{Run, after-Quiet, append-Run, load-Run}
use sagaflow.Inventory.Commands.Ending.{Ended, with_tx-Ended}
use sagaflow.Inventory.Expiry.{expiry_meta, expiry_template, publish_expiry, unless_nothing, fire}

-- How the deadline of a hold decides.
abbrev pub expire_for : Timer → SeatState → Result Outcome
expire_for t state = ok (expire state t.subject t.token)

module _ (d : Deps) (t : Timer) where
  open d use {json, timestamps, header_json, env}

  claim_row-IsQuiet : IsQuiet (claim_row env t.id)
  claim_row-IsQuiet = record {
    at = λ s. elim (Bool-cases (pending_timer t.id (view s).timers)) [
      | inl waits ↦ rw waits (Quiet-write _ s refl)
      | inr gone ↦ rw gone (Quiet-refl s)
    ];
  }

  pub claim_timer-IsQuiet : IsQuiet (claim_timer env t.id)
  unfolding claim_timer
  claim_timer-IsQuiet = search (quiet_rules, claim_row-IsQuiet)

  publish_expiry-Run :
      (state : SeatState) (origin : Meta) (s : Session)
      → IsOrdered s
      → inserted s.pending ≡ []
      → read_seat json timestamps (stream_of t.subject s.committed.events) ≡ ok (state, origin)
      → Run d
          (expire_for t)
          expiry_meta
          t.subject
          s
          (publish_expiry d t state origin (expire state t.subject t.token) s)
  unfolding publish_expiry
  publish_expiry-Run state origin s o none_in reads =
      append-Run d (expire_for t) expiry_meta t.subject state (expire state t.subject t.token)
        origin _ s
        (bind-IsQuiet _ _
          (outgoing-IsQuiet d (expiry_template origin t.subject)
            (messages (expire state t.subject t.token)))
          (λ msgs. enqueue-IsQuiet d msgs))
        o none_in reads refl

  fire-Run :
      (s : Session)
      → IsOrdered s
      → inserted s.pending ≡ []
      → Run d (expire_for t) expiry_meta t.subject s (fire d t s)
  unfolding fire
  fire-Run s o none_in =
      load-Run d (expire_for t) expiry_meta t.subject _ s o none_in (λ p u o₁ none₁ reads.
        by_events _ (expire p.0 t.subject t.token).events u o₁ none₁
          (publish_expiry-Run p.0 p.1 u o₁ none₁ reads))
    where
      by_events :
          (m : Tx (Unit {0})) (events : List ProtoMessage) (u : Session)
          → IsOrdered u
          → inserted u.pending ≡ []
          → Run d (expire_for t) expiry_meta t.subject u (m u)
          → Run d (expire_for t) expiry_meta t.subject u (unless_nothing d events m u)
      by_events m [] u o none_in r = record {
        log = refl;
        ordered = o;
        decided = λ a h. inl none_in;
      }
      by_events m (e ∷ es) u o none_in r = r

  -- The transaction of `fireOne`.
  abbrev firing : Bool → Tx Bool
  firing got = if got then (do u ← fire d t; pure true) else pure false

  firing-Run :
      (got : Bool) (s : Session)
      → IsOrdered s
      → inserted s.pending ≡ []
      → Run d (expire_for t) expiry_meta t.subject s (firing got s)
  firing-Run false s o none_in = record { log = refl; ordered = o; decided = λ a h. inl none_in }
  firing-Run true s o none_in = by_result (fire d t s).0 (fire d t s).1 (fire-Run s o none_in)
    where
      by_result :
          (r : Result (Unit {0})) (u : Session)
          → Run d (expire_for t) expiry_meta t.subject s (r, u)
          → Run d (expire_for t) expiry_meta t.subject s (continue r (λ x. pure true) u)
      by_result (ok x) u r = record {
        log = r.log;
        ordered = r.ordered;
        decided = λ a h. r.decided x refl;
      }
      by_result (err e) u r = record { log = r.log; ordered = r.ordered; decided = λ a h. cc }

  -- Firing one timer, started with nothing pending and with every stream's versions 1, 2, 3, …, ends that
  -- way too. It returns an error and has committed nothing, or it has committed once. The events of that
  -- commit are none, or they are what `Expire` returns for the timer's token on the state that the
  -- timer's stream reads as in the tables committed to, at the versions after the end of that stream.
  -- This holds whatever other transactions commit before every statement, and whichever statements
  -- fail or take effect and lose their answer.
  pub fire_one-Ended :
      (s : Session)
      → IsOrdered s
      → s.pending ≡ []
      → Ended d (expire_for t) expiry_meta t.subject s (fire_one env (fire d) t s)
  unfolding fire_one
  fire_one-Ended s o none_in =
      with_tx-Ended d (expire_for t) expiry_meta t.subject (claim_timer env t.id >>= firing) s
        (λ u ou none_u.
          after-Quiet d (expire_for t) expiry_meta t.subject (claim_timer env t.id) firing u
            claim_timer-IsQuiet ou
            (λ got h q.
              firing-Run got (claim_timer env t.id u).1 (q.ordered ou)
                (same_rows d (expire_for t) expiry_meta t.subject q ∙ none_u)))
        o none_in
