-- ===== src/Inventory/Commands/Handling.antt =====
-- internal/inventory/commands.go: what the body of a command's transaction has decided when it ends.
use sagaflow.Base.{String, ◌≡◌, refl, ◌∙◌, Bool, true, false, [], inl, if◌then◌else◌}
use sagaflow.Errors.{Result}
use sagaflow.Contracts.{ProtoMessage}
use sagaflow.Envelope.{Envelope}
use sagaflow.Database.Streams.{inserted}
use sagaflow.Session.{Session, Tx, lift, pure, ◌>>=◌, ◌>>◌}
use sagaflow.Session.Inversion.{lift-ok}
use sagaflow.Session.Quiet.{IsOrdered, Quiet, IsQuiet, lift-IsQuiet, bind-IsQuiet}
use sagaflow.Inbox.{mark_consumed}
use sagaflow.Outbox.{enqueue}
use sagaflow.Seat.{SeatState, Outcome, decide, messages}
use sagaflow.Inventory.Commands.{
  Deps, command_meta, apply_command, consume_command, schedule_timers, outgoing, reply_template,
  consumer_name,
}
use sagaflow.Inventory.Commands.Quiet.{
  mark_consumed-IsQuiet, schedule_timers-IsQuiet, outgoing-IsQuiet, enqueue-IsQuiet,
}
use sagaflow.Inventory.Commands.Decided.{same_rows}
use sagaflow.Codec.{Meta}
use sagaflow.Inventory.Commands.Running.{Run, after-Quiet, append-Run, load-Run}

-- How a command decides, and the metadata of its events.
abbrev pub decide_for : Deps → ProtoMessage → SeatState → Result Outcome
decide_for d cmd state = decide d.timestamps state cmd

abbrev pub meta_for : Envelope → Meta → Meta
meta_for incoming origin = command_meta incoming

module _ (d : Deps) (incoming : Envelope) (cmd : ProtoMessage) (seat : String) where
  open d use {json, timestamps, header_json, env}

  -- The part of the transaction after the append.
  abbrev rest : Outcome → Tx (Unit {0})
  rest outcome = do
    schedule_timers d seat outcome.timers
    msgs ← outgoing d (reply_template incoming seat) (messages outcome)
    enqueue header_json env msgs

  rest-IsQuiet : (outcome : Outcome) → IsQuiet (rest outcome)
  rest-IsQuiet outcome = bind-IsQuiet _ _ (schedule_timers-IsQuiet d seat outcome.timers) (λ u.
      bind-IsQuiet _ _ (outgoing-IsQuiet d (reply_template incoming seat) (messages outcome))
        (λ msgs. enqueue-IsQuiet d msgs))

  apply_command-Run :
      (s : Session)
      → IsOrdered s
      → inserted s.pending ≡ []
      → Run d (decide_for d cmd) (meta_for incoming) seat s (apply_command d incoming cmd seat s)
  unfolding apply_command
  apply_command-Run s o none_in =
      load-Run d (decide_for d cmd) (meta_for incoming) seat _ s o none_in (λ p u o₁ none₁ reads.
        after-Quiet d (decide_for d cmd) (meta_for incoming) seat (lift (decide timestamps p.0 cmd))
          _ u (lift-IsQuiet _) o₁
          (λ outcome decides q.
            append-Run d (decide_for d cmd) (meta_for incoming) seat p.0 outcome p.1 (rest outcome)
              u (rest-IsQuiet outcome) o₁ none₁ reads (lift-ok _ u u outcome decides).0))

  pub consume_command-Run :
      (s : Session)
      → IsOrdered s
      → inserted s.pending ≡ []
      → Run d (decide_for d cmd) (meta_for incoming) seat s (consume_command d incoming cmd seat s)
  unfolding consume_command
  consume_command-Run s o none_in =
      after-Quiet d (decide_for d cmd) (meta_for incoming) seat
        (mark_consumed env consumer_name incoming.source incoming.id) _ s
        (mark_consumed-IsQuiet d consumer_name incoming.source incoming.id) o
        (λ first h q. by_first first q)
    where
      u : Session
      u = (mark_consumed env consumer_name incoming.source incoming.id s).1

      by_first :
          (b : Bool)
          → Quiet s u
          → Run d
              (decide_for d cmd)
              (meta_for incoming)
              seat
              u
              ((if b then apply_command d incoming cmd seat else pure tt) u)
      by_first true q =
          apply_command-Run u (q.ordered o)
            (same_rows d (decide_for d cmd) (meta_for incoming) seat q ∙ none_in)
      by_first false q = record {
        log = refl;
        ordered = q.ordered o;
        decided = λ a h. inl (same_rows d (decide_for d cmd) (meta_for incoming) seat q ∙ none_in);
      }
