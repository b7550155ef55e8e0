-- ===== src/Inventory/Commands/Quiet.antt =====
-- internal/inventory/commands.go: the parts of a command's transaction that write no event.
use sagaflow.Base.{String, ◌≡◌, refl, List, [], ◌∷◌, inl, inr, Bool-cases, map, length, suc, ◌+◌}
use sagaflow.Contracts.{ProtoMessage, Time}
use sagaflow.Envelope.{Envelope, Message}
use sagaflow.Database.{OutboxRow, insert_outbox, consumed}
use sagaflow.Database.Streams.{inserted}
use sagaflow.Session.{lift, statement, view, annotate}
use sagaflow.Session.Quiet.{
  IsQuiet, Quiet-refl, Quiet-trans, Quiet-write, Quiet-serial, lift-IsQuiet, bind-IsQuiet,
  quiet_rules,
}
use sagaflow.Inbox.{mark_consumed, insert_mark}
use sagaflow.Outbox.{enqueue, insert_messages, notify_outbox, rows_from}
use sagaflow.Timers.{schedule, insert_row}
use sagaflow.Seat.{Timer}
use sagaflow.Inventory.Commands.{Deps, wrap_message, outgoing, schedule_timers}

module _ (d : Deps) where
  open d use {json, header_json, frame, env}

  insert_mark-IsQuiet : (consumer source id : String) → IsQuiet (insert_mark consumer source id)
  unfolding insert_mark
  insert_mark-IsQuiet consumer source id = record {
    at = λ s. elim (Bool-cases (consumed consumer source id (view s).inbox)) [
      | inl old ↦ rw old (Quiet-refl s)
      | inr new ↦ rw new (Quiet-write _ s refl)
    ];
  }

  pub mark_consumed-IsQuiet :
      (consumer source id : String) → IsQuiet (mark_consumed env consumer source id)
  unfolding mark_consumed
  mark_consumed-IsQuiet consumer source id = search (quiet_rules, insert_mark-IsQuiet)

  insert_row-IsQuiet :
      (at : Time) (subject token : String) → IsQuiet (insert_row env at subject token)
  insert_row-IsQuiet at subject token = record {
    at = λ s. Quiet-trans (Quiet-serial (suc s.serial) s) (Quiet-write _ _ refl);
  }

  pub schedule-IsQuiet :
      (at : Time) (subject token : String) → IsQuiet (schedule env at subject token)
  unfolding schedule
  schedule-IsQuiet at subject token = search (quiet_rules, insert_row-IsQuiet)

  pub schedule_timers-IsQuiet :
      (seat : String) (ts : List Timer) → IsQuiet (schedule_timers d seat ts)
  unfolding schedule_timers
  schedule_timers-IsQuiet seat [] = record { at = λ s. Quiet-refl s }
  schedule_timers-IsQuiet seat (t ∷ ts) = record {
    at = λ s.
        (bind-IsQuiet (schedule env t.fire_at seat t.token) (λ u. schedule_timers d seat ts)
            (schedule-IsQuiet t.fire_at seat t.token) (λ u. schedule_timers-IsQuiet seat ts)).at
          s;
  }

  wrap_message-IsQuiet : (tmpl : Envelope) (m : ProtoMessage) → IsQuiet (wrap_message d tmpl m)
  unfolding wrap_message
  wrap_message-IsQuiet tmpl m = search quiet_rules

  pub outgoing-IsQuiet : (tmpl : Envelope) (ms : List ProtoMessage) → IsQuiet (outgoing d tmpl ms)
  unfolding outgoing
  outgoing-IsQuiet tmpl [] = record { at = λ s. Quiet-refl s }
  outgoing-IsQuiet tmpl (m ∷ ms) =
      let one = wrap_message-IsQuiet tmpl m in
      let rest = outgoing-IsQuiet tmpl ms in search (quiet_rules, one, rest)

  no_events_in : (rows : List OutboxRow) → inserted (map insert_outbox rows) ≡ []
  no_events_in [] = refl
  no_events_in (r ∷ rows) = no_events_in rows

  insert_messages-IsQuiet : (rows : List OutboxRow) → IsQuiet (insert_messages header_json env rows)
  unfolding insert_messages
  insert_messages-IsQuiet rows = record {
    at = λ s.
        Quiet-trans (Quiet-serial (s.serial + length rows) s)
          (Quiet-write (map insert_outbox rows) _ (no_events_in rows));
  }

  notify_outbox-IsQuiet : IsQuiet (notify_outbox header_json env)
  notify_outbox-IsQuiet = record { at = λ s. Quiet-write _ s refl }

  insertion :
      (rows : List OutboxRow)
      → IsQuiet (annotate "outbox" (statement env (insert_messages header_json env rows)))
  insertion rows = search (quiet_rules, insert_messages-IsQuiet)

  notification : IsQuiet (annotate "outbox" (statement env (notify_outbox header_json env)))
  notification = search (quiet_rules, notify_outbox-IsQuiet)

  pub enqueue-IsQuiet : (msgs : List Message) → IsQuiet (enqueue header_json env msgs)
  unfolding enqueue
  enqueue-IsQuiet [] = record { at = λ s. Quiet-refl s }
  enqueue-IsQuiet (m ∷ msgs) = record {
    at = λ s.
        (bind-IsQuiet (lift (rows_from header_json s.serial (m ∷ msgs))) _
            (lift-IsQuiet (rows_from header_json s.serial (m ∷ msgs)))
            (λ rows. bind-IsQuiet _ _ (insertion rows) (λ u. notification))).at
          s;
  }
