-- ===== src/Inbox.antt =====
-- internal/platform/inbox: the rows that make a redelivery a no-op.
pub mod Once
use sagaflow.Base.{String, Bool, true, false, ◌||◌, [], ◌∷◌, ◌==◌, if◌then◌else◌}
use sagaflow.Errors.{ok, err, message}
use sagaflow.Contracts.{Time}
use sagaflow.Database.{insert_inbox, prune_inbox, consumed}
use sagaflow.Session.{Environment, Tx, view, write, statement, autocommit, annotate}

-- `markSQL`: INSERT … ON CONFLICT DO NOTHING, and whether it inserted its row.
unfoldable pub insert_mark : String → String → String → Tx Bool
insert_mark consumer source id s =
    if consumed consumer source id (view s).inbox then (ok false, s) else (
      ok true,
      write
          (insert_inbox (record {
            consumer = consumer;
            source = source;
            event_id = id;
            handled_at = s.started;
          })
            ∷ [])
          s,
    )

module _ (env : Environment) where
  unfoldable pub mark_consumed : String → String → String → Tx Bool
  mark_consumed consumer source id s =
      if consumer == "" || source == "" || id == ""
      then (err (message "inbox: consumer, source and event_id are all required"), s)
      else annotate "inbox" (statement env (insert_mark consumer source id)) s

  -- The number of rows deleted is only logged, and left out.
  unfoldable pub prune : Time → Tx (Unit {0})
  prune age s =
      annotate "inbox" (autocommit env (λ t. (ok tt, write (prune_inbox t.started age ∷ []) t))) s
