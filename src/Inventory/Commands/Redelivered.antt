-- ===== src/Inventory/Commands/Redelivered.antt =====
-- internal/inventory/commands.go: a message that the inbox knows is handled without a trace.
use sagaflow.Base.{
  ℕ, zero, suc, String, ◌≡◌, refl, sym, subst, Bool, true, false, ◌||◌, List, [], ◌∷◌, ◌++◌, inl,
  inr, ◌⊎◌, any, arith, ◌==◌, if◌then◌else◌,
}
use sagaflow.Errors.{Result, ok, err, message}
use sagaflow.Contracts.{ProtoMessage}
use sagaflow.Envelope.{Envelope}
use sagaflow.Database.{
  Db, Write, InboxRow, insert_inbox, prune_inbox, consumed, perform, perform_all,
}
use sagaflow.Session.{
  Session, view, arrive, statement, with_tx, unless_failed, fails_at, annotate, in_context,
  continue, pure,
}
use sagaflow.Session.Idle.{Idle, Inert, Settles, arrive-Idle, with_tx-Inert}
use sagaflow.Inbox.{insert_mark, mark_consumed}
use sagaflow.Seat.{target_seat}
use sagaflow.Inventory.Commands.{
  Deps, consumer_name, is_conflict, apply_command, consume_command, apply_in_one_transaction,
  handle_from, handle, conflict_retries,
}

-- Whether a write deletes rows of the inbox.
abbrev pub prunes_inbox : Write → Bool
prunes_inbox (prune_inbox now age) = true
prunes_inbox _ = false

consumed-append :
    (consumer source id : String) (rows : List InboxRow) (r : InboxRow)
    → consumed consumer source id rows ≡ true
    → consumed consumer source id (rows ++ r ∷ []) ≡ true
unfolding any
consumed-append consumer source id [] r h = cc
consumed-append consumer source id (q ∷ rows) r h =
    ground (arith, consumed-append consumer source id rows r)

module _ (consumer source id : String) where
  pub consumed-perform :
      (d : Db) (w : Write)
      → prunes_inbox w ≡ false
      → consumed consumer source id d.inbox ≡ true
      → consumed consumer source id (perform d w).inbox ≡ true
  unfolding perform
  consumed-perform d (prune_inbox now age) k h = cc
  consumed-perform d (insert_inbox r) k h = consumed-append consumer source id d.inbox r h
  consumed-perform d _ k h = h

module _ (d : Deps) (incoming : Envelope)
    (kept : (k : ℕ) → any prunes_inbox (d.env.others k) ≡ false) where
  open d use {env}

  -- The message is in the inbox.
  abbrev IsKnown : Db → Type 0
  IsKnown t = consumed consumer_name incoming.source incoming.id t.inbox ≡ true

  keeps : (t : Db) (w : Write) → prunes_inbox w ≡ false → IsKnown t → IsKnown (perform t w)
  keeps = consumed-perform consumer_name incoming.source incoming.id

  abbrev Unmoved : List (List Write) → Session → Type 0
  Unmoved log s = Idle IsKnown prunes_inbox keeps log s

  arrive-Unmoved :
      (log : List (List Write)) (s : Session) → Unmoved log s → Unmoved log (arrive env s)
  arrive-Unmoved = arrive-Idle IsKnown prunes_inbox keeps env kept

  -- It is not new.
  abbrev Old : List (List Write) → Result Bool × Session → Type 0
  Old log p = Unmoved log p.1 × (p.0 ≡ ok true → ⊥)

  insert_mark-Old :
      (log : List (List Write)) (s : Session)
      → Unmoved log s
      → insert_mark consumer_name incoming.source incoming.id s ≡ (ok false, s)
  unfolding insert_mark perform_all
  insert_mark-Old log s i =
      let seen : consumed consumer_name incoming.source incoming.id (view s).inbox ≡ true =
        subst
          (λ ws.
            consumed consumer_name incoming.source incoming.id (perform_all s.committed ws).inbox
            ≡ true)
          (sym i.none_pending) i.known in
      rw seen refl

  mark_consumed-Old :
      (log : List (List Write)) (s : Session)
      → Unmoved log s
      → Old log (mark_consumed env consumer_name incoming.source incoming.id s)
  unfolding mark_consumed annotate statement
  mark_consumed-Old log s i =
      by_names (consumer_name == "" || incoming.source == "" || incoming.id == "")
    where
      u : Session
      u = arrive env s

      j : Unmoved log u
      j = arrive-Unmoved log s i

      marking : Bool → Result Bool × Session
      marking b =
          let p = unless_failed {0} b (insert_mark consumer_name incoming.source incoming.id) u in
          (in_context "inbox" p.0, p.1)

      by_failure : (b : Bool) → Old log (marking b)
      by_failure true = (j, λ h. cc)
      by_failure false = rw (insert_mark-Old log u j) (j, λ h. cc)

      by_names :
          (b : Bool)
          → Old log (
              if b
              then (err (message "inbox: consumer, source and event_id are all required"), s)
              else marking (fails_at (env.fault s.step)))
      by_names true = (i, λ h. cc)
      by_names false = by_failure (fails_at (env.fault s.step))

  consume_command-Unmoved :
      (cmd : ProtoMessage) (seat : String) (log : List (List Write)) (s : Session)
      → Unmoved log s
      → Unmoved log (consume_command d incoming cmd seat s).1
  unfolding consume_command
  consume_command-Unmoved cmd seat log s i =
      by_result (mark_consumed env consumer_name incoming.source incoming.id s).0
        (mark_consumed env consumer_name incoming.source incoming.id s).1
        (mark_consumed-Old log s i)
    where
      by_result :
          (r : Result Bool) (t : Session)
          → Old log (r, t)
          → Unmoved log
              (continue r
                (λ first. if first then apply_command d incoming cmd seat else pure tt)
                t).1
      by_result (ok true) t (j, new) = elim (new refl) [ ]
      by_result (ok false) t (j, new) = j
      by_result (err e) t (j, new) = j

  -- One try: nothing is committed, or a commit without a write.
  abbrev Tried : List (List Write) → Result (Unit {0}) × Session → Type 0
  Tried log p = Inert IsKnown prunes_inbox keeps log p

  try-Inert :
      (cmd : ProtoMessage) (log : List (List Write)) (s : Session)
      → Unmoved log s
      → Tried log (apply_in_one_transaction d incoming cmd s)
  unfolding apply_in_one_transaction
  try-Inert cmd log s i = by_target (target_seat cmd)
    where
      by_target :
          (r : Result String)
          → Tried log (continue r (λ seat. with_tx env (consume_command d incoming cmd seat)) s)
      by_target (ok seat) =
          with_tx-Inert IsKnown prunes_inbox keeps env kept (consume_command d incoming cmd seat)
            log s (λ u. consume_command-Unmoved cmd seat log u) i
      by_target (err e) = inl i

  unsettled : (r : Result (Unit {0})) → Settles r → is_conflict r ≡ true → ⊥
  unsettled (ok u) settled conflict = cc
  unsettled (err e) settled conflict = cc

  handle_from-Inert :
      (left : ℕ) (cmd : ProtoMessage) (log : List (List Write)) (s : Session)
      → Unmoved log s
      → let t = (handle_from d left incoming cmd s).1 in Unmoved log t ⊎ Unmoved (log ++ [] ∷ []) t
  unfolding handle_from
  handle_from-Inert zero cmd log s i = elim (try-Inert cmd log s i) [
    | inl j ↦ inl j
    | inr (j, settled) ↦ inr j
  ]
  handle_from-Inert (suc left) cmd log s i =
      by_conflict (is_conflict p.0) refl (try-Inert cmd log s i)
        (handle_from-Inert left cmd log p.1)
    where
      p : Result (Unit {0}) × Session
      p = apply_in_one_transaction d incoming cmd s

      by_conflict :
          (b : Bool)
          → is_conflict p.0 ≡ b
          → Tried log p
          → (Unmoved log p.1
              → let t = (handle_from d left incoming cmd p.1).1 in
                Unmoved log t ⊎ Unmoved (log ++ [] ∷ []) t)
          → let t : Session =
              (elim b as (λ c. Result (Unit {0}) × Session) [
                | true ↦ handle_from d left incoming cmd p.1
                | false ↦ p
              ]).1 in
            Unmoved log t ⊎ Unmoved (log ++ [] ∷ []) t
      by_conflict true conflict (inl j) again = again j
      by_conflict true conflict (inr (j, settled)) again = elim (unsettled p.0 settled conflict) [ ]
      by_conflict false settled (inl j) again = inl j
      by_conflict false settled (inr (j, s)) again = inr j

  -- A redelivery leaves no trace. Where the inbox has the message already, nothing is pending, and no
  -- other transaction prunes the inbox meanwhile, `Handle` commits nothing, or commits once without a
  -- single write, and the inbox has the message still, whatever other transactions commit before every
  -- statement, and whichever statements fail or take effect and lose their answer.
  pub handle_again :
      (cmd : ProtoMessage) (s : Session)
      → consumed consumer_name incoming.source incoming.id s.committed.inbox ≡ true
      → s.pending ≡ []
      → let t = (handle d incoming cmd s).1 in
        (t.pending ≡ [])
        × (consumed consumer_name incoming.source incoming.id t.committed.inbox ≡ true)
        × ((t.log ≡ s.log) ⊎ (t.log ≡ s.log ++ [] ∷ []))
  unfolding handle
  handle_again cmd s known none_in =
      elim (handle_from-Inert conflict_retries cmd s.log s
        (record { known = known; none_pending = none_in; logged = refl })) [
          | inl j ↦ (j.none_pending, j.known, inl j.logged)
          | inr j ↦ (j.none_pending, j.known, inr j.logged)
        ]
