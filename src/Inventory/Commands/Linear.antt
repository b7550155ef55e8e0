-- ===== src/Inventory/Commands/Linear.antt =====
-- internal/inventory/commands.go: what one try of a command commits, and what all tries commit, whatever
-- other transactions commit between the statements.
use sagaflow.Base.{
  ℕ, zero, suc, String, ◌≡◌, refl, ◌∙◌, ap, Bool, true, false, [], ◌∷◌, ◌++◌, inl, inr, Bool-cases,
  if◌then◌else◌,
}
use sagaflow.Errors.{Error, Result, ok, err, errors_is, version_conflict}
use sagaflow.Contracts.{ProtoMessage}
use sagaflow.Envelope.{Envelope}
use sagaflow.Session.{Session, in_context}
use sagaflow.Session.Quiet.{IsOrdered}
use sagaflow.Seat.{target_seat}
use sagaflow.Inventory.Commands.{
  Deps, consume_command, apply_in_one_transaction, is_conflict, handle_from, handle,
  conflict_retries,
}
use sagaflow.Inventory.Commands.Handling.{decide_for, meta_for, consume_command-Run}
use sagaflow.Inventory.Commands.Ending.{Ended, with_tx-Ended}

module _ (d : Deps) (incoming : Envelope) (cmd : ProtoMessage) (seat : String) where
  open d use {json, timestamps, header_json, env}

  -- A try that starts with nothing pending and with every stream's versions 1, 2, 3, … ends that way
  -- too. It commits nothing and returns an error, or it commits once; the events it commits are then
  -- none, or what `Decide` returns on the state that the seat's stream reads as in the tables committed
  -- to, at the versions after the end of that stream. Other transactions may commit before every
  -- statement.
  pub apply_in_one_transaction-Ended :
      (s : Session)
      → IsOrdered s
      → s.pending ≡ []
      → target_seat cmd ≡ ok seat
      → Ended d
          (decide_for d cmd)
          (meta_for incoming)
          seat
          s
          (apply_in_one_transaction d incoming cmd s)
  unfolding apply_in_one_transaction
  apply_in_one_transaction-Ended s o none_in target = rw target (
      with_tx-Ended d (decide_for d cmd) (meta_for incoming) seat
        (consume_command d incoming cmd seat) s (consume_command-Run d incoming cmd seat) o none_in)

  Ended-again :
      (s t : Session) (p : Result (Unit {0}) × Session)
      → t.log ≡ s.log
      → Ended d (decide_for d cmd) (meta_for incoming) seat t p
      → Ended d (decide_for d cmd) (meta_for incoming) seat s p
  Ended-again s t p same e = record {
    ordered = e.ordered;
    none_pending = e.none_pending;
    effect = elim e.effect [
      | inl (x, failed, log) ↦ inl (x, failed, log ∙ same)
      | inr (c, settled) ↦ inr (
        record {
          base = c.base;
          ws = c.ws;
          log = c.log ∙ ap (λ l. l ++ c.ws ∷ []) same;
          tables = c.tables;
          decided = c.decided;
        },
        settled,
      )
    ];
  }

  no_conflict :
      (s : Session) (p : Result (Unit {0}) × Session)
      → Ended d (decide_for d cmd) (meta_for incoming) seat s p
      → is_conflict p.0 ≡ true
      → (e : Error) × (p.0 ≡ err e) × (p.1.log ≡ s.log)
  no_conflict s p e h = elim e.effect [ inl x ↦ x | inr (c, settled) ↦ cc ]

  last-Ended :
      (s : Session) (p : Result (Unit {0}) × Session)
      → Ended d (decide_for d cmd) (meta_for incoming) seat s p
      → Ended d
          (decide_for d cmd)
          (meta_for incoming)
          seat
          s
          (if is_conflict p.0 then in_context "inventory: after retries" p.0 else p.0, p.1)
  last-Ended s (ok u, t) e = e
  last-Ended s (err x, t) e = elim (Bool-cases (errors_is x version_conflict)) [
    | inl conflict ↦ rw conflict (record {
      ordered = e.ordered;
      none_pending = e.none_pending;
      effect = inl (_, refl, (no_conflict s (err x, t) e conflict).2);
    })
    | inr other ↦ rw other e
  ]

  handle_from-Ended :
      (left : ℕ) (s : Session)
      → IsOrdered s
      → s.pending ≡ []
      → target_seat cmd ≡ ok seat
      → Ended d (decide_for d cmd) (meta_for incoming) seat s (handle_from d left incoming cmd s)
  unfolding handle_from
  handle_from-Ended zero s o none_in target =
      last-Ended s (apply_in_one_transaction d incoming cmd s)
        (apply_in_one_transaction-Ended s o none_in target)
  handle_from-Ended (suc left) s o none_in target =
      let again : is_conflict p.0 ≡ true
          → Ended d (decide_for d cmd) (meta_for incoming) seat s
              (handle_from d left incoming cmd p.1) =
        λ conflict.
          Ended-again s p.1 (handle_from d left incoming cmd p.1) (no_conflict s p e conflict).2
            (handle_from-Ended left p.1 e.ordered e.none_pending target) in
      by_conflict again (is_conflict p.0) refl
    where
      p : Result (Unit {0}) × Session
      p = apply_in_one_transaction d incoming cmd s

      e : Ended d (decide_for d cmd) (meta_for incoming) seat s p
      e = apply_in_one_transaction-Ended s o none_in target

      by_conflict :
          (is_conflict p.0 ≡ true
            → Ended d
                (decide_for d cmd)
                (meta_for incoming)
                seat
                s
                (handle_from d left incoming cmd p.1))
          → (b : Bool) → is_conflict p.0 ≡ b
          → Ended d
              (decide_for d cmd)
              (meta_for incoming)
              seat
              {A = Unit {0}}
              s
              (elim b [ true ↦ handle_from d left incoming cmd p.1 | false ↦ p ])
      by_conflict again true conflict = again conflict
      by_conflict again false settled = e

  -- `Handle` for a seat, with all its tries, started with nothing pending and with every stream's
  -- versions 1, 2, 3, …, ends that way too. It returns an error and has committed nothing, or it has
  -- committed once. The events of that commit are none, or they are what `Decide` returns on the state
  -- that the seat's stream reads as in the tables committed to, at the versions after the end of that
  -- stream. This holds whatever other transactions commit before every statement, and whichever
  -- statements fail or take effect and lose their answer.
  pub handle-Ended :
      (s : Session)
      → IsOrdered s
      → s.pending ≡ []
      → target_seat cmd ≡ ok seat
      → Ended d (decide_for d cmd) (meta_for incoming) seat s (handle d incoming cmd s)
  unfolding handle
  handle-Ended = handle_from-Ended conflict_retries
