-- ===== src/Inventory/Consumers/Resting.antt =====
-- internal/inventory/consumers.go and commands.go: the handlers of the two consumers leave every stream's
-- versions in order, and nothing pending.
use sagaflow.Base.{
  ℕ, zero, suc, String, ◌≡◌, refl, sym, subst, Bool, true, false, ◌==◌, if◌then◌else◌,
}
use sagaflow.Errors.{Error, Result, ok, err, sentinel, permanent, wrap}
use sagaflow.Contracts.{ProtoMessage}
use sagaflow.Envelope.{Envelope, parse}
use sagaflow.Database.{Bytes}
use sagaflow.Session.{Session, continue}
use sagaflow.Session.Resting.{IsAtRest, IsAtRest-IsOrdered}
use sagaflow.Kafka.Wire.{Record}
use sagaflow.Seat.{target_seat}
use sagaflow.Inventory.Commands.{
  Deps, is_conflict, apply_in_one_transaction, handle_from, handle, conflict_retries,
}
use sagaflow.Inventory.Commands.Linear.{handle-Ended}
use sagaflow.Inventory.Projection.{project_in_tx}
use sagaflow.Inventory.Projection.Resting.{project_in_tx-IsAtRest}
use sagaflow.Inventory.Consumers.{as_permanent, classify, commands, project_subject, projections}

module _ (d : Deps) where
  open d use {json, timestamps, header_json, env}

  tried_without_seat :
      (incoming : Envelope) (cmd : ProtoMessage) (e : Error) (s : Session)
      → target_seat cmd ≡ err e
      → apply_in_one_transaction d incoming cmd s ≡ (err e, s)
  unfolding apply_in_one_transaction
  tried_without_seat incoming cmd e s h = rw h refl

  -- A command without a seat changes nothing.
  without_seat :
      (left : ℕ) (incoming : Envelope) (cmd : ProtoMessage) (e : Error) (s : Session)
      → target_seat cmd ≡ err e
      → (handle_from d left incoming cmd s).1 ≡ s
  unfolding handle_from
  without_seat zero incoming cmd e s h = rw (tried_without_seat incoming cmd e s h) refl
  without_seat (suc left) incoming cmd e s h =
      subst
        (λ (p : Result (Unit {0}) × Session).
          (elim (is_conflict p.0) as (λ x. Result (Unit {0}) × Session) [
            | true ↦ handle_from d left incoming cmd p.1
            | false ↦ (p.0, p.1)
          ]).1
          ≡ s)
        (sym (tried_without_seat incoming cmd e s h))
        (by_conflict (is_conflict {A = Unit {0}} (err e)) (without_seat left incoming cmd e s h))
    where
      by_conflict :
          (b : Bool)
          → (handle_from d left incoming cmd s).1 ≡ s
          → (elim b as (λ x. Result (Unit {0}) × Session) [
            | true ↦ handle_from d left incoming cmd s
            | false ↦ (err e, s)
          ]).1
            ≡ s
      by_conflict true again = again
      by_conflict false again = refl

  handle-IsAtRest :
      (incoming : Envelope) (cmd : ProtoMessage) (s : Session)
      → IsAtRest s
      → IsAtRest (handle d incoming cmd s).1
  unfolding handle
  handle-IsAtRest incoming cmd s r = by_target (target_seat cmd) refl
    where
      by_target : (x : Result String) → target_seat cmd ≡ x → IsAtRest (handle d incoming cmd s).1
      by_target (ok seat) h =
          let e = handle-Ended d incoming cmd seat s (IsAtRest-IsOrdered s r) r.none_pending h in
          record { ordered = e.ordered.stored; none_pending = e.none_pending }
      by_target (err x) h =
          subst IsAtRest (sym (without_seat conflict_retries incoming cmd x s h)) r

  pub commands-IsAtRest :
      (unframe : Bytes → Result ProtoMessage) (r : Record) (s : Session)
      → IsAtRest s
      → IsAtRest (commands d unframe r s).1
  unfolding commands as_permanent
  commands-IsAtRest unframe r s i = by_envelope (parse r.headers)
    where
      by_command :
          (incoming : Envelope) (x : Result ProtoMessage)
          → IsAtRest
              (continue
                (as_permanent x)
                (λ cmd u. let (a, v) = handle d incoming cmd u in (classify a, v))
                s).1
      by_command incoming (ok cmd) = handle-IsAtRest incoming cmd s i
      by_command incoming (err e) = i

      by_envelope :
          (x : Result Envelope)
          → IsAtRest
              (continue
                (as_permanent x)
                (λ incoming u.
                  continue
                    (as_permanent (unframe r.value))
                    (λ cmd w. let (a, v) = handle d incoming cmd w in (classify a, v))
                    u)
                s).1
      by_envelope (ok incoming) = by_command incoming (unframe r.value)
      by_envelope (err e) = i

  project_subject-IsAtRest :
      (incoming : Envelope) (s : Session) → IsAtRest s → IsAtRest (project_subject d incoming s).1
  project_subject-IsAtRest incoming s i = by_subject (incoming.subject == "")
    where
      by_subject :
          (b : Bool)
          → IsAtRest
              (if b
                then (err (wrap "names no seat in ce_subject" (sentinel permanent)), s)
                else project_in_tx json timestamps env incoming.subject s).1
      by_subject true = i
      by_subject false = project_in_tx-IsAtRest d incoming.subject s i

  pub projections-IsAtRest :
      (r : Record) (s : Session) → IsAtRest s → IsAtRest (projections d r s).1
  unfolding projections as_permanent
  projections-IsAtRest r s i = by_envelope (parse r.headers)
    where
      by_envelope :
          (x : Result Envelope)
          → IsAtRest (continue (as_permanent x) (λ incoming. project_subject d incoming) s).1
      by_envelope (ok incoming) = project_subject-IsAtRest incoming s i
      by_envelope (err e) = i
