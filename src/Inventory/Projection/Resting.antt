-- ===== src/Inventory/Projection/Resting.antt =====
-- internal/inventory/projection.go: the projection writes no event, and leaves nothing pending.
use sagaflow.Base.{String, List, [], ◌∷◌, nat_eq, Bool-cases, inl, inr, refl}
use sagaflow.Errors.{err, message}
use sagaflow.Session.{Session}
use sagaflow.Session.Quiet.{
  Quiet-refl, Quiet-write, IsQuiet, bind-IsQuiet, annotate-IsQuiet, statement-IsQuiet,
}
use sagaflow.Session.Resting.{IsAtRest, with_tx-IsAtRest}
use sagaflow.Seat.{SeatState}
use sagaflow.Inventory.Commands.{Deps}
use sagaflow.Inventory.Commands.Running.{load-IsQuiet}
use sagaflow.Inventory.Projection.{
  availability_row, upsert, write_projection, project, project_in_tx, project_all, select_streams,
  delete_all, rebuild,
}

module _ (d : Deps) where
  open d use {json, timestamps, env}

  write_projection-IsQuiet :
      (seat : String) (state : SeatState)
      → IsQuiet (write_projection json timestamps env seat state)
  write_projection-IsQuiet seat state = record {
    at = λ s. elim (Bool-cases (nat_eq state.version 0)) [
      | inl new ↦ rw new (Quiet-refl s)
      | inr old ↦ rw old (
          (annotate-IsQuiet "inventory: project" _ (
              statement-IsQuiet env (upsert json timestamps env (availability_row seat state))
                (record { at = λ t. Quiet-write (_ ∷ []) t refl }))).at
            s)
    ];
  }

  project-IsQuiet : (seat : String) → IsQuiet (project json timestamps env seat)
  unfolding project
  project-IsQuiet seat =
      bind-IsQuiet _ _ (load-IsQuiet d (λ x. err (message "")) (λ m. m) seat)
        (λ p. write_projection-IsQuiet seat p.0)

  project_all-IsQuiet : (ids : List String) → IsQuiet (project_all json timestamps env ids)
  unfolding project_all
  project_all-IsQuiet [] = record { at = λ s. Quiet-refl s }
  project_all-IsQuiet (id ∷ ids) = record {
    at = λ s.
        (bind-IsQuiet (project json timestamps env id) (λ u. project_all json timestamps env ids)
            (project-IsQuiet id) (λ u. project_all-IsQuiet ids)).at
          s;
  }

  pub project_in_tx-IsAtRest :
      (seat : String) (s : Session)
      → IsAtRest s
      → IsAtRest (project_in_tx json timestamps env seat s).1
  unfolding project_in_tx
  project_in_tx-IsAtRest seat =
      with_tx-IsAtRest env (project json timestamps env seat) (project-IsQuiet seat)

  pub rebuild-IsAtRest : (s : Session) → IsAtRest s → IsAtRest (rebuild json timestamps env s).1
  unfolding rebuild
  rebuild-IsAtRest = with_tx-IsAtRest env _ (
      bind-IsQuiet _ _
        (annotate-IsQuiet "inventory: project" _ (
          statement-IsQuiet env (select_streams json timestamps env)
            (record { at = λ s. Quiet-refl s })))
        (λ ids.
          bind-IsQuiet _ _
            (annotate-IsQuiet "inventory: project" _ (
              statement-IsQuiet env (delete_all json timestamps env)
                (record { at = λ s. Quiet-write (_ ∷ []) s refl })))
            (λ u. project_all-IsQuiet ids)))
