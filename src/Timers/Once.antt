-- ===== src/Timers/Once.antt =====
-- internal/platform/timers/timers.go: a timer is claimed once.
use sagaflow.Base.{
  ℕ, ◌≡◌, refl, sym, ◌∙◌, ap, Bool, true, false, List, [], ◌∷◌, any, inl, inr, Bool-cases, arith,
}
use sagaflow.Errors.{ok, ok-injective}
use sagaflow.Contracts.{Time}
use sagaflow.Database.{Db, TimerRow, mark_fired, fire_rows, pending_timer, perform, perform_all}
use sagaflow.Database.Streams.{perform_all-append}
use sagaflow.Session.{Session, Environment, view, write, arrive, statement}
use sagaflow.Session.Inversion.{statement-ok, annotate-ok, lift-ok}
use sagaflow.Timers.{claim_row, claim_timer}

pub fired :
    (id : ℕ) (now : Time) (rows : List TimerRow) → pending_timer id (fire_rows id now rows) ≡ false
unfolding fire_rows any
fired id now [] = refl
fired id now (r ∷ rows) = ground (arith, fired id now rows)

module _ (env : Environment) (id : ℕ) where
  claimed_row :
      (s t : Session) (got : Bool)
      → claim_row env id s ≡ (ok got, t)
      → (got ≡ pending_timer id (view s).timers) × (pending_timer id (view t).timers ≡ false)
  unfolding perform perform_all
  claimed_row s t got h = elim (Bool-cases (pending_timer id (view s).timers)) [
    | inl waits ↦
        let (e, same) =
          lift-ok (ok true) (write (mark_fired id s.started ∷ []) s) t got (rw waits at h) in
        (
          rw waits (sym (ok-injective e)),
          rw same (
              ap (λ (d : Db). pending_timer id d.timers)
                (perform_all-append s.committed s.pending (mark_fired id s.started ∷ []))
              ∙ fired id s.started (view s).timers),
        )
    | inr gone ↦
        let (e, same) = lift-ok (ok false) s t got (rw gone at h) in
        (rw gone (sym (ok-injective e)), rw same gone)
  ]

  -- Where `MarkFired` succeeds, it says that the timer was claimed exactly if the transaction saw it
  -- pending, and afterwards the transaction does not see it pending, so that it is not claimed again.
  claim_timer_once :
      (s t : Session) (got : Bool)
      → claim_timer env id s ≡ (ok got, t)
      → (got ≡ pending_timer id (view (arrive env s)).timers)
        × (pending_timer id (view t).timers ≡ false)
  unfolding claim_timer
  claim_timer_once s t got h = claimed_row (arrive env s) t got (
      statement-ok env (claim_row env id) s t got
        (annotate-ok "timers" (statement env (claim_row env id)) s t got h))
