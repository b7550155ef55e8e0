-- ===== src/Timers/Spent.antt =====
-- internal/platform/timers: a timer that does not wait any more fires nothing.
use sagaflow.Base.{
  ℕ, ◌≡◌, refl, sym, subst, Bool, true, false, List, [], ◌∷◌, ◌++◌, any, keep, nat_eq, arith, inl,
  inr, ◌⊎◌, if◌then◌else◌,
}
use sagaflow.Errors.{Result, ok, err}
use sagaflow.Contracts.{Time}
use sagaflow.Database.{
  Db, Write, TimerRow, insert_timer, mark_fired, prune_timers, fire_rows, pending_timer, perform,
  perform_all,
}
use sagaflow.Session.{
  Session, Environment, Tx, view, arrive, statement, unless_failed, fails_at, in_context, annotate,
  continue, pure, ◌>>=◌,
}
use sagaflow.Session.Idle.{Idle, arrive-Idle, with_tx-Inert}
use sagaflow.Timers.{Timer, claim_row, claim_timer}
use sagaflow.Timers.Scheduler.{Firer, fire_one}

-- Whether a write inserts a timer of this id.
abbrev pub inserts_timer : ℕ → Write → Bool
inserts_timer id (insert_timer r) = nat_eq r.id id
inserts_timer id _ = false

module _ (id : ℕ) where
  spent-insert :
      (rows : List TimerRow) (r : TimerRow)
      → nat_eq r.id id ≡ false
      → pending_timer id rows ≡ false
      → pending_timer id (rows ++ r ∷ []) ≡ false
  unfolding any
  spent-insert [] r other h = rw other refl
  spent-insert (q ∷ rows) r other h = ground (arith, spent-insert rows r other)

  spent-fire_rows :
      (i : ℕ) (now : Time) (rows : List TimerRow)
      → pending_timer id rows ≡ false
      → pending_timer id (fire_rows i now rows) ≡ false
  unfolding any fire_rows
  spent-fire_rows i now [] h = refl
  spent-fire_rows i now (q ∷ rows) h = ground (arith, spent-fire_rows i now rows)

  spent-keep :
      (p : TimerRow → Bool) (rows : List TimerRow)
      → pending_timer id rows ≡ false
      → pending_timer id (keep p rows) ≡ false
  unfolding any keep
  spent-keep p [] h = refl
  spent-keep p (q ∷ rows) h = ground (arith, spent-keep p rows)

  -- No timer of this id waits.
  abbrev IsSpent : Db → Type 0
  IsSpent t = pending_timer id t.timers ≡ false

  pub IsSpent-perform :
      (t : Db) (w : Write) → inserts_timer id w ≡ false → IsSpent t → IsSpent (perform t w)
  unfolding perform
  IsSpent-perform t (insert_timer r) k h = spent-insert t.timers r k h
  IsSpent-perform t (mark_fired i now) k h = spent-fire_rows i now t.timers h
  IsSpent-perform t (prune_timers now age) k h = spent-keep _ t.timers h
  IsSpent-perform t _ k h = h

module _ (env : Environment) (fire : Firer) (t : Timer)
    (kept : (k : ℕ) → any (inserts_timer t.id) (env.others k) ≡ false) where
  abbrev Unmoved : List (List Write) → Session → Type 0
  Unmoved log s = Idle (IsSpent t.id) (inserts_timer t.id) (IsSpent-perform t.id) log s

  -- It is not claimed.
  abbrev Unclaimed : List (List Write) → Result Bool × Session → Type 0
  Unclaimed log p = Unmoved log p.1 × (p.0 ≡ ok true → ⊥)

  claim_row-spent :
      (log : List (List Write)) (s : Session) → Unmoved log s → claim_row env t.id s ≡ (ok false, s)
  unfolding perform_all
  claim_row-spent log s i =
      let seen : pending_timer t.id (view s).timers ≡ false =
        subst (λ ws. pending_timer t.id (perform_all s.committed ws).timers ≡ false)
          (sym i.none_pending) i.known in
      rw seen refl

  claim_timer-Unclaimed :
      (log : List (List Write)) (s : Session)
      → Unmoved log s
      → Unclaimed log (claim_timer env t.id s)
  unfolding claim_timer annotate statement
  claim_timer-Unclaimed log s i = by_failure (fails_at (env.fault s.step))
    where
      u : Session
      u = arrive env s

      j : Unmoved log u
      j = arrive-Idle (IsSpent t.id) (inserts_timer t.id) (IsSpent-perform t.id) env kept log s i

      by_failure :
          (b : Bool)
          → Unclaimed log
              (let p = unless_failed {0} b (claim_row env t.id) u in (in_context "timers" p.0, p.1))
      by_failure true = (j, λ h. cc)
      by_failure false = rw (claim_row-spent log u j) (j, λ h. cc)

  -- A timer that does not wait in the tables, as it has fired or was deleted, fires nothing, whatever
  -- its firer would do: as long as no other transaction inserts a timer of its id, and nothing is
  -- pending, `fireOne` commits nothing, or commits once without a single write, and the timer does not
  -- wait after it either, whatever other transactions commit before every statement, and whichever
  -- statements fail or take effect and lose their answer.
  pub fire_one_again :
      (s : Session)
      → pending_timer t.id s.committed.timers ≡ false
      → s.pending ≡ []
      → let u = (fire_one env fire t s).1 in
        (u.pending ≡ [])
        × (pending_timer t.id u.committed.timers ≡ false)
        × ((u.log ≡ s.log) ⊎ (u.log ≡ s.log ++ [] ∷ []))
  unfolding fire_one
  fire_one_again s spent none_in =
      elim (with_tx-Inert (IsSpent t.id) (inserts_timer t.id) (IsSpent-perform t.id) env kept
        (claim_timer env t.id >>= firing) s.log s stays
        (record { known = spent; none_pending = none_in; logged = refl })) [
          | inl i ↦ (i.none_pending, i.known, inl i.logged)
          | inr (i, settled) ↦ (i.none_pending, i.known, inr i.logged)
        ]
    where
      firing : Bool → Tx Bool
      firing got = if got then (do u ← fire t; pure true) else pure false

      by_result :
          (r : Result Bool) (u : Session)
          → Unclaimed s.log (r, u)
          → Unmoved s.log (continue r firing u).1
      by_result (ok true) u (i, claimed) = elim (claimed refl) [ ]
      by_result (ok false) u (i, claimed) = i
      by_result (err e) u (i, claimed) = i

      stays :
          (u : Session) → Unmoved s.log u → Unmoved s.log ((claim_timer env t.id >>= firing) u).1
      stays u i =
          by_result (claim_timer env t.id u).0 (claim_timer env t.id u).1
            (claim_timer-Unclaimed s.log u i)
