-- ===== src/Inventory/Expiry/Once.antt =====
-- internal/inventory/expiry.go and internal/platform/timers/scheduler.go: a deadline fires once, and its events
-- are committed together with the mark on its timer.
use sagaflow.Base.{
  ◌⊎◌, ℕ, ◌≤◌, ◌≡◌, refl, sym, subst, Bool, true, false, List, [], ◌∷◌, ◌++◌, inl, inr, any, keep,
  length, nat_eq, All, arith, Bool-cases,
}
use sagaflow.Database.{Db, Write, insert_timer, mark_fired, pending_timer, perform, perform_all}
use sagaflow.Session.{Session, ◌>>=◌}
use sagaflow.Session.Repeated.{with_tx-Sealed, Left, Left-Sealed}
use sagaflow.Session.Repeated.Series.{
  has_writes, again_and_again, again_and_again-Calls, kept_by, kept_others, Effect, Calls-Once,
}
use sagaflow.Timers.{Timer, claim_timer}
use sagaflow.Timers.Scheduler.{fire_one}
use sagaflow.Timers.Spent.{inserts_timer, fire_one_again}
use sagaflow.Inventory.Commands.{Deps}
use sagaflow.Inventory.Expiry.{fire}
use sagaflow.Inventory.Expiry.Claiming.{
  fires_timer, on_timers, Claimed, IsSpent, fires_spent, stays_spent, firing, fire_one-Bodied,
}

-- One timer, and the id that its firing is looked at for.
module _ (d : Deps) (t : Timer) (id : ℕ)
    (kept : (k : ℕ) → any (inserts_timer id) (d.env.others k) ≡ false) where
  open d use {json, timestamps, header_json, env}

  abbrev added : Write → Bool
  added = inserts_timer id

  not_inserted : (w : Write) → on_timers w ≡ false → added w ≡ false
  not_inserted (insert_timer r) h = cc
  not_inserted _ h = refl

  none_inserted :
      (ws : List Write) → All (λ w. on_timers w ≡ false) ws → All (λ w. added w ≡ false) ws
  none_inserted [] clean = tt
  none_inserted (w ∷ ws) clean = (not_inserted w clean.0, none_inserted ws clean.1)

  no_insertion : (w : Write) → fires_timer t.id w ≡ true → added w ≡ false
  no_insertion (mark_fired i now) h = refl
  no_insertion _ h = cc

  Claimed-clean : (ws : List Write) → Claimed t.id added ws → All (λ w. added w ≡ false) ws
  Claimed-clean [] c = tt
  Claimed-clean (w ∷ ws) c = (no_insertion w c.0, none_inserted ws c.1)

  abbrev End : Session → Session → Type 0
  End s u = Left (fires_timer t.id) on_timers added s u

  Left-keeps : (s u : Session) → End s u → IsSpent id s.committed → IsSpent id u.committed
  Left-keeps s u (none_in, inl (same, o)) h =
      kept_others (IsSpent id) added (stays_spent id) s.committed u.committed o h
  Left-keeps s u (none_in, inr c) h = subst (IsSpent id) (sym c.tables) (
      kept_by (IsSpent id) added (stays_spent id) c.base c.ws (Claimed-clean c.ws c.covered)
        (kept_others (IsSpent id) added (stays_spent id) s.committed c.base c.since h))

  Claimed-fires :
      (b : Db) (ws : List Write)
      → t.id ≡ id
      → Claimed t.id added ws
      → has_writes ws ≡ true
      → IsSpent id (perform_all b ws)
  unfolding perform_all
  Claimed-fires b [] same c h = cc
  Claimed-fires b (w ∷ ws) same c h =
      kept_by (IsSpent id) added (stays_spent id) (perform b w) ws (none_inserted ws c.1)
        (fires_spent id b w (subst (λ i. fires_timer i w ≡ true) same c.0))

  -- `hits` holds only of commits that fire the timer of this id.
  module _ (Shape : List Write → Type 0)
      (shaped : (ws : List Write) → Claimed t.id added ws → Shape ws) (hits : List Write → Bool)
      (none_hit : hits [] ≡ false)
      (hits_own : (ws : List Write)
        → Claimed t.id added ws
        → hits ws ≡ true
        → (has_writes ws ≡ true) × (t.id ≡ id)) where
    first_time :
        (s u : Session)
        → End s u
        → (IsSpent id s.committed → t.id ≡ id → ⊥)
        → Effect (IsSpent id) Shape hits s u
    first_time s u e new = record {
      none_pending = e.0;
      keeps = Left-keeps s u e;
      commit = elim e.1 [
        | inl (same, o) ↦ inl same
        | inr c ↦ inr (
          c.ws,
          c.log,
          shaped c.ws c.covered,
          λ h.
              let own = hits_own c.ws c.covered h in
              subst (IsSpent id) (sym c.tables) (Claimed-fires c.base c.ws own.1 c.covered own.0),
          λ spent. elim (Bool-cases (hits c.ws)) [
            | inl h ↦ elim (new spent (hits_own c.ws c.covered h).1) [ ]
            | inr miss ↦ miss
          ],
        )
      ];
    }

    again :
        (s u : Session)
        → End s u
        → (u.log ≡ s.log) ⊎ (u.log ≡ s.log ++ [] ∷ [])
        → Effect (IsSpent id) Shape hits s u
    again s u e logged = record {
      none_pending = e.0;
      keeps = Left-keeps s u e;
      commit = elim logged [
        | inl same ↦ inl same
        | inr blank ↦ inr ([], blank, shaped [] tt, λ h. let no = none_hit in cc, λ known. none_hit)
      ];
    }

    pub fire_one-Effect :
        (s : Session)
        → s.pending ≡ []
        → Effect (IsSpent id) Shape hits s (fire_one env (fire d) t s).1
    unfolding fire_one
    fire_one-Effect s none_in = elim (Bool-cases (pending_timer id s.committed.timers)) [
      | inl waits ↦ first_time s u e (λ spent same. cc)
      | inr spent ↦ elim (Bool-cases (nat_eq t.id id)) [
        | inr other ↦ first_time s u e (λ known same. ground (arith, same, other))
        | inl same ↦
            let here : t.id ≡ id = ground (arith, same) in
            let (clear, still, logged) =
              fire_one_again env (fire d) t
                (subst (λ i. (k : ℕ) → any (inserts_timer i) (env.others k) ≡ false) (sym here)
                  kept)
                s (subst (λ i. pending_timer i s.committed.timers ≡ false) (sym here) spent)
                none_in in
            again s u e logged
      ]
    ]
      where
        u : Session
        u = (fire_one env (fire d) t s).1

        e : End s u
        e = Left-Sealed (fires_timer t.id) on_timers added s (fire_one env (fire d) t s) (
            with_tx-Sealed (fires_timer t.id) on_timers added env kept
              (claim_timer env t.id >>= firing d t id kept) s (fire_one-Bodied d t id kept) none_in)

module _ (d : Deps) (t : Timer)
    (kept : (k : ℕ) → any (inserts_timer t.id) (d.env.others k) ≡ false) where
  open d use {env}

  -- A deadline fires once, and all or nothing. As long as no other transaction inserts a timer of its id,
  -- any number of calls of `fireOne` with one timer commit at most one transaction that writes
  -- anything, and that transaction marks the timer as fired with its first write and writes nothing
  -- else to the timers: the events and messages of an expiry are committed only together with the mark.
  -- This holds whatever other transactions commit before every statement, and whichever statements fail
  -- or take effect and lose their answer.
  pub fire_one_once :
      (n : ℕ) (s : Session)
      → s.pending ≡ []
      → let u = again_and_again n (λ v. (fire_one env (fire d) t v).1) s in
        (new : List (List Write)) × (u.log ≡ s.log ++ new)
        × All (Claimed t.id (inserts_timer t.id)) new
        × (length (keep has_writes new) ≤ 1)
  fire_one_once n s none_in =
      Calls-Once (IsSpent t.id) Shape has_writes (λ v w. w ≡ (fire_one env (fire d) t v).1)
        (λ v w called none_v. subst (Effect (IsSpent t.id) Shape has_writes v) (sym called) (
          fire_one-Effect d t t.id kept Shape (λ ws c. c) has_writes refl (λ ws c h. (h, refl)) v
            none_v))
        none_in (again_and_again-Calls n (λ v. (fire_one env (fire d) t v).1) s)
    where
      Shape : List Write → Type 0
      Shape = Claimed t.id (inserts_timer t.id)
