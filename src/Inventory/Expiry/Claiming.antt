-- ===== src/Inventory/Expiry/Claiming.antt =====
-- internal/inventory/expiry.go and internal/platform/timers/scheduler.go: a transaction that fires a timer
-- commits its events together with the mark on the timer.
use sagaflow.Base.{
  ℕ, ◌≡◌, refl, sym, ◌∙◌, ap, subst, Bool, true, false, List, [], ◌∷◌, ◌++◌, inl, inr, any, nat_eq,
  arith, Bool-cases, if◌then◌else◌,
}
use sagaflow.Errors.{Result, ok, err, ok-injective}
use sagaflow.Contracts.{ProtoMessage}
use sagaflow.Database.{
  Db, Write, insert_timer, prune_timers, mark_fired, fire_rows, pending_timer, perform,
}
use sagaflow.Session.{Session, Tx, view, write, arrive, statement, continue, pure, ◌>>=◌}
use sagaflow.Session.Inversion.{annotate-ok, statement-ok, lift-ok, arrive-pending}
use sagaflow.Session.Growth.{
  Grows, Grows-refl, Grows-write, IsGrowing, bind-IsGrowing, pure-IsGrowing, annotated-IsGrowing,
}
use sagaflow.Session.Repeated.{Covered, Bodied, Others-trans, Covered-Grows}
use sagaflow.Timers.{Timer, claim_row, claim_timer}
use sagaflow.Timers.Once.{fired}
use sagaflow.Timers.Spent.{inserts_timer, IsSpent-perform}
use sagaflow.Seat.{SeatState, Outcome, expire, messages}
use sagaflow.Codec.{Meta}
use sagaflow.Inventory.Commands.{Deps}
use sagaflow.Inventory.Commands.Growing.{
  load_seat-IsGrowing, append_seat-IsGrowing, outgoing-IsGrowing, enqueue-IsGrowing,
}
use sagaflow.Inventory.Expiry.{expiry_meta, expiry_template, publish_expiry, unless_nothing, fire}

-- Whether a write marks the timer as fired.
abbrev pub fires_timer : ℕ → Write → Bool
fires_timer id (mark_fired i now) = nat_eq i id
fires_timer id _ = false

-- Whether a write is one to the timers.
abbrev pub on_timers : Write → Bool
on_timers (insert_timer r) = true
on_timers (mark_fired i now) = true
on_timers (prune_timers now age) = true
on_timers _ = false

-- What a transaction that fires the timer commits.
abbrev pub Claimed : ℕ → (Write → Bool) → List Write → Type 0
Claimed id breaks ws = Covered (fires_timer id) on_timers breaks ws

module _ (id : ℕ) where
  -- No timer of this id waits.
  abbrev pub IsSpent : Db → Type 0
  IsSpent b = pending_timer id b.timers ≡ false

  pub fires_spent : (b : Db) (w : Write) → fires_timer id w ≡ true → IsSpent (perform b w)
  unfolding perform
  fires_spent b (mark_fired i now) h =
      let same : i ≡ id = ground (arith, h) in
      subst (λ j. pending_timer id (fire_rows j now b.timers) ≡ false) (sym same)
        (fired id now b.timers)
  fires_spent b _ h = cc

  pub stays_spent :
      (b : Db) (w : Write) → inserts_timer id w ≡ false → IsSpent b → IsSpent (perform b w)
  stays_spent = IsSpent-perform id

-- One timer, and the id that its firing is looked at for.
module _ (d : Deps) (t : Timer) (id : ℕ)
    (kept : (k : ℕ) → any (inserts_timer id) (d.env.others k) ≡ false) where
  open d use {json, timestamps, header_json, env}

  abbrev added : Write → Bool
  added = inserts_timer id

  publish_expiry-IsGrowing :
      (state : SeatState) (origin : Meta) (decision : Outcome)
      → IsGrowing on_timers added (publish_expiry d t state origin decision)
  unfolding publish_expiry
  publish_expiry-IsGrowing state origin decision =
      bind-IsGrowing on_timers added _ _
        (append_seat-IsGrowing d on_timers added kept (λ r. refl) t.subject state.version
          decision.events (expiry_meta origin))
        (λ u.
          bind-IsGrowing on_timers added _ _
            (outgoing-IsGrowing d on_timers added kept (expiry_template origin t.subject)
              (messages decision))
            (λ msgs. enqueue-IsGrowing d on_timers added kept (λ r. refl) refl msgs))

  fire-IsGrowing : IsGrowing on_timers added (fire d t)
  unfolding fire
  fire-IsGrowing =
      bind-IsGrowing on_timers added _ _ (load_seat-IsGrowing d on_timers added kept t.subject)
        (λ p.
          by_events (expire p.0 t.subject t.token).events _
            (publish_expiry-IsGrowing p.0 p.1 (expire p.0 t.subject t.token)))
    where
      by_events :
          (events : List ProtoMessage) (m : Tx (Unit {0}))
          → IsGrowing on_timers added m
          → IsGrowing on_timers added (unless_nothing d events m)
      by_events [] m g = pure-IsGrowing on_timers added tt
      by_events (e ∷ es) m g = g

  -- After the claim: the timer is marked exactly if it was claimed.
  abbrev Claims : Bool → List Write → Type 0
  Claims true ws = (w : Write) × (ws ≡ w ∷ []) × (fires_timer t.id w ≡ true)
  Claims false ws = ws ≡ []

  claim_row-Claims :
      (s u : Session) (got : Bool)
      → s.pending ≡ []
      → claim_row env t.id s ≡ (ok got, u)
      → Claims got u.pending
  claim_row-Claims s u got none_in h = elim (Bool-cases (pending_timer t.id (view s).timers)) [
    | inr gone ↦
        let (e, same) = lift-ok (ok false) s u got (rw gone at h) in
        subst (λ b. Claims b u.pending) (ok-injective e)
          (ap (λ (x : Session). x.pending) same ∙ none_in)
    | inl waits ↦
        let mark : Write = mark_fired t.id s.started in
        let marked : fires_timer t.id mark ≡ true = ground arith in
        let (e, same) = lift-ok (ok true) (write (mark ∷ []) s) u got (rw waits at h) in
        subst (λ b. Claims b u.pending) (ok-injective e)
          (mark, ap (λ (x : Session). x.pending) same ∙ ap (λ l. l ++ mark ∷ []) none_in, marked)
  ]

  claim_row-IsGrowing : IsGrowing added added (claim_row env t.id)
  claim_row-IsGrowing = record {
    at = λ s. elim (Bool-cases (pending_timer t.id (view s).timers)) [
      | inl waits ↦ rw waits (Grows-write added added (_ ∷ []) s _ (refl, tt) refl refl refl)
      | inr gone ↦ rw gone (Grows-refl added added s)
    ];
  }

  claim_timer-IsGrowing : IsGrowing added added (claim_timer env t.id)
  unfolding claim_timer
  claim_timer-IsGrowing =
      annotated-IsGrowing added added env kept "timers" (claim_row env t.id) claim_row-IsGrowing

  abbrev pub Body : {A : Type 0} → Session → Result A × Session → Type 0
  Body s p = Bodied (fires_timer t.id) on_timers added s p

  -- The transaction of `fireOne`.
  abbrev pub firing : Bool → Tx Bool
  firing got = if got then (do u ← fire d t; pure true) else pure false

  pub fire_one-Bodied :
      (s : Session) → s.pending ≡ [] → Body s ((claim_timer env t.id >>= firing) s)
  unfolding claim_timer
  fire_one-Bodied s none_in = by_result m.0 m.1 (claim_timer-IsGrowing.at s) (λ got h.
      claim_row-Claims (arrive env s) m.1 got (arrive-pending env s ∙ none_in) (
        statement-ok env (claim_row env t.id) s m.1 got
          (annotate-ok "timers" (statement env (claim_row env t.id)) s m.1 got (λ i. (h i, m.1)))))
    where
      m : Result Bool × Session
      m = claim_timer env t.id s

      by_result :
          (r : Result Bool) (u : Session)
          → Grows added added s u
          → ((got : Bool) → r ≡ ok got → Claims got u.pending)
          → Body s (continue r firing u)
      by_result (err e) u g claims = (g.log, (g.theirs, g.tables, g.foreign), λ a h. cc)
      by_result (ok false) u g claims =
          (g.log, (g.theirs, g.tables, g.foreign), λ a h. rw (claims false refl) tt)
      by_result (ok true) u g claims =
          let f =
            (bind-IsGrowing on_timers added (fire d t) (λ x. pure true) fire-IsGrowing
                (λ x. pure-IsGrowing on_timers added true)).at
              u in
          let (w, alone, mark) = claims true refl in
          (
            f.log ∙ g.log,
            Others-trans added s.committed u.committed _ (g.theirs, g.tables, g.foreign)
                (f.theirs, f.tables, f.foreign),
            λ a h. Covered-Grows (fires_timer t.id) on_timers added u _ w f alone mark,
          )
