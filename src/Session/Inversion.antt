-- ===== src/Session/Inversion.antt =====
-- What is known of the parts of a run that succeeds.
use sagaflow.Base.{
  String, ◌≡◌, refl, sym, ap, Bool, true, false, ◌∙◌, List, [], ◌∷◌, inl, inr, Bool-cases,
}
use sagaflow.Errors.{Result, ok, err, wrap, ok-injective}
use sagaflow.Database.{Write}
use sagaflow.Session.{
  admit, admit_all, admissible, Session, Environment, Tx, ◌>>=◌, continue, lift, arrive, statement,
  fails_at, unless_failed, Fault, works, fails, unanswered, finish, commit, commit_now, begin,
  with_tx, end_tx, annotate, in_context,
}

module _ {ℓ} {A B : Type ℓ} where
  continue-ok :
      (r : Result A) (f : A → Tx B) (u t : Session) (b : B)
      → continue r f u ≡ (ok b, t)
      → (a : A) × (r ≡ ok a) × (f a u ≡ (ok b, t))
  continue-ok (ok a) f u t b h = (a, refl, h)
  continue-ok (err e) f u t b h = cc

  pub tx-ok :
      (m : Tx A) (f : A → Tx B) (s t : Session) (b : B)
      → (m >>= f) s ≡ (ok b, t)
      → (a : A) × (u : Session) × (m s ≡ (ok a, u)) × (f a u ≡ (ok b, t))
  tx-ok m f s t b h =
      let (a, e, k) = continue-ok (m s).0 f (m s).1 t b h in (a, (m s).1, λ i. (e i, (m s).1), k)

module _ {ℓ} {A : Type ℓ} where
  pub lift-ok : (r : Result A) (s t : Session) (a : A) → lift r s ≡ (ok a, t) → (r ≡ ok a) × (t ≡ s)
  lift-ok r s t a h =
      (ap (λ (p : Result A × Session). p.0) h, sym (ap (λ (p : Result A × Session). p.1) h))

  unless_failed-ok :
      (b : Bool) (body : Tx A) (s t : Session) (a : A)
      → unless_failed b body s ≡ (ok a, t)
      → body s ≡ (ok a, t)
  unless_failed-ok true body s t a h = cc
  unless_failed-ok false body s t a h = h

  pub statement-ok :
      (env : Environment) (body : Tx A) (s t : Session) (a : A)
      → statement env body s ≡ (ok a, t)
      → body (arrive env s) ≡ (ok a, t)
  unfolding statement
  statement-ok env body s t a h =
      unless_failed-ok (fails_at (env.fault s.step)) body (arrive env s) t a h

  pub in_context-ok : (text : String) (r : Result A) (a : A) → in_context text r ≡ ok a → r ≡ ok a
  in_context-ok text (ok x) a h = h
  in_context-ok text (err e) a h = cc

  pub annotate-ok :
      (text : String) (m : Tx A) (s t : Session) (a : A)
      → annotate text m s ≡ (ok a, t)
      → m s ≡ (ok a, t)
  unfolding annotate
  annotate-ok text m s t a h =
      let r = in_context-ok text (m s).0 a (ap (λ (p : Result A × Session). p.0) h) in
      λ i. (r i, (h i).1)

admit_all-pending : (s : Session) (ws : List Write) → (admit_all s ws).pending ≡ s.pending
unfolding admit_all
admit_all-pending s [] = refl
admit_all-pending s (w ∷ ws) =
    admit_all-pending (admit s w) ws
    ∙ elim (Bool-cases (admissible s w)) [ inl y ↦ rw y refl | inr n ↦ rw n refl ]

-- What others commit leaves the transaction's own writes alone.
pub arrive-pending : (env : Environment) (s : Session) → (arrive env s).pending ≡ s.pending
unfolding arrive
arrive-pending env s = admit_all-pending s (env.others s.step)

module _ (env : Environment) where
  -- Where the body of a transaction starts.
  abbrev pub opened : Session → Session
  opened s = record (arrive env s) {
    pending = [];
    locked = [];
    started = env.clock (arrive env s).step;
  }

  module _ {A : Type 0} where
    finish-ok :
        (f : Fault) (a b : A) (u t : Session)
        → finish f a u ≡ (ok b, t)
        → (a ≡ b) × (t ≡ commit_now u)
    finish-ok works a b u t h =
        let (e, same) = lift-ok (ok a) (commit_now u) t b h in (ok-injective e, same)
    finish-ok fails a b u t h = cc
    finish-ok unanswered a b u t h = cc

    end_tx-ok :
        (r : Result A) (v t : Session) (a : A)
        → end_tx env (r, v) ≡ (ok a, t)
        → (r ≡ ok a) × (t ≡ commit_now (arrive env v))
    unfolding commit
    end_tx-ok (ok b) v t a h =
        let (e, same) = finish-ok (env.fault v.step) b a (arrive env v) t h in (ap ok e, same)
    end_tx-ok (err e) v t a h = cc

    -- A transaction that succeeds has run its body to its end and committed.
    pub with_tx-ok :
        (body : Tx A) (s t : Session) (a : A)
        → with_tx env body s ≡ (ok a, t)
        → (v : Session) × (body (opened s) ≡ (ok a, v)) × (t ≡ commit_now (arrive env v))
    unfolding with_tx begin statement
    with_tx-ok body s t a h = by_begin (fails_at (env.fault s.step)) h
      where
        cleared : Tx (Unit {0})
        cleared u = (ok tt, record u { pending = []; locked = []; started = env.clock u.step })

        by_begin :
            (b : Bool)
            → (let (x, u) = unless_failed {0} b cleared (arrive env s) in
                elim x as (λ y. Result A × Session) [
                  | err e ↦ (err (wrap "begin" e), u)
                  | ok y ↦ end_tx env (body u)
                ])
              ≡ (ok a, t)
            → (v : Session) × (body (opened s) ≡ (ok a, v)) × (t ≡ commit_now (arrive env v))
        by_begin true k = cc
        by_begin false k =
            let (e, same) = end_tx-ok (body (opened s)).0 (body (opened s)).1 t a k in
            ((body (opened s)).1, λ i. (e i, (body (opened s)).1), same)
