-- ===== src/Session/Idle.antt =====
-- internal/platform/pg/pg.go: a transaction that writes nothing, under a condition on the tables that the
-- writes of other transactions keep.
use sagaflow.Base.{
  ℕ, ◌≡◌, refl, sym, ◌∙◌, ap, subst, Bool, true, false, List, [], ◌∷◌, ◌++◌, inl, inr, ◌⊎◌, any,
  Bool-cases,
}
use sagaflow.Errors.{Result, ok, err, wrap, errors_is, version_conflict}
use sagaflow.Database.{Db, Write, perform, perform_all}
use sagaflow.Session.{
  Session, Environment, Tx, Fault, works, fails, unanswered, admit, admit_all, admissible, arrive,
  statement, begin, commit, finish, commit_now, with_tx, end_tx, unless_failed, fails_at,
}

-- No conflict is reported.
abbrev pub Settles : {A : Type 0} → Result A → Type 0
Settles (ok a) = Unit {0}
Settles (err e) = errors_is e version_conflict ≡ false

-- `P` holds of the tables, and a write that `breaks` does not reach keeps it.
module _ (P : Db → Type 0) (breaks : Write → Bool)
    (keeps : (d : Db) (w : Write) → breaks w ≡ false → P d → P (perform d w)) where
  -- `P` holds, nothing is pending, and these were the commits.
  pub record Idle (log : List (List Write)) (s : Session) : Type 0 where
    pub known : P s.committed
    pub none_pending : s.pending ≡ []
    pub logged : s.log ≡ log

  admit-Idle :
      (log : List (List Write)) (s : Session) (w : Write)
      → breaks w ≡ false
      → Idle log s
      → Idle log (admit s w)
  admit-Idle log s w kept i = elim (Bool-cases (admissible s w)) [
    | inl yes_admit ↦ rw yes_admit (record {
      known = keeps s.committed w kept i.known;
      none_pending = i.none_pending;
      logged = i.logged;
    })
    | inr no_admit ↦ rw no_admit i
  ]

  admit_all-Idle :
      (log : List (List Write)) (s : Session) (ws : List Write)
      → any breaks ws ≡ false
      → Idle log s
      → Idle log (admit_all s ws)
  unfolding admit_all any
  admit_all-Idle log s [] k i = i
  admit_all-Idle log s (w ∷ ws) k i = elim (Bool-cases (breaks w)) [
    | inl broken ↦ let no = rw broken at k in cc
    | inr kept ↦ admit_all-Idle log (admit s w) ws (rw kept at k) (admit-Idle log s w kept i)
  ]

  committing :
      (log : List (List Write)) (s : Session) → Idle log s → Idle (log ++ [] ∷ []) (commit_now s)
  unfolding perform_all
  committing log s i = record {
    known = subst (λ ws. P (perform_all s.committed ws)) (sym i.none_pending) i.known;
    none_pending = refl;
    logged = ap (λ l. l ++ s.pending ∷ []) i.logged ∙ ap (λ ws. log ++ ws ∷ []) i.none_pending;
  }

  -- Nothing is committed, or a commit without a write.
  abbrev pub Inert : {A : Type 0} → List (List Write) → Result A × Session → Type 0
  Inert log p = Idle log p.1 ⊎ (Idle (log ++ [] ∷ []) p.1 × Settles p.0)

  module _ (env : Environment) (kept : (k : ℕ) → any breaks (env.others k) ≡ false) where
    pub arrive-Idle : (log : List (List Write)) (s : Session) → Idle log s → Idle log (arrive env s)
    unfolding arrive
    arrive-Idle log s i =
        let j = admit_all-Idle log s (env.others s.step) (kept s.step) i in
        record { known = j.known; none_pending = j.none_pending; logged = j.logged }

    module _ {A : Type 0} where
      finish-Inert :
          (log : List (List Write)) (f : Fault) (a : A) (s : Session)
          → Idle log s
          → Inert log (finish f a s)
      unfolding errors_is
      finish-Inert log works a s i = inr (committing log s i, tt)
      finish-Inert log fails a s i =
          inl (record { known = i.known; none_pending = refl; logged = i.logged })
      finish-Inert log unanswered a s i = inr (committing log s i, refl)

      end_tx-Inert :
          (log : List (List Write)) (p : Result A × Session)
          → Idle log p.1
          → Inert log (end_tx env p)
      unfolding commit
      end_tx-Inert log (ok a, s) i =
          finish-Inert log (env.fault s.step) a (arrive env s) (arrive-Idle log s i)
      end_tx-Inert log (err e, s) i =
          inl (record { known = i.known; none_pending = refl; logged = i.logged })

      -- A transaction whose body stays idle.
      pub with_tx-Inert :
          (body : Tx A) (log : List (List Write)) (s : Session)
          → ((u : Session) → Idle log u → Idle log (body u).1)
          → Idle log s
          → Inert log (with_tx env body s)
      unfolding with_tx begin statement
      with_tx-Inert body log s stays i = by_begin (fails_at (env.fault s.step))
        where
          j : Idle log (arrive env s)
          j = arrive-Idle log s i

          cleared : Session → Session
          cleared t = record t { pending = []; locked = []; started = env.clock t.step }

          ending : Session → Result A × Session
          ending t = end_tx env (body t)

          by_begin :
              (b : Bool)
              → Inert {A = A} log (
                  let (x, t) =
                    unless_failed {0} {A = Unit {0}} b (λ t. (ok tt, cleared t)) (arrive env s) in
                  elim x [ err e ↦ (err (wrap "begin" e), t) | ok u ↦ ending t ])
          by_begin true = inl j
          by_begin false = end_tx-Inert log (body (cleared (arrive env s))) (
              stays (cleared (arrive env s))
                (record { known = j.known; none_pending = refl; logged = j.logged }))
