-- ===== src/Session/Quiet.antt =====
-- What a statement leaves alone that writes no event: the commits of this connection, the rows that
-- the events table had, the writes that were pending, and the order of versions in every stream.
use mathlib.Core.List.{append_assoc, append-nil}
use sagaflow.Base.{
  ℕ, suc, String, ◌≡◌, refl, sym, ◌∙◌, ap, subst, Bool, true, false, List, [], ◌∷◌, ◌++◌, arith,
  if◌then◌else◌, inl, inr, Bool-cases, length,
}
use sagaflow.Errors.{Result, ok, err}
use sagaflow.Database.{EventRow, Db, Write, insert_event, perform, stream_of, has_version}
use sagaflow.Database.Streams.{
  inserted, added, events-perform, events-perform_all, inserted-append, AllSequential,
  stored-append, seen-append,
}
use sagaflow.Session.{
  Session, Environment, fails_at, unless_failed, continue, Tx, pure, lift, ◌>>=◌, admissible, admit,
  admit_all, arrive, statement, write, draw, annotate,
}

-- In every stream the versions are 1, 2, 3, … in the order of insertion, in what is committed and in
-- what the transaction sees.
pub record IsOrdered (s : Session) : Type 0 where
  pub stored : AllSequential s.committed.events
  pub seen : AllSequential (s.committed.events ++ inserted s.pending)

pub record Quiet (s s' : Session) : Type 0 where
  pub log : s'.log ≡ s.log
  pub new_events : List EventRow
  pub grows : s'.committed.events ≡ s.committed.events ++ new_events
  pub new_writes : List Write
  pub writes : s'.pending ≡ s.pending ++ new_writes
  pub no_events : inserted new_writes ≡ []
  pub ordered : IsOrdered s → IsOrdered s'

pub Quiet-refl : (s : Session) → Quiet s s
Quiet-refl s = record {
  log = refl;
  new_events = [];
  grows = sym (append-nil s.committed.events);
  new_writes = [];
  writes = sym (append-nil s.pending);
  no_events = refl;
  ordered = λ o. o;
}

pub Quiet-trans : {s t u : Session} → Quiet s t → Quiet t u → Quiet s u
Quiet-trans {s} {t} {u} q r = record {
  log = r.log ∙ q.log;
  new_events = q.new_events ++ r.new_events;
  grows =
      r.grows
      ∙ ap (λ l. l ++ r.new_events) q.grows
      ∙ append_assoc s.committed.events q.new_events r.new_events;
  new_writes = q.new_writes ++ r.new_writes;
  writes =
      r.writes
      ∙ ap (λ l. l ++ r.new_writes) q.writes
      ∙ append_assoc s.pending q.new_writes r.new_writes;
  no_events = inserted-append q.new_writes r.new_writes ∙ rw (q.no_events, r.no_events) refl;
  ordered = λ o. r.ordered (q.ordered o);
}

-- The events of another transaction's write are admitted only at the next free version.
admitted-IsOrdered :
    (s : Session) (w : Write)
    → admissible s w ≡ true
    → IsOrdered s
    → IsOrdered (record s { committed = perform s.committed w })
unfolding admissible perform
admitted-IsOrdered s (insert_event r) h o =
    let next : r.version ≡ suc (length (stream_of r.stream_id s.committed.events)) =
      ground (arith, h) in
    let vacant : has_version r.stream_id r.version (s.committed.events ++ inserted s.pending)
        ≡ false =
      rw (← events-perform_all) (ground (arith, h)) in
    record {
      stored = stored-append s.committed.events (inserted s.pending) r o.stored o.seen next vacant;
      seen = seen-append s.committed.events (inserted s.pending) r o.stored o.seen next vacant;
    }
admitted-IsOrdered s _ h o = record { stored = o.stored; seen = o.seen }

admit-Quiet : (s : Session) (w : Write) → Quiet s (admit s w)
admit-Quiet s w = elim (Bool-cases (admissible s w)) [
  | inl yes_admit ↦ rw yes_admit (record {
    log = refl;
    new_events = added w;
    grows = events-perform s.committed w;
    new_writes = [];
    writes = sym (append-nil s.pending);
    no_events = refl;
    ordered = admitted-IsOrdered s w yes_admit;
  })
  | inr refused ↦ rw refused (Quiet-refl s)
]

admit_all-Quiet : (s : Session) (ws : List Write) → Quiet s (admit_all s ws)
unfolding admit_all
admit_all-Quiet s [] = Quiet-refl s
admit_all-Quiet s (w ∷ ws) = Quiet-trans (admit-Quiet s w) (admit_all-Quiet (admit s w) ws)

-- `m` is quiet wherever it starts.
pub record IsQuiet {ℓ} {A : Type ℓ} (m : Tx A) : Type ℓ where
  pub at : (s : Session) → Quiet s (m s).1

-- Changes that touch neither the tables, nor what is pending, nor the record of commits.
pub same_tables :
    {s t : Session} → t.committed ≡ s.committed → t.pending ≡ s.pending → t.log ≡ s.log → Quiet s t
same_tables {s} {t} c p l = record {
  log = l;
  new_events = [];
  grows = ap (λ (d : Db). d.events) c ∙ sym (append-nil s.committed.events);
  new_writes = [];
  writes = p ∙ sym (append-nil s.pending);
  no_events = refl;
  ordered = λ o. record { stored = rw c o.stored; seen = rw (c, p) o.seen };
}

pub Quiet-write : (ws : List Write) (s : Session) → inserted ws ≡ [] → Quiet s (write ws s)
Quiet-write ws s none_in = record {
  log = refl;
  new_events = [];
  grows = sym (append-nil s.committed.events);
  new_writes = ws;
  writes = refl;
  no_events = none_in;
  ordered = λ o. record {
    stored = o.stored;
    seen =
        let same : inserted (s.pending ++ ws) ≡ inserted s.pending =
          inserted-append s.pending ws
          ∙ ap (λ l. inserted s.pending ++ l) none_in
          ∙ append-nil (inserted s.pending) in
        subst (λ l. AllSequential (s.committed.events ++ l)) (sym same) o.seen;
  };
}

pub Quiet-serial : (n : ℕ) (s : Session) → Quiet s (record s { serial = n })
Quiet-serial n s = same_tables refl refl refl

pub draw-IsQuiet : IsQuiet draw
unfolding draw
draw-IsQuiet = record { at = λ s. Quiet-serial (suc s.serial) s }

module _ {ℓ} {A : Type ℓ} where
  pub pure-IsQuiet : (a : A) → IsQuiet (pure a)
  pure-IsQuiet a = record { at = λ s. Quiet-refl s }

  pub lift-IsQuiet : (r : Result A) → IsQuiet (lift r)
  lift-IsQuiet r = record { at = λ s. Quiet-refl s }

  pub if-IsQuiet :
      (b : Bool) (m n : Tx A) → IsQuiet m → IsQuiet n → IsQuiet (λ s. if b then m s else n s)
  if-IsQuiet true m n p q = record { at = λ s. p.at s }
  if-IsQuiet false m n p q = record { at = λ s. q.at s }

  pub annotate-IsQuiet : (text : String) (m : Tx A) → IsQuiet m → IsQuiet (annotate text m)
  unfolding annotate
  annotate-IsQuiet text m q = record { at = λ s. q.at s }

module _ {ℓ} {A B : Type ℓ} where
  pub bind-IsQuiet :
      (m : Tx A) (f : A → Tx B) → IsQuiet m → ((a : A) → IsQuiet (f a)) → IsQuiet (m >>= f)
  bind-IsQuiet m f q k = record { at = λ s. let (r, t) = m s in Quiet-trans (q.at s) (rest r t) }
    where
      rest : (r : Result A) (t : Session) → Quiet t (continue r f t).1
      rest (ok a) t = (k a).at t
      rest (err e) t = Quiet-refl t

module _ {ℓ} {A : Type ℓ} where
  unless_failed-IsQuiet : (b : Bool) (body : Tx A) → IsQuiet body → IsQuiet (unless_failed b body)
  unless_failed-IsQuiet true body q = record { at = λ s. Quiet-refl s }
  unless_failed-IsQuiet false body q = record { at = λ s. q.at s }

module _ (env : Environment) where
  pub arrive-Quiet : (s : Session) → Quiet s (arrive env s)
  unfolding arrive
  arrive-Quiet s = Quiet-trans (admit_all-Quiet s (env.others s.step)) (same_tables refl refl refl)

  pub statement-IsQuiet {ℓ} :
      {A : Type ℓ} (body : Tx A) → IsQuiet body → IsQuiet (statement env body)
  unfolding statement
  statement-IsQuiet body q = record {
    at = λ s.
        Quiet-trans (arrive-Quiet s)
          ((unless_failed-IsQuiet (fails_at (env.fault s.step)) body q).at (arrive env s));
  }

pub ruleset quiet_rules = (
  pure-IsQuiet, lift-IsQuiet, bind-IsQuiet, if-IsQuiet, annotate-IsQuiet, statement-IsQuiet,
  draw-IsQuiet,
)
