-- ===== src/Session/Growth.antt =====
-- Code on a connection that only adds writes of some kinds to its transaction, whether it succeeds or not,
-- and commits nothing.
use mathlib.Core.List.{append_assoc, append-nil}
use sagaflow.Base.{
  ℕ, any, inl, inr, Bool-cases, String, ◌≡◌, refl, sym, ◌∙◌, ap, Bool, true, false, List, [], ◌∷◌,
  ◌++◌, All, if◌then◌else◌,
}
use sagaflow.Errors.{Result, ok, err}
use sagaflow.Database.{Write, perform_all}
use sagaflow.Database.Streams.{perform_all-append}
use sagaflow.Session.{
  admit, admit_all, admissible, Session, Environment, Tx, pure, lift, ◌>>=◌, continue, draw,
  annotate, statement, arrive, unless_failed, fails_at,
}

pub All-append {ℓ κ} :
    {A : Type ℓ} (P : A → Type κ) (xs ys : List A) → All P xs → All P ys → All P (xs ++ ys)
All-append P [] ys h k = k
All-append P (x ∷ xs) ys h k = (h.0, All-append P xs ys h.1 k)

module _ (bad breaks : Write → Bool) where
  -- No write of a bad kind.
  abbrev pub Clean : List Write → Type 0
  Clean ws = All (λ w. bad w ≡ false) ws

  -- From `s` to `t` nothing was committed and clean writes were added, while what others committed
  -- broke nothing.
  pub record Grows (s t : Session) : Type 0 where
    pub log : t.log ≡ s.log
    pub new_writes : List Write
    pub writes : t.pending ≡ s.pending ++ new_writes
    pub clean : Clean new_writes
    pub theirs : List Write
    pub tables : t.committed ≡ perform_all s.committed theirs
    pub foreign : All (λ w. breaks w ≡ false) theirs

  pub Grows-refl : (s : Session) → Grows s s
  unfolding perform_all
  Grows-refl s = record {
    log = refl;
    new_writes = [];
    writes = sym (append-nil s.pending);
    clean = tt;
    theirs = [];
    tables = refl;
    foreign = tt;
  }

  pub Grows-trans : {s t u : Session} → Grows s t → Grows t u → Grows s u
  Grows-trans {s} {t} {u} g h = record {
    log = h.log ∙ g.log;
    new_writes = g.new_writes ++ h.new_writes;
    writes =
        h.writes
        ∙ ap (λ l. l ++ h.new_writes) g.writes
        ∙ append_assoc s.pending g.new_writes h.new_writes;
    clean = All-append (λ w. bad w ≡ false) g.new_writes h.new_writes g.clean h.clean;
    theirs = g.theirs ++ h.theirs;
    tables =
        h.tables
        ∙ ap (λ b. perform_all b h.theirs) g.tables
        ∙ sym (perform_all-append s.committed g.theirs h.theirs);
    foreign = All-append (λ w. breaks w ≡ false) g.theirs h.theirs g.foreign h.foreign;
  }

  pub Grows-write :
      (ws : List Write) (s t : Session)
      → Clean ws
      → t.log ≡ s.log
      → t.pending ≡ s.pending ++ ws
      → t.committed ≡ s.committed
      → Grows s t
  unfolding perform_all
  Grows-write ws s t c l p b = record {
    log = l;
    new_writes = ws;
    writes = p;
    clean = c;
    theirs = [];
    tables = b;
    foreign = tt;
  }

  -- `m` grows wherever it starts.
  pub record IsGrowing {ℓ} {A : Type ℓ} (m : Tx A) : Type ℓ where
    pub at : (s : Session) → Grows s (m s).1

  pub draw-IsGrowing : IsGrowing draw
  unfolding draw
  draw-IsGrowing = record { at = λ s. Grows-write [] s _ tt refl (sym (append-nil s.pending)) refl }

  module _ {ℓ} {A : Type ℓ} where
    pub pure-IsGrowing : (a : A) → IsGrowing (pure a)
    pure-IsGrowing a = record { at = λ s. Grows-refl s }

    pub lift-IsGrowing : (r : Result A) → IsGrowing (lift r)
    lift-IsGrowing r = record { at = λ s. Grows-refl s }

    pub if-IsGrowing :
        (b : Bool) (m n : Tx A)
        → IsGrowing m
        → IsGrowing n
        → IsGrowing (λ s. if b then m s else n s)
    if-IsGrowing true m n p q = record { at = λ s. p.at s }
    if-IsGrowing false m n p q = record { at = λ s. q.at s }

    pub annotate-IsGrowing : (text : String) (m : Tx A) → IsGrowing m → IsGrowing (annotate text m)
    unfolding annotate
    annotate-IsGrowing text m q = record { at = λ s. q.at s }

  module _ {ℓ} {A B : Type ℓ} where
    pub bind-IsGrowing :
        (m : Tx A) (f : A → Tx B) → IsGrowing m → ((a : A) → IsGrowing (f a)) → IsGrowing (m >>= f)
    bind-IsGrowing m f q k = record {
      at = λ s. let (r, t) = m s in Grows-trans (q.at s) (rest r t);
    }
      where
        rest : (r : Result A) (t : Session) → Grows t (continue r f t).1
        rest (ok a) t = (k a).at t
        rest (err e) t = Grows-refl t

  admit_all-Grows :
      (s : Session) (ws : List Write) → any breaks ws ≡ false → Grows s (admit_all s ws)
  unfolding admit_all any perform_all
  admit_all-Grows s [] h = Grows-refl s
  admit_all-Grows s (w ∷ ws) h = elim (Bool-cases (breaks w)) [
    | inl broken ↦ let no = rw broken at h in cc
    | inr kept ↦ Grows-trans (one kept) (admit_all-Grows (admit s w) ws (rw kept at h))
  ]
    where
      one : breaks w ≡ false → Grows s (admit s w)
      one kept = elim (Bool-cases (admissible s w)) [
        | inl y ↦ rw y (record {
          log = refl;
          new_writes = [];
          writes = sym (append-nil s.pending);
          clean = tt;
          theirs = w ∷ [];
          tables = refl;
          foreign = (kept, tt);
        })
        | inr n ↦ rw n (Grows-refl s)
      ]

  module _ (env : Environment) (kept : (k : ℕ) → any breaks (env.others k) ≡ false) where
    pub arrive-Grows : (s : Session) → Grows s (arrive env s)
    unfolding arrive
    arrive-Grows s =
        let g = admit_all-Grows s (env.others s.step) (kept s.step) in
        record {
          log = g.log;
          new_writes = g.new_writes;
          writes = g.writes;
          clean = g.clean;
          theirs = g.theirs;
          tables = g.tables;
          foreign = g.foreign;
        }

    pub statement-IsGrowing {ℓ} :
        {A : Type ℓ} (body : Tx A) → IsGrowing body → IsGrowing (statement env body)
    unfolding statement
    statement-IsGrowing {A} body q = record {
      at = λ s. Grows-trans (arrive-Grows s) (unless (fails_at (env.fault s.step)) (arrive env s));
    }
      where
        unless : (b : Bool) (t : Session) → Grows t (unless_failed b body t).1
        unless true t = Grows-refl t
        unless false t = q.at t

    pub annotated-IsGrowing {ℓ} :
        {A : Type ℓ} (text : String) (body : Tx A)
        → IsGrowing body
        → IsGrowing (annotate text (statement env body))
    annotated-IsGrowing text body q =
        annotate-IsGrowing text (statement env body) (statement-IsGrowing body q)

pub ruleset growing_rules = (
  pure-IsGrowing, lift-IsGrowing, bind-IsGrowing, if-IsGrowing, annotate-IsGrowing,
  statement-IsGrowing, draw-IsGrowing,
)
