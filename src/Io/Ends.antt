-- ===== src/Io/Ends.antt =====
-- What holds when code that may fail returns: one condition for each way out, and the rules for the parts
-- of the code.
use sagaflow.Base.{String}
use sagaflow.Errors.{Result, ok, err, in_context}
use sagaflow.Io.{Io, continue, annotate, deferred, or_undo, ◌>>=◌}

module _ {S A : Type 0} where
  abbrev pub Ends : (A → S → Type 0) → (S → Type 0) → Result A × S → Type 0
  Ends good bad (ok a, s) = good a s
  Ends good bad (err e, s) = bad s

  pub both-Ends : (P : S → Type 0) (r : Result A) (s : S) → P s → Ends (λ (a : A). P) P (r, s)
  both-Ends P (ok a) s h = h
  both-Ends P (err e) s h = h

  module _ (good : A → S → Type 0) (bad : S → Type 0) where
    annotated :
        (text : String) (r : Result A) (s : S)
        → Ends good bad (r, s)
        → Ends good bad (in_context text r, s)
    annotated text (ok a) s h = h
    annotated text (err e) s h = h

    pub annotate-Ends :
        (text : String) (m : Io S A) (s : S)
        → Ends good bad (m s)
        → Ends good bad (annotate text m s)
    unfolding annotate
    annotate-Ends text m s h = annotated text (m s).0 (m s).1 h

    weakened :
        (good' : A → S → Type 0) (bad' : S → Type 0) (r : Result A) (s : S)
        → Ends good bad (r, s)
        → ((a : A) (t : S) → good a t → good' a t)
        → ((t : S) → bad t → bad' t)
        → Ends good' bad' (r, s)
    weakened good' bad' (ok a) s h g b = g a s h
    weakened good' bad' (err e) s h g b = b s h

    pub weaken-Ends :
        (good' : A → S → Type 0) (bad' : S → Type 0) (p : Result A × S)
        → Ends good bad p
        → ((a : A) (t : S) → good a t → good' a t)
        → ((t : S) → bad t → bad' t)
        → Ends good' bad' p
    weaken-Ends good' bad' p h g b = weakened good' bad' p.0 p.1 h g b

    ended_by :
        (last : S → S) (r : Result A) (s : S)
        → Ends (λ a t. good a (last t)) (λ t. bad (last t)) (r, s)
        → Ends good bad (r, last s)
    ended_by last (ok a) s h = h
    ended_by last (err e) s h = h

    pub deferred-Ends :
        (last : S → S) (m : Io S A) (s : S)
        → Ends (λ a t. good a (last t)) (λ t. bad (last t)) (m s)
        → Ends good bad (deferred last m s)
    unfolding deferred
    deferred-Ends last m s h = ended_by last (m s).0 (m s).1 h

    undone :
        (undo : S → S) (r : Result A) (s : S)
        → Ends good (λ t. bad (undo t)) (r, s)
        → Ends good bad (or_undo undo (λ x. (r, s)) s)
    unfolding or_undo
    undone undo (ok a) s h = h
    undone undo (err e) s h = h

    pub or_undo-Ends :
        (undo : S → S) (m : Io S A) (s : S)
        → Ends good (λ t. bad (undo t)) (m s)
        → Ends good bad (or_undo undo m s)
    unfolding or_undo
    or_undo-Ends undo m s h = undone undo (m s).0 (m s).1 h

module _ {S A B : Type 0} (good : A → S → Type 0) (good' : B → S → Type 0) (bad : S → Type 0) where
  continued :
      (r : Result A) (f : A → Io S B) (s : S)
      → Ends good bad (r, s)
      → ((a : A) (t : S) → good a t → Ends good' bad (f a t))
      → Ends good' bad (continue r f s)
  continued (ok a) f s h k = k a s h
  continued (err e) f s h k = h

  pub bind-Ends :
      (m : Io S A) (f : A → Io S B) (s : S)
      → Ends good bad (m s)
      → ((a : A) (t : S) → good a t → Ends good' bad (f a t))
      → Ends good' bad ((m >>= f) s)
  bind-Ends m f s h k = continued (m s).0 f (m s).1 h k

-- From where `pre` holds, the code ends as `good` or `bad` says.
pub record Leads {S A : Type 0} (pre : S → Type 0) (good : A → S → Type 0) (bad : S → Type 0)
    (m : Io S A) : Type 0 where
  pub at : (s : S) → pre s → Ends good bad (m s)

module _ {S : Type 0} where
  pub bind-Leads :
      {A B : Type 0} {pre bad : S → Type 0} {middle : A → S → Type 0} {good : B → S → Type 0}
      {m : Io S A} {f : A → Io S B}
      → Leads pre middle bad m
      → ((a : A) → Leads (middle a) good bad (f a))
      → Leads pre good bad (m >>= f)
  bind-Leads {A} {B} {pre} {bad} {middle} {good} {m} {f} first next = record {
    at = λ s h. bind-Ends middle good bad m f s (first.at s h) (λ a t i. (next a).at t i);
  }

  module _ {A : Type 0} {pre bad : S → Type 0} {good : A → S → Type 0} where
    pub annotate-Leads :
        (text : String) {m : Io S A} → Leads pre good bad m → Leads pre good bad (annotate text m)
    annotate-Leads text {m} l = record { at = λ s h. annotate-Ends good bad text m s (l.at s h) }

    -- The deferred call turns the ends of `m` into those of the whole.
    pub deferred-Leads :
        {within : A → S → Type 0} {broken : S → Type 0} {m : Io S A} (last : S → S)
        → Leads pre within broken m
        → ((a : A) (t : S) → within a t → good a (last t))
        → ((t : S) → broken t → bad (last t))
        → Leads pre good bad (deferred last m)
    deferred-Leads {within} {broken} {m} last l g b = record {
      at = λ s h. deferred-Ends good bad last m s (
          weaken-Ends within broken (λ a t. good a (last t)) (λ t. bad (last t)) (m s) (l.at s h) g
            b);
    }

    pub or_undo-Leads :
        {broken : S → Type 0} {m : Io S A} (undo : S → S)
        → Leads pre good broken m
        → ((t : S) → broken t → bad (undo t))
        → Leads pre good bad (or_undo undo m)
    or_undo-Leads {broken} {m} undo l b = record {
      at = λ s h.
          or_undo-Ends good bad undo m s
            (weaken-Ends good broken good (λ t. bad (undo t)) (m s) (l.at s h) (λ a t i. i) b);
    }
