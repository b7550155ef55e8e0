-- ===== src/Io.antt =====
-- Go code that calls what it does not implement: a function of the state of all that it calls, with an
-- error as a value.
pub mod Ends
use sagaflow.Base.{String, ◌≡◌, refl, ap, List, [], ◌∷◌}
use sagaflow.Errors.{Error, Result, ok, err, in_context}

abbrev pub Io : Type 0 → Type 0 → Type 0
Io S A = S → Result A × S

module _ {S A : Type 0} where
  abbrev pub pure : A → Io S A
  pure a s = (ok a, s)

  abbrev pub fail : Error → Io S A
  fail e s = (err e, s)

  unfoldable pub annotate : String → Io S A → Io S A
  annotate text m s = let (r, s') = m s in (in_context text r, s')

  -- A deferred call runs on every way out.
  unfoldable pub deferred : (S → S) → Io S A → Io S A
  deferred last m s = let (r, s') = m s in (r, last s')

  abbrev on_error : (S → S) → Result A × S → Result A × S
  on_error undo (ok a, s) = (ok a, s)
  on_error undo (err e, s) = (err e, undo s)

  -- What is undone only on an error.
  unfoldable pub or_undo : (S → S) → Io S A → Io S A
  or_undo undo m s = on_error undo (m s)

module _ {S A B : Type 0} where
  abbrev pub continue : Result A → (A → Io S B) → Io S B
  continue (ok a) f s = f a s
  continue (err e) f s = (err e, s)

infixl 5 ◌>>=◌ ◌>>◌
abbrev pub ◌>>=◌ : {S A B : Type 0} → Io S A → (A → Io S B) → Io S B
◌>>=◌ m f s = let (r, s') = m s in continue r f s'

abbrev pub ◌>>◌ : {S B : Type 0} → Io S (Unit {0}) → Io S B → Io S B
m >> n = m >>= λ _. n
