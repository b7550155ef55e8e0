-- ===== src/Inventory/Service/Ends.antt =====
-- internal/inventory/wire.go: what `Run` returns, from how the loops ended.
use sagaflow.Base.{
  ◌≡◌, refl, ◌∙◌, ap, true, false, Option, none, some, List, [], ◌∷◌, ◌++◌, if◌then◌else◌, inl, inr,
  Bool-cases,
}
use sagaflow.Errors.{Error, Result, ok, err, wrap, canceled, errors_is}
use sagaflow.Inventory.Service.{Loop, loop_name, Running, loop_ends, all_end, run, first_of_channel}

-- The first loop that ended otherwise than by cancellation, named in its error.
unfoldable pub first_failure : List (Loop × Result (Unit {0})) → Option Error
first_failure [] = none
first_failure ((l, ok u) ∷ rest) = first_failure rest
first_failure ((l, err e) ∷ rest) =
    if errors_is e canceled then first_failure rest else some (wrap (loop_name l) e)

abbrev or_else : Option Error → Option Error → Option Error
or_else none b = b
or_else (some a) b = some a

or_else-none : (a : Option Error) → a ≡ or_else a none
or_else-none none = refl
or_else-none (some a) = refl

or_else_assoc : (a b c : Option Error) → or_else (or_else a b) c ≡ or_else a (or_else b c)
or_else_assoc none b c = refl
or_else_assoc (some a) b c = refl

first-append :
    (es : List Error) (e : Error)
    → first_of_channel (es ++ e ∷ []) ≡ or_else (first_of_channel es) (some e)
first-append [] e = refl
first-append (x ∷ es) e = refl

skipped :
    (l : Loop) (e : Error) (r : Running) → errors_is e canceled ≡ true → loop_ends l (err e) r ≡ r
unfolding loop_ends
skipped l e r y = rw y refl

recorded :
    (l : Loop) (e : Error) (r : Running)
    → errors_is e canceled ≡ false
    → loop_ends l (err e) r
      ≡ record { failures = r.failures ++ wrap (loop_name l) e ∷ []; cancelled = true }
unfolding loop_ends
recorded l e r n = rw n refl

first-all_end :
    (ends : List (Loop × Result (Unit {0}))) (r : Running)
    → first_of_channel (all_end ends r).failures
      ≡ or_else (first_of_channel r.failures) (first_failure ends)
unfolding all_end loop_ends first_failure
first-all_end [] r = or_else-none (first_of_channel r.failures)
first-all_end ((l, ok u) ∷ rest) r = first-all_end rest r
first-all_end ((l, err e) ∷ rest) r = elim (Bool-cases (errors_is e canceled)) [
  | inl y ↦
      ap (λ x. first_of_channel (all_end rest x).failures) (skipped l e r y)
      ∙ rw y (first-all_end rest r)
  | inr n ↦
      let failed = wrap (loop_name l) e in
      ap (λ x. first_of_channel (all_end rest x).failures) (recorded l e r n)
      ∙ rw n (
          first-all_end rest (record { failures = r.failures ++ failed ∷ []; cancelled = true })
          ∙ ap (λ o. or_else o (first_failure rest)) (first-append r.failures failed)
          ∙ or_else_assoc (first_of_channel r.failures) (some failed) (first_failure rest))
]

-- `Run` returns the first failure that is not a cancellation, and nil if there is none.
pub run-first_failure : (ends : List (Loop × Result (Unit {0}))) → run ends ≡ first_failure ends
unfolding run first_failure
run-first_failure ends = first-all_end ends (record { failures = []; cancelled = false })
