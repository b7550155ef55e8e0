-- ===== src/Inventory/Commands/Failing.antt =====
-- internal/inventory/store.go: an `AppendSeat` that fails has written nothing.
use sagaflow.Base.{
  ℕ, ◌+◌, String, ◌≡◌, refl, Bool, true, false, List, [], ◌∷◌, length, inl, inr, Bool-cases,
}
use sagaflow.Errors.{Error, Result, ok, err}
use sagaflow.Contracts.{ProtoMessage}
use sagaflow.Session.{Session, Tx, view, arrive, statement, unless_failed, fails_at, continue}
use sagaflow.Session.Quiet.{Quiet, arrive-Quiet, Quiet-refl, Quiet-trans, Quiet-serial}
use sagaflow.Codec.{Event, Meta}
use sagaflow.EventStore.Rows.{Columns, columns, rows_from}
use sagaflow.EventStore.{append, insert_rows, translated, translate, any_taken}
use sagaflow.Inventory.Store.{encode_all, append_seat}
use sagaflow.Inventory.Commands.{Deps}

module _ (d : Deps) (meta : Meta) (seat : String) where
  open d use {json, timestamps, header_json, env}

  insert_rows-failed :
      (v : ℕ) (cols : List Columns) (s : Session) (e : Error)
      → (insert_rows json seat v cols s).0 ≡ err e
      → Quiet s (insert_rows json seat v cols s).1
  unfolding insert_rows
  insert_rows-failed v cols s e h =
      elim (Bool-cases
        (any_taken seat (view s).events (rows_from json seat v s.serial s.started cols))) [
          | inl taken ↦ rw taken (Quiet-serial (s.serial + length cols) s)
          | inr vacant ↦ let no : ok tt ≡ err e = rw vacant at h in cc
        ]

  insertion-failed :
      (v : ℕ) (cols : List Columns) (s : Session) (e : Error)
      → (statement env (insert_rows json seat v cols) s).0 ≡ err e
      → Quiet s (statement env (insert_rows json seat v cols) s).1
  unfolding statement
  insertion-failed v cols s e h = by_failure (fails_at (env.fault s.step)) h
    where
      by_failure :
          (b : Bool)
          → (unless_failed b (insert_rows json seat v cols) (arrive env s)).0 ≡ err e
          → Quiet s (unless_failed b (insert_rows json seat v cols) (arrive env s)).1
      by_failure true h = arrive-Quiet env s
      by_failure false h =
          Quiet-trans (arrive-Quiet env s) (insert_rows-failed v cols (arrive env s) e h)

  translate-failed :
      (r : Result (Unit {0})) (e : Error) → translate r ≡ err e → (x : Error) × (r ≡ err x)
  unfolding translate
  translate-failed (ok u) e h = cc
  translate-failed (err x) e h = (x, refl)

  append-failed :
      (v : ℕ) (evts : List Event) (s : Session) (e : Error)
      → (append json env seat v evts s).0 ≡ err e
      → Quiet s (append json env seat v evts s).1
  unfolding append
  append-failed v [] s e h = Quiet-refl s
  append-failed v (x ∷ evts) s e h = by_columns (columns json (x ∷ evts)) h
    where
      insertion : List Columns → Tx (Unit {0})
      insertion cols t = translated (statement env (insert_rows json seat v cols) t)

      by_columns :
          (r : Result (List Columns))
          → (continue r insertion s).0 ≡ err e
          → Quiet s (continue r insertion s).1
      by_columns (ok cols) h =
          let (y, fails_here) =
            translate-failed (statement env (insert_rows json seat v cols) s).0 e h in
          insertion-failed v cols s y fails_here
      by_columns (err y) h = Quiet-refl s

  pub append_seat-failed :
      (v : ℕ) (evts : List ProtoMessage) (s : Session) (e : Error)
      → (append_seat json env seat v evts meta s).0 ≡ err e
      → Quiet s (append_seat json env seat v evts meta s).1
  unfolding append_seat
  append_seat-failed v [] s e h = Quiet-refl s
  append_seat-failed v (m ∷ ms) s e h = by_encoding (encode_all json meta (m ∷ ms)) h
    where
      by_encoding :
          (r : Result (List Event))
          → (continue r (λ stored. append json env seat v stored) s).0 ≡ err e
          → Quiet s (continue r (λ stored. append json env seat v stored) s).1
      by_encoding (ok stored) h = append-failed v stored s e h
      by_encoding (err y) h = Quiet-refl s
