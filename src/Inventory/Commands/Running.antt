-- ===== src/Inventory/Commands/Running.antt =====
-- internal/inventory/commands.go and expiry.go: what a transaction's body has decided when it ends, by its
-- parts.
use sagaflow.Base.{String, ◌≡◌, refl, ◌∙◌, ap, subst, [], ◌++◌}
use sagaflow.Errors.{Error, Result, ok, err}
use sagaflow.Database.{stream_of}
use sagaflow.Database.Streams.{inserted, events-perform_all}
use sagaflow.Session.{Session, Tx, view, ◌>>=◌, ◌>>◌, continue}
use sagaflow.Session.Quiet.{
  IsOrdered, Quiet, IsQuiet, Quiet-refl, lift-IsQuiet, bind-IsQuiet, pure-IsQuiet,
  statement-IsQuiet,
}
use mathlib.Core.List.{append-nil}
use sagaflow.EventStore.{load, select_stream}
use sagaflow.Codec.{Meta, no_meta}
use sagaflow.Seat.{SeatState, Outcome, fold}
use sagaflow.Inventory.Store.{decode_all, last_meta, append_seat, load_seat}
use sagaflow.Inventory.Commands.{Deps}
use sagaflow.Inventory.Commands.Loading.{read_seat, load_seat-ok}
use sagaflow.Inventory.Commands.Decided.{Decided, same_rows}
use sagaflow.Inventory.Commands.Keeping.{Keeps-Quiet, append_seat-Keeps}
use sagaflow.Inventory.Commands.Failing.{append_seat-failed}

module _ (d : Deps) (choose : SeatState → Result Outcome) (meta_of : Meta → Meta)
    (seat : String) where
  open d use {json, timestamps, header_json, env}

  -- What a part of the transaction has done, whether it succeeded or not.
  pub record Run {ℓ} {A : Type ℓ} (s : Session) (p : Result A × Session) : Type ℓ where
    pub log : p.1.log ≡ s.log
    pub ordered : IsOrdered p.1
    pub decided : (a : A) → p.0 ≡ ok a → Decided d choose meta_of seat p.1

  Run-Quiet {ℓ} :
      {A : Type ℓ} {s u : Session} (p : Result A × Session) → Quiet s u → Run u p → Run s p
  Run-Quiet p q r = record { log = r.log ∙ q.log; ordered = r.ordered; decided = r.decided }

  failed-Run {ℓ} :
      {A : Type ℓ} (s u : Session) (e : Error) → Quiet s u → IsOrdered s → Run {A = A} s (err e, u)
  failed-Run s u e q o = record { log = q.log; ordered = q.ordered o; decided = λ a h. cc }

  pub after-Quiet {ℓ} :
      {A B : Type ℓ} (m : Tx A) (f : A → Tx B) (s : Session)
      → IsQuiet m
      → IsOrdered s
      → ((a : A) → m s ≡ (ok a, (m s).1) → Quiet s (m s).1 → Run (m s).1 (f a (m s).1))
      → Run s ((m >>= f) s)
  after-Quiet {A} {B} m f s quiet o k =
      by_result (m s).0 (λ a h. k a (λ i. (h i, (m s).1)) (quiet.at s))
    where
      by_result :
          (r : Result A)
          → ((a : A) → r ≡ ok a → Run (m s).1 (f a (m s).1))
          → Run s (continue r f (m s).1)
      by_result (ok a) k = Run-Quiet (f a (m s).1) (quiet.at s) (k a refl)
      by_result (err e) k = failed-Run s (m s).1 e (quiet.at s) o

  -- The append, and a part of the transaction after it that writes no event.
  pub append-Run :
      (state : SeatState) (outcome : Outcome) (origin : Meta) (rest : Tx (Unit {0})) (s : Session)
      → IsQuiet rest
      → IsOrdered s
      → inserted s.pending ≡ []
      → read_seat json timestamps (stream_of seat s.committed.events) ≡ ok (state, origin)
      → choose state ≡ ok outcome
      → Run s ((append_seat json env seat state.version outcome.events (meta_of origin) >> rest) s)
  append-Run state outcome origin rest s quiet o none_in reads decides = by_result (m s).0 refl
    where
      m : Tx (Unit {0})
      m = append_seat json env seat state.version outcome.events (meta_of origin)

      by_result : (r : Result (Unit {0})) → (m s).0 ≡ r → Run s (continue r (λ u. rest) (m s).1)
      by_result (ok u) h =
          let k =
            append_seat-Keeps d choose meta_of seat state outcome origin s o none_in reads decides
              outcome.events (m s).1 refl (λ i. (h i, (m s).1)) in
          let q = quiet.at (m s).1 in
          let t = Keeps-Quiet d choose meta_of seat k q in
          record { log = t.log; ordered = t.ordered; decided = λ a e. t.decided }
      by_result (err e) h =
          failed-Run s (m s).1 e
            (append_seat-failed d (meta_of origin) seat state.version outcome.events s e h) o

  pub load-IsQuiet : IsQuiet (load_seat json timestamps env seat)
  unfolding load_seat load
  load-IsQuiet =
      let reading =
        statement-IsQuiet env (select_stream json env seat) (record { at = λ s. Quiet-refl s }) in
      bind-IsQuiet _ _ (bind-IsQuiet _ _ reading (λ rows. lift-IsQuiet _)) (λ recorded.
        bind-IsQuiet _ _ (lift-IsQuiet (decode_all json recorded)) (λ msgs.
          bind-IsQuiet _ _ (lift-IsQuiet (fold timestamps msgs))
            (λ state. pure-IsQuiet (state, last_meta no_meta recorded))))

  -- The part of the transaction after the seat is loaded.
  pub load-Run :
      {B : Type 0} (f : SeatState × Meta → Tx B) (s : Session)
      → IsOrdered s
      → inserted s.pending ≡ []
      → ((p : SeatState × Meta) (u : Session)
          → IsOrdered u
          → inserted u.pending ≡ []
          → read_seat json timestamps (stream_of seat u.committed.events) ≡ ok p
          → Run u (f p u))
      → Run s ((load_seat json timestamps env seat >>= f) s)
  load-Run f s o none_in next =
      after-Quiet (load_seat json timestamps env seat) f s load-IsQuiet o (λ p h q.
        let u = (load_seat json timestamps env seat s).1 in
        let none₁ = same_rows d choose meta_of seat q ∙ none_in in
        let seen : (view u).events ≡ u.committed.events =
          events-perform_all u.committed u.pending
          ∙ ap (λ l. u.committed.events ++ l) none₁
          ∙ append-nil u.committed.events in
        next p u (q.ordered o) none₁ (
          subst (λ l. read_seat json timestamps (stream_of seat l) ≡ ok p) seen
            (load_seat-ok json timestamps env seat s u p.0 p.1 h).1))
