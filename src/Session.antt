-- ===== src/Session.antt =====
-- A connection to Postgres under READ COMMITTED, the isolation that `pool.Begin` takes: each statement
-- sees what is committed when it starts and what its own transaction has written. pg.go's `WithTx` is
-- written over it. The environment says, for each statement in turn, whether it fails and what other
-- transactions commit just before it.
pub mod Quiet
pub mod Inversion
pub mod Idle
pub mod Growth
pub mod Repeated
pub mod Resting
use sagaflow.Base.{
  ℕ, zero, suc, ◌+◌, String, ◌≡◌, refl, Bool, true, false, ◌&&◌, ◌||◌, not, Option, none, some,
  List, [], ◌∷◌, ◌++◌, ◌==◌, if◌then◌else◌, nat_eq, any, length,
}
unfoldable pub use sagaflow.Errors.{in_context}
use sagaflow.Errors.{Error, Result, ok, err, wrap, message}
use sagaflow.Contracts.{Time}
use sagaflow.Envelope.{Message}
use sagaflow.Database.{
  Db, Write, insert_event, insert_inbox, insert_outbox, insert_timer, mark_published, mark_fired,
  upsert_availability, clear_availability, notify, EventRow, OutboxRow, perform, perform_all,
  stream_of, has_version, consumed, pending_timer, has_id, has_text,
}

-- A call that `fails` has no effect; one that is `unanswered` takes effect, and its answer is lost.
pub data Fault : Type 0 where
  works fails unanswered : Fault

pub record Environment : Type 0 where
  pub fault : ℕ → Fault
  pub others : ℕ → List Write
  pub clock : ℕ → Time
  -- uuid.NewV7 by the number of calls before it
  pub uuid : ℕ → String
  -- The outbox rows that other transactions hold locked, and what becomes of a batch of messages that
  -- is published: `none` if all are acknowledged, else how many arrive before the first that is not.
  pub locked_elsewhere : ℕ → List ℕ
  pub broker : ℕ → Option ℕ

-- `serial` stands for the BIGSERIAL sequences and the calls of NewV7: a number is given out once, and
-- a rollback does not give it back. `locked` are the outbox rows that the transaction claimed. `log`
-- is a record of this connection's commits that the program does not see, and `sent` of the messages
-- that reached the broker.
pub record Session : Type 0 where
  pub committed : Db
  pub pending : List Write
  pub locked : List ℕ
  pub serial : ℕ
  pub step : ℕ
  pub started : Time
  pub log : List (List Write)
  pub sent : List Message

-- What a statement of the transaction sees.
abbrev pub view : Session → Db
view s = perform_all s.committed s.pending

-- A row of the view that is written or deleted stays locked, as does the key of a new one.
abbrev pub changes_seat : String → Write → Bool
changes_seat seat (upsert_availability r) = r.seat_id == seat
changes_seat seat (clear_availability seats) = has_text seat seats
changes_seat seat _ = false

-- What another transaction may commit now. It appends to a stream as `Append` does; what is unique,
-- and a row that this transaction has changed, it cannot take before this transaction ends.
unfoldable pub admissible : Session → Write → Bool
admissible s (insert_event r) =
    nat_eq r.version (suc (length (stream_of r.stream_id s.committed.events)))
    && not (has_version r.stream_id r.version (view s).events)
admissible s (insert_inbox r) = not (consumed r.consumer r.source r.event_id (view s).inbox)
admissible s (insert_outbox r) = not (any (λ (q : OutboxRow). nat_eq q.id r.id) (view s).outbox)
admissible s (mark_published ids now) = not (any (λ id. has_id id s.locked) ids)
admissible s (mark_fired id now) = pending_timer id (view s).timers
admissible s (upsert_availability r) = not (any (changes_seat r.seat_id) s.pending)
admissible s (clear_availability seats) =
    not (any (λ seat. any (changes_seat seat) s.pending) seats)
admissible s _ = true

abbrev pub admit : Session → Write → Session
admit s w = if admissible s w then record s { committed = perform s.committed w } else s

unfoldable pub admit_all : Session → List Write → Session
unfolding admissible
admit_all s [] = s
admit_all s (w ∷ ws) = admit_all (admit s w) ws

-- Code that runs on a connection.
abbrev pub Tx {ℓ} : Type ℓ → Type ℓ
Tx A = Session → Result A × Session

abbrev pub continue {ℓ κ} : {A : Type ℓ} {B : Type κ} → Result A → (A → Tx B) → Tx B
continue (ok a) f s = f a s
continue (err e) f s = (err e, s)

module _ {ℓ} {A : Type ℓ} where
  abbrev pub pure : A → Tx A
  pure a s = (ok a, s)

  abbrev pub lift : Result A → Tx A
  lift r s = (r, s)

infixl 5 ◌>>=◌ ◌>>◌
abbrev pub ◌>>=◌ {ℓ κ} : {A : Type ℓ} {B : Type κ} → Tx A → (A → Tx B) → Tx B
◌>>=◌ m f s = let (r, s') = m s in continue r f s'

abbrev pub ◌>>◌ {ℓ} : {B : Type ℓ} → Tx (Unit {0}) → Tx B → Tx B
m >> n = m >>= λ _. n

-- Code whose errors are wrapped with a text.
unfoldable pub annotate {ℓ} : {A : Type ℓ} → String → Tx A → Tx A
annotate text m s = let (r, s') = m s in (in_context text r, s')

-- A number from a sequence.
unfoldable pub draw : Tx ℕ
draw s = (ok s.serial, record s { serial = suc s.serial })

abbrev pub write : List Write → Session → Session
write ws s = record s { pending = s.pending ++ ws }

abbrev pub fails_at : Fault → Bool
fails_at works = false
fails_at fails = true
fails_at unanswered = true

abbrev pub rollback : Session → Session
rollback s = record s { pending = []; locked = [] }

abbrev pub commit_now : Session → Session
commit_now s = record s {
  committed = view s;
  pending = [];
  locked = [];
  log = s.log ++ s.pending ∷ [];
}

-- A commit whose answer is lost has happened.
abbrev pub finish {ℓ} : {A : Type ℓ} → Fault → A → Session → Result A × Session
finish works a s = (ok a, commit_now s)
finish fails a s = (err (wrap "commit" (message "connection failed")), rollback s)
finish unanswered a s = (err (wrap "commit" (message "connection failed")), commit_now s)

abbrev pub unless_failed {ℓ} : {A : Type ℓ} → Bool → Tx A → Tx A
unless_failed true body s = (err (message "connection failed"), s)
unless_failed false body s = body s

module _ (env : Environment) where
  open env use {fault, others, clock}

  -- The world has gone on when a statement starts.
  unfoldable pub arrive : Session → Session
  arrive s = let s' = admit_all s (others s.step) in record s' { step = suc s'.step }

  -- One round trip: it fails as the environment says, or does its work on what it sees.
  unfoldable pub statement {ℓ} : {A : Type ℓ} → Tx A → Tx A
  statement body s = unless_failed (fails_at (fault s.step)) body (arrive s)

  unfoldable pub begin : Tx (Unit {0})
  begin s =
      statement (λ t. (ok tt, record t { pending = []; locked = []; started = clock t.step })) s

  unfoldable pub commit {ℓ} : {A : Type ℓ} → A → Tx A
  commit a s = finish (fault s.step) a (arrive s)

  abbrev pub end_tx {ℓ} : {A : Type ℓ} → Result A × Session → Result A × Session
  end_tx (ok a, s) = commit a s
  end_tx (err e, s) = (err e, rollback s)

  -- pg.go
  unfoldable pub with_tx {ℓ} : {A : Type ℓ} → Tx A → Tx A
  with_tx body s =
      let (r, s₁) = begin s in
      elim r [ err e ↦ (err (wrap "begin" e), s₁) | ok u ↦ end_tx (body s₁) ]

  abbrev unless_lost {ℓ} : {A : Type ℓ} → Bool → Result A × Session → Result A × Session
  unless_lost false (r, s) = (r, commit_now s)
  unless_lost true (r, s) = (err (message "connection failed"), commit_now s)

  -- One statement on the pool, outside a transaction.
  unfoldable pub autocommit {ℓ} : {A : Type ℓ} → Tx A → Tx A
  autocommit body s =
      let s' = record (arrive s) { pending = []; locked = []; started = clock s.step } in
      elim (fault s.step) [
        | works ↦ unless_lost false (body s')
        | fails ↦ (err (message "connection failed"), s')
        | unanswered ↦ unless_lost true (body s')
      ]
