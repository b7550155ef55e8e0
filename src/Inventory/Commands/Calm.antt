-- ===== src/Inventory/Commands/Calm.antt =====
-- internal/inventory/commands.go where nothing goes wrong: every statement is answered, nobody else
-- commits, and what belongs to the command can be encoded. A Meta and a map of headers always can: they hold
-- texts only.
pub mod Storing
pub mod Announcing
use sagaflow.Base.{
  ℕ, suc, ◌+◌, ◌<◌, ◌≤◌, String, ◌≡◌, refl, sym, ◌∙◌, ap, subst, Bool, true, false, ◌||◌, not, List,
  [], ◌∷◌, ◌++◌, map, any, length, All, ◌==◌, nat_eq, arith, inl, inr, Bool-cases, if◌then◌else◌,
}
use sagaflow.Errors.{Error, Result, ok, err, Result-cases, ok-injective}
use sagaflow.Contracts.{ProtoMessage, Time, HoldSeat, ReleaseSeatHold, hold_seat, release_seat_hold}
use sagaflow.Envelope.{Envelope, Message}
use sagaflow.Envelope.Headers.{HeaderMap}
use sagaflow.Database.{
  Bytes, EventRow, Write, insert_event, insert_inbox, stream_of, has_version, consumed,
}
use sagaflow.Database.Streams.{
  inserted, inserted-append, events-perform_all, IsSequential, AllSequential,
}
use sagaflow.Session.{
  Session, Environment, Tx, works, view, arrive, admit_all, statement, annotate, in_context,
  continue, ◌>>=◌, ◌>>◌, pure, lift, draw, write,
}
use sagaflow.Io.Ends.{Ends}
use sagaflow.Codec.{Meta, Event, Json, type_name, encode}
use sagaflow.Inbox.{insert_mark, mark_consumed}
use sagaflow.Envelope
use sagaflow.Database.{OutboxRow}
use sagaflow.Outbox
use sagaflow.Outbox.{enqueue, insert_messages, notify_outbox}
use sagaflow.Timers.{schedule, insert_row}
use sagaflow.Seat.{Timer}
use sagaflow.Inventory.Commands.{
  Deps, apply_command, command_meta, reply_template, schedule_timers, outgoing, wrap_message,
}
use mathlib.Core.List.{append-nil}
use sagaflow.Database.Order.{order_by}
use sagaflow.Database.Streams.{by_version, has_version-stream_of}
use sagaflow.EventStore.Rows.{Columns, columns, validate, read_rows, rows_from}
use sagaflow.EventStore.{load, select_stream, append, insert_rows, translate, any_taken}
use sagaflow.Seat.{SeatState, Outcome, fold, decide, hold, holds, is_held, release, messages}
use sagaflow.Inventory.Store.{decode_all, last_meta, load_seat, encode_all, append_seat}
use sagaflow.Inventory.Commands.Loading.{read_seat, version-read_seat, chain-ok}

pub record IsCalm (d : Deps) : Type 0 where
  pub answered : (k : ℕ) → d.env.fault k ≡ works
  pub alone : (k : ℕ) → d.env.others k ≡ []
  pub marshals_meta : (m : Meta) → (b : Bytes) × (d.json.marshal_meta m ≡ ok b)
  pub marshals_headers : (h : HeaderMap) → (b : Bytes) × (d.header_json.marshal h ≡ ok b)

-- The messages of this outcome can be stored and framed.
abbrev pub Storable : Deps → List ProtoMessage → Type 0
Storable d ms = All (λ m. (b : ℕ) × (bs : Bytes) × (d.json.marshal m ≡ ok (b ∷ bs))) ms

abbrev pub Frameable : Deps → List ProtoMessage → Type 0
Frameable d ms = All (λ m. (b : ℕ) × (bs : Bytes) × (d.frame m ≡ ok (b ∷ bs))) ms

pub record Encodes (d : Deps) (outcome : Outcome) : Type 0 where
  pub stores : Storable d outcome.events
  pub frames : Frameable d (messages outcome)

-- It succeeds, and then so much holds.
abbrev pub Goes : {A : Type 0} → (A → Session → Type 0) → Result A × Session → Type 0
Goes Q p = Ends Q (λ s. ⊥) p

module _ {A B : Type 0} where
  pub bind-Goes :
      (Q : A → Session → Type 0) (R : B → Session → Type 0) (m : Tx A) (f : A → Tx B) (s : Session)
      → Goes Q (m s)
      → ((a : A) (t : Session) → Q a t → Goes R (f a t))
      → Goes R ((m >>= f) s)
  bind-Goes Q R m f s g k = by_result (m s).0 (m s).1 g
    where
      by_result : (r : Result A) (t : Session) → Goes Q (r, t) → Goes R (continue r f t)
      by_result (ok a) t h = k a t h
      by_result (err e) t h = elim h [ ]

module _ {A : Type 0} where
  pub annotate-Goes :
      (Q : A → Session → Type 0) (text : String) (m : Tx A) (s : Session)
      → Goes Q (m s)
      → Goes Q (annotate text m s)
  unfolding annotate
  annotate-Goes Q text m s g = by_result (m s).0 (m s).1 g
    where
      by_result : (r : Result A) (t : Session) → Goes Q (r, t) → Goes Q (in_context text r, t)
      by_result (ok a) t h = h
      by_result (err e) t h = h

module _ (d : Deps) (calm : IsCalm d) where
  open d use {json, timestamps, header_json, frame, env}

  abbrev later : Session → Session
  later s = record s { step = suc s.step }

  pub statement-calm :
      {A : Type 0} (body : Tx A) (s : Session) → statement env body s ≡ body (later s)
  unfolding statement arrive admit_all
  statement-calm body s = rw (calm.answered s.step, calm.alone s.step) refl

  -- The transaction sees these events, and has written none.
  abbrev pub Sees : List EventRow → Session → Type 0
  Sees E s = (s.committed.events ≡ E) × (inserted s.pending ≡ [])

  pub mark_consumed-Goes :
      (consumer source id : String) (E : List EventRow) (s : Session)
      → (consumer == "") ≡ false
      → (source == "") ≡ false
      → (id == "") ≡ false
      → Sees E s
      → Goes (λ first. Sees E) (mark_consumed env consumer source id s)
  unfolding mark_consumed insert_mark
  mark_consumed-Goes consumer source id E s c o i sees =
      rw (c, o, i)
        (annotate-Goes (λ first. Sees E) "inbox" (statement env (insert_mark consumer source id)) s
          (rw (statement-calm (insert_mark consumer source id) s) (marked (later s) sees)))
    where
      marked : (u : Session) → Sees E u → Goes (λ first. Sees E) (insert_mark consumer source id u)
      marked u h = elim (Bool-cases (consumed consumer source id (view u).inbox)) [
        | inl old ↦ rw old h
        | inr new ↦ rw new (h.0, inserted-append u.pending _ ∙ ap (λ l. l ++ []) h.1)
      ]

  pub load_seat-calm :
      (seat : String) (E : List EventRow) (p : SeatState × Meta) (s : Session)
      → Sees E s
      → read_seat json timestamps (stream_of seat E) ≡ ok p
      → load_seat json timestamps env seat s ≡ (ok p, later s)
  unfolding load_seat load read_seat
  load_seat-calm seat E p s sees reads =
      let (rs, hr, k) =
        chain-ok
          (in_context "eventstore: load" (read_rows json (order_by by_version (stream_of seat E))))
          _ p reads in
      let (ms, hm, k₁) = chain-ok (decode_all json rs) _ p k in
      let (state, f, last) = chain-ok (fold timestamps ms) _ p k₁ in
      let seen : (view s).events ≡ E =
        events-perform_all s.committed s.pending
        ∙ ap (λ l. s.committed.events ++ l) sees.1
        ∙ append-nil s.committed.events
        ∙ sees.0 in
      rw (statement-calm (select_stream json env seat) s, seen)
        (rw (hr) (rw (hm) (rw f (rw last refl))))
