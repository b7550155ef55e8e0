-- ===== src/Inventory/Commands/Completing.antt =====
-- internal/inventory/commands.go: where nothing goes wrong, `Handle` succeeds.
use sagaflow.Base.{
  suc, String, ◌≡◌, refl, sym, subst, Bool, true, false, List, [], ◌==◌, inl, inr, if◌then◌else◌,
  length,
}
use sagaflow.Errors.{Error, Result, ok, err, wrap}
use sagaflow.Contracts.{ProtoMessage, hold_seat, release_seat_hold}
use sagaflow.Envelope.{Envelope}
use sagaflow.Codec.{Meta}
use sagaflow.Database.{EventRow, stream_of}
use sagaflow.Database.Streams.{IsSequential}
use sagaflow.Session.{
  Session, Tx, begin, commit, with_tx, end_tx, statement, arrive, admit_all, pure,
}
use sagaflow.Session.Quiet.{IsOrdered}
use sagaflow.Inbox.{mark_consumed}
use sagaflow.Seat.{SeatState, Outcome, decide, target_seat}
use sagaflow.Inventory.Commands.{
  Deps, consumer_name, apply_command, consume_command, apply_in_one_transaction, handle_from,
  handle, command_meta,
}
use sagaflow.Inventory.Commands.Loading.{read_seat, version-read_seat}
use sagaflow.Inventory.Commands.Handling.{decide_for, meta_for}
use sagaflow.Inventory.Commands.Ending.{Committed}
use sagaflow.Inventory.Commands.Linear.{handle-Ended}
use sagaflow.Inventory.Commands.Calm.{
  Encodes, IsCalm, Goes, bind-Goes, Sees, mark_consumed-Goes, load_seat-calm,
}
use sagaflow.Inventory.Store.{append_seat}
use sagaflow.Inventory.Commands.Calm.Storing.{append_seat-Goes, decide-Named}
use sagaflow.Inventory.Commands.Calm.Announcing.{rest, rest-Goes}

-- It succeeds.
abbrev Succeeds : Result (Unit {0}) × Session → Type 0
Succeeds p = Goes (λ u t. Unit {0}) p

ok_of : (p : Result (Unit {0}) × Session) → Succeeds p → p.0 ≡ ok tt
ok_of (ok u, t) g = refl
ok_of (err e, t) g = elim g [ ]

ok-err : (r : Result (Unit {0})) (e : Error) → r ≡ ok tt → r ≡ err e → ⊥
ok-err r e good bad = cc

-- A command with a target is decided.
decided :
    (d : Deps) (state : SeatState) (cmd : ProtoMessage) (seat : String)
    → target_seat cmd ≡ ok seat
    → (outcome : Outcome) × (decide d.timestamps state cmd ≡ ok outcome)
unfolding target_seat decide
decided d state (hold_seat c) seat h = (_, refl)
decided d state (release_seat_hold c) seat h = (_, refl)
decided d state _ seat h = let no = h in cc

module _ (d : Deps) (calm : IsCalm d) where
  open d use {env}

  -- Where the transaction starts.
  abbrev started : Session → Session
  started s = record s {
    step = suc s.step;
    pending = [];
    locked = [];
    started = env.clock (suc s.step);
  }

  begin-calm : (s : Session) → begin env s ≡ (ok tt, started s)
  unfolding begin statement arrive admit_all
  begin-calm s = rw (calm.answered s.step, calm.alone s.step) refl

  with_tx-calm :
      (body : Tx (Unit {0})) (s : Session) → with_tx env body s ≡ end_tx env (body (started s))
  unfolding with_tx
  with_tx-calm body s =
      subst
        (λ (p : Result (Unit {0}) × Session).
          elim p.0 [ err e ↦ (err (wrap "begin" e), p.1) | ok u ↦ end_tx env (body p.1) ]
          ≡ end_tx env (body (started s)))
        (sym (begin-calm s)) refl

module _ (d : Deps) (calm : IsCalm d) where
  open d use {json, timestamps, header_json, frame, env}

  -- All that the command's transaction does after the inbox.
  apply_command-Goes :
      (incoming : Envelope) (cmd : ProtoMessage) (seat : String) (E : List EventRow)
      (state : SeatState) (origin : Meta) (outcome : Outcome) (s : Session)
      → IsSequential 0 (stream_of seat E)
      → (seat == "") ≡ false
      → read_seat json timestamps (stream_of seat E) ≡ ok (state, origin)
      → decide timestamps state cmd ≡ ok outcome
      → Encodes d outcome
      → Sees d calm E s
      → Goes (λ u t. Unit {0}) (apply_command d incoming cmd seat s)
  unfolding apply_command
  apply_command-Goes incoming cmd seat E state origin outcome s h named reads decides encodes sees =
      rw (load_seat-calm d calm seat E (state, origin) s sees reads) (
        rw decides (
          rw (version-read_seat json timestamps (stream_of seat E) state origin h reads) (
            bind-Goes (λ (u : Unit {0}) t. Unit {0}) (λ (u : Unit {0}) t. Unit {0})
              (append_seat json env seat (length (stream_of seat E)) outcome.events
                (command_meta incoming))
              (λ u. rest d calm incoming seat outcome) (record s { step = suc s.step })
              (append_seat-Goes d calm seat E (command_meta incoming) outcome.events
                (record s { step = suc s.step }) h (decide-Named d calm state cmd outcome decides)
                encodes.stores sees)
              (λ u t i. rest-Goes d calm incoming seat outcome t named encodes.frames))))

module _ (d : Deps) (calm : IsCalm d) (incoming : Envelope)
    (has_source : (incoming.source == "") ≡ false) (has_id : (incoming.id == "") ≡ false)
    (cmd : ProtoMessage) (seat : String) (target : target_seat cmd ≡ ok seat)
    (has_seat : (seat == "") ≡ false) (state : SeatState) (origin : Meta)
    (encodes : (o : Outcome) → decide d.timestamps state cmd ≡ ok o → Encodes d o) where
  open d use {json, timestamps, env}

  module _ (E : List EventRow) (ordered : IsSequential 0 (stream_of seat E))
      (reads : read_seat json timestamps (stream_of seat E) ≡ ok (state, origin)) where
    consume_command-Succeeds :
        (s : Session) → Sees d calm E s → Succeeds (consume_command d incoming cmd seat s)
    unfolding consume_command
    consume_command-Succeeds s sees =
        bind-Goes (λ first. Sees d calm E) (λ u t. Unit {0})
          (mark_consumed env consumer_name incoming.source incoming.id)
          (λ first. if first then apply_command d incoming cmd seat else pure tt) s
          (mark_consumed-Goes d calm consumer_name incoming.source incoming.id E s refl has_source
            has_id sees)
          by_first
      where
        by_first :
            (first : Bool) (t : Session)
            → Sees d calm E t
            → Succeeds ((if first then apply_command d incoming cmd seat else pure tt) t)
        by_first true t seen =
            let (outcome, decides) = decided d state cmd seat target in
            apply_command-Goes d calm incoming cmd seat E state origin outcome t ordered has_seat
              reads decides (encodes outcome decides) seen
        by_first false t seen = tt

    end_tx-Succeeds : (p : Result (Unit {0}) × Session) → Succeeds p → Succeeds (end_tx env p)
    unfolding commit
    end_tx-Succeeds (ok u, t) g = rw (calm.answered t.step) tt
    end_tx-Succeeds (err e, t) g = g

    with_tx-Succeeds :
        (s : Session)
        → s.committed.events ≡ E
        → Succeeds (with_tx env (consume_command d incoming cmd seat) s)
    with_tx-Succeeds s stored = rw (with_tx-calm d calm (consume_command d incoming cmd seat) s) (
        end_tx-Succeeds (consume_command d incoming cmd seat (started d calm s))
          (consume_command-Succeeds (started d calm s) (stored, refl)))

    try-Succeeds :
        (s : Session)
        → s.committed.events ≡ E
        → Succeeds (apply_in_one_transaction d incoming cmd s)
    unfolding apply_in_one_transaction
    try-Succeeds s stored = rw target (with_tx-Succeeds s stored)

    handle-Succeeds : (s : Session) → s.committed.events ≡ E → (handle d incoming cmd s).0 ≡ ok tt
    unfolding handle handle_from
    handle-Succeeds s stored =
        let e = ok_of (apply_in_one_transaction d incoming cmd s) (try-Succeeds s stored) in
        rw (e, handle, handle_from) e

  -- `Handle` succeeds and commits once where nothing goes wrong: every statement is answered, no other
  -- transaction commits, each event that `Decide` returns on the state of the seat can be encoded and each of
  -- its messages framed, in at least one byte, and every meta and map of headers can be encoded. The
  -- envelope has a source and an id, the command has a target seat whose id is not empty, the seat's
  -- stream can be read, and `Handle` starts with nothing pending and with every stream's versions 1, 2, 3,
  -- …. The events of the commit are none, or they are what `Decide` returns on the state that the stream
  -- reads as in the tables committed to, at the versions after its end.
  pub handle_completes :
      (s : Session)
      → IsOrdered s
      → s.pending ≡ []
      → read_seat json timestamps (stream_of seat s.committed.events) ≡ ok (state, origin)
      → ((handle d incoming cmd s).0 ≡ ok tt)
        × Committed d (decide_for d cmd) (meta_for incoming) seat s (handle d incoming cmd s).1
  handle_completes s ordered none_in reads = (
    done,
    elim (handle-Ended d incoming cmd seat s ordered none_in target).effect [
      | inl (e, failed, log) ↦ elim (ok-err (handle d incoming cmd s).0 e done failed) [ ]
      | inr (c, settled) ↦ c
    ],
  )
    where
      done : (handle d incoming cmd s).0 ≡ ok tt
      done = handle-Succeeds s.committed.events (ordered.stored seat) reads s refl
