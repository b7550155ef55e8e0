-- ===== src/Inventory/Commands/Writes.antt =====
-- internal/inventory/commands.go: all that a command's transaction has written when its body succeeds.
use mathlib.Core.List.{append-nil}
use sagaflow.Base.{ℕ, String, ◌≡◌, refl, sym, ◌∙◌, ap, List, [], ◌∷◌, ◌++◌, map, length}
use sagaflow.Errors.{ok}
use sagaflow.Contracts.{ProtoMessage}
use sagaflow.Envelope.{Envelope, Message}
use sagaflow.Codec.{Event}
use sagaflow.Database.{
  EventRow, OutboxRow, TimerRow, Write, insert_event, insert_outbox, insert_timer,
}
use sagaflow.Session.{Session, lift, arrive, statement}
use sagaflow.Session.Inversion.{tx-ok, lift-ok, statement-ok, arrive-pending}
use sagaflow.EventStore.Rows
use sagaflow.EventStore.Rows.{Columns, columns}
use sagaflow.EventStore.{append, insert_rows}
use sagaflow.EventStore.Appends.{translated-ok, insert_rows-ok}
use sagaflow.Seat.{SeatState, Outcome, decide, messages}
use sagaflow.Inventory.Store.{encode_all, load_seat, append_seat}
use sagaflow.Inventory.Commands.Loading.{load_seat-ok}
use sagaflow.Inventory.Commands.{
  Deps, outgoing, schedule_timers, command_meta, reply_template, apply_command,
}
use sagaflow.Inventory.Commands.Steps.{
  same_end, map_twice, length-columns, length-encode_all, length-rows_from, outgoing-ok,
  schedule_timers-ok, enqueue-ok, row_key, timer_key, wake_poller,
}

module _ (d : Deps) (incoming : Envelope) (cmd : ProtoMessage) (seat : String) where
  open d use {json, timestamps, header_json, frame, env}

  append-writes :
      (v : ℕ) (evts : List Event) (s t : Session)
      → append json env seat v evts s ≡ (ok tt, t)
      → (rows : List EventRow) × (t.pending ≡ s.pending ++ map insert_event rows)
        × (length rows ≡ length evts)
  unfolding append
  append-writes v [] s t h =
      ([], ap (λ (x : Session). x.pending) (same_end h) ∙ sym (append-nil s.pending), refl)
  append-writes v (e ∷ evts) s t h =
      let (cols, s₁, h₁, k₁) = tx-ok (lift (columns json (e ∷ evts))) _ s t tt h in
      let (prepares, same) = lift-ok _ s s₁ cols h₁ in
      let inside = translated-ok (statement env (insert_rows json seat v cols) s₁) t k₁ in
      let (vacant, after) =
        insert_rows-ok json seat v cols _ t
          (statement-ok env (insert_rows json seat v cols) s₁ t tt inside) in
      let u = arrive env s₁ in
      (
        Rows.rows_from json seat v u.serial u.started cols,
        ap (λ (x : Session). x.pending) after
            ∙ ap (λ l. l ++ map insert_event (Rows.rows_from json seat v u.serial u.started cols))
                (arrive-pending env s₁ ∙ ap (λ (x : Session). x.pending) same),
        length-rows_from json seat v u.serial u.started cols
            ∙ length-columns json (e ∷ evts) cols prepares,
      )

  append_seat-writes :
      (v : ℕ) (ms : List ProtoMessage) (s t : Session)
      → append_seat json env seat v ms (command_meta incoming) s ≡ (ok tt, t)
      → (rows : List EventRow) × (t.pending ≡ s.pending ++ map insert_event rows)
        × (length rows ≡ length ms)
  unfolding append_seat
  append_seat-writes v [] s t h =
      ([], ap (λ (x : Session). x.pending) (same_end h) ∙ sym (append-nil s.pending), refl)
  append_seat-writes v (m ∷ ms) s t h =
      let (evts, s₁, h₁, k₁) =
        tx-ok (lift (encode_all json (command_meta incoming) (m ∷ ms))) _ s t tt h in
      let (encodes, here) = lift-ok _ s s₁ evts h₁ in
      let (rows, p, l) = append-writes v evts s₁ t k₁ in
      (
        rows,
        p ∙ ap (λ (x : Session). x.pending ++ map insert_event rows) here,
        l ∙ length-encode_all json (command_meta incoming) (m ∷ ms) evts encodes,
      )

  -- What the body of a command's transaction leaves to be committed, for the outcome that was decided:
  -- its events, then its timers for the seat, then its messages in frames, and a wake-up of the poller.
  pub record Written (before after : List Write) : Type 0 where
    pub state : SeatState
    pub outcome : Outcome
    pub decides : decide timestamps state cmd ≡ ok outcome
    pub events : List EventRow
    pub timers : List TimerRow
    pub answers : List OutboxRow
    pub msgs : List Message
    pub all :
        after
        ≡ before
          ++ map insert_event events
          ++ map insert_timer timers
          ++ (map insert_outbox answers ++ wake_poller d msgs)
    pub all_events : length events ≡ length outcome.events
    pub all_timers : map row_key timers ≡ map (timer_key seat) outcome.timers
    pub all_answers : map (λ (r : OutboxRow). ok r.payload) answers ≡ map frame (messages outcome)

  -- Where the body of a command's transaction succeeds, it has written all that belongs to the command:
  -- behind what was written before there are as many events as `Decide` returned on some state, then
  -- for each timer of the outcome one row for the seat with the deadline, to the microsecond, and the token, and then for
  -- each message of the outcome one outbox row with the message's frame for its payload.
  pub apply_command-Written :
      (s t : Session)
      → apply_command d incoming cmd seat s ≡ (ok tt, t)
      → Written s.pending t.pending
  unfolding apply_command
  apply_command-Written s t h =
      let (p, s₁, h₁, k₁) = tx-ok (load_seat json timestamps env seat) _ s t tt h in
      let loaded = load_seat-ok json timestamps env seat s s₁ p.0 p.1 h₁ in
      let (outcome, s₂, h₂, k₂) = tx-ok (lift (decide timestamps p.0 cmd)) _ s₁ t tt k₁ in
      let (decides, e₂) = lift-ok _ s₁ s₂ outcome h₂ in
      let (u, s₃, h₃, k₃) =
        tx-ok (append_seat json env seat p.0.version outcome.events (command_meta incoming)) _ s₂ t
          tt k₂ in
      let (rows, p₃, l₃) = append_seat-writes p.0.version outcome.events s₂ s₃ h₃ in
      let (u₄, s₄, h₄, k₄) = tx-ok (schedule_timers d seat outcome.timers) _ s₃ t tt k₃ in
      let (timers, p₄, l₄) = schedule_timers-ok d seat outcome.timers s₃ s₄ h₄ in
      let (msgs, s₅, h₅, k₅) =
        tx-ok (outgoing d (reply_template incoming seat) (messages outcome)) _ s₄ t tt k₄ in
      let (p₅, l₅) =
        outgoing-ok d (reply_template incoming seat) (messages outcome) s₄ s₅ msgs h₅ in
      let (answers, p₆, l₆) = enqueue-ok d msgs s₅ t k₅ in
      record {
        state = p.0;
        outcome = outcome;
        decides = decides;
        events = rows;
        timers = timers;
        answers = answers;
        msgs = msgs;
        all =
            p₆
            ∙ ap (λ l. l ++ (map insert_outbox answers ++ wake_poller d msgs))
                (p₅
                  ∙ p₄
                  ∙ ap (λ l. l ++ map insert_timer timers)
                      (p₃
                        ∙ ap (λ l. l ++ map insert_event rows)
                            (ap (λ (x : Session). x.pending) e₂
                              ∙ ap (λ (x : Session). x.pending) loaded.0
                              ∙ arrive-pending env s)));
        all_events = l₃;
        all_timers = l₄;
        all_answers =
            map_twice (λ (r : OutboxRow). r.payload) answers
            ∙ ap (map ok) l₆
            ∙ sym (map_twice (λ (m : Message). m.payload) msgs)
            ∙ sym l₅;
      }
