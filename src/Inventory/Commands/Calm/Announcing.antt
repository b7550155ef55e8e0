-- ===== src/Inventory/Commands/Calm/Announcing.antt =====
-- internal/inventory/commands.go where nothing goes wrong: timers are scheduled and replies enqueued.
use sagaflow.Base.{ℕ, suc, String, ◌≡◌, refl, false, List, [], ◌∷◌, All, ◌==◌}
use sagaflow.Errors.{ok}
use sagaflow.Contracts.{ProtoMessage}
use sagaflow.Envelope.{Envelope, Message}
use sagaflow.Database.{OutboxRow}
use sagaflow.Session.{Session, Tx, annotate, ◌>>=◌, ◌>>◌, draw}
use sagaflow.Envelope
use sagaflow.Outbox
use sagaflow.Outbox.{enqueue, insert_messages, notify_outbox}
use sagaflow.Timers.{schedule, insert_row}
use sagaflow.Seat.{Timer, Outcome, messages}
use sagaflow.Inventory.Commands.{Deps, reply_template, schedule_timers, outgoing, wrap_message}
use sagaflow.Inventory.Commands.Calm.{Frameable, IsCalm, Goes, bind-Goes, statement-calm}

-- Messages that the outbox takes.
abbrev pub Valid : List Message → Type 0
Valid ms = All (λ m. Envelope.validate m ≡ ok tt) ms

module _ (d : Deps) (calm : IsCalm d) where
  open d use {json, timestamps, header_json, frame, env}

  schedule_timers-Goes :
      (seat : String) (ts : List Timer) (s : Session)
      → Goes (λ u t. Unit {0}) (schedule_timers d seat ts s)
  unfolding schedule_timers schedule annotate
  schedule_timers-Goes seat [] s = tt
  schedule_timers-Goes seat (t ∷ ts) s =
      rw (statement-calm d calm (insert_row env t.fire_at seat t.token) s)
        (schedule_timers-Goes seat ts _)

  outgoing-Goes :
      (tmpl : Envelope) (ms : List ProtoMessage) (s : Session)
      → (tmpl.subject == "") ≡ false
      → Frameable d ms
      → Goes (λ out t. Valid out) (outgoing d tmpl ms s)
  unfolding outgoing wrap_message draw Envelope.validate
  outgoing-Goes tmpl [] s named framed = tt
  outgoing-Goes tmpl (m ∷ ms) s named framed =
      let (b, bs, e) = framed.0 in
      rw e (
        bind-Goes (λ out t. Valid out) (λ out t. Valid out) (λ u. outgoing d tmpl ms u) _
          (record s { serial = suc s.serial })
          (outgoing-Goes tmpl ms (record s { serial = suc s.serial }) named framed.1)
          (λ rest t valid. (rw named refl, valid)))

  rows_from-calm :
      (id : ℕ) (msgs : List Message)
      → Valid msgs
      → (rows : List OutboxRow) × (Outbox.rows_from header_json id msgs ≡ ok rows)
  unfolding Outbox.rows_from
  rows_from-calm id [] valid = ([], refl)
  rows_from-calm id (m ∷ msgs) valid =
      let (b, e) = calm.marshals_headers m.headers in
      let (rows, k) = rows_from-calm (suc id) msgs valid.1 in
      (Outbox.row_of header_json m b id ∷ rows, rw (valid.0, e, k, Outbox.rows_from) refl)

  enqueue-Goes :
      (msgs : List Message) (s : Session)
      → Valid msgs
      → Goes (λ u t. Unit {0}) (enqueue header_json env msgs s)
  unfolding enqueue annotate insert_messages
  enqueue-Goes [] s valid = tt
  enqueue-Goes (m ∷ msgs) s valid =
      let (rows, e) = rows_from-calm s.serial (m ∷ msgs) valid in
      rw e (
        rw (statement-calm d calm (insert_messages header_json env rows) s) (
          rw
            (statement-calm d calm (notify_outbox header_json env)
              ((insert_messages header_json env rows (record s { step = suc s.step })).1))
            tt))

  -- The part of the transaction after the append.
  abbrev pub rest : Envelope → String → Outcome → Tx (Unit {0})
  rest incoming seat outcome = do
    schedule_timers d seat outcome.timers
    msgs ← outgoing d (reply_template incoming seat) (messages outcome)
    enqueue header_json env msgs

  pub rest-Goes :
      (incoming : Envelope) (seat : String) (outcome : Outcome) (s : Session)
      → (seat == "") ≡ false
      → Frameable d (messages outcome)
      → Goes (λ u t. Unit {0}) (rest incoming seat outcome s)
  rest-Goes incoming seat outcome s named framed =
      let publishing : Tx (Unit {0}) =
        outgoing d (reply_template incoming seat) (messages outcome) >>= λ msgs.
        enqueue header_json env msgs in
      bind-Goes (λ (u : Unit {0}) t. Unit {0}) (λ (u : Unit {0}) t. Unit {0})
        (schedule_timers d seat outcome.timers) (λ u. publishing) s
        (schedule_timers-Goes seat outcome.timers s)
        (λ u t i.
          bind-Goes (λ out t. Valid out) (λ (u : Unit {0}) t. Unit {0})
            (outgoing d (reply_template incoming seat) (messages outcome))
            (λ msgs. enqueue header_json env msgs) t
            (outgoing-Goes (reply_template incoming seat) (messages outcome) t named framed)
            (λ msgs t₂ valid. enqueue-Goes msgs t₂ valid))
