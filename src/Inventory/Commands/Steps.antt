-- ===== src/Inventory/Commands/Steps.antt =====
-- internal/inventory/commands.go: what each part of a command's transaction has written when it succeeds.
use mathlib.Core.List.{append_assoc, append-nil}
use sagaflow.Base.{
  ℕ, suc, String, ◌≡◌, refl, sym, ◌∙◌, ap, none, List, [], ◌∷◌, ◌++◌, inl, inr, map, length, arith,
}
use sagaflow.Errors.{Result, ok, Result-cases, ok-injective}
use sagaflow.Contracts.{ProtoMessage, Time}
use sagaflow.Envelope.{Envelope, Message, headers}
use sagaflow.Codec.{Event, Json, Meta, type_name}
use sagaflow.Database.{
  Bytes, timestamptz, OutboxRow, TimerRow, Write, insert_outbox, insert_timer, notify,
}
use sagaflow.Session.{Session, Tx, lift, pure, draw, arrive, statement, annotate, in_context}
use sagaflow.Session.Inversion.{
  tx-ok, lift-ok, statement-ok, annotate-ok, in_context-ok, arrive-pending,
}
use sagaflow.Outbox.{rows_from, insert_messages, notify_outbox, enqueue}
use sagaflow.Timers.{schedule, insert_row}
use sagaflow.EventStore.Rows
use sagaflow.EventStore.Rows.{Columns, columns}
use sagaflow.Seat.{Timer}
use sagaflow.Inventory.Store.{encode_all}
use sagaflow.Inventory.Commands.{events_topic, Deps, wrap_message, outgoing, schedule_timers}

-- The state of a step that always succeeds.
pub same_end {ℓ} :
    {A : Type ℓ} {a b : A} {s t : Session}
    → ◌≡◌ {A = Result A × Session} (ok a, s) (ok b, t)
    → t ≡ s
same_end {A} h = sym (ap (λ (p : Result A × Session). p.1) h)

abbrev pub row_key : TimerRow → String × Time × String
row_key r = (r.subject, r.fire_at, r.token)

abbrev pub timer_key : String → Timer → String × Time × String
timer_key seat x = (seat, timestamptz x.fire_at, x.token)

module _ (d : Deps) where
  open d use {header_json, frame, env}

  wrap_message-ok :
      (tmpl : Envelope) (m : ProtoMessage) (s t : Session) (out : Message)
      → wrap_message d tmpl m s ≡ (ok out, t)
      → (t.pending ≡ s.pending) × (frame m ≡ ok out.payload)
  unfolding wrap_message draw
  wrap_message-ok tmpl m s t out h =
      let (payload, s₁, h₁, k₁) =
        tx-ok (lift (in_context "inventory: frame" (frame m))) _ s t out h in
      let (framed, e₁) = lift-ok _ s s₁ payload h₁ in
      let made_with : ℕ → Tx Message = λ n. pure (record {
        topic = events_topic;
        key = tmpl.subject;
        payload = payload;
        headers = headers (record tmpl { id = env.uuid n; type_name = type_name m });
      }) in
      let (n, s₂, h₂, k₂) = tx-ok draw made_with s₁ t out k₁ in
      let (made, e₃) = lift-ok _ s₂ t out k₂ in
      (
        ap (λ (x : Session). x.pending) e₃
            ∙ ap (λ (x : Session). x.pending) (same_end h₂)
            ∙ ap (λ (x : Session). x.pending) e₁,
        in_context-ok "inventory: frame" (frame m) payload framed
            ∙ ap ok (ap (λ (x : Message). x.payload) (ok-injective made)),
      )

  pub outgoing-ok :
      (tmpl : Envelope) (ms : List ProtoMessage) (s t : Session) (out : List Message)
      → outgoing d tmpl ms s ≡ (ok out, t)
      → (t.pending ≡ s.pending) × (map frame ms ≡ map (λ (x : Message). ok x.payload) out)
  unfolding outgoing
  outgoing-ok tmpl [] s t out h =
      let (made, e) = lift-ok (ok []) s t out h in
      (
        ap (λ (x : Session). x.pending) e,
        ap (λ (l : List Message). map (λ (x : Message). ok x.payload) l) (ok-injective made),
      )
  outgoing-ok tmpl (m ∷ ms) s t out h =
      let (one, s₁, h₁, k₁) = tx-ok (wrap_message d tmpl m) _ s t out h in
      let (rest, s₂, h₂, k₂) = tx-ok (λ s'. outgoing d tmpl ms s') _ s₁ t out k₁ in
      let (made, e₃) = lift-ok _ s₂ t out k₂ in
      let (p₁, f₁) = wrap_message-ok tmpl m s s₁ one h₁ in
      let (p₂, f₂) = outgoing-ok tmpl ms s₁ s₂ rest h₂ in
      (
        ap (λ (x : Session). x.pending) e₃ ∙ p₂ ∙ p₁,
        rw (f₁, f₂)
            (ap (λ (l : List Message). map (λ (x : Message). ok x.payload) l) (ok-injective made)),
      )

  pub schedule_timers-ok :
      (seat : String) (ts : List Timer) (s t : Session)
      → schedule_timers d seat ts s ≡ (ok tt, t)
      → (rows : List TimerRow) × (t.pending ≡ s.pending ++ map insert_timer rows)
        × (map row_key rows ≡ map (timer_key seat) ts)
  unfolding schedule_timers schedule
  schedule_timers-ok seat [] s t h =
      ([], ap (λ (x : Session). x.pending) (same_end h) ∙ sym (append-nil s.pending), refl)
  schedule_timers-ok seat (x ∷ xs) s t h =
      let (u, s₁, h₁, k₁) = tx-ok (schedule env x.fire_at seat x.token) _ s t tt h in
      let written = same_end (
        statement-ok env (insert_row env x.fire_at seat x.token) s s₁ tt (
          annotate-ok "timers" (λ v. statement env (insert_row env x.fire_at seat x.token) v) s s₁
            tt h₁)) in
      let (rows, p, same) = schedule_timers-ok seat xs s₁ t k₁ in
      let row : TimerRow = record {
        id = (arrive env s).serial;
        fire_at = timestamptz x.fire_at;
        subject = seat;
        token = x.token;
        fired_at = none;
      } in
      (
        row ∷ rows,
        p
            ∙ ap (λ l. l ++ map insert_timer rows)
                (ap (λ (v : Session). v.pending) written
                  ∙ ap (λ l. l ++ insert_timer row ∷ []) (arrive-pending env s))
            ∙ append_assoc s.pending (insert_timer row ∷ []) (map insert_timer rows),
        ap (λ l. timer_key seat x ∷ l) same,
      )

  payloads_of_rows :
      (id : ℕ) (msgs : List Message) (rows : List OutboxRow)
      → rows_from header_json id msgs ≡ ok rows
      → map (λ (r : OutboxRow). r.payload) rows ≡ map (λ (m : Message). m.payload) msgs
  unfolding rows_from
  payloads_of_rows id [] rows h = ground (arith, h)
  payloads_of_rows id (m ∷ msgs) rows h =
      elim (Result-cases (rows_from header_json (suc id) msgs)) [
        | inl (rs, e) ↦ ground (arith, payloads_of_rows (suc id) msgs rs e)
        | inr (x, e) ↦ ground (arith, e)
      ]

  abbrev pub wake_poller : List Message → List Write
  wake_poller [] = []
  wake_poller (m ∷ msgs) = notify ∷ []

  pub enqueue-ok :
      (msgs : List Message) (s t : Session)
      → enqueue header_json env msgs s ≡ (ok tt, t)
      → (rows : List OutboxRow) × (t.pending
          ≡ s.pending ++ (map insert_outbox rows ++ wake_poller msgs))
        × (map (λ (r : OutboxRow). r.payload) rows ≡ map (λ (m : Message). m.payload) msgs)
  unfolding enqueue insert_messages
  enqueue-ok [] s t h =
      ([], ap (λ (x : Session). x.pending) (same_end h) ∙ sym (append-nil s.pending), refl)
  enqueue-ok (m ∷ msgs) s t h =
      let (rows, s₁, h₁, k₁) =
        tx-ok (lift (rows_from header_json s.serial (m ∷ msgs))) _ s t tt h in
      let (made, e₁) = lift-ok _ s s₁ rows h₁ in
      let (u, s₂, h₂, k₂) =
        tx-ok (annotate "outbox" (statement env (insert_messages header_json env rows))) _ s₁ t tt
          k₁ in
      let w₂ = same_end (
        statement-ok env (insert_messages header_json env rows) s₁ s₂ tt (
          annotate-ok "outbox" (statement env (insert_messages header_json env rows)) s₁ s₂ tt
            h₂)) in
      let w₃ = same_end (
        statement-ok env (notify_outbox header_json env) s₂ t tt
          (annotate-ok "outbox" (statement env (notify_outbox header_json env)) s₂ t tt k₂)) in
      (
        rows,
        ap (λ (v : Session). v.pending) w₃
            ∙ ap (λ l. l ++ notify ∷ [])
                (arrive-pending env s₂
                  ∙ ap (λ (v : Session). v.pending) w₂
                  ∙ ap (λ l. l ++ map insert_outbox rows)
                      (arrive-pending env s₁ ∙ ap (λ (v : Session). v.pending) e₁))
            ∙ append_assoc s.pending (map insert_outbox rows) (notify ∷ []),
        payloads_of_rows s.serial (m ∷ msgs) rows made,
      )

pub map_twice :
    {A : Type 0} (f : A → Bytes) (xs : List A)
    → map {B = Result Bytes} (λ x. ok (f x)) xs ≡ map ok (map f xs)
map_twice f [] = refl
map_twice f (x ∷ xs) = ap (λ l. ok (f x) ∷ l) (map_twice f xs)

pub length-columns :
    (json : Json) (evts : List Event) (cs : List Columns)
    → columns json evts ≡ ok cs
    → length cs ≡ length evts
unfolding columns
length-columns json [] cs h = ground (arith, h)
length-columns json (e ∷ evts) cs h = elim (Result-cases (columns json evts)) [
  | inl (rest, k) ↦ ground (arith, length-columns json evts rest k)
  | inr (x, k) ↦ ground (arith, k)
]

pub length-encode_all :
    (json : Json) (meta : Meta) (ms : List ProtoMessage) (evts : List Event)
    → encode_all json meta ms ≡ ok evts
    → length evts ≡ length ms
unfolding encode_all
length-encode_all json meta [] evts h = ground (arith, h)
length-encode_all json meta (m ∷ ms) evts h = elim (Result-cases (encode_all json meta ms)) [
  | inl (rest, k) ↦ ground (arith, length-encode_all json meta ms rest k)
  | inr (x, k) ↦ ground (arith, k)
]

pub length-rows_from :
    (json : Json) (id : String) (v seq : ℕ) (now : Time) (cs : List Columns)
    → length (Rows.rows_from json id v seq now cs) ≡ length cs
unfolding Rows.rows_from
length-rows_from json id v seq now [] = refl
length-rows_from json id v seq now (c ∷ cs) =
    ap suc (length-rows_from json id (suc v) (suc seq) now cs)
