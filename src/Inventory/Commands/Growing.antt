-- ===== src/Inventory/Commands/Growing.antt =====
-- internal/inventory/commands.go and store.go: the parts of a transaction add only writes of their own kinds.
use sagaflow.Base.{
  any, ℕ, String, ◌≡◌, refl, sym, Bool, false, List, [], ◌∷◌, All, map, inl, inr, Bool-cases,
}
use sagaflow.Errors.{Result, ok, err}
use sagaflow.Contracts.{ProtoMessage, Time}
use sagaflow.Codec.{Event, Meta, no_meta}
use sagaflow.Envelope.{Envelope, Message}
use sagaflow.Database.{
  EventRow, OutboxRow, TimerRow, Write, insert_event, insert_outbox, insert_timer, notify,
}
use sagaflow.Session.{Session, view, lift, statement, annotate, continue}
use sagaflow.Session.Growth.{
  Grows, Grows-refl, Grows-write, IsGrowing, lift-IsGrowing, pure-IsGrowing, bind-IsGrowing,
  statement-IsGrowing, annotated-IsGrowing, growing_rules,
}
use sagaflow.EventStore.Rows.{Columns, columns, rows_from}
use sagaflow.EventStore.{append, load, insert_rows, select_stream, translated, any_taken}
use sagaflow.Outbox
use sagaflow.Outbox.{enqueue, insert_messages, notify_outbox}
use sagaflow.Timers.{schedule, insert_row}
use sagaflow.Seat.{Timer, fold}
use sagaflow.Inventory.Store.{encode_all, decode_all, last_meta, append_seat, load_seat}
use sagaflow.Inventory.Commands.{Deps, wrap_message, outgoing, schedule_timers}
use mathlib.Core.List.{append-nil}

All-map :
    {A B : Type 0} (P : B → Type 0) (f : A → B) (xs : List A)
    → ((a : A) → P (f a))
    → All P (map f xs)
All-map P f [] h = tt
All-map P f (x ∷ xs) h = (h x, All-map P f xs h)

module _ (d : Deps) (bad breaks : Write → Bool)
    (kept : (k : ℕ) → any breaks (d.env.others k) ≡ false) where
  open d use {json, timestamps, header_json, frame, env}

  pub load_seat-IsGrowing :
      (seat : String) → IsGrowing bad breaks (load_seat json timestamps env seat)
  unfolding load_seat load
  load_seat-IsGrowing seat =
      let reading =
        statement-IsGrowing bad breaks env kept (select_stream json env seat)
          (record { at = λ s. Grows-refl bad breaks s }) in
      bind-IsGrowing bad breaks _ _
        (bind-IsGrowing bad breaks _ _ reading (λ rows. lift-IsGrowing bad breaks _))
        (λ recorded.
          bind-IsGrowing bad breaks _ _ (lift-IsGrowing bad breaks (decode_all json recorded))
            (λ msgs.
              bind-IsGrowing bad breaks _ _ (lift-IsGrowing bad breaks (fold timestamps msgs))
                (λ state. pure-IsGrowing bad breaks (state, last_meta no_meta recorded))))

  module _ (events : (r : EventRow) → bad (insert_event r) ≡ false) where
    insert_rows-IsGrowing :
        (id : String) (version : ℕ) (cs : List Columns)
        → IsGrowing bad breaks (insert_rows json id version cs)
    unfolding insert_rows
    insert_rows-IsGrowing id version cs = record {
      at = λ s.
          let rows = rows_from json id version s.serial s.started cs in
          elim (Bool-cases (any_taken id (view s).events rows)) [
            | inl taken ↦
                rw taken (Grows-write bad breaks [] s _ tt refl (sym (append-nil s.pending)) refl)
            | inr vacant ↦ rw vacant (
                Grows-write bad breaks (map insert_event rows) s _
                  (All-map (λ w. bad w ≡ false) insert_event rows events) refl refl refl)
          ];
    }

    append-IsGrowing :
        (id : String) (expected : ℕ) (evts : List Event)
        → IsGrowing bad breaks (append json env id expected evts)
    unfolding append
    append-IsGrowing id expected [] = record { at = λ s. Grows-refl bad breaks s }
    append-IsGrowing id expected (e ∷ evts) = record {
      at = λ s. by_columns (columns json (e ∷ evts)) s;
    }
      where
        by_columns :
            (r : Result (List Columns)) (s : Session)
            → Grows bad breaks s
                (continue r
                  (λ cs t. translated (statement env (insert_rows json id expected cs) t))
                  s).1
        by_columns (ok cs) s =
            (statement-IsGrowing bad breaks env kept (insert_rows json id expected cs)
                (insert_rows-IsGrowing id expected cs)).at
              s
        by_columns (err x) s = Grows-refl bad breaks s

    pub append_seat-IsGrowing :
        (seat : String) (expected : ℕ) (ms : List ProtoMessage) (meta : Meta)
        → IsGrowing bad breaks (append_seat json env seat expected ms meta)
    unfolding append_seat
    append_seat-IsGrowing seat expected [] meta = record { at = λ s. Grows-refl bad breaks s }
    append_seat-IsGrowing seat expected (m ∷ ms) meta = record {
      at = λ s.
          (bind-IsGrowing bad breaks (lift (encode_all json meta (m ∷ ms))) _
              (lift-IsGrowing bad breaks (encode_all json meta (m ∷ ms)))
              (λ stored. append-IsGrowing seat expected stored)).at
            s;
    }

  module _ (timers : (r : TimerRow) → bad (insert_timer r) ≡ false) where
    insert_row-IsGrowing :
        (at : Time) (subject token : String)
        → IsGrowing bad breaks (insert_row env at subject token)
    insert_row-IsGrowing at subject token = record {
      at = λ s. Grows-write bad breaks (insert_timer _ ∷ []) s _ (timers _, tt) refl refl refl;
    }

    schedule-IsGrowing :
        (at : Time) (subject token : String) → IsGrowing bad breaks (schedule env at subject token)
    unfolding schedule
    schedule-IsGrowing at subject token =
        annotated-IsGrowing bad breaks env kept "timers" (insert_row env at subject token)
          (insert_row-IsGrowing at subject token)

    pub schedule_timers-IsGrowing :
        (seat : String) (ts : List Timer) → IsGrowing bad breaks (schedule_timers d seat ts)
    unfolding schedule_timers
    schedule_timers-IsGrowing seat [] = record { at = λ s. Grows-refl bad breaks s }
    schedule_timers-IsGrowing seat (t ∷ ts) = record {
      at = λ s.
          (bind-IsGrowing bad breaks (schedule env t.fire_at seat t.token)
              (λ u. schedule_timers d seat ts) (schedule-IsGrowing t.fire_at seat t.token)
              (λ u. schedule_timers-IsGrowing seat ts)).at
            s;
    }

  wrap_message-IsGrowing :
      (tmpl : Envelope) (m : ProtoMessage) → IsGrowing bad breaks (wrap_message d tmpl m)
  unfolding wrap_message
  wrap_message-IsGrowing tmpl m = search growing_rules

  pub outgoing-IsGrowing :
      (tmpl : Envelope) (ms : List ProtoMessage) → IsGrowing bad breaks (outgoing d tmpl ms)
  unfolding outgoing
  outgoing-IsGrowing tmpl [] = record { at = λ s. Grows-refl bad breaks s }
  outgoing-IsGrowing tmpl (m ∷ ms) =
      let one = wrap_message-IsGrowing tmpl m in
      let rest = outgoing-IsGrowing tmpl ms in search (growing_rules, one, rest)

  module _ (messages : (r : OutboxRow) → bad (insert_outbox r) ≡ false)
      (wakes : bad notify ≡ false) where
    insertion :
        (rows : List OutboxRow)
        → IsGrowing bad breaks
            (annotate "outbox" (statement env (insert_messages header_json env rows)))
    unfolding insert_messages
    insertion rows =
        annotated-IsGrowing bad breaks env kept "outbox" (insert_messages header_json env rows)
          (record {
            at = λ s.
                Grows-write bad breaks (map insert_outbox rows) s _
                  (All-map (λ w. bad w ≡ false) insert_outbox rows messages) refl refl refl;
          })

    notification :
        IsGrowing bad breaks (annotate "outbox" (statement env (notify_outbox header_json env)))
    notification =
        annotated-IsGrowing bad breaks env kept "outbox" (notify_outbox header_json env)
          (record { at = λ s. Grows-write bad breaks (notify ∷ []) s _ (wakes, tt) refl refl refl })

    pub enqueue-IsGrowing :
        (msgs : List Message) → IsGrowing bad breaks (enqueue header_json env msgs)
    unfolding enqueue
    enqueue-IsGrowing [] = record { at = λ s. Grows-refl bad breaks s }
    enqueue-IsGrowing (m ∷ msgs) = record {
      at = λ s.
          (bind-IsGrowing bad breaks (lift (Outbox.rows_from header_json s.serial (m ∷ msgs))) _
              (lift-IsGrowing bad breaks (Outbox.rows_from header_json s.serial (m ∷ msgs)))
              (λ rows. bind-IsGrowing bad breaks _ _ (insertion rows) (λ u. notification))).at
            s;
    }
