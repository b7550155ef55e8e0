-- ===== src/Inventory/Commands/Noting.antt =====
-- internal/inventory/commands.go and internal/platform/inbox: a transaction that writes anything notes its
-- message in the inbox.
use sagaflow.Base.{
  ℕ, String, ◌≡◌, refl, ◌∙◌, ap, subst, Bool, true, false, ◌&&◌, ◌||◌, List, [], ◌∷◌, ◌++◌, inl,
  inr, any, ◌==◌, eq_refl, Bool-cases, if◌then◌else◌,
}
use sagaflow.Errors.{Result, ok, err, ok-injective}
use sagaflow.Contracts.{ProtoMessage}
use sagaflow.Envelope.{Envelope}
use sagaflow.Database.{Write, insert_inbox, prune_inbox, consumed}
use sagaflow.Session.{Session, Tx, view, write, arrive, statement, continue, pure}
use sagaflow.Session.Inversion.{annotate-ok, statement-ok, lift-ok, arrive-pending}
use sagaflow.Session.Growth.{
  Grows, Grows-refl, Grows-write, IsGrowing, bind-IsGrowing, lift-IsGrowing, if-IsGrowing,
  annotated-IsGrowing,
}
use sagaflow.Session.Repeated.{Bodied, Others-trans, Covered-Grows}
use sagaflow.Inbox.{insert_mark, mark_consumed}
use sagaflow.Seat.{messages}
use sagaflow.Inventory.Commands.{
  Deps, consumer_name, command_meta, reply_template, apply_command, consume_command,
}
use sagaflow.Inventory.Commands.Growing.{
  load_seat-IsGrowing, append_seat-IsGrowing, schedule_timers-IsGrowing, outgoing-IsGrowing,
  enqueue-IsGrowing,
}
use sagaflow.Inventory.Commands.Redelivered.{prunes_inbox}

-- Whether a write notes the message in the inbox.
abbrev pub notes_message : Envelope → Write → Bool
notes_message incoming (insert_inbox r) =
    r.consumer == consumer_name && r.source == incoming.source && r.event_id == incoming.id
notes_message incoming _ = false

-- Whether a write is one to the inbox.
abbrev pub on_inbox : Write → Bool
on_inbox (insert_inbox r) = true
on_inbox (prune_inbox now age) = true
on_inbox _ = false

module _ (d : Deps) (incoming : Envelope)
    (kept : (k : ℕ) → any prunes_inbox (d.env.others k) ≡ false) where
  open d use {json, timestamps, header_json, env}

  apply_command-IsGrowing :
      (cmd : ProtoMessage) (seat : String)
      → IsGrowing on_inbox prunes_inbox (apply_command d incoming cmd seat)
  unfolding apply_command
  apply_command-IsGrowing cmd seat =
      bind-IsGrowing on_inbox prunes_inbox _ _
        (load_seat-IsGrowing d on_inbox prunes_inbox kept seat)
        (λ p.
          bind-IsGrowing on_inbox prunes_inbox _ _ (lift-IsGrowing on_inbox prunes_inbox _)
            (λ outcome.
              bind-IsGrowing on_inbox prunes_inbox _ _
                (append_seat-IsGrowing d on_inbox prunes_inbox kept (λ r. refl) seat p.0.version
                  outcome.events (command_meta incoming))
                (λ u.
                  bind-IsGrowing on_inbox prunes_inbox _ _
                    (schedule_timers-IsGrowing d on_inbox prunes_inbox kept (λ r. refl) seat
                      outcome.timers)
                    (λ u.
                      bind-IsGrowing on_inbox prunes_inbox _ _
                        (outgoing-IsGrowing d on_inbox prunes_inbox kept
                          (reply_template incoming seat) (messages outcome))
                        (λ msgs.
                          enqueue-IsGrowing d on_inbox prunes_inbox kept (λ r. refl) refl msgs)))))

  -- After the inbox: the mark is written exactly if the message is new.
  abbrev Noted : Bool → List Write → Type 0
  Noted true ws = (w : Write) × (ws ≡ w ∷ []) × (notes_message incoming w ≡ true)
  Noted false ws = ws ≡ []

  insert_mark-Noted :
      (s t : Session) (first : Bool)
      → s.pending ≡ []
      → insert_mark consumer_name incoming.source incoming.id s ≡ (ok first, t)
      → Noted first t.pending
  unfolding insert_mark
  insert_mark-Noted s t first none_in h =
      elim (Bool-cases (consumed consumer_name incoming.source incoming.id (view s).inbox)) [
        | inl old ↦
            let (e, same) = lift-ok (ok false) s t first (rw old at h) in
            subst (λ b. Noted b t.pending) (ok-injective e)
              (ap (λ (x : Session). x.pending) same ∙ none_in)
        | inr new ↦
            let mark : Write = insert_inbox (record {
              consumer = consumer_name;
              source = incoming.source;
              event_id = incoming.id;
              handled_at = s.started;
            }) in
            let noted : notes_message incoming mark ≡ true =
              rw (eq_refl incoming.source, eq_refl incoming.id) refl in
            let (e, same) = lift-ok (ok true) (write (mark ∷ []) s) t first (rw new at h) in
            subst (λ b. Noted b t.pending) (ok-injective e)
              (mark, ap (λ (x : Session). x.pending) same ∙ ap (λ l. l ++ mark ∷ []) none_in, noted)
      ]

  mark_consumed-Noted :
      (s t : Session) (first : Bool)
      → s.pending ≡ []
      → mark_consumed env consumer_name incoming.source incoming.id s ≡ (ok first, t)
      → Noted first t.pending
  unfolding mark_consumed
  mark_consumed-Noted s t first none_in h =
      elim (Bool-cases (consumer_name == "" || incoming.source == "" || incoming.id == "")) [
        | inl bad ↦ let no = lift-ok (err _) s t first (rw bad at h) in cc
        | inr good ↦
            let body : Tx Bool = insert_mark consumer_name incoming.source incoming.id in
            insert_mark-Noted (arrive env s) t first (arrive-pending env s ∙ none_in) (
              statement-ok env body s t first
                (annotate-ok "inbox" (statement env body) s t first (rw good at h)))
      ]

  -- It adds no write that breaks.
  insert_mark-IsGrowing :
      IsGrowing prunes_inbox prunes_inbox (insert_mark consumer_name incoming.source incoming.id)
  unfolding insert_mark
  insert_mark-IsGrowing = record {
    at = λ s.
        elim (Bool-cases (consumed consumer_name incoming.source incoming.id (view s).inbox)) [
          | inl old ↦ rw old (Grows-refl prunes_inbox prunes_inbox s)
          | inr new ↦
              rw new (Grows-write prunes_inbox prunes_inbox (_ ∷ []) s _ (refl, tt) refl refl refl)
        ];
  }

  mark_consumed-IsGrowing :
      IsGrowing prunes_inbox prunes_inbox
        (mark_consumed env consumer_name incoming.source incoming.id)
  unfolding mark_consumed
  mark_consumed-IsGrowing =
      if-IsGrowing prunes_inbox prunes_inbox
        (consumer_name == "" || incoming.source == "" || incoming.id == "") _ _
        (lift-IsGrowing prunes_inbox prunes_inbox (err _))
        (annotated-IsGrowing prunes_inbox prunes_inbox env kept "inbox"
          (insert_mark consumer_name incoming.source incoming.id) insert_mark-IsGrowing)

  abbrev pub Body : Session → Result (Unit {0}) × Session → Type 0
  Body s p = Bodied (notes_message incoming) on_inbox prunes_inbox s p

  pub consume_command-Bodied :
      (cmd : ProtoMessage) (seat : String) (s : Session)
      → s.pending ≡ []
      → Body s (consume_command d incoming cmd seat s)
  unfolding consume_command
  consume_command-Bodied cmd seat s none_in =
      by_result m.0 m.1 (mark_consumed-IsGrowing.at s)
        (λ first h. mark_consumed-Noted s m.1 first none_in (λ i. (h i, m.1)))
    where
      m : Result Bool × Session
      m = mark_consumed env consumer_name incoming.source incoming.id s

      handling : Bool → Tx (Unit {0})
      handling first = if first then apply_command d incoming cmd seat else pure tt

      by_result :
          (r : Result Bool) (t : Session)
          → Grows prunes_inbox prunes_inbox s t
          → ((first : Bool) → r ≡ ok first → Noted first t.pending)
          → Body s (continue r handling t)
      by_result (err e) t g noted = (g.log, (g.theirs, g.tables, g.foreign), λ a h. cc)
      by_result (ok false) t g noted =
          (g.log, (g.theirs, g.tables, g.foreign), λ a h. rw (noted false refl) tt)
      by_result (ok true) t g noted =
          let f = (apply_command-IsGrowing cmd seat).at t in
          let (w, alone, mark) = noted true refl in
          (
            f.log ∙ g.log,
            Others-trans prunes_inbox s.committed t.committed _ (g.theirs, g.tables, g.foreign)
                (f.theirs, f.tables, f.foreign),
            λ a h. Covered-Grows (notes_message incoming) on_inbox prunes_inbox t _ w f alone mark,
          )
