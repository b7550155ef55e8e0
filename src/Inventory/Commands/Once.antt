-- ===== src/Inventory/Commands/Once.antt =====
-- internal/inventory/commands.go and internal/platform/inbox: a message that is delivered again and again is
-- handled once.
use sagaflow.Base.{
  ℕ, zero, suc, String, ◌≡◌, refl, sym, subst, Bool, true, false, List, [], ◌∷◌, ◌++◌, inl, inr,
  any, All, keep, length, ◌≤◌, Bool-cases, arith,
}
use sagaflow.Errors.{Result, ok, err}
use sagaflow.Contracts.{ProtoMessage}
use sagaflow.Envelope.{Envelope}
use sagaflow.Database.{Db, Write, insert_inbox, prune_inbox, consumed, perform, perform_all}
use sagaflow.Session.{Session, with_tx, continue}
use sagaflow.Session.Repeated.{
  Others, Covered, Sealed, with_tx-Sealed, Left, Left-Sealed, Left-again,
}
use sagaflow.Session.Repeated.Series.{
  has_writes, again_and_again, again_and_again-Calls, kept_by, kept_others, Effect, Calls-Once,
}
use sagaflow.Seat.{target_seat}
use sagaflow.Inventory.Commands.{
  Deps, consumer_name, is_conflict, consume_command, apply_in_one_transaction, handle_from, handle,
  conflict_retries,
}
use sagaflow.Inventory.Commands.Redelivered.{prunes_inbox, consumed-perform, handle_again}
use sagaflow.Inventory.Commands.Noting.{notes_message, on_inbox, consume_command-Bodied}

found_last :
    {A : Type 0} (p : A → Bool) (rows : List A) (r : A) → p r ≡ true → any p (rows ++ r ∷ []) ≡ true
unfolding any
found_last p [] r h = rw h refl
found_last p (q ∷ rows) r h = ground (arith, found_last p rows r h)

module _ (d : Deps) (incoming : Envelope)
    (kept : (k : ℕ) → any prunes_inbox (d.env.others k) ≡ false) where
  open d use {json, timestamps, header_json, env}

  -- One try, and `Handle` with all its tries.
  abbrev Ends : {A : Type 0} → Session → Result A × Session → Type 0
  Ends s p = Sealed (notes_message incoming) on_inbox prunes_inbox s p

  try_in_one_transaction-Sealed :
      (cmd : ProtoMessage) (s : Session)
      → s.pending ≡ []
      → Ends s (apply_in_one_transaction d incoming cmd s)
  unfolding apply_in_one_transaction perform_all
  try_in_one_transaction-Sealed cmd s none_in = by_target (target_seat cmd)
    where
      by_target :
          (r : Result String)
          → Ends s (continue r (λ seat. with_tx env (consume_command d incoming cmd seat)) s)
      by_target (ok seat) =
          with_tx-Sealed (notes_message incoming) on_inbox prunes_inbox env kept
            (consume_command d incoming cmd seat) s
            (consume_command-Bodied d incoming kept cmd seat) none_in
      by_target (err e) = (none_in, inl (refl, ([], refl, tt)))

  -- The state that `Handle` leaves, whatever it returns.
  abbrev End : Session → Session → Type 0
  End s t = Left (notes_message incoming) on_inbox prunes_inbox s t

  -- A try that reports a conflict has committed nothing.
  no_commit :
      (s : Session) (p : Result (Unit {0}) × Session)
      → Ends s p
      → is_conflict p.0 ≡ true
      → (p.1.log ≡ s.log) × Others prunes_inbox s.committed p.1.committed
  no_commit s p (none_in, inl l) conflict = l
  no_commit s (ok u, t) (none_in, inr (c, settled)) conflict = cc
  no_commit s (err e, t) (none_in, inr (c, settled)) conflict = cc

  handle_from-Left :
      (left : ℕ) (cmd : ProtoMessage) (s : Session)
      → s.pending ≡ []
      → End s (handle_from d left incoming cmd s).1
  unfolding handle_from
  handle_from-Left zero cmd s none_in =
      Left-Sealed (notes_message incoming) on_inbox prunes_inbox s
        (apply_in_one_transaction d incoming cmd s) (try_in_one_transaction-Sealed cmd s none_in)
  handle_from-Left (suc left) cmd s none_in =
      by_conflict (is_conflict p.0) refl (try_in_one_transaction-Sealed cmd s none_in)
        (handle_from-Left left cmd p.1)
    where
      p : Result (Unit {0}) × Session
      p = apply_in_one_transaction d incoming cmd s

      by_conflict :
          (b : Bool)
          → is_conflict p.0 ≡ b
          → Ends s p
          → (p.1.pending ≡ [] → End p.1 (handle_from d left incoming cmd p.1).1)
          → End s
              (elim b as (λ c. Result (Unit {0}) × Session) [
                | true ↦ handle_from d left incoming cmd p.1
                | false ↦ p
              ]).1
      by_conflict true conflict e again =
          let (same, o) = no_commit s p e conflict in
          Left-again (notes_message incoming) on_inbox prunes_inbox s p.1
            (handle_from d left incoming cmd p.1).1 same o (again e.0)
      by_conflict false settled e again =
          Left-Sealed (notes_message incoming) on_inbox prunes_inbox s p e

  abbrev Noted : List Write → Type 0
  Noted ws = Covered (notes_message incoming) on_inbox prunes_inbox ws

  no_prune : (w : Write) → on_inbox w ≡ false → prunes_inbox w ≡ false
  no_prune (prune_inbox now age) h = cc
  no_prune _ h = refl

  no_prune_among :
      (ws : List Write) → All (λ w. on_inbox w ≡ false) ws → All (λ w. prunes_inbox w ≡ false) ws
  no_prune_among [] clean = tt
  no_prune_among (w ∷ ws) clean = (no_prune w clean.0, no_prune_among ws clean.1)

  mark_stays : (w : Write) → notes_message incoming w ≡ true → prunes_inbox w ≡ false
  mark_stays (prune_inbox now age) h = cc
  mark_stays _ h = refl

  Noted-clean : (ws : List Write) → Noted ws → All (λ w. prunes_inbox w ≡ false) ws
  Noted-clean [] n = tt
  Noted-clean (w ∷ ws) n = (mark_stays w n.0, no_prune_among ws n.1)

  -- What one call of `Handle` does for the message with this source and id.
  module _ (source id : String) where
    abbrev IsKnown : Db → Type 0
    IsKnown t = consumed consumer_name source id t.inbox ≡ true

    stays_known : (t : Db) (w : Write) → prunes_inbox w ≡ false → IsKnown t → IsKnown (perform t w)
    stays_known = consumed-perform consumer_name source id

    Left-keeps : (s t : Session) → End s t → IsKnown s.committed → IsKnown t.committed
    Left-keeps s t (none_in, inl (same, o)) h =
        kept_others IsKnown prunes_inbox stays_known s.committed t.committed o h
    Left-keeps s t (none_in, inr c) h = subst IsKnown (sym c.tables) (
        kept_by IsKnown prunes_inbox stays_known c.base c.ws (Noted-clean c.ws c.covered)
          (kept_others IsKnown prunes_inbox stays_known s.committed c.base c.since h))

  marked :
      (b : Db) (w : Write)
      → notes_message incoming w ≡ true
      → IsKnown incoming.source incoming.id (perform b w)
  unfolding perform
  marked b (insert_inbox r) h = found_last _ b.inbox r h
  marked b _ h = cc

  Noted-marks :
      (b : Db) (ws : List Write)
      → Noted ws
      → has_writes ws ≡ true
      → IsKnown incoming.source incoming.id (perform_all b ws)
  unfolding perform_all
  Noted-marks b [] n h = cc
  Noted-marks b (w ∷ ws) n h =
      kept_by (IsKnown incoming.source incoming.id) prunes_inbox
        (stays_known incoming.source incoming.id) (perform b w) ws (no_prune_among ws n.1)
        (marked b w n.0)

  -- `hits` holds only of commits of this message.
  module _ (source id : String) (Shape : List Write → Type 0)
      (shaped : (ws : List Write) → Noted ws → Shape ws) (hits : List Write → Bool)
      (none_hit : hits [] ≡ false)
      (hits_own : (ws : List Write)
        → Noted ws
        → hits ws ≡ true
        → (has_writes ws ≡ true) × (incoming.source ≡ source) × (incoming.id ≡ id)) where
    first_time :
        (s t : Session)
        → End s t
        → (IsKnown source id s.committed → incoming.source ≡ source → incoming.id ≡ id → ⊥)
        → Effect (IsKnown source id) Shape hits s t
    first_time s t e new = record {
      none_pending = e.0;
      keeps = Left-keeps source id s t e;
      commit = elim e.1 [
        | inl (same, o) ↦ inl same
        | inr c ↦ inr (
          c.ws,
          c.log,
          shaped c.ws c.covered,
          λ h.
              let (written, from, named) = hits_own c.ws c.covered h in
              subst (λ x. IsKnown x id t.committed) from
                (subst (λ x. IsKnown incoming.source x t.committed) named
                  (subst (IsKnown incoming.source incoming.id) (sym c.tables)
                    (Noted-marks c.base c.ws c.covered written))),
          λ known. elim (Bool-cases (hits c.ws)) [
            | inl h ↦
                let (written, from, named) = hits_own c.ws c.covered h in
                elim (new known from named) [ ]
            | inr miss ↦ miss
          ],
        )
      ];
    }

    pub handle-Effect :
        (cmd : ProtoMessage) (s : Session)
        → s.pending ≡ []
        → Effect (IsKnown source id) Shape hits s (handle d incoming cmd s).1
    unfolding handle
    handle-Effect cmd s none_in =
        elim (Bool-cases (consumed consumer_name incoming.source incoming.id s.committed.inbox)) [
          | inr new ↦ first_time s (handle d incoming cmd s).1 e (λ known from named.
              let was : consumed consumer_name incoming.source incoming.id s.committed.inbox
                  ≡ true =
                rw (from, named) known in
              cc)
          | inl old ↦
              let (clear, still, logged) = handle_again d incoming kept cmd s old none_in in
              record {
                none_pending = clear;
                keeps = Left-keeps source id s (handle d incoming cmd s).1 e;
                commit = elim logged [
                  | inl same ↦ inl same
                  | inr blank ↦
                      inr ([], blank, shaped [] tt, λ h. let no = none_hit in cc, λ known. none_hit)
                ];
              }
        ]
      where
        e : End s (handle d incoming cmd s).1
        e = handle_from-Left conflict_retries cmd s none_in

  -- A message is handled once, however often it is delivered. As long as no other transaction prunes
  -- the inbox, any number of calls of `Handle` with one message commit at most one transaction that
  -- writes anything, and that transaction notes the message in the inbox with its first write, and
  -- writes nothing else there. This holds whatever other transactions commit before every statement,
  -- and whichever statements fail or take effect and lose their answer.
  pub handle_once :
      (cmd : ProtoMessage) (n : ℕ) (s : Session)
      → s.pending ≡ []
      → let t = again_and_again n (λ u. (handle d incoming cmd u).1) s in
        (new : List (List Write)) × (t.log ≡ s.log ++ new)
        × All (Covered (notes_message incoming) on_inbox prunes_inbox) new
        × (length (keep has_writes new) ≤ 1)
  handle_once cmd n s none_in =
      Calls-Once (IsKnown incoming.source incoming.id) Noted has_writes
        (λ u v. v ≡ (handle d incoming cmd u).1)
        (λ u v called none_u.
          subst (Effect (IsKnown incoming.source incoming.id) Noted has_writes u) (sym called) (
            handle-Effect incoming.source incoming.id Noted (λ ws n. n) has_writes refl
              (λ ws n h. (h, refl, refl)) cmd u none_u))
        none_in (again_and_again-Calls n (λ u. (handle d incoming cmd u).1) s)
