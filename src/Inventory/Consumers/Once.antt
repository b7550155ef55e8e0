-- ===== src/Inventory/Consumers/Once.antt =====
-- internal/inventory/consumers.go, commands.go, internal/platform/kafka/consumer.go and
-- internal/platform/inbox: the consumer group of the commands.
use sagaflow.Base.{
  ℕ, String, ◌≡◌, refl, sym, ◌∙◌, subst, Bool, true, false, ◌&&◌, List, [], ◌∷◌, ◌++◌, inl, inr,
  any, All, keep, length, ◌≤◌, ◌==◌, eq_iff, map, Bool-cases, arith,
}
use sagaflow.Errors.{Result, ok, err}
use sagaflow.Contracts.{ProtoMessage}
use sagaflow.Envelope.{Envelope, parse}
use sagaflow.Database.{Bytes, Db, Write, insert_inbox, consumed}
use sagaflow.Session.{Session, continue}
use sagaflow.Session.Repeated.{Covered}
use sagaflow.Session.Repeated.Series.{has_writes, Calls, then_call, start, Effect, Calls-Once}
use sagaflow.Kafka.Wire.{Record}
use sagaflow.Kafka.Consumer.{Runtime, ConsumerConfig, Client, Fetch, run}
use sagaflow.Kafka.Consumer.Keeping.{Keeps, run-keeps}
use sagaflow.Inventory.Commands.{Deps, consumer_name, handle}
use sagaflow.Inventory.Commands.Redelivered.{prunes_inbox}
use sagaflow.Inventory.Commands.Noting.{notes_message, on_inbox}
use sagaflow.Inventory.Commands.Once.{handle-Effect}
use sagaflow.Inventory.Consumers.{as_permanent, classify, commands, commands_runtime, beside}

-- Whether a write marks a message of this consumer in the inbox.
abbrev pub marks_inbox : Write → Bool
marks_inbox (insert_inbox r) = r.consumer == consumer_name
marks_inbox _ = false

-- A commit with writes marks a message in the inbox first, and writes nothing else there.
abbrev pub Handled : List Write → Type 0
Handled ws = Covered marks_inbox on_inbox prunes_inbox ws

-- Whether a write notes the message of this source and id as handled.
abbrev pub notes : String → String → Write → Bool
notes source id (insert_inbox r) =
    r.consumer == consumer_name && r.source == source && r.event_id == id
notes source id _ = false

notes_nothing_else :
    (source id : String) (ws : List Write)
    → All (λ w. on_inbox w ≡ false) ws
    → any (notes source id) ws ≡ false
unfolding any
notes_nothing_else source id [] clean = refl
notes_nothing_else source id (insert_inbox r ∷ ws) clean = let no = clean.0 in cc
notes_nothing_else source id (w ∷ ws) clean = notes_nothing_else source id ws clean.1

module _ (d : Deps) (unframe : Bytes → Result ProtoMessage)
    (kept : (k : ℕ) → any prunes_inbox (d.env.others k) ≡ false) (source id : String) where
  module _ (incoming : Envelope) where
    marks : (w : Write) → notes_message incoming w ≡ true → marks_inbox w ≡ true
    marks (insert_inbox r) h = ground (arith, h)
    marks _ h = cc

    shaped :
        (ws : List Write) → Covered (notes_message incoming) on_inbox prunes_inbox ws → Handled ws
    shaped [] c = tt
    shaped (w ∷ ws) c = (marks w c.0, c.1)

    one_message :
        (w : Write)
        → notes_message incoming w ≡ true
        → notes source id w ≡ true
        → (incoming.source ≡ source) × (incoming.id ≡ id)
    one_message (insert_inbox r) h k =
        let from : (r.source == incoming.source) ≡ true = ground (arith, h) in
        let named : (r.event_id == incoming.id) ≡ true = ground (arith, h) in
        let from' : (r.source == source) ≡ true = ground (arith, k) in
        let named' : (r.event_id == id) ≡ true = ground (arith, k) in
        (
          sym ((eq_iff r.source incoming.source).0 from) ∙ (eq_iff r.source source).0 from',
          sym ((eq_iff r.event_id incoming.id).0 named) ∙ (eq_iff r.event_id id).0 named',
        )
    one_message _ h k = cc

    own :
        (ws : List Write)
        → Covered (notes_message incoming) on_inbox prunes_inbox ws
        → any (notes source id) ws ≡ true
        → (has_writes ws ≡ true) × (incoming.source ≡ source) × (incoming.id ≡ id)
    unfolding any
    own [] c h = cc
    own (w ∷ ws) c h = elim (Bool-cases (notes source id w)) [
      | inl here ↦ let same = one_message w c.0 here in (refl, same.0, same.1)
      | inr other ↦
          let none_behind = notes_nothing_else source id ws c.1 in let no = rw other at h in cc
    ]

  abbrev IsKnown : Db → Type 0
  IsKnown t = consumed consumer_name source id t.inbox ≡ true

  -- What the handler does with one record.
  abbrev RecordEffect : Session → Session → Type 0
  RecordEffect s t = Effect IsKnown Handled (any (notes source id)) s t

  commands-Effect :
      (r : Record) (s : Session) → s.pending ≡ [] → RecordEffect s (commands d unframe r s).1
  unfolding commands as_permanent any
  commands-Effect r s none_in = by_envelope (parse r.headers)
    where
      unchanged : RecordEffect s s
      unchanged = record { none_pending = none_in; keeps = λ h. h; commit = inl refl }

      by_command :
          (incoming : Envelope) (x : Result ProtoMessage)
          → RecordEffect s
              (continue
                (as_permanent x)
                (λ cmd u. let (a, v) = handle d incoming cmd u in (classify a, v))
                s).1
      by_command incoming (ok cmd) =
          handle-Effect d incoming kept source id Handled (shaped incoming) (any (notes source id))
            refl (own incoming) cmd s none_in
      by_command incoming (err e) = unchanged

      by_envelope :
          (x : Result Envelope)
          → RecordEffect s
              (continue
                (as_permanent x)
                (λ incoming u.
                  continue
                    (as_permanent (unframe r.value))
                    (λ cmd w. let (a, v) = handle d incoming cmd w in (classify a, v))
                    u)
                s).1
      by_envelope (ok incoming) = by_command incoming (unframe r.value)
      by_envelope (err e) = unchanged

  -- The handler is called with records, one after the other.
  abbrev Handling : Session → Session → Type 0
  Handling s t = Calls (λ u v. (r : Record) × (v ≡ (commands d unframe r u).1)) s t

  module _ {W : Type 0} (rt : Runtime W) (cfg : ConsumerConfig) (s : Session) where
    abbrev Reached : Session × W → Type 0
    Reached p = Handling s p.0

    commands_runtime-Keeps : Keeps Reached (commands_runtime d unframe rt)
    commands_runtime-Keeps = record {
      by_handler = λ r p h. then_call h (r, refl);
      by_produce_sync = λ rs p h. h;
      by_random = λ n p h. h;
      by_interrupted = λ n p h. h;
    }

    waiting :
        (fetches : List (Fetch W))
        → All
            (λ (f : Fetch (Session × W)). (p : Session × W) → Reached p → Reached (f.meanwhile p))
            (map beside fetches)
    waiting [] = tt
    waiting (f ∷ fetches) = (λ p h. h, waiting fetches)

    run-Handling :
        (fetches : List (Fetch W)) (c : Client (Session × W))
        → c.world.0 ≡ s
        → Handling s (run (commands_runtime d unframe rt) cfg (map beside fetches) c).world.0
    run-Handling fetches c from =
        run-keeps Reached (commands_runtime d unframe rt) cfg commands_runtime-Keeps
          (map beside fetches) c (waiting fetches) (subst (λ u. Handling s u) (sym from) start)

  -- The consumer of the commands handles every message once. As long as no other transaction prunes the
  -- inbox, and nothing is pending at first, a run of the consumer over whatever polls, with the
  -- handler of the commands, commits only transactions that write nothing or mark a message of the
  -- consumer in the inbox with their first write and write nothing else there; and for any source and
  -- id, at most one of these notes the message of this source and id. This holds however often the
  -- records of a message are delivered, between the records of others, and retried, whatever other
  -- transactions commit before every statement, and whichever statements fail or take effect and lose
  -- their answer.
  pub consumer_once :
      {W : Type 0} (rt : Runtime W) (cfg : ConsumerConfig) (fetches : List (Fetch W))
      (c : Client (Session × W))
      → c.world.0.pending ≡ []
      → let t = (run (commands_runtime d unframe rt) cfg (map beside fetches) c).world.0 in
        (new : List (List Write)) × (t.log ≡ c.world.0.log ++ new)
        × All Handled new
        × (length (keep (any (notes source id)) new) ≤ 1)
  consumer_once rt cfg fetches c none_in =
      Calls-Once IsKnown Handled (any (notes source id))
        (λ u v. (r : Record) × (v ≡ (commands d unframe r u).1))
        (λ u v called none_u.
          subst (RecordEffect u) (sym called.1) (commands-Effect called.0 u none_u))
        none_in (run-Handling rt cfg c.world.0 fetches c refl)
