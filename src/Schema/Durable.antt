-- ===== src/Schema/Durable.antt =====
-- internal/platform/schema/serde.go: a serde is built where the registry has every subject.
use sagaflow.Base.{String, ◌≡◌, ℕ, List, [], ◌∷◌, map}
use sagaflow.Errors.{Result, ok, err}
use sagaflow.Contracts.{ProtoMessage}
use sagaflow.Codec.{type_name}
use sagaflow.Io.Ends.{Ends, Leads, bind-Leads}
use sagaflow.Schema.{
  Registry, Registered, Serde, subject, fail_closed, resolve, register_all, new_topic_serde,
}
use sagaflow.Schema.Closed.{IsClosed, registered_names, new_topic_serde-IsClosed}

-- `holds w s`: in the state `w` the registry has the subject `s`. The registry keeps what it has, a schema
-- it accepted is there, and it answers for a subject that it has.
pub record IsDurable {S : Type 0} (registry : Registry S) (holds : S → String → Type 0)
    : Type 0 where
  pub created :
      (s text : String) (w : S)
      → Ends (λ id w'. holds w' s) (λ w'. Unit {0}) (registry.create_schema s text w)
  pub found :
      (s : String) (w : S)
      → holds w s
      → Ends (λ id w'. Unit {0}) (λ w'. ⊥) (registry.schema_by_version s w)
  pub create_keeps :
      (s t text : String) (w : S) → holds w s → holds (registry.create_schema t text w).1 s
  pub find_keeps : (s t : String) (w : S) → holds w s → holds (registry.schema_by_version t w).1 s

abbrev pub subjects : String → List ProtoMessage → List String
subjects topic ms = map (λ m. subject topic (type_name m)) ms

-- A serde of this topic with the types of these prototypes.
abbrev pub Knows : String → List ProtoMessage → Serde → Type 0
Knows topic ms made = (made.topic ≡ topic) × (registered_names made.inner ≡ map type_name ms)

module _ {S : Type 0} (holds : S → String → Type 0) where
  unfoldable pub AllHeld : List String → S → Type 0
  AllHeld [] w = Unit {0}
  AllHeld (s ∷ ss) w = holds w s × AllHeld ss w

  pub AllHeld-kept :
      (ss : List String) (v w : S)
      → ((s : String) → holds v s → holds w s)
      → AllHeld ss v
      → AllHeld ss w
  unfolding AllHeld
  AllHeld-kept [] v w keeps h = h
  AllHeld-kept (s ∷ ss) v w keeps h = (keeps s h.0, AllHeld-kept ss v w keeps h.1)

module _ {S : Type 0} (registry : Registry S) (holds : S → String → Type 0)
    (durable : IsDurable registry holds) where
  open durable use {found, find_keeps}

  resolve-Leads :
      (others ss : List String) (s : String)
      → Leads
          (λ w. AllHeld holds others w × (holds w s × AllHeld holds ss w))
          (λ id w. AllHeld holds others w × AllHeld holds ss w)
          (λ w. ⊥)
          (resolve registry s)
  unfolding resolve
  resolve-Leads others ss s = record {
    at = λ w h.
        let w' : S = (registry.schema_by_version s w).1 in
        by_lookup (registry.schema_by_version s w).0 w' (found s w h.1.0) (
          AllHeld-kept holds others w w' (λ t. find_keeps t s w) h.0,
          AllHeld-kept holds ss w w' (λ t. find_keeps t s w) h.1.1,
        );
  }
    where
      by_lookup :
          (r : Result ℕ) (w : S)
          → Ends (λ id w'. Unit {0}) (λ w'. ⊥) (r, w)
          → AllHeld holds others w × AllHeld holds ss w
          → Ends
              (λ id w'. AllHeld holds others w' × AllHeld holds ss w')
              (λ w'. ⊥)
              (fail_closed r, w)
      by_lookup (ok id) w a hs = hs
      by_lookup (err e) w a hs = elim a [ ]

  -- It finds every subject it needs, and keeps the others.
  register_all-Leads :
      (others : List String) (topic : String) (ms : List ProtoMessage) (inner : List Registered)
      → Leads
          (λ w. AllHeld holds others w × AllHeld holds (subjects topic ms) w)
          (λ made w. AllHeld holds others w)
          (λ w. ⊥)
          (register_all registry topic ms inner)
  unfolding register_all AllHeld
  register_all-Leads others topic [] inner = record { at = λ w h. h.0 }
  register_all-Leads others topic (m ∷ ms) inner =
      bind-Leads (resolve-Leads others (subjects topic ms) (subject topic (type_name m)))
        (λ id. register_all-Leads others topic ms _)

  pub new_topic_serde-Leads :
      (others : List String) (topic : String) (m : ProtoMessage) (ms : List ProtoMessage)
      → Leads
          (λ w. AllHeld holds others w × AllHeld holds (subjects topic (m ∷ ms)) w)
          (λ made w. Knows topic (m ∷ ms) made × AllHeld holds others w)
          (λ w. ⊥)
          (new_topic_serde registry topic (m ∷ ms))
  unfolding new_topic_serde
  new_topic_serde-Leads others topic m ms = record {
    at = λ w h.
        known (new_topic_serde registry topic (m ∷ ms) w).0
          (new_topic_serde registry topic (m ∷ ms) w).1
          (new_topic_serde-IsClosed registry topic (m ∷ ms) w) (built.at w h);
  }
    where
      built :
          Leads
            (λ w. AllHeld holds others w × AllHeld holds (subjects topic (m ∷ ms)) w)
            (λ made w. AllHeld holds others w)
            (λ w. ⊥)
            (new_topic_serde registry topic (m ∷ ms))
      built =
          bind-Leads (register_all-Leads others topic (m ∷ ms) [])
            (λ inner. record { at = λ w h. h })

      known :
          (r : Result Serde) (w : S)
          → IsClosed topic (m ∷ ms) r
          → Ends (λ made w'. AllHeld holds others w') (λ w'. ⊥) (r, w)
          → Ends (λ made w'. Knows topic (m ∷ ms) made × AllHeld holds others w') (λ w'. ⊥) (r, w)
      known (ok made) w closed h = ((closed.1, closed.2), h)
      known (err e) w closed h = h
