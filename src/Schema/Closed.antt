-- ===== src/Schema/Closed.antt =====
-- internal/platform/schema/serde.go: a serde is built for registered subjects only.
use sagaflow.Base.{
  ℕ, String, ◌≡◌, ◌≢◌, refl, sym, ◌∙◌, ap, subst, true, List, [], ◌∷◌, ◌++◌, map, inl, inr, ◌⊎◌,
}
use sagaflow.Errors.{Result, ok, err, subject_not_registered, errors_is}
use sagaflow.Contracts.{ProtoMessage}
use sagaflow.Codec.{type_name}
use sagaflow.Io.{pure, continue}
use sagaflow.Schema.{
  Registry, subject, Registered, Serde, register, resolve, fail_closed, register_all,
  new_topic_serde,
}
use mathlib.Core.List.{append_assoc, append-nil, map-append}

-- The names of the registered types, in the order of registration.
abbrev pub registered_names : List Registered → List String
registered_names inner = map (λ (r : Registered). r.type_name) inner

-- What building a serde may come to.
abbrev pub IsClosed : String → List ProtoMessage → Result Serde → Type 0
IsClosed topic ms (ok s) =
    (ms ≢ []) × (s.topic ≡ topic) × (registered_names s.inner ≡ map type_name ms)
IsClosed topic ms (err e) = (ms ≡ []) ⊎ (errors_is e subject_not_registered ≡ true)

abbrev Registers : List String → Result (List Registered) → Type 0
Registers names (ok inner) = registered_names inner ≡ names
Registers names (err e) = errors_is e subject_not_registered ≡ true

module _ {S : Type 0} (registry : Registry S) where
  open registry use {schema_by_version}

  names-register :
      (inner : List Registered) (id : ℕ) (m : ProtoMessage)
      → registered_names (register inner id m) ≡ registered_names inner ++ type_name m ∷ []
  unfolding register
  names-register inner id m = map-append (λ (r : Registered). r.type_name) inner _

  register_all-Registers :
      (topic : String) (ms : List ProtoMessage) (inner : List Registered) (w : S)
      → Registers
          (registered_names inner ++ map type_name ms)
          (register_all registry topic ms inner w).0
  unfolding register_all resolve errors_is
  register_all-Registers topic [] inner w = sym (append-nil (registered_names inner))
  register_all-Registers topic (m ∷ ms) inner w =
      by_lookup (schema_by_version (subject topic (type_name m)) w).0 (λ id.
        subst (λ names. Registers names (register_all registry topic ms (register inner id m) w').0)
          (ap (λ l. l ++ map type_name ms) (names-register inner id m)
            ∙ append_assoc (registered_names inner) (type_name m ∷ []) (map type_name ms))
          (register_all-Registers topic ms (register inner id m) w'))
    where
      w' : S
      w' = (schema_by_version (subject topic (type_name m)) w).1

      by_lookup :
          (r : Result ℕ)
          → ((id : ℕ)
              → Registers
                  (registered_names inner ++ type_name m ∷ map type_name ms)
                  (register_all registry topic ms (register inner id m) w').0)
          → Registers
              (registered_names inner ++ type_name m ∷ map type_name ms)
              (continue
                (fail_closed r)
                (λ id w''. register_all registry topic ms (register inner id m) w'')
                w').0
      by_lookup (ok id) registered = registered id
      by_lookup (err e) registered = refl

  -- A serde is built only from at least one prototype, and then its topic is the one asked for and its
  -- registrations are the prototypes' types, in order. Where it is not built, there was no prototype,
  -- or the error is ErrSubjectNotRegistered, whatever the registry answered.
  pub new_topic_serde-IsClosed :
      (topic : String) (ms : List ProtoMessage) (w : S)
      → IsClosed topic ms (new_topic_serde registry topic ms w).0
  unfolding new_topic_serde
  new_topic_serde-IsClosed topic [] w = inl refl
  new_topic_serde-IsClosed topic (m ∷ ms) w =
      by_registration (register_all registry topic (m ∷ ms) [] w).0
        (register_all-Registers topic (m ∷ ms) [] w)
    where
      by_registration :
          (r : Result (List Registered))
          → Registers (map type_name (m ∷ ms)) r
          → IsClosed topic
              (m ∷ ms)
              (continue r
                (λ inner. pure (record { inner = inner; topic = topic }))
                (register_all registry topic (m ∷ ms) [] w).1).0
      by_registration (ok inner) names = (λ e. cc, refl, names)
      by_registration (err e) closed = inr closed
