-- ===== src/Schemactl/Ready.antt =====
-- cmd/schemactl/main.go and internal/inventory/wire.go: what a registration leaves for the service to find.
use sagaflow.Base.{String, ◌≡◌, refl, ℕ, List, [], ◌∷◌}
use sagaflow.Errors.{Result, ok, err}
use sagaflow.Codec.{type_name}
use sagaflow.Io.{Io}
use sagaflow.Io.Ends.{Ends, both-Ends, Leads, bind-Leads, annotate-Leads, weaken-Ends}
use sagaflow.Process.{Drivers, new_registry_client}
use sagaflow.Inventory.Commands.{commands_topic, events_topic}
use sagaflow.Inventory.Service.Startup.{serdes, command_prototypes, event_prototypes}
use sagaflow.Schema.{Registry, Serde, subject, new_topic_serde, ensure_backward_compatibility}
use sagaflow.Schemactl.{
  new_hold_seat, new_seat_held, Binding, bindings, register, register_bindings, run,
}
use sagaflow.Schema.Durable.{
  IsDurable, subjects, AllHeld, AllHeld-kept, Knows, new_topic_serde-Leads,
}

abbrev subject_of : Binding → String
subject_of b = subject b.topic (type_name b.msg)

-- The subjects of the bindings, the last one first, before `done`.
abbrev and_subjects : List Binding → List String → List String
and_subjects [] done = done
and_subjects (b ∷ bs) done = and_subjects bs (subject_of b ∷ done)

-- The serdes of the service.
abbrev pub Serves : Serde × Serde → Type 0
Serves made =
    Knows commands_topic command_prototypes made.0 × Knows events_topic event_prototypes made.1

module _ {S : Type 0} (drivers : Drivers S) (registry : Registry S)
    (read_file : String → Io S String) (holds : S → String → Type 0)
    (durable : IsDurable registry holds)
    (read_file_keeps : (f s : String) (w : S) → holds w s → holds (read_file f w).1 s) where
  open durable use {created, create_keeps}

  abbrev new_client : String → Io S (Unit {0})
  new_client url = drivers.call (new_registry_client url)

  ended :
      {A : Type 0} (P : S → Type 0) (r : Result A) (w : S)
      → P w
      → Ends (λ (a : A). P) (λ v. Unit {0}) (r, w)
  ended P (ok a) w h = h
  ended P (err e) w h = tt

  reading-Leads :
      (done : List String) (file : String)
      → Leads
          (AllHeld holds done)
          (λ (text : String). AllHeld holds done)
          (λ w. Unit {0})
          (read_file file)
  reading-Leads done file = record {
    at = λ w h.
        ended (AllHeld holds done) (read_file file w).0 (read_file file w).1
          (AllHeld-kept holds done w (read_file file w).1 (λ s. read_file_keeps file s w) h);
  }

  creating-Leads :
      (done : List String) (s text : String)
      → Leads
          (AllHeld holds done)
          (λ id. AllHeld holds (s ∷ done))
          (λ w. Unit {0})
          (registry.create_schema s text)
  unfolding AllHeld
  creating-Leads done s text = record {
    at = λ w h.
        by_result (registry.create_schema s text w).0 (registry.create_schema s text w).1
          (created s text w)
          (AllHeld-kept holds done w (registry.create_schema s text w).1
            (λ t. create_keeps t s text w) h);
  }
    where
      by_result :
          (r : Result ℕ) (w : S)
          → Ends (λ id w'. holds w' s) (λ w'. Unit {0}) (r, w)
          → AllHeld holds done w
          → Ends (λ id w'. AllHeld holds (s ∷ done) w') (λ w'. Unit {0}) (r, w)
      by_result (ok id) w h hs = (h, hs)
      by_result (err e) w h hs = tt

  register-Leads :
      (done : List String) (b : Binding)
      → Leads
          (λ w. AllHeld holds done w)
          (λ u w. AllHeld holds (subject_of b ∷ done) w)
          (λ w. Unit {0})
          (register registry new_client read_file b)
  unfolding register AllHeld
  register-Leads done b = bind-Leads (annotate-Leads "read" (reading-Leads done b.file)) (λ text.
      bind-Leads {middle = λ id. AllHeld holds (subject_of b ∷ done)}
        (annotate-Leads "register" (creating-Leads done (subject_of b) text))
        (λ id. record { at = λ w h. h }))

  register_bindings-Leads :
      (done : List String) (bs : List Binding)
      → Leads
          (AllHeld holds done)
          (λ u. AllHeld holds (and_subjects bs done))
          (λ w. Unit {0})
          (register_bindings registry new_client read_file bs)
  unfolding register_bindings
  register_bindings-Leads done [] = record { at = λ w h. h }
  register_bindings-Leads done (b ∷ bs) =
      bind-Leads (register-Leads done b) (λ u. register_bindings-Leads (subject_of b ∷ done) bs)

  unconditional :
      {A : Type 0} (m : Io S A) → Leads (λ w. Unit {0}) (λ (a : A) w. Unit {0}) (λ w. Unit {0}) m
  unconditional m = record { at = λ w h. both-Ends (λ v. Unit {0}) (m w).0 (m w).1 tt }

  run-Leads :
      (url : String)
      → Leads
          (λ w. Unit {0})
          (λ u. AllHeld holds (and_subjects bindings []))
          (λ w. Unit {0})
          (run registry new_client read_file url)
  unfolding run AllHeld
  run-Leads url = bind-Leads (annotate-Leads "sr client" (unconditional (new_client url))) (λ u.
      bind-Leads (unconditional (ensure_backward_compatibility registry))
        (λ v. register_bindings-Leads [] bindings))

  module _ (served : String)
      (opens : (w : S) → drivers.call (new_registry_client served) w ≡ (ok tt, w)) where
    abbrev command_subjects : List String
    command_subjects = subjects commands_topic command_prototypes

    abbrev event_subjects : List String
    event_subjects = subjects events_topic event_prototypes

    sorted :
        (w : S)
        → AllHeld holds (and_subjects bindings []) w
        → AllHeld holds event_subjects w × AllHeld holds command_subjects w
    unfolding AllHeld
    sorted w (unavailable, (expired, (released, (seated, (release, (hold, done)))))) =
        ((seated, (released, (expired, (unavailable, tt)))), (hold, (release, tt)))

    events-Leads :
        (a : Serde)
        → Leads
            (λ w. Knows commands_topic command_prototypes a × AllHeld holds event_subjects w)
            (λ b w. Serves (a, b))
            (λ w. ⊥)
            (new_topic_serde registry events_topic event_prototypes)
    unfolding AllHeld
    events-Leads a = record {
      at = λ w h.
          let s : Io S Serde = new_topic_serde registry events_topic event_prototypes in
          weaken-Ends (λ b w'. Knows events_topic event_prototypes b × AllHeld holds [] w')
            (λ w'. ⊥) (λ b w'. Serves (a, b)) (λ w'. ⊥) (s w)
            ((new_topic_serde-Leads registry holds durable [] events_topic new_seat_held _).at w
              (tt, h.1))
            (λ b w' i. (h.0, i.0)) (λ w' i. i);
    }

    serdes-Leads :
        Leads
          (AllHeld holds (and_subjects bindings []))
          (λ made w. Serves made)
          (λ w. ⊥)
          (serdes drivers registry served)
    unfolding serdes
    serdes-Leads =
        bind-Leads
          {middle = λ u w. AllHeld holds event_subjects w × AllHeld holds command_subjects w}
          (annotate-Leads "inventory: schema registry client"
            (record { at = λ w h. rw opens (sorted w h) }))
          (λ u.
            bind-Leads
              (new_topic_serde-Leads registry holds durable event_subjects commands_topic
                new_hold_seat _)
              (λ a. bind-Leads (events-Leads a) (λ b. record { at = λ w h. h })))

    -- A run of schemactl that succeeds leaves a registry from which the service builds both its serdes: for
    -- the topic of the commands and for that of the events, each with the types of its prototypes, in
    -- order. The registry is one that keeps what it has (IsDurable), reading a file leaves it alone,
    -- and the service's client of it can be made, which asks the registry nothing.
    pub serdes-run :
        (url : String) (w : S)
        → (run registry new_client read_file url w).0 ≡ ok tt
        → (made : Serde × Serde) × ((serdes drivers registry served
              (run registry new_client read_file url w).1).0
            ≡ ok made)
          × Serves made
    serdes-run url w h =
        let registered : Result (Unit {0}) = (run registry new_client read_file url w).0 in
        let done : S = (run registry new_client read_file url w).1 in
        let held : AllHeld holds (and_subjects bindings []) done =
          succeeded registered done ((run-Leads url).at w tt) h in
        built (serdes drivers registry served done).0 (serdes drivers registry served done).1
          (serdes-Leads.at done held)
      where
        succeeded :
            (r : Result (Unit {0})) (v : S)
            → Ends (λ u. AllHeld holds (and_subjects bindings [])) (λ w. Unit {0}) (r, v)
            → r ≡ ok tt
            → AllHeld holds (and_subjects bindings []) v
        succeeded (ok u) v i h = i
        succeeded (err e) v i h = cc

        built :
            (r : Result (Serde × Serde)) (v : S)
            → Ends (λ made w. Serves made) (λ w. ⊥) (r, v)
            → (made : Serde × Serde) × (r ≡ ok made) × Serves made
        built (ok made) v i = (made, refl, i)
        built (err e) v i = elim i [ ]
