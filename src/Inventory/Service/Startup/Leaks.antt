-- ===== src/Inventory/Service/Startup/Leaks.antt =====
-- What the steps of a start leave open in the process: internal/platform/pg, internal/platform/kafka and the
-- calls of the schema registry.
use sagaflow.Base.{ℕ, suc, ◌-◌, String, ◌≡◌, refl, ap, true, false, List, arith, ◌==◌}
use sagaflow.Errors.{Result, ok, err}
use sagaflow.Io.{Io, annotate, pure, deferred, ◌>>=◌}
use sagaflow.Io.Ends.{
  Ends, both-Ends, Leads, bind-Leads, annotate-Leads, deferred-Leads, or_undo-Leads,
}
use sagaflow.Process.{
  Drivers, Handles, Process, on_world, acquire, held, hold_pool, drop_pool, hold_connection,
  drop_connection, hold_admin, drop_admin, hold_producer, hold_consumer, new_kafka_client,
}
use sagaflow.Pg.{open_pool, migrate}
use sagaflow.Kafka.Admin.{check_topics, ensure_topics, new_producer, open_consumer}
use sagaflow.Kafka.Consumer.{
  ConsumerConfig, new_consumer, default_max_attempts, default_base_backoff,
}
use sagaflow.Inventory.Service.Startup.{consumer_of}

pub back : (n : ℕ) → suc n - 1 ≡ n
back n = omega arith

module _ {S : Type 0} where
  abbrev pub Has : Handles → Process S → Type 0
  Has h p = p.handles ≡ h

  abbrev pub Keeps : {A : Type 0} → Handles → Io (Process S) A → Type 0
  Keeps {A} h m = Leads (Has h) (λ (a : A). Has h) (Has h) m

  pub asked :
      {A : Type 0} {h : Handles} (text : String) (m : Io S A) → Keeps h (annotate text (on_world m))
  asked {A} {h} text m = annotate-Leads text (record {
    at = λ p o. both-Ends (Has h) (m p.world).0 (record p { world = (m p.world).1 }) o;
  })

  opened :
      {h k : Handles} (text : String) (hold : Process S → Process S) (m : Io S (Unit {0}))
      → ((q : Process S) → Has h q → Has k (hold q))
      → Leads (Has h) (λ (a : Unit {0}). Has k) (Has h) (annotate text (acquire hold m))
  unfolding acquire
  opened {h} {k} text hold m holds =
      annotate-Leads text
        (record { at = λ p o. by_result (m p.world).0 (record p { world = (m p.world).1 }) o })
    where
      by_result :
          (r : Result (Unit {0})) (q : Process S)
          → Has h q
          → Ends (λ (a : Unit {0}). Has k) (Has h) (held hold (r, q))
      by_result (ok u) q o = holds q o
      by_result (err e) q o = o

  closing :
      {A : Type 0} {h k : Handles} (drop : Process S → Process S) {m : Io (Process S) A}
      → Keeps k m
      → ((q : Process S) → Has k q → Has h (drop q))
      → Leads (Has k) (λ (a : A). Has h) (Has h) (deferred drop m)
  closing drop l drops = deferred-Leads drop l (λ a. drops) drops

-- The config that a consumer of the service runs with.
abbrev pub started : String → ConsumerConfig
started group = record {
  has_handler = true;
  group = group;
  has_dlq = true;
  max_attempts = default_max_attempts;
  base_backoff = default_base_backoff;
}

module _ {S : Type 0} (drivers : Drivers S) (h : Handles) where
  pub migrate-Keeps : (dsn : String) → Keeps h (migrate drivers dsn)
  unfolding migrate
  migrate-Keeps dsn = bind-Leads (opened "connect" hold_connection _ (λ q i. rw i refl)) (λ u.
      closing drop_connection
        (bind-Leads (asked "new migrator" _)
          (λ u₁. bind-Leads (asked "load migrations" _) (λ u₂. asked "migrate" _)))
        (λ q i. rw i (ap (λ n. record h { connections = n }) (back h.connections))))

  pub ensure_topics-Keeps :
      (brokers : List String) (partitions replication : ℕ) (topics : List String)
      → Keeps h (ensure_topics drivers brokers partitions replication topics)
  unfolding ensure_topics
  ensure_topics-Keeps brokers partitions replication topics =
      bind-Leads (opened "kafka: admin client" hold_admin _ (λ q i. rw i refl)) (λ u.
        closing drop_admin
          (bind-Leads (asked "kafka: create topics" _) (λ answers. record {
            at = λ q o.
                both-Ends (Has (record h { admins = suc h.admins })) (check_topics answers) q o;
          }))
          (λ q i. rw i (ap (λ n. record h { admins = n }) (back h.admins))))

  pub open_pool-Leads :
      (dsn : String)
      → Leads
          (Has h)
          (λ (a : Unit {0}). Has (record h { pools = suc h.pools }))
          (Has h)
          (open_pool drivers dsn)
  unfolding open_pool
  open_pool-Leads dsn = bind-Leads (asked "parse dsn" _) (λ u.
      bind-Leads (opened "new pool" hold_pool _ (λ q i. rw i refl)) (λ u₁.
        or_undo-Leads drop_pool (asked "ping" _)
          (λ q i. rw i (ap (λ n. record h { pools = n }) (back h.pools)))))

  pub new_producer-Leads :
      (brokers : List String)
      → Leads
          (Has h)
          (λ (a : Unit {0}). Has (record h { producers = suc h.producers }))
          (Has h)
          (new_producer drivers brokers)
  unfolding new_producer
  new_producer-Leads brokers = opened "kafka: new producer" hold_producer _ (λ q i. rw i refl)

  defaults :
      (group : String)
      → (group == "") ≡ false
      → new_consumer (consumer_of group) ≡ ok (started group)
  unfolding new_consumer
  defaults group named = rw named refl

  pub open_consumer-Leads :
      (brokers : List String) (group : String)
      → (group == "") ≡ false
      → Leads
          (Has h)
          (λ cfg q. (cfg ≡ started group) × Has (record h { consumers = suc h.consumers }) q)
          (Has h)
          (open_consumer drivers brokers (consumer_of group))
  unfolding open_consumer
  open_consumer-Leads brokers group named =
      let k : Handles = record h { consumers = suc h.consumers } in
      let rest : Leads (Has h) (λ cfg q. (cfg ≡ started group) × Has k q) (Has h)
          (annotate "kafka: new consumer"
              (acquire hold_consumer (drivers.call (new_kafka_client brokers)))
            >>= λ u. pure (started group)) =
        bind-Leads (opened "kafka: new consumer" hold_consumer _ (λ q i. rw i refl))
          (λ u. record { at = λ q i. (refl, i) }) in
      record { at = λ q i. rw (defaults group named) (rest.at q i) }
