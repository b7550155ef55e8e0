-- ===== src/Inventory/Service/Startup/Closing.antt =====
-- internal/inventory/wire.go and cmd/inventory/main.go: what is open after `New`, `Close` and `run`, and the
-- consumers that `New` makes.
use sagaflow.Base.{
  ℕ, suc, ◌≡◌, refl, sym, ◌∙◌, ap, Bool, true, false, Option, none, some, List, if◌then◌else◌,
}
use sagaflow.Errors.{Result, ok, err}
use sagaflow.Io.{Io, continue}
use sagaflow.Io.Ends.{Ends, both-Ends, Leads, bind-Leads}
use sagaflow.Process.{Drivers, Handles, Process, drop_pool, drop_producer}
use sagaflow.Kafka.Consumer.{ConsumerConfig}
use sagaflow.Schema.{Registry}
use sagaflow.Inventory.Commands.{consumer_name}
use sagaflow.Inventory.Service.{Loop, run}
use sagaflow.Inventory.Service.Startup.{
  Config, Service, no_service, Building, projection_consumer, on_process, set_producer,
  set_commands, set_events, close_consumer, connect, close, close_if_failed, failure, new,
  run_command,
}
use sagaflow.Inventory.Service.Startup.Leaks.{
  Has, started, back, migrate-Keeps, ensure_topics-Keeps, open_pool-Leads, new_producer-Leads,
  open_consumer-Leads,
}

abbrev and_one : Bool → ℕ → ℕ
and_one true n = suc n
and_one false n = n

abbrev and_consumer : Option ConsumerConfig → ℕ → ℕ
and_consumer (some cfg) n = suc n
and_consumer none n = n

-- `h`, and what the service holds.
abbrev owned : Handles → Service → Handles
owned h s = record {
  pools = and_one s.has_pool h.pools;
  connections = h.connections;
  admins = h.admins;
  producers = and_one s.has_producer h.producers;
  consumers = and_consumer s.commands (and_consumer s.events h.consumers);
}

-- All that the service holds at the end.
abbrev pub complete : Service
complete = record {
  has_pool = true;
  has_producer = true;
  commands = some (started consumer_name);
  events = some (started projection_consumer);
}

module _ {S : Type 0} where
  close_consumer-Has :
      (h : Handles) (n : ℕ) (c : Option ConsumerConfig) (p : Process S)
      → Has (record h { consumers = and_consumer c n }) p
      → Has (record h { consumers = n }) (close_consumer c p)
  close_consumer-Has h n none p o = o
  close_consumer-Has h n (some cfg) p o = rw o (ap (λ m. record h { consumers = m }) (back n))

  producer-Has :
      (h : Handles) (n : ℕ) (b : Bool) (p : Process S)
      → Has (record h { producers = and_one b n }) p
      → Has (record h { producers = n }) (if b then drop_producer p else p)
  producer-Has h n true p o = rw o (ap (λ m. record h { producers = m }) (back n))
  producer-Has h n false p o = o

  pool-Has :
      (h : Handles) (n : ℕ) (b : Bool) (p : Process S)
      → Has (record h { pools = and_one b n }) p
      → Has (record h { pools = n }) (if b then drop_pool p else p)
  pool-Has h n true p o = rw o (ap (λ m. record h { pools = m }) (back n))
  pool-Has h n false p o = o

  close-Has : (h : Handles) (s : Service) (p : Process S) → Has (owned h s) p → Has h (close s p)
  unfolding close
  close-Has h s p o =
      let k : Handles = record (owned h s) { consumers = h.consumers } in
      let p₁ : Process S = close_consumer s.commands p in
      let p₂ : Process S = close_consumer s.events p₁ in
      pool-Has h h.pools s.has_pool (if s.has_producer then drop_producer p₂ else p₂) (
        producer-Has (record k { producers = h.producers }) h.producers s.has_producer p₂
          (close_consumer-Has k h.consumers s.events p₁
            (close_consumer-Has k (and_consumer s.events h.consumers) s.commands p o)))

  -- While the service is built: what it has so far, and what is open.
  abbrev Between : Service → Handles → Building S → Type 0
  Between s k b = (b.service ≡ s) × Has k b.process

  -- After an error there is open what `close` drops.
  abbrev Broken : Handles → Building S → Type 0
  Broken h b = Has (owned h b.service) b.process

  on_process-Leads :
      {A : Type 0} {good : A → Process S → Type 0} {h : Handles} {s : Service}
      {m : Io (Process S) A}
      → Leads (Has (owned h s)) good (Has (owned h s)) m
      → Leads
          (Between s (owned h s))
          (λ a b. (b.service ≡ s) × good a b.process)
          (Broken h)
          (on_process m)
  on_process-Leads {A} {good} {h} {s} {m} l = record {
    at = λ b i. by_result (m b.process).0 (m b.process).1 b.service i.0 (l.at b.process i.1);
  }
    where
      by_result :
          (r : Result A) (p : Process S) (t : Service)
          → t ≡ s
          → Ends good (Has (owned h s)) (r, p)
          → Ends
              (λ a b. (b.service ≡ s) × good a b.process)
              (Broken h)
              (r, record { process = p; service = t })
      by_result (ok a) p t i o = (i, o)
      by_result (err e) p t i o = o ∙ ap (owned h) (sym i)

  set_producer-Leads :
      {h k : Handles} {s : Service}
      → Leads
          (Between s k)
          (λ u. Between (record s { has_producer = true }) k)
          (Broken h)
          set_producer
  set_producer-Leads = record {
    at = λ b i. (ap (λ (t : Service). record t { has_producer = true }) i.0, i.1);
  }

  set_commands-Leads :
      {h k : Handles} {s : Service} {c d : ConsumerConfig}
      → Leads
          (λ b. (b.service ≡ s) × ((c ≡ d) × Has k b.process))
          (λ u. Between (record s { commands = some d }) k)
          (Broken h)
          (set_commands c)
  set_commands-Leads = record { at = λ b i. (rw (i.0, i.1.0) refl, i.1.1) }

  set_events-Leads :
      {h k : Handles} {s : Service} {c d : ConsumerConfig}
      → Leads
          (λ b. (b.service ≡ s) × ((c ≡ d) × Has k b.process))
          (λ u. Between (record s { events = some d }) k)
          (Broken h)
          (set_events c)
  set_events-Leads = record { at = λ b i. (rw (i.0, i.1.0) refl, i.1.1) }

module _ {S : Type 0} (drivers : Drivers S) (registry : Registry S) (h : Handles) where
  connect-Leads :
      (cfg : Config)
      → Leads
          (Between
            (record no_service { has_pool = true })
            (owned h (record no_service { has_pool = true })))
          (λ u. Between complete (owned h complete))
          (Broken h)
          (connect drivers registry cfg)
  unfolding connect
  connect-Leads cfg =
      bind-Leads (on_process-Leads (record { at = λ p o. both-Ends (Has _) _ _ o })) (λ made.
        bind-Leads (on_process-Leads (ensure_topics-Keeps drivers _ cfg.brokers _ _ _)) (λ u₁.
          bind-Leads (on_process-Leads (new_producer-Leads drivers _ cfg.brokers)) (λ u₂.
            bind-Leads set_producer-Leads (λ u₃.
              bind-Leads
                (on_process-Leads (open_consumer-Leads drivers _ cfg.brokers consumer_name refl))
                (λ c. bind-Leads (set_commands-Leads {c = c}) (λ u₄.
                  bind-Leads
                    (on_process-Leads
                      (open_consumer-Leads drivers _ cfg.brokers projection_consumer refl))
                    (λ d. set_events-Leads)))))))

  ended :
      (r : Result (Unit {0}) × Building S)
      → Ends (λ u. Between complete (owned h complete)) (Broken h) r
      → Ends (λ s p. (s ≡ complete) × Has h (close s p)) (Has h) (close_if_failed r)
  ended (ok u, b) i = (i.0, close-Has h b.service b.process (i.1 ∙ ap (owned h) (sym i.0)))
  ended (err e, b) i = close-Has h b.service b.process i

  new-Leads :
      (cfg : Config)
      → Leads (Has h) (λ s p. (s ≡ complete) × Has h (close s p)) (Has h) (new drivers registry cfg)
  unfolding new
  new-Leads cfg = bind-Leads (migrate-Keeps drivers h cfg.dsn) (λ u.
      bind-Leads (open_pool-Leads drivers h cfg.dsn) (λ u₁. record {
        at = λ p o.
            ended
              (connect drivers registry cfg
                (record { process = p; service = record no_service { has_pool = true } }))
              ((connect-Leads cfg).at _ (refl, o));
      }))

module _ {S : Type 0} (drivers : Drivers S) (registry : Registry S) (cfg : Config)
    (p : Process S) where
  -- Whatever the drivers answer: where `New` succeeds, the service holds a pool, a producer and the
  -- consumers of both groups, each with the dead-letter topic and with 5 attempts and 100 ms of backoff
  -- as its defaults, and closing it leaves open what was open before `New`; where `New` fails, there is
  -- open what was open before.
  pub new-Ends :
      Ends
        (λ s q. (s ≡ complete) × ((close s q).handles ≡ p.handles))
        (λ q. q.handles ≡ p.handles)
        (new drivers registry cfg p)
  new-Ends = (new-Leads drivers registry p.handles cfg).at p refl

  -- Whatever the drivers answer and however the loops end, `run` leaves open what was open before it.
  pub run_command-close :
      (ends : List (Loop × Result (Unit {0})))
      → (run_command drivers registry cfg ends p).1.handles ≡ p.handles
  unfolding run_command
  run_command-close ends =
      by_result (new drivers registry cfg p).0 (new drivers registry cfg p).1 new-Ends
    where
      by_result :
          (r : Result Service) (q : Process S)
          → Ends
              (λ s q. (s ≡ complete) × ((close s q).handles ≡ p.handles))
              (λ q. q.handles ≡ p.handles)
              (r, q)
          → (continue r (λ s q. (failure (run ends), close s q)) q).1.handles ≡ p.handles
      by_result (ok s) q i = i.1
      by_result (err e) q i = i
