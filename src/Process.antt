-- ===== src/Process.antt =====
-- What a starting process asks of its drivers (pgx, tern, franz-go), and what it holds open. `S` is the
-- state of all that the drivers talk to.
use sagaflow.Base.{ℕ, suc, ◌-◌, String, Option, List}
use sagaflow.Errors.{Error, Result, ok, err}
use sagaflow.Io.{Io}

-- One call of a driver, with its arguments.
pub data Call : Type 0 where
  parse_config : String → Call  -- pgxpool.ParseConfig
  new_pool : ℕ → ℕ → Call  -- pgxpool.NewWithConfig, with MaxConns and MinConns
  ping : Call
  connect : String → Call  -- pgx.Connect
  new_migrator : String → Call
  load_migrations : Call
  apply_migrations : Call
  new_kafka_client : List String → Call  -- kgo.NewClient, with the seed brokers
  new_registry_client : String → Call  -- sr.NewClient

pub record Drivers (S : Type 0) : Type 0 where
  pub call : Call → Io S (Unit {0})
  -- kadm's CreateTopics, with the partitions, the replication and the topics: an answer for each topic
  pub create_topics : ℕ → ℕ → List String → Io S (List (String × Option Error))

-- How much of each kind is open.
pub record Handles : Type 0 where
  pub pools : ℕ
  pub connections : ℕ
  pub admins : ℕ
  pub producers : ℕ
  pub consumers : ℕ

pub record Process (S : Type 0) : Type 0 where
  pub world : S
  pub handles : Handles

module _ {S : Type 0} where
  abbrev pub hold_pool : Process S → Process S
  hold_pool p = record p { handles = record (p.handles) { pools = suc p.handles.pools } }

  abbrev pub drop_pool : Process S → Process S
  drop_pool p = record p { handles = record (p.handles) { pools = p.handles.pools - 1 } }

  abbrev pub hold_connection : Process S → Process S
  hold_connection p = record p {
    handles = record (p.handles) { connections = suc p.handles.connections };
  }

  abbrev pub drop_connection : Process S → Process S
  drop_connection p = record p {
    handles = record (p.handles) { connections = p.handles.connections - 1 };
  }

  abbrev pub hold_admin : Process S → Process S
  hold_admin p = record p { handles = record (p.handles) { admins = suc p.handles.admins } }

  abbrev pub drop_admin : Process S → Process S
  drop_admin p = record p { handles = record (p.handles) { admins = p.handles.admins - 1 } }

  abbrev pub hold_producer : Process S → Process S
  hold_producer p = record p {
    handles = record (p.handles) { producers = suc p.handles.producers };
  }

  abbrev pub drop_producer : Process S → Process S
  drop_producer p = record p {
    handles = record (p.handles) { producers = p.handles.producers - 1 };
  }

  abbrev pub hold_consumer : Process S → Process S
  hold_consumer p = record p {
    handles = record (p.handles) { consumers = suc p.handles.consumers };
  }

  abbrev pub drop_consumer : Process S → Process S
  drop_consumer p = record p {
    handles = record (p.handles) { consumers = p.handles.consumers - 1 };
  }

  -- A call that holds nothing.
  abbrev pub on_world : {A : Type 0} → Io S A → Io (Process S) A
  on_world m p = let (r, w) = m p.world in (r, record p { world = w })

  abbrev pub held :
      (Process S → Process S) → Result (Unit {0}) × Process S → Result (Unit {0}) × Process S
  held hold (ok u, p) = (ok tt, hold p)
  held hold (err e, p) = (err e, p)

  -- A call that, if it succeeds, leaves something open.
  unfoldable pub acquire : (Process S → Process S) → Io S (Unit {0}) → Io (Process S) (Unit {0})
  acquire hold m p = held hold (on_world m p)
