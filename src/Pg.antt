-- ===== src/Pg.antt =====
-- internal/platform/pg: opening a pool and applying migrations. `WithTx` is in Session.
use sagaflow.Base.{String}
use sagaflow.Process.{
  Drivers, Process, parse_config, new_pool, ping, connect, new_migrator, load_migrations,
  apply_migrations, hold_pool, drop_pool, hold_connection, drop_connection, on_world, acquire,
}
use sagaflow.Io.{Io, annotate, deferred, or_undo, ◌>>◌}

module _ {S : Type 0} (drivers : Drivers S) where
  open drivers use {call}

  -- `Open`, with MaxConns and MinConns as it sets them.
  unfoldable pub open_pool : String → Io (Process S) (Unit {0})
  open_pool dsn = do
    annotate "parse dsn" (on_world (call (parse_config dsn)))
    annotate "new pool" (acquire hold_pool (call (new_pool 10 2)))
    or_undo drop_pool (annotate "ping" (on_world (call ping)))

  unfoldable pub migrate : String → Io (Process S) (Unit {0})
  migrate dsn = do
    annotate "connect" (acquire hold_connection (call (connect dsn)))
    deferred drop_connection (do
      annotate "new migrator" (on_world (call (new_migrator "schema_version")))
      annotate "load migrations" (on_world (call load_migrations))
      annotate "migrate" (on_world (call apply_migrations)))
