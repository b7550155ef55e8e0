-- ===== src/Outbox/Poller/Election.antt =====
-- internal/platform/outbox/poller.go: electing the one poller that publishes (`TryElect`), listening for
-- wake-ups, and `Run`, which gives back what these take.
use sagaflow.Base.{ℕ, suc, ◌-◌, Bool, true, false, List, not, ◌&&◌, if◌then◌else◌}
use sagaflow.Errors.{Result, ok, err}
use sagaflow.Io.{Io, annotate, deferred, or_undo, ◌>>=◌, ◌>>◌}
use sagaflow.Session.{Session, Environment}
use sagaflow.Outbox.{HeaderJson}
use sagaflow.Outbox.Poller.{Wake, lead}

-- What the election asks of pgx and Postgres: taking a connection from the pool, the two statements on
-- the advisory lock, and LISTEN. `lost` says that the connection is closed when it is given back.
pub record ElectionCalls : Type 0 where
  pub acquire : Io Session (Unit {0})
  pub try_advisory_lock : Io Session Bool
  pub advisory_unlock : Io Session (Unit {0})
  pub listen : Io Session (Unit {0})
  pub lost : Session → Bool

-- The poller: its session, the connections it has taken, whether Postgres holds the advisory lock for
-- one of them, and whether `once` has been done.
pub record Candidate : Type 0 where
  pub session : Session
  pub connections : ℕ
  pub has_lock : Bool
  pub once_done : Bool

abbrev pub on_session : {A : Type 0} → Io Session A → Io Candidate A
on_session m c = let (r, s) = m c.session in (r, record c { session = s })

abbrev pub give_back : Candidate → Candidate
give_back c = record c { connections = c.connections - 1 }

abbrev pub taken : Result (Unit {0}) × Candidate → Result (Unit {0}) × Candidate
taken (ok u, c) = (ok tt, record c { connections = suc c.connections })
taken (err e, c) = (err e, c)

-- The lock is the session's: it is gone with an answered unlock or with the connection.
abbrev pub keeps_lock : Result (Unit {0}) → Bool → Bool
keeps_lock (ok u) is_lost = false
keeps_lock (err e) is_lost = not is_lost

module _ (calls : ElectionCalls) where
  open calls use {acquire, try_advisory_lock, advisory_unlock, listen, lost}

  unfoldable pub take_connection : Io Candidate (Unit {0})
  take_connection c = taken (on_session acquire c)

  -- Inside `once.Do`.
  abbrev pub unlock : Candidate → Candidate
  unlock c =
      let (r, s) = advisory_unlock c.session in
      give_back (record c { session = s; has_lock = keeps_lock r (lost s) && c.has_lock })

  -- What `TryElect` returns as `release` where it holds the lock.
  unfoldable pub release : Candidate → Candidate
  release c = if c.once_done then c else unlock (record c { once_done = true })

  -- It gives the connection back unless it got the lock.
  abbrev pub elected : Bool → Io Candidate Bool
  elected true c = (ok true, record c { has_lock = true; once_done = false })
  elected false c = (ok false, give_back c)

  unfoldable pub try_elect : Io Candidate Bool
  try_elect = do
    annotate "outbox: acquire election conn" take_connection
    held ← or_undo give_back (annotate "outbox: try advisory lock" (on_session try_advisory_lock))
    elected held

  abbrev pub release_of : Bool → Candidate → Candidate
  release_of true c = release c
  release_of false c = c

  -- `listen`, without the goroutine, whose wake-ups are an input of `lead`. Its `stop` is `give_back`.
  unfoldable pub start_listening : Io Candidate (Unit {0})
  start_listening = do
    annotate "outbox: acquire listen conn" take_connection
    or_undo give_back (annotate "outbox: listen" (on_session listen))

module _ (hj : HeaderJson) (env : Environment) (calls : ElectionCalls) where
  abbrev pub publish_until_stopped : ℕ → List Wake → Io Candidate (Unit {0})
  publish_until_stopped fuel ws c = (ok tt, record c { session = lead hj env fuel ws c.session })

  -- A poller that does not hold the lock waits until its context is cancelled.
  abbrev pub once_elected : ℕ → List Wake → Bool → Io Candidate (Unit {0})
  once_elected fuel ws false c = (ok tt, c)
  once_elected fuel ws true c =
      (do start_listening calls; deferred give_back (publish_until_stopped fuel ws)) c

  unfoldable pub run : ℕ → List Wake → Io Candidate (Unit {0})
  run fuel ws = do
    held ← try_elect calls
    deferred (release_of calls held) (once_elected fuel ws held)
