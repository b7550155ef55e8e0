-- ===== src/Outbox/Poller/Standing.antt =====
-- internal/platform/outbox/poller.go: what `Run` has taken from the pool and from Postgres, on every way out.
use sagaflow.Base.{ℕ, suc, ◌≡◌, refl, ap, Bool, true, false, List, ◌&&◌, arith}
use sagaflow.Errors.{Error, Result, ok, err}
use sagaflow.Io.{Io}
use sagaflow.Io.Ends.{
  Ends, both-Ends, Leads, bind-Leads, annotate-Leads, deferred-Leads, or_undo-Leads, weaken-Ends,
}
use sagaflow.Session.{Session, Environment}
use sagaflow.Outbox.{HeaderJson}
use sagaflow.Outbox.Poller.{Wake}
use sagaflow.Outbox.Poller.Election.{
  ElectionCalls, Candidate, on_session, give_back, taken, keeps_lock, take_connection, release,
  elected, try_elect, release_of, start_listening, once_elected, run,
}

-- So many connections are taken, and the lock and `once` are as `Q` says.
abbrev Taken : (Bool → Bool → Type 0) → ℕ → Candidate → Type 0
Taken Q n c = (c.connections ≡ n) × Q c.has_lock c.once_done

abbrev Unlocked : Bool → Bool → Type 0
Unlocked l d = l ≡ false

abbrev Leading : Bool → Bool → Type 0
Leading l d = (l ≡ true) × (d ≡ false)

asked-Leads :
    {A : Type 0} (Q : Bool → Bool → Type 0) (n : ℕ) (m : Io Session A)
    → Leads (Taken Q n) (λ (a : A). Taken Q n) (Taken Q n) (on_session m)
asked-Leads Q n m = record {
  at = λ c h. both-Ends (Taken Q n) (m c.session).0 (record c { session = (m c.session).1 }) h;
}

given_back :
    (Q : Bool → Bool → Type 0) (n : ℕ) (c : Candidate) → Taken Q (suc n) c → Taken Q n (give_back c)
given_back Q n c h = (let e = h.0 in omega arith, h.1)

module _ (calls : ElectionCalls) where
  open calls use {acquire, try_advisory_lock, advisory_unlock, listen, lost}

  -- Postgres refused to unlock, and the connection lives on in the pool.
  abbrev pub Refused : Type 0
  Refused =
      (s : Session) × (e : Error) × ((advisory_unlock s).0 ≡ err e)
      × (lost (advisory_unlock s).1 ≡ false)

  abbrev Ended : ℕ → Candidate → Type 0
  Ended n c = (c.connections ≡ n) × (c.has_lock ≡ true → Refused)

  take_connection-Leads :
      (Q : Bool → Bool → Type 0) (n : ℕ)
      → Leads (Taken Q n) (λ u. Taken Q (suc n)) (Taken Q n) (take_connection calls)
  unfolding take_connection
  take_connection-Leads Q n = record {
    at = λ c h. by_result (acquire c.session).0 (record c { session = (acquire c.session).1 }) h;
  }
    where
      by_result :
          (r : Result (Unit {0})) (c : Candidate)
          → Taken Q n c
          → Ends (λ u. Taken Q (suc n)) (Taken Q n) (taken (r, c))
      by_result (ok u) c h = (ap suc h.0, h.1)
      by_result (err e) c h = h

  -- Whether it holds the lock is what it returns.
  Elected : ℕ → Bool → Candidate → Type 0
  Elected n true = Taken Leading (suc n)
  Elected n false = Taken Unlocked n

  elected-Leads :
      (n : ℕ) (held : Bool)
      → Leads (Taken Unlocked (suc n)) (Elected n) (Taken Unlocked n) (elected calls held)
  unfolding Elected
  elected-Leads n true = record { at = λ c h. (h.0, (refl, refl)) }
  elected-Leads n false = record { at = λ c h. given_back Unlocked n c h }

  try_elect-Leads :
      (n : ℕ) → Leads (Taken Unlocked n) (Elected n) (Taken Unlocked n) (try_elect calls)
  unfolding try_elect
  try_elect-Leads n =
      bind-Leads (annotate-Leads "outbox: acquire election conn" (take_connection-Leads Unlocked n))
        (λ u.
          bind-Leads
            (or_undo-Leads give_back
              (annotate-Leads "outbox: try advisory lock"
                (asked-Leads Unlocked (suc n) try_advisory_lock))
              (given_back Unlocked n))
            (elected-Leads n))

  start_listening-Leads :
      (n : ℕ)
      → Leads
          (Taken Leading n)
          (λ u. Taken Leading (suc n))
          (Taken Leading n)
          (start_listening calls)
  unfolding start_listening
  start_listening-Leads n =
      bind-Leads (annotate-Leads "outbox: acquire listen conn" (take_connection-Leads Leading n))
        (λ u.
          or_undo-Leads give_back
            (annotate-Leads "outbox: listen" (asked-Leads Leading (suc n) listen))
            (given_back Leading n))

  release-Ended : (n : ℕ) (c : Candidate) → Taken Leading (suc n) c → Ended n (release calls c)
  unfolding release
  release-Ended n c h = rw h.1.1 (
    let e = h.0 in omega arith,
    λ kept. refusal (advisory_unlock c.session).0 (lost (advisory_unlock c.session).1) refl refl (
        and_left (keeps_lock (advisory_unlock c.session).0 (lost (advisory_unlock c.session).1))
          c.has_lock kept),
  )
    where
      and_left : (a b : Bool) → (a && b) ≡ true → a ≡ true
      and_left true b h = refl
      and_left false b h = h

      refusal :
          (r : Result (Unit {0})) (b : Bool)
          → (advisory_unlock c.session).0 ≡ r
          → lost (advisory_unlock c.session).1 ≡ b
          → keeps_lock r b ≡ true
          → Refused
      refusal (err e) false answered alive kept = (c.session, e, answered, alive)
      refusal (err e) true answered alive kept = cc
      refusal (ok u) b answered alive kept = cc

module _ (hj : HeaderJson) (env : Environment) (calls : ElectionCalls) where
  once_elected-Leads :
      (n fuel : ℕ) (ws : List Wake) (held : Bool)
      → Leads
          (Elected calls n held)
          (λ u. Elected calls n held)
          (Elected calls n held)
          (once_elected hj env calls fuel ws held)
  unfolding Elected
  once_elected-Leads n fuel ws false = record { at = λ c h. h }
  once_elected-Leads n fuel ws true = bind-Leads (start_listening-Leads calls (suc n)) (λ u.
      deferred-Leads {broken = λ c. ⊥} give_back (record { at = λ c h. h })
        (λ a. given_back Leading (suc n)) (λ c h. elim h [ ]))

  release_of-Ended :
      (n : ℕ) (held : Bool) (c : Candidate)
      → Elected calls n held c
      → Ended calls n (release_of calls held c)
  unfolding Elected
  release_of-Ended n true c h = release-Ended calls n c h
  release_of-Ended n false c h = (h.0, λ l. cc)

  -- A poller that does not hold the lock when `Run` starts has given back every connection it took when
  -- `Run` returns, whether it failed to elect itself, stood by, failed to listen or led until it was
  -- stopped. Postgres then holds the lock for it only if the unlock was answered with an error on a
  -- connection that went back to the pool alive.
  pub run-Ended :
      (fuel : ℕ) (ws : List Wake) (c : Candidate)
      → c.has_lock ≡ false
      → let c' = (run hj env calls fuel ws c).1 in
        (c'.connections ≡ c.connections) × (c'.has_lock ≡ true → Refused calls)
  unfolding run
  run-Ended fuel ws c free =
      whichever (run hj env calls fuel ws c).0 (run hj env calls fuel ws c).1
        (whole.at c (refl, free))
    where
      Started : Candidate → Type 0
      Started = Taken Unlocked c.connections

      done : Candidate → Type 0
      done = Ended calls c.connections

      first : Leads Started (Elected calls c.connections) done (try_elect calls)
      first = record {
        at = λ d h.
            weaken-Ends (Elected calls c.connections) Started (Elected calls c.connections) done
              (try_elect calls d) ((try_elect-Leads calls c.connections).at d h) (λ a t i. i)
              (λ t i. (i.0, λ l. cc));
      }

      whole : Leads Started (λ (u : Unit {0}). done) done (run hj env calls fuel ws)
      whole = bind-Leads first (λ held.
          deferred-Leads (release_of calls held) (once_elected-Leads c.connections fuel ws held)
            (λ u. release_of-Ended c.connections held) (release_of-Ended c.connections held))

      whichever :
          (r : Result (Unit {0})) (d : Candidate)
          → Ends (λ (u : Unit {0}). done) done (r, d)
          → done d
      whichever (ok u) d h = h
      whichever (err e) d h = h
