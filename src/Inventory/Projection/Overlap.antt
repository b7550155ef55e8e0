-- ===== src/Inventory/Projection/Overlap.antt =====
-- internal/inventory/projection.go: what other transactions add to the view while it is rebuilt.
use sagaflow.Base.{
  String, ◌≡◌, refl, List, [], ◌∷◌, ◌==◌, ltb, eq_iff, inl, inr, Bool-cases, Bool, true, false, any,
  keep, All, ◌⊎◌, ℕ, Option, none, some, eq_refl,
}
use sagaflow.Database.{
  AvailabilityRow, Db, Write, clear_availability, upsert_availability, upsert_row, perform,
  has_text, insert_event, insert_inbox, insert_outbox, insert_timer, mark_published, mark_fired,
  notify, prune_inbox, prune_outbox, prune_timers,
}
use sagaflow.Session.{Session, Environment, arrive, admit_all, admissible}
use sagaflow.Inventory.Projection.{find_row}
use sagaflow.Inventory.Projection.Upserts.{seats_of, left_by}

-- The row is one that this list of writes upserts.
abbrev pub Upserted : AvailabilityRow → List Write → Type 0
Upserted r [] = ⊥
Upserted r (w ∷ ws) = (w ≡ upsert_availability r) ⊎ Upserted r ws

-- Another transaction that commits before some statement writes the row.
abbrev pub FromOthers : Environment → AvailabilityRow → Type 0
FromOthers env r = (k : ℕ) × Upserted r (env.others k)

-- The row is of a seat named here, or another transaction's.
abbrev pub Ours : Environment → List String → AvailabilityRow → Type 0
Ours env seats r = (has_text r.seat_id seats ≡ true) ⊎ FromOthers env r

-- No row, or the seat's row that another transaction wrote.
abbrev pub Theirs : Environment → String → Option AvailabilityRow → Type 0
Theirs env seat none = Unit {0}
Theirs env seat (some r) = (r.seat_id ≡ seat) × FromOthers env r

module _ (Q : AvailabilityRow → Type 0) where
  upsert_row-All :
      (new : AvailabilityRow) (rows : List AvailabilityRow)
      → Q new
      → All Q rows
      → All Q (upsert_row new rows)
  unfolding upsert_row
  upsert_row-All new [] q a = (q, tt)
  upsert_row-All new (r ∷ rows) q a = elim (Bool-cases (r.seat_id == new.seat_id)) [
    | inl same ↦ elim (Bool-cases (ltb r.version new.version)) [
      | inl older ↦ rw (same, older) (q, a.1)
      | inr newer ↦ rw (same, newer) a
    ]
    | inr differs ↦ rw differs (a.0, upsert_row-All new rows q a.1)
  ]

  keep-All :
      (f : AvailabilityRow → Bool) (rows : List AvailabilityRow) → All Q rows → All Q (keep f rows)
  unfolding keep
  keep-All f [] a = tt
  keep-All f (r ∷ rows) a = elim (Bool-cases (f r)) [
    | inl y ↦ rw y (a.0, keep-All f rows a.1)
    | inr n ↦ rw n (keep-All f rows a.1)
  ]

  perform-All :
      (d : Db) (w : Write)
      → ((r : AvailabilityRow) → w ≡ upsert_availability r → Q r)
      → All Q d.availability
      → All Q (perform d w).availability
  unfolding perform
  perform-All d (insert_event r) h a = a
  perform-All d (insert_inbox r) h a = a
  perform-All d (insert_outbox r) h a = a
  perform-All d (mark_published ids now) h a = a
  perform-All d (insert_timer r) h a = a
  perform-All d (mark_fired id now) h a = a
  perform-All d (upsert_availability r) h a = upsert_row-All r d.availability (h r refl) a
  perform-All d (clear_availability seats) h a = keep-All _ d.availability a
  perform-All d notify h a = a
  perform-All d (prune_inbox now age) h a = a
  perform-All d (prune_outbox now age) h a = a
  perform-All d (prune_timers now age) h a = a

  admit_all-All :
      (ws : List Write) (s : Session)
      → ((r : AvailabilityRow) → Upserted r ws → Q r)
      → All Q s.committed.availability
      → All Q (admit_all s ws).committed.availability
  unfolding admit_all
  admit_all-All [] s h a = a
  admit_all-All (w ∷ ws) s h a = elim (Bool-cases (admissible s w)) [
    | inl y ↦
        rw (admit_all, y)
          (admit_all-All ws (record s { committed = perform s.committed w }) (λ r u. h r (inr u))
            (perform-All s.committed w (λ r e. h r (inl e)) a))
    | inr n ↦ rw (admit_all, n) (admit_all-All ws s (λ r u. h r (inr u)) a)
  ]

-- The rows that come to the view before a statement are other transactions'.
pub arrive-Ours :
    (env : Environment) (seats : List String) (s : Session)
    → All (Ours env seats) s.committed.availability
    → All (Ours env seats) (arrive env s).committed.availability
unfolding arrive
arrive-Ours env seats s a =
    admit_all-All (Ours env seats) (env.others s.step) s (λ r u. inr (s.step, u)) a

all_named :
    (env : Environment) (seats : List String) (rows : List AvailabilityRow)
    → ((x : String) → has_text x (seats_of rows) ≡ true → has_text x seats ≡ true)
    → All (Ours env seats) rows
unfolding any
all_named env seats [] h = tt
all_named env seats (r ∷ rows) h = (
  inl (h r.seat_id (rw (eq_refl r.seat_id) refl)),
  all_named env seats rows (λ x p.
      h x (elim (Bool-cases (x == r.seat_id)) [ inl y ↦ rw y refl | inr n ↦ rw (n, p) refl ])),
)

pub seats_of-Ours :
    (env : Environment) (rows : List AvailabilityRow) → All (Ours env (seats_of rows)) rows
seats_of-Ours env rows = all_named env (seats_of rows) rows (λ x p. p)

-- What is left of a seat once the seats named are cleared is another transaction's row.
pub left_by-Theirs :
    (env : Environment) (seat : String) (seats : List String) (rows : List AvailabilityRow)
    → All (Ours env seats) rows
    → Theirs env seat (find_row seat (left_by seats rows))
unfolding left_by find_row keep
left_by-Theirs env seat seats [] a = tt
left_by-Theirs env seat seats (r ∷ rows) a = elim (Bool-cases (has_text r.seat_id seats)) [
  | inl named ↦ rw named (left_by-Theirs env seat seats rows a.1)
  | inr new ↦ elim (Bool-cases (r.seat_id == seat)) [
    | inl here ↦
        rw (new, find_row, here)
          (
            (eq_iff r.seat_id seat).0 here,
            elim a.0 [ inl named ↦ elim (both_ways named new) [ ] | inr k ↦ k ],
          )
    | inr other ↦ rw (new, find_row, other) (left_by-Theirs env seat seats rows a.1)
  ]
]
  where
    both_ways : {b : Bool} → b ≡ true → b ≡ false → ⊥
    both_ways p q = cc
