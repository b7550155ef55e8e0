-- ===== src/Inventory/Projection/Upserts.antt =====
-- internal/inventory/projection.go: what a transaction leaves in the view that clears it and then writes rows.
use mathlib.Core.List.{append-nil}
use sagaflow.Base.{
  String, ◌≡◌, refl, sym, ◌∙◌, ap, false, Option, none, some, List, [], ◌∷◌, ◌++◌, map, ◌==◌,
  if◌then◌else◌, nat_eq, ltb, subst, eq_iff, inl, inr, Bool-cases, not, keep,
}
use sagaflow.Database.{
  AvailabilityRow, Db, Write, clear_availability, upsert_availability, upsert_row, perform,
  perform_all, has_text,
}
use sagaflow.Database.Streams.{inserted}
use sagaflow.Seat.{SeatState}
use sagaflow.Inventory.Projection.{availability_row, find_row}
use sagaflow.Inventory.Projection.View.{newest, find_row-upsert_row}

-- The rows that are written, one after the other.
pub upserts : List AvailabilityRow → List AvailabilityRow → List AvailabilityRow
upserts rows [] = rows
upserts rows (r ∷ rs) = upserts (upsert_row r rows) rs

pub upserts-none : (rows : List AvailabilityRow) → upserts rows [] ≡ rows
unfolding upserts
upserts-none rows = refl

pub upserts-last :
    (rows rs : List AvailabilityRow) (r : AvailabilityRow)
    → upserts rows (rs ++ r ∷ []) ≡ upsert_row r (upserts rows rs)
unfolding upserts
upserts-last rows [] r = refl
upserts-last rows (q ∷ rs) r = upserts-last (upsert_row q rows) rs r

-- The seats named are cleared first.
abbrev pub clearing : List String → List AvailabilityRow → List Write
clearing seats rs = clear_availability seats ∷ map upsert_availability rs

abbrev pub seats_of : List AvailabilityRow → List String
seats_of rows = map (λ (r : AvailabilityRow). r.seat_id) rows

pub clearing-last :
    (seats : List String) (rs : List AvailabilityRow) (r : AvailabilityRow)
    → clearing seats rs ++ upsert_availability r ∷ [] ≡ clearing seats (rs ++ r ∷ [])
clearing-last seats rs r = ap (λ l. clear_availability seats ∷ l) (go rs)
  where
    go :
        (qs : List AvailabilityRow)
        → map upsert_availability qs ++ upsert_availability r ∷ []
          ≡ map upsert_availability (qs ++ r ∷ [])
    go [] = refl
    go (q ∷ qs) = ap (λ l. upsert_availability q ∷ l) (go qs)

availability-upserts :
    (d : Db) (rs : List AvailabilityRow)
    → (perform_all d (map upsert_availability rs)).availability ≡ upserts d.availability rs
unfolding perform_all perform upserts
availability-upserts d [] = refl
availability-upserts d (r ∷ rs) = availability-upserts (perform d (upsert_availability r)) rs

-- The rows that a clearing of these seats leaves.
unfoldable pub left_by : List String → List AvailabilityRow → List AvailabilityRow
unfolding keep
left_by seats rows = keep (λ (r : AvailabilityRow). not (has_text r.seat_id seats)) rows

pub availability-clearing :
    (d : Db) (seats : List String) (rs : List AvailabilityRow)
    → (perform_all d (clearing seats rs)).availability ≡ upserts (left_by seats d.availability) rs
unfolding perform_all perform left_by
availability-clearing d seats rs = availability-upserts (perform d (clear_availability seats)) rs

pub no_events-clearing :
    (seats : List String) (rs : List AvailabilityRow) → inserted (clearing seats rs) ≡ []
no_events-clearing seats [] = refl
no_events-clearing seats (r ∷ rs) = no_events-clearing seats rs

pub find_row-other :
    (seat : String) (new : AvailabilityRow) (rows : List AvailabilityRow)
    → (new.seat_id == seat) ≡ false
    → find_row seat (upsert_row new rows) ≡ find_row seat rows
unfolding find_row upsert_row
find_row-other seat new [] other = rw other refl
find_row-other seat new (r ∷ rows) other = elim (Bool-cases (r.seat_id == new.seat_id)) [
  | inl same ↦
      let apart : (r.seat_id == seat) ≡ false =
        subst (λ i. (i == seat) ≡ false) (sym ((eq_iff r.seat_id new.seat_id).0 same)) other in
      elim (Bool-cases (ltb r.version new.version)) [
        | inl older ↦ rw (same, older, other, apart) refl
        | inr newer ↦ rw (same, newer, find_row, apart) refl
      ]
  | inr differs ↦
      rw (differs, find_row)
        (ap (λ o. if r.seat_id == seat then some r else o) (find_row-other seat new rows other))
]

-- What `project` writes for a state, and the row that is found of it.
abbrev pub projected : String → SeatState → List AvailabilityRow
projected seat state = if nat_eq state.version 0 then [] else availability_row seat state ∷ []

abbrev pub row_of : String → SeatState → Option AvailabilityRow
row_of seat state = if nat_eq state.version 0 then none else some (availability_row seat state)

-- What is found once a row was upserted over another.
abbrev pub over : Option AvailabilityRow → Option AvailabilityRow → Option AvailabilityRow
over none old = old
over (some r) old = some (newest r old)

pub find_row-projected :
    (base : List AvailabilityRow) (seat : String) (state : SeatState) (rs : List AvailabilityRow)
    → find_row seat (upserts base (rs ++ projected seat state))
      ≡ over (row_of seat state) (find_row seat (upserts base rs))
find_row-projected base seat state rs = elim (Bool-cases (nat_eq state.version 0)) [
  | inl bare ↦ rw bare (ap (λ l. find_row seat (upserts base l)) (append-nil rs))
  | inr lives ↦
      let row : AvailabilityRow = availability_row seat state in
      rw lives (
        ap (find_row seat) (upserts-last base rs row)
        ∙ find_row-upsert_row seat row (upserts base rs) refl)
]

pub find_row-projected_other :
    (base : List AvailabilityRow) (seat id : String) (state : SeatState) (rs : List AvailabilityRow)
    → (id == seat) ≡ false
    → find_row seat (upserts base (rs ++ projected id state)) ≡ find_row seat (upserts base rs)
find_row-projected_other base seat id state rs other = elim (Bool-cases (nat_eq state.version 0)) [
  | inl bare ↦ rw bare (ap (λ l. find_row seat (upserts base l)) (append-nil rs))
  | inr lives ↦
      let row : AvailabilityRow = availability_row id state in
      rw lives (
        ap (find_row seat) (upserts-last base rs row)
        ∙ find_row-other seat row (upserts base rs) other)
]
