-- ===== src/EventStore/Streams.antt =====
-- internal/platform/eventstore/eventstore.go: what `Streams` lists.
use sagaflow.Base.{
  String, ◌≡◌, refl, subst, true, List, [], ◌∷◌, ◌==◌, any, inl, inr, Bool-cases, eq_iff,
}
use sagaflow.Database.{EventRow}
use sagaflow.EventStore.{distinct_streams}

-- A stream is listed exactly if an event of it is stored.
pub distinct_streams_complete :
    (id : String) (rows : List EventRow)
    → any (λ x. x == id) (distinct_streams rows) ≡ any (λ (r : EventRow). r.stream_id == id) rows
unfolding distinct_streams any
distinct_streams_complete id [] = refl
distinct_streams_complete id (r ∷ rows) =
    let rest = distinct_streams rows in
    let ih = distinct_streams_complete id rows in
    elim (Bool-cases (any (λ x. x == r.stream_id) rest)) [
      | inl listed ↦ elim (Bool-cases (r.stream_id == id)) [
        | inl same ↦
            rw (listed, same)
              (subst (λ i. any (λ x. x == i) rest ≡ true) ((eq_iff r.stream_id id).0 same) listed)
        | inr other ↦ rw (listed, other) ih
      ]
      | inr new ↦ elim (Bool-cases (r.stream_id == id)) [
        | inl same ↦ rw (new, any, same) refl
        | inr other ↦ rw (new, any, other) ih
      ]
    ]
