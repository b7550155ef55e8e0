-- ===== src/EventStore/Appends.antt =====
-- internal/platform/eventstore/eventstore.go: the rows of `appendSQL`, and what an `Append` that succeeds
-- has seen.
use mathlib.Core.List.{append-nil}
use native.Mathlib.Nat.{zero-add}
use sagaflow.Base.{
  ℕ, suc, ◌+◌, String, ◌≡◌, refl, ◌∙◌, ap, subst, false, List, [], ◌∷◌, ◌++◌, length, inl, inr,
  Bool-cases, map, eq_iff, ◌==◌, keep,
}
use sagaflow.Errors.{Result, ok, err, sentinel, wrap, errors_is, version_conflict}
use sagaflow.Contracts.{Time}
use sagaflow.Database.{EventRow, insert_event, stream_of}
use sagaflow.Database.Streams.{
  AllSequential, IsSequential, IsSequential-append, stream_of-append, stream_of-cons,
}
use sagaflow.Session.{Session, view, write}
use sagaflow.Session.Inversion.{lift-ok}
use sagaflow.Codec.{Json}
use sagaflow.EventStore.Rows.{Columns, row_at, rows_from}
use sagaflow.EventStore.{insert_rows, any_taken, translate, translated}

module _ (json : Json) (seat : String) where
  stream_of-rows_from :
      (v seq : ℕ) (now : Time) (cs : List Columns)
      → stream_of seat (rows_from json seat v seq now cs) ≡ rows_from json seat v seq now cs
  unfolding rows_from
  stream_of-rows_from v seq now [] = unfold stream_of keep in refl
  stream_of-rows_from v seq now (c ∷ cs) =
      stream_of-cons seat (row_at json seat v seq now c)
        (rows_from json seat (suc v) (suc seq) now cs) refl
      ∙ ap (λ l. row_at json seat v seq now c ∷ l) (stream_of-rows_from (suc v) (suc seq) now cs)

  stream_of-rows_from_other :
      (id : String) (v seq : ℕ) (now : Time) (cs : List Columns)
      → (seat == id) ≡ false
      → stream_of id (rows_from json seat v seq now cs) ≡ []
  unfolding rows_from stream_of keep
  stream_of-rows_from_other id v seq now [] h = refl
  stream_of-rows_from_other id v seq now (c ∷ cs) h =
      rw h (stream_of-rows_from_other id (suc v) (suc seq) now cs h)

  IsSequential-rows_from :
      (v seq : ℕ) (now : Time) (cs : List Columns)
      → IsSequential v (rows_from json seat v seq now cs)
  unfolding rows_from
  IsSequential-rows_from v seq now [] = tt
  IsSequential-rows_from v seq now (c ∷ cs) =
      (refl, IsSequential-rows_from (suc v) (suc seq) now cs)

  -- Rows at the versions after the end of the seat's stream keep every stream sequential.
  pub AllSequential-rows_from :
      (stored : List EventRow) (seq : ℕ) (now : Time) (cs : List Columns)
      → AllSequential stored
      → AllSequential (stored ++ rows_from json seat (length (stream_of seat stored)) seq now cs)
  AllSequential-rows_from stored seq now cs ordered id =
      let v = length (stream_of seat stored) in
      rw stream_of-append (elim (Bool-cases (seat == id)) [
        | inl same ↦
            subst
              (λ i.
                IsSequential 0
                  (stream_of i stored ++ stream_of i (rows_from json seat v seq now cs)))
              ((eq_iff seat id).0 same)
              (rw (stream_of-rows_from v seq now cs) (
                IsSequential-append 0 (stream_of seat stored) (rows_from json seat v seq now cs)
                  (ordered seat) (rw zero-add (IsSequential-rows_from v seq now cs))))
        | inr other ↦ rw (stream_of-rows_from_other id v seq now cs other, append-nil) (ordered id)
      ])

  -- `appendSQL` succeeds only if none of its versions is taken.
  pub insert_rows-ok :
      (v : ℕ) (cs : List Columns) (s t : Session)
      → insert_rows json seat v cs s ≡ (ok tt, t)
      → (any_taken seat (view s).events (rows_from json seat v s.serial s.started cs) ≡ false)
        × (t
            ≡ write
                (map insert_event (rows_from json seat v s.serial s.started cs))
                (record s { serial = s.serial + length cs }))
  unfolding insert_rows
  insert_rows-ok v cs s t h =
      elim (Bool-cases
        (any_taken seat (view s).events (rows_from json seat v s.serial s.started cs))) [
          | inl taken ↦
              let bad =
                lift-ok (err (sentinel version_conflict))
                  (record s { serial = s.serial + length cs }) t tt (rw taken at h) in
              cc
          | inr vacant ↦
              let good =
                lift-ok (ok tt)
                  (write (map insert_event (rows_from json seat v s.serial s.started cs))
                    (record s { serial = s.serial + length cs }))
                  t tt (rw vacant at h) in
              (vacant, good.1)
        ]

pub translated-ok :
    (p : Result (Unit {0}) × Session) (t : Session) → translated p ≡ (ok tt, t) → p ≡ (ok tt, t)
unfolding translate
translated-ok (ok u, s) t h = h
translated-ok (err e, s) t h = elim (Bool-cases (errors_is e version_conflict)) [
  | inl y ↦ let bad = (lift-ok (err e) s t tt (rw y at h)).0 in cc
  | inr n ↦ let bad = (lift-ok (err (wrap "eventstore: append" e)) s t tt (rw n at h)).0 in cc
]
