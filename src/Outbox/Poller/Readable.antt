-- ===== src/Outbox/Poller/Readable.antt =====
-- internal/platform/outbox/poller.go: pending rows whose headers are what `Enqueue` marshalled, and can be
-- read back.
use sagaflow.Base.{
  ℕ, zero, suc, ◌≡◌, sym, subst, Bool, List, [], ◌∷◌, All, keep, take, leb, inl, inr, Bool-cases,
}
use sagaflow.Errors.{ok}
use sagaflow.Contracts.{Time}
use sagaflow.Database.{OutboxRow, publish_rows}
use sagaflow.Database.Order.{order_by, insert_by}
use sagaflow.Envelope.Headers.{HeaderMap}
use sagaflow.Outbox.{HeaderJson}
use sagaflow.Outbox.Poller.{claimable, batch_size}
use sagaflow.Outbox.Poller.Queue.{waiting, queue, row_id, claimable-queue, waiting-publish_rows}

module _ {A : Type 0} (P : A → Type 0) where
  All-keep : (p : A → Bool) (xs : List A) → All P xs → All P (keep p xs)
  unfolding keep
  All-keep p [] h = tt
  All-keep p (x ∷ xs) h = elim (Bool-cases (p x)) [
    | inl in_it ↦ rw in_it (h.0, All-keep p xs h.1)
    | inr out ↦ rw out (All-keep p xs h.1)
  ]

  All-take : (n : ℕ) (xs : List A) → All P xs → All P (take n xs)
  All-take zero xs h = tt
  All-take (suc n) [] h = tt
  All-take (suc n) (x ∷ xs) h = (h.0, All-take n xs h.1)

  All-insert_by : (key : A → ℕ) (x : A) (xs : List A) → P x → All P xs → All P (insert_by key x xs)
  unfolding insert_by
  All-insert_by key x [] p h = (p, tt)
  All-insert_by key x (y ∷ ys) p h = elim (Bool-cases (leb (key x) (key y))) [
    | inl first ↦ rw first (p, h)
    | inr later ↦ rw later (h.0, All-insert_by key x ys p h.1)
  ]

  All-order_by : (key : A → ℕ) (xs : List A) → All P xs → All P (order_by key xs)
  unfolding order_by
  All-order_by key [] h = tt
  All-order_by key (x ∷ xs) h = All-insert_by key x (order_by key xs) h.0 (All-order_by key xs h.1)

module _ (hj : HeaderJson) where
  abbrev pub CanRead : OutboxRow → Type 0
  CanRead r = (h : HeaderMap) × (hj.unmarshal r.headers_json ≡ ok h)

  -- The headers of every pending row can be read.
  abbrev pub Readable : List OutboxRow → Type 0
  Readable rows = All CanRead (waiting rows)

  pub claimable-CanRead : (rows : List OutboxRow) → Readable rows → All CanRead (claimable [] rows)
  claimable-CanRead rows h =
      subst (All CanRead) (sym (claimable-queue rows))
        (All-take CanRead batch_size (queue rows) (All-order_by CanRead row_id (waiting rows) h))

  pub publish_rows-Readable :
      (ids : List ℕ) (now : Time) (rows : List OutboxRow)
      → Readable rows
      → Readable (publish_rows ids now rows)
  publish_rows-Readable ids now rows h =
      subst (All CanRead) (sym (waiting-publish_rows ids now rows))
        (All-keep CanRead _ (waiting rows) h)
