-- ===== src/Outbox/Poller/Queue.antt =====
-- internal/platform/outbox/poller.go: the rows that are not published yet, in the order of their ids.
use sagaflow.Base.{
  ℕ, ◌≡◌, refl, sym, ◌∙◌, ap, subst, Bool, true, false, ◌&&◌, not, List, [], ◌∷◌, map, keep, take,
  any, nat_eq, arith, All, Bool-cases, inl, inr, String,
}
use sagaflow.Errors.{Result, ok, Result-cases, ok-injective}
use sagaflow.Database.{Bytes, OutboxRow, publish_rows, is_pending, has_id}
use sagaflow.Database.Order.{order_by}
use sagaflow.Database.Order.Sorted.{
  Distinct, drop, keep-cong, keep-order_by, keep-past, order_by-IsAscending,
}
use sagaflow.Contracts.{Time}
use sagaflow.Envelope.{Message}
use sagaflow.Envelope.Headers.{HeaderMap}
use sagaflow.Outbox.{HeaderJson}
use sagaflow.Outbox.Poller.{Claimed, messages, claimable, batch_size, read_claimed}
use sagaflow.Outbox.Poller.Pending.{row_ids}

abbrev pub row_id : OutboxRow → ℕ
row_id r = r.id

abbrev pub waiting : List OutboxRow → List OutboxRow
waiting rows = keep (λ (r : OutboxRow). is_pending r.published_at) rows

-- What is to be published, in the order in which it is claimed.
abbrev pub queue : List OutboxRow → List OutboxRow
queue rows = order_by row_id (waiting rows)

any-keep-false :
    {A : Type 0} (p q : A → Bool) (xs : List A) → any p xs ≡ false → any p (keep q xs) ≡ false
unfolding any keep
any-keep-false p q [] h = refl
any-keep-false p q (x ∷ xs) h = ground (arith, any-keep-false p q xs)

Distinct-keep :
    {A : Type 0} (key : A → ℕ) (p : A → Bool) (xs : List A)
    → Distinct key xs
    → Distinct key (keep p xs)
unfolding keep
Distinct-keep key p [] d = tt
Distinct-keep key p (x ∷ xs) d = elim (Bool-cases (p x)) [
  | inl in_it ↦
      rw in_it (any-keep-false (λ y. nat_eq (key y) (key x)) p xs d.0, Distinct-keep key p xs d.1)
  | inr out ↦ rw out (Distinct-keep key p xs d.1)
]

-- After a batch is marked, those wait that waited and are not of the batch.
pub waiting-publish_rows :
    (ids : List ℕ) (now : Time) (rows : List OutboxRow)
    → waiting (publish_rows ids now rows)
      ≡ keep (λ (r : OutboxRow). not (has_id r.id ids)) (waiting rows)
unfolding publish_rows keep
waiting-publish_rows ids now [] = refl
waiting-publish_rows ids now (r ∷ rows) = ground (arith, waiting-publish_rows ids now rows)

pub Distinct-publish_rows :
    (ids : List ℕ) (now : Time) (rows : List OutboxRow)
    → Distinct row_id (waiting rows)
    → Distinct row_id (waiting (publish_rows ids now rows))
Distinct-publish_rows ids now rows d =
    rw (waiting-publish_rows ids now rows) (Distinct-keep row_id _ (waiting rows) d)

and-true : (b : Bool) → (b && true) ≡ b
and-true true = refl
and-true false = refl

-- A claim takes the head of the queue, and marking it leaves the rest.
pub claimable-queue : (rows : List OutboxRow) → claimable [] rows ≡ take batch_size (queue rows)
unfolding claimable any
claimable-queue rows =
    ap (λ l. take batch_size (order_by row_id l))
      (keep-cong _ (λ (r : OutboxRow). is_pending r.published_at) rows (same rows))
  where
    same :
        (rs : List OutboxRow)
        → All
            (λ r. (is_pending r.published_at && not (has_id r.id [])) ≡ is_pending r.published_at)
            rs
    same [] = tt
    same (r ∷ rs) = (and-true (is_pending r.published_at), same rs)

pub queue-publish_rows :
    (n : ℕ) (now : Time) (rows : List OutboxRow)
    → Distinct row_id (waiting rows)
    → queue (publish_rows (row_ids (take n (queue rows))) now rows) ≡ drop n (queue rows)
unfolding row_ids
queue-publish_rows n now rows d =
    ap (order_by row_id) (waiting-publish_rows (row_ids (take n (queue rows))) now rows)
    ∙ sym (keep-order_by row_id _ (waiting rows) d)
    ∙ keep-past row_id n (queue rows) (order_by-IsAscending row_id (waiting rows) d)

-- What a message says, and what a row says.
abbrev pub message_content : Message → String × String × Bytes × Result HeaderMap
message_content m = (m.topic, m.key, m.payload, ok m.headers)

module _ (hj : HeaderJson) where
  abbrev pub row_content : OutboxRow → String × String × Bytes × Result HeaderMap
  row_content r = (r.topic, r.key, r.payload, hj.unmarshal r.headers_json)

  abbrev pub Carries : List OutboxRow → List Message → Type 0
  Carries rows ms = map message_content ms ≡ map row_content rows

  pub read_claimed-Carries :
      (rows : List OutboxRow) (cs : List Claimed)
      → read_claimed hj rows ≡ ok cs
      → Carries rows (messages cs)
  unfolding read_claimed messages
  read_claimed-Carries [] cs h = subst (λ l. Carries [] (messages l)) (ok-injective h) refl
  read_claimed-Carries (r ∷ rows) cs h = elim (Result-cases (hj.unmarshal r.headers_json)) [
    | inr (x, e) ↦ let no = rw (e, read_claimed) at h in cc
    | inl (headers, e) ↦ elim (Result-cases (read_claimed hj rows)) [
      | inr (x, k) ↦ let no = rw (e, k, read_claimed) at h in cc
      | inl (rest, k) ↦
          let made = rw (e, k, read_claimed) at h in
          subst (λ l. Carries (r ∷ rows) (messages l)) (ok-injective made)
            (rw e (
              ap (λ l. (r.topic, r.key, r.payload, ok headers) ∷ l)
                (read_claimed-Carries rows rest k)))
    ]
  ]
