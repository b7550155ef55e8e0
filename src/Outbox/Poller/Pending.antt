-- ===== src/Outbox/Poller/Pending.antt =====
-- internal/platform/outbox/poller.go: the rows that are not published yet, as `claim` and `Drain` see them.
use sagaflow.Base.{
  ℕ, zero, suc, ◌≤◌, ◌<◌, ◌≡◌, refl, sym, ◌∙◌, ap, Bool, true, false, ◌&&◌, not, List, [], ◌∷◌, map,
  keep, take, length, length-map, any, inl, inr, Bool-cases, arith,
}
use sagaflow.Errors.{Result, ok, err}
use sagaflow.Database.{
  Db, OutboxRow, Write, perform, publish_rows, is_pending, has_id, insert_outbox, mark_published,
  prune_outbox,
}
use sagaflow.Database.Order.{order_by}
use sagaflow.Database.Order.Sorted.{any-order_by}
use sagaflow.Session.{Session, admit, admit_all, admissible, in_context}
use sagaflow.Outbox.{HeaderJson}
use sagaflow.Envelope.Headers.{HeaderMap}
use sagaflow.Outbox.Poller.{Claimed, ids, claimable, batch_size, read_claimed}

-- Whether a write changes the outbox.
abbrev pub writes_outbox : Write → Bool
writes_outbox (insert_outbox r) = true
writes_outbox (mark_published ids now) = true
writes_outbox (prune_outbox now age) = true
writes_outbox _ = false

perform-outbox : (d : Db) (w : Write) → writes_outbox w ≡ false → (perform d w).outbox ≡ d.outbox
unfolding perform
perform-outbox d (insert_outbox r) h = cc
perform-outbox d (mark_published ids now) h = cc
perform-outbox d (prune_outbox now age) h = cc
perform-outbox d _ h = refl

admit-outbox :
    (s : Session) (w : Write)
    → writes_outbox w ≡ false
    → (admit s w).committed.outbox ≡ s.committed.outbox
admit-outbox s w h = elim (Bool-cases (admissible s w)) [
  | inl yes_admit ↦ rw yes_admit (perform-outbox s.committed w h)
  | inr no_admit ↦ rw no_admit refl
]

pub admit_all-outbox :
    (s : Session) (ws : List Write)
    → any writes_outbox ws ≡ false
    → (admit_all s ws).committed.outbox ≡ s.committed.outbox
unfolding admit_all any
admit_all-outbox s [] h = refl
admit_all-outbox s (w ∷ ws) h = elim (Bool-cases (writes_outbox w)) [
  | inl writes ↦ let no = rw writes at h in cc
  | inr leaves ↦ admit_all-outbox (admit s w) ws (rw leaves at h) ∙ admit-outbox s w leaves
]

abbrev pub pending_count : List OutboxRow → ℕ
pending_count rows = length (keep (λ (r : OutboxRow). is_pending r.published_at) rows)

abbrev pub hits : List ℕ → OutboxRow → Bool
hits ids r = is_pending r.published_at && has_id r.id ids

publish_rows-le :
    (ids : List ℕ) (now : ℕ) (rows : List OutboxRow)
    → pending_count (publish_rows ids now rows) ≤ pending_count rows
unfolding publish_rows keep
publish_rows-le ids now [] = omega arith
publish_rows-le ids now (r ∷ rows) = ground (arith, publish_rows-le ids now rows)

pub publish_rows-fewer :
    (ids : List ℕ) (now : ℕ) (rows : List OutboxRow)
    → any (hits ids) rows ≡ true
    → pending_count (publish_rows ids now rows) < pending_count rows
unfolding publish_rows keep any
publish_rows-fewer ids now [] h = cc
publish_rows-fewer ids now (r ∷ rows) h =
    ground (arith, publish_rows-le ids now rows, publish_rows-fewer ids now rows)

module _ {A : Type 0} (p : A → Bool) where
  any-take : (n : ℕ) (xs : List A) → any p (take n xs) ≡ true → any p xs ≡ true
  unfolding any
  any-take zero xs h = cc
  any-take (suc n) [] h = cc
  any-take (suc n) (x ∷ xs) h = ground (arith, any-take n xs)

  any-keep :
      (q r : A → Bool) (xs : List A)
      → ((x : A) → q x ≡ true → p x ≡ true → r x ≡ true)
      → any p (keep q xs) ≡ true
      → any r xs ≡ true
  unfolding any keep
  any-keep q r [] both h = h
  any-keep q r (x ∷ xs) both h = ground (arith, any-keep q r xs both, both x)

unfoldable pub row_ids : List OutboxRow → List ℕ
row_ids rows = map (λ (r : OutboxRow). r.id) rows

has_head : (n : ℕ) (rest : List ℕ) → has_id n (n ∷ rest) ≡ true
unfolding any
has_head n rest = ground arith

has_first :
    (l : List OutboxRow) → 0 < length l → any (λ (r : OutboxRow). has_id r.id (row_ids l)) l ≡ true
unfolding any row_ids
has_first [] h = let no : ⊥ = omega (arith, h) in elim no [ ]
has_first (r ∷ rest) h = rw (has_head r.id (row_ids rest)) refl

and_found : (p l h : Bool) → (p && not l) ≡ true → h ≡ true → (p && h) ≡ true
and_found true l h a b = b
and_found false l h a b = a

-- What is claimed is pending.
pub claimable-hits :
    (locked : List ℕ) (rows : List OutboxRow)
    → 0 < length (claimable locked rows)
    → any (hits (row_ids (claimable locked rows))) rows ≡ true
unfolding claimable
claimable-hits locked rows some_row =
    any-keep found free (hits taken_ids) rows
      (λ x. and_found (is_pending x.published_at) (has_id x.id locked) (has_id x.id taken_ids))
      in_kept
  where
    free : OutboxRow → Bool
    free r = is_pending r.published_at && not (has_id r.id locked)

    sorted : List OutboxRow
    sorted = order_by (λ (r : OutboxRow). r.id) (keep free rows)

    taken_ids : List ℕ
    taken_ids = row_ids (take batch_size sorted)

    found : OutboxRow → Bool
    found r = has_id r.id taken_ids

    in_kept : any found (keep free rows) ≡ true
    in_kept =
        sym (any-order_by found (λ (r : OutboxRow). r.id) (keep free rows))
        ∙ any-take found batch_size sorted (has_first (take batch_size sorted) some_row)

pub same_length :
    (cs : List Claimed) (rows : List OutboxRow) → ids cs ≡ row_ids rows → length cs ≡ length rows
unfolding ids row_ids
same_length cs rows e =
    sym (length-map (λ (c : Claimed). c.id) cs)
    ∙ ap length e
    ∙ length-map (λ (r : OutboxRow). r.id) rows

abbrev pub Reads : List OutboxRow → Result (List Claimed) → Type 0
Reads rows (ok cs) = ids cs ≡ row_ids rows
Reads rows (err e) = Unit {0}

module _ (hj : HeaderJson) where
  pub read_claimed-Reads : (rows : List OutboxRow) → Reads rows (read_claimed hj rows)
  unfolding read_claimed ids row_ids
  read_claimed-Reads [] = refl
  read_claimed-Reads (r ∷ rows) =
      by_header (in_context "outbox: unmarshal headers" (hj.unmarshal r.headers_json))
        (read_claimed hj rows) (read_claimed-Reads rows)
    where
      with_headers : HeaderMap → Claimed
      with_headers h = record {
        id = r.id;
        message = record { topic = r.topic; key = r.key; payload = r.payload; headers = h };
      }

      by_header :
          (h : Result HeaderMap) (rest : Result (List Claimed))
          → Reads rows rest
          → Reads (r ∷ rows) (elim h [
            | err e ↦ err e
            | ok h ↦ elim rest [ err e ↦ err e | ok cs ↦ ok (with_headers h ∷ cs) ]
          ])
      by_header (err e) rest h = tt
      by_header (ok h) (err e) k = tt
      by_header (ok h) (ok cs) k = ap (λ l. r.id ∷ l) k
