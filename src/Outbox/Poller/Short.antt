-- ===== src/Outbox/Poller/Short.antt =====
-- internal/platform/outbox/poller.go: a batch that is not full holds every row that is pending.
use sagaflow.Base.{
  ℕ, zero, suc, ◌<◌, ◌≡◌, refl, sym, ◌∙◌, ap, subst, Bool, true, ◌&&◌, not, List, [], ◌∷◌, keep,
  take, length, any, nat_eq, if◌then◌else◌, arith, All,
}
use sagaflow.Database.{OutboxRow, publish_rows, is_pending, has_id}
use sagaflow.Database.Order.{order_by}
use sagaflow.Contracts.{Time}
use sagaflow.Outbox.Poller.{ids, claimable, batch_size}
use sagaflow.Outbox.Poller.Pending.{pending_count, row_ids}
use sagaflow.Database.Order.Sorted.{any-order_by}

module _ {A : Type 0} where
  All-map : {P Q : A → Type 0} (xs : List A) → ((x : A) → P x → Q x) → All P xs → All Q xs
  All-map [] f h = h
  All-map (x ∷ xs) f h = (f x h.0, All-map xs f h.1)

  pub take-short : (n : ℕ) (xs : List A) → length (take n xs) < n → take n xs ≡ xs
  take-short zero xs h = let no : ⊥ = omega (arith, h) in elim no [ ]
  take-short (suc n) [] h = refl
  take-short (suc n) (x ∷ xs) h = ap (λ l. x ∷ l) (take-short n xs (omega (arith, h)))

  -- What passes the test is found in what is kept.
  keep-found :
      (p : A → Bool) (key : A → ℕ) (xs : List A)
      → All (λ r. p r ≡ true → any (λ x. nat_eq (key r) (key x)) (keep p xs) ≡ true) xs
  unfolding keep any
  keep-found p key [] = tt
  keep-found p key (x ∷ xs) = (
    λ h. ground (arith, h),
    All-map xs (λ r later h. ground (arith, later, h)) (keep-found p key xs),
  )

has_id-row_ids :
    (n : ℕ) (rows : List OutboxRow)
    → has_id n (row_ids rows) ≡ any (λ (r : OutboxRow). nat_eq n r.id) rows
unfolding any row_ids
has_id-row_ids n [] = refl
has_id-row_ids n (r ∷ rows) = ap (λ b. if nat_eq n r.id then true else b) (has_id-row_ids n rows)

pub publish_rows-All :
    (ids : List ℕ) (now : ℕ) (rows : List OutboxRow)
    → All (λ (r : OutboxRow). is_pending r.published_at ≡ true → has_id r.id ids ≡ true) rows
    → pending_count (publish_rows ids now rows) ≡ 0
unfolding publish_rows keep
publish_rows-All ids now [] h = refl
publish_rows-All ids now (r ∷ rows) h = ground (arith, publish_rows-All ids now rows h.1, h.0)

pub claimable-All :
    (rows : List OutboxRow)
    → length (claimable [] rows) < batch_size
    → All
        (λ (r : OutboxRow).
          is_pending r.published_at ≡ true → has_id r.id (row_ids (claimable [] rows)) ≡ true)
        rows
unfolding claimable any
claimable-All rows h =
    All-map rows
      (λ r found waits.
        subst (λ l. has_id r.id (row_ids l) ≡ true) (sym (take-short batch_size sorted h))
          (has_id-row_ids r.id sorted
            ∙ any-order_by (λ (x : OutboxRow). nat_eq r.id x.id) (λ (x : OutboxRow). x.id)
                (keep free rows)
            ∙ found (rw waits refl)))
      (keep-found free (λ (r : OutboxRow). r.id) rows)
  where
    free : OutboxRow → Bool
    free r = is_pending r.published_at && not (has_id r.id [])

    sorted : List OutboxRow
    sorted = order_by (λ (r : OutboxRow). r.id) (keep free rows)

pub publish_rows-none : (now : Time) (rows : List OutboxRow) → publish_rows [] now rows ≡ rows
unfolding publish_rows any
publish_rows-none now [] = refl
publish_rows-none now (r ∷ rows) = ap (λ l. r ∷ l) (publish_rows-none now rows)
