-- ===== src/Database/Streams.antt =====
-- The events table: what writes do to it, and streams whose versions are 1, 2, 3, … in the order of
-- insertion.
use mathlib.Core.List.{append_assoc, append-nil}
use sagaflow.Base.{
  ℕ, suc, ◌+◌, ◌≤◌, ◌<◌, String, ◌≡◌, refl, sym, ◌∙◌, ap, subst, true, false, List, [], ◌∷◌, ◌++◌,
  ◌==◌, eq_iff, eq_refl, arith, nat_eq, inl, inr, keep, any, keep-append, Bool-cases, length, All,
  length-append, map,
}
use sagaflow.Database.Order.{order_by, order_by-cons}
use sagaflow.Database.{
  EventRow, Db, Write, insert_event, perform, perform_all, stream_of, in_stream, has_version,
}

-- The rows that a list of writes adds to the events table.
abbrev pub inserted : List Write → List EventRow
inserted [] = []
inserted (insert_event r ∷ ws) = r ∷ inserted ws
inserted (_ ∷ ws) = inserted ws

abbrev pub added : Write → List EventRow
added (insert_event r) = r ∷ []
added _ = []

pub events-perform : (d : Db) (w : Write) → (perform d w).events ≡ d.events ++ added w
unfolding perform
events-perform d (insert_event r) = refl
events-perform d _ = sym (append-nil d.events)

inserted-cons : (w : Write) (ws : List Write) → inserted (w ∷ ws) ≡ added w ++ inserted ws
inserted-cons (insert_event r) ws = refl
inserted-cons _ ws = refl

pub events-perform_all :
    (d : Db) (ws : List Write) → (perform_all d ws).events ≡ d.events ++ inserted ws
unfolding perform_all
events-perform_all d [] = sym (append-nil d.events)
events-perform_all d (w ∷ ws) =
    events-perform_all (perform d w) ws
    ∙ ap (λ l. l ++ inserted ws) (events-perform d w)
    ∙ append_assoc d.events (added w) (inserted ws)
    ∙ ap (λ l. d.events ++ l) (sym (inserted-cons w ws))

pub inserted-append : (xs ys : List Write) → inserted (xs ++ ys) ≡ inserted xs ++ inserted ys
inserted-append [] ys = refl
inserted-append (w ∷ xs) ys =
    inserted-cons w (xs ++ ys)
    ∙ ap (λ l. added w ++ l) (inserted-append xs ys)
    ∙ sym (append_assoc (added w) (inserted xs) (inserted ys))
    ∙ ap (λ l. l ++ inserted ys) (sym (inserted-cons w xs))

pub inserted-rows : (rows : List EventRow) → inserted (map insert_event rows) ≡ rows
inserted-rows [] = refl
inserted-rows (r ∷ rows) = ap (λ l. r ∷ l) (inserted-rows rows)

pub perform_all-append :
    (d : Db) (xs ys : List Write) → perform_all d (xs ++ ys) ≡ perform_all (perform_all d xs) ys
unfolding perform_all
perform_all-append d [] ys = refl
perform_all-append d (w ∷ xs) ys = perform_all-append (perform d w) xs ys

-- The versions of the rows are those after `n`, one by one.
abbrev pub IsSequential : ℕ → List EventRow → Type 0
IsSequential n [] = Unit
IsSequential n (r ∷ rows) = (r.version ≡ suc n) × IsSequential (suc n) rows

pub IsSequential-append :
    (n : ℕ) (xs ys : List EventRow)
    → IsSequential n xs
    → IsSequential (n + length xs) ys
    → IsSequential n (xs ++ ys)
IsSequential-append n [] ys h k = subst (λ m. IsSequential m ys) (omega arith) k
IsSequential-append n (x ∷ xs) ys h k =
    (h.0, IsSequential-append (suc n) xs ys h.1 (subst (λ m. IsSequential m ys) (omega arith) k))

pub IsSequential-split :
    (n : ℕ) (xs ys : List EventRow)
    → IsSequential n (xs ++ ys)
    → IsSequential n xs × IsSequential (n + length xs) ys
IsSequential-split n [] ys h = (tt, subst (λ m. IsSequential m ys) (omega arith) h)
IsSequential-split n (x ∷ xs) ys h =
    let (a, b) = IsSequential-split (suc n) xs ys h.1 in
    ((h.0, a), subst (λ m. IsSequential m ys) (omega arith) b)

sequential_above :
    (k n : ℕ) (rows : List EventRow)
    → k ≤ suc n
    → IsSequential n rows
    → All (λ (r : EventRow). k ≤ r.version) rows
sequential_above k n [] le h = tt
sequential_above k n (r ∷ rows) le h =
    (omega (arith, h.0), sequential_above k (suc n) rows (omega arith) h.1)

abbrev pub by_version : EventRow → ℕ
by_version r = r.version

-- Reading a sequential stream in the order of versions changes nothing.
pub order_by-sequential :
    (n : ℕ) (rows : List EventRow) → IsSequential n rows → order_by by_version rows ≡ rows
order_by-sequential n [] h = unfold order_by in refl
order_by-sequential n (r ∷ rows) h =
    order_by-cons by_version r rows (order_by-sequential (suc n) rows h.1)
      (sequential_above r.version (suc n) rows (omega (arith, h.0)) h.1)

pub has_version-stream_of :
    (id : String) (v : ℕ) (rows : List EventRow)
    → has_version id v rows ≡ any (λ (r : EventRow). nat_eq r.version v) (stream_of id rows)
unfolding any stream_of keep
has_version-stream_of id v [] = refl
has_version-stream_of id v (r ∷ rows) = ground (arith, has_version-stream_of id v rows)

sequential_has :
    (n v : ℕ) (rows : List EventRow)
    → IsSequential n rows
    → n < v
    → v ≤ n + length rows
    → any (λ (r : EventRow). nat_eq r.version v) rows ≡ true
unfolding any
sequential_has n v [] h lt le = absurd (omega arith)
sequential_has n v (r ∷ rows) h lt le = ground (arith, sequential_has (suc n) v rows h.1)

-- In a table whose stream is sequential, a version of it that is free lies above its length.
pub length-lt_of_free :
    (id : String) (v : ℕ) (rows : List EventRow)
    → IsSequential 0 (stream_of id rows)
    → 0 < v
    → has_version id v rows ≡ false
    → length (stream_of id rows) < v
length-lt_of_free id v rows h pos free =
    ground (arith, sequential_has 0 v (stream_of id rows) h pos, has_version-stream_of id v rows)

pub stream_of-append :
    (id : String) (xs ys : List EventRow)
    → stream_of id (xs ++ ys) ≡ stream_of id xs ++ stream_of id ys
unfolding stream_of
stream_of-append id xs ys = keep-append (in_stream id) xs ys

abbrev pub AllSequential : List EventRow → Type 0
AllSequential rows = (id : String) → IsSequential 0 (stream_of id rows)

stream_of-other :
    (id : String) (r : EventRow) → (r.stream_id == id) ≡ false → stream_of id (r ∷ []) ≡ []
unfolding stream_of keep
stream_of-other id r h = rw h

stream_of-same : (r : EventRow) → stream_of r.stream_id (r ∷ []) ≡ r ∷ []
unfolding stream_of keep
stream_of-same r = rw eq_refl

pub nil_of_length : {A : Type 0} (xs : List A) → length xs ≡ 0 → xs ≡ []
nil_of_length [] h = refl
nil_of_length (x ∷ xs) h = absurd (omega (arith, h))

-- A row that is committed at the next version of its stream, while a transaction has rows of its own
-- that do not use this version, leaves all streams sequential, with and without those rows.
module _ (stored own : List EventRow) (r : EventRow) (ordered : AllSequential stored)
    (seen : AllSequential (stored ++ own))
    (next : r.version ≡ suc (length (stream_of r.stream_id stored)))
    (vacant : has_version r.stream_id r.version (stored ++ own) ≡ false) where
  own_empty : stream_of r.stream_id own ≡ []
  own_empty = nil_of_length (stream_of r.stream_id own) (
      omega (
        arith,
        length-lt_of_free r.stream_id r.version (stored ++ own) (seen r.stream_id) (omega arith)
            vacant,
        ap (length {A = EventRow}) (stream_of-append r.stream_id stored own),
        length-append (stream_of r.stream_id stored) (stream_of r.stream_id own),
      ))

  pub stored-append : AllSequential (stored ++ r ∷ [])
  stored-append id = rw stream_of-append (elim (Bool-cases (r.stream_id == id)) [
    | inl same ↦
        let e : r.stream_id ≡ id = (eq_iff r.stream_id id).0 same in
        subst (λ i. IsSequential 0 (stream_of i stored ++ stream_of i (r ∷ []))) e
          (rw stream_of-same (
            IsSequential-append 0 (stream_of r.stream_id stored) (r ∷ []) (ordered r.stream_id)
              (omega (arith, next), tt)))
    | inr other ↦ rw (stream_of-other id r other, append-nil) (ordered id)
  ])

  pub seen-append : AllSequential ((stored ++ r ∷ []) ++ own)
  seen-append id = rw stream_of-append (elim (Bool-cases (r.stream_id == id)) [
    | inl same ↦
        let e : r.stream_id ≡ id = (eq_iff r.stream_id id).0 same in
        subst (λ i. IsSequential 0 (stream_of i (stored ++ r ∷ []) ++ stream_of i own)) e
          (rw (own_empty, append-nil) (stored-append r.stream_id))
    | inr other ↦
        rw (stream_of-append, stream_of-other id r other, append-nil)
          (rw (← stream_of-append) (seen id))
  ])

pub stream_of-cons :
    (id : String) (r : EventRow) (rows : List EventRow)
    → r.stream_id ≡ id
    → stream_of id (r ∷ rows) ≡ r ∷ stream_of id rows
unfolding stream_of keep
stream_of-cons id r rows h = rw (h, eq_refl)
