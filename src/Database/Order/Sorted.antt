-- ===== src/Database/Order/Sorted.antt =====
-- `ORDER BY` a number that no two rows share: the rows in ascending order, of which those that pass a test
-- come in the order of what passes it.
use sagaflow.Base.{
  ℕ, zero, suc, ◌≤◌, ◌<◌, ◌≡◌, refl, ◌∙◌, ap, Bool, true, false, not, List, [], ◌∷◌, ◌++◌, leb,
  nat_eq, any, keep, take, map, if◌then◌else◌, arith, All, inl, inr, Bool-cases,
}
use sagaflow.Database.Order.{insert_by, insert_by-front, order_by}

-- What `take n` leaves.
abbrev pub drop : {A : Type 0} → ℕ → List A → List A
drop zero xs = xs
drop (suc n) [] = []
drop (suc n) (x ∷ xs) = drop n xs

pub take-drop : {A : Type 0} (n : ℕ) (xs : List A) → take n xs ++ drop n xs ≡ xs
take-drop zero xs = refl
take-drop (suc n) [] = refl
take-drop (suc n) (x ∷ xs) = ap (λ l. x ∷ l) (take-drop n xs)

pub keep-cong :
    {A : Type 0} (p q : A → Bool) (xs : List A) → All (λ x. p x ≡ q x) xs → keep p xs ≡ keep q xs
unfolding keep
keep-cong p q [] h = refl
keep-cong p q (x ∷ xs) h = ground (arith, h.0, keep-cong p q xs h.1)

nat_eq_above : (m n : ℕ) → m < n → nat_eq n m ≡ false
nat_eq_above m n h = ground arith

keep-true : {A : Type 0} (xs : List A) → keep (λ x. true) xs ≡ xs
unfolding keep
keep-true [] = refl
keep-true (x ∷ xs) = ap (λ l. x ∷ l) (keep-true xs)

pub All-imp :
    {A : Type 0} {P Q : A → Type 0} (xs : List A) → ((x : A) → P x → Q x) → All P xs → All Q xs
All-imp [] f h = h
All-imp (x ∷ xs) f h = (f x h.0, All-imp xs f h.1)

module _ {A : Type 0} (p : A → Bool) where
  any-insert_by : (key : A → ℕ) (x : A) (xs : List A) → any p (insert_by key x xs) ≡ any p (x ∷ xs)
  unfolding any insert_by
  any-insert_by key x [] = refl
  any-insert_by key x (y ∷ ys) = ground (arith, any-insert_by key x ys)

  pub any-order_by : (key : A → ℕ) (xs : List A) → any p (order_by key xs) ≡ any p xs
  unfolding any order_by
  any-order_by key [] = refl
  any-order_by key (x ∷ xs) =
      any-insert_by key x (order_by key xs)
      ∙ ap (λ b. if p x then true else b) (any-order_by key xs)

module _ {A : Type 0} (key : A → ℕ) where
  -- No two have the same key.
  abbrev pub Distinct : List A → Type 0
  Distinct [] = Unit {0}
  Distinct (x ∷ xs) = (any (λ y. nat_eq (key y) (key x)) xs ≡ false) × Distinct xs

  abbrev pub IsAscending : List A → Type 0
  IsAscending [] = Unit {0}
  IsAscending (x ∷ xs) = All (λ y. key x < key y) xs × IsAscending xs

  All-insert_by :
      (P : A → Type 0) (x : A) (xs : List A) → P x → All P xs → All P (insert_by key x xs)
  unfolding insert_by
  All-insert_by P x [] h k = (h, tt)
  All-insert_by P x (y ∷ ys) h k = elim (Bool-cases (leb (key x) (key y))) [
    | inl before ↦ rw before (h, k)
    | inr after ↦ rw after (k.0, All-insert_by P x ys h k.1)
  ]

  All-keep : (P : A → Type 0) (p : A → Bool) (xs : List A) → All P xs → All P (keep p xs)
  unfolding keep
  All-keep P p [] h = tt
  All-keep P p (x ∷ xs) h = elim (Bool-cases (p x)) [
    | inl in_it ↦ rw in_it (h.0, All-keep P p xs h.1)
    | inr out ↦ rw out (All-keep P p xs h.1)
  ]

  insert_by-IsAscending :
      (x : A) (xs : List A)
      → any (λ y. nat_eq (key y) (key x)) xs ≡ false
      → IsAscending xs
      → IsAscending (insert_by key x xs)
  unfolding insert_by any
  insert_by-IsAscending x [] new a = (tt, tt)
  insert_by-IsAscending x (y ∷ ys) new a = elim (Bool-cases (leb (key x) (key y))) [
    | inl before ↦
        let first : key x < key y = ground (arith, before, new) in
        rw before ((first, All-imp ys (λ z h. omega (arith, first, h)) a.0), a)
    | inr after ↦
        let later : any (λ z. nat_eq (key z) (key x)) ys ≡ false = ground (arith, new) in
        let first : key y < key x = ground (arith, after) in
        rw after
          (All-insert_by (λ z. key y < key z) x ys first a.0, insert_by-IsAscending x ys later a.1)
  ]

  -- Keeping what passes a test commutes with sorting.
  keep-insert_by :
      (p : A → Bool) (x : A) (xs : List A)
      → IsAscending xs
      → keep p (insert_by key x xs) ≡ (if p x then insert_by key x (keep p xs) else keep p xs)
  unfolding insert_by keep
  keep-insert_by p x [] a = ground arith
  keep-insert_by p x (y ∷ ys) a = elim (Bool-cases (leb (key x) (key y))) [
    | inl before ↦
        let first : key x ≤ key y = ground (arith, before) in
        let front = insert_by-front key x (keep p (y ∷ ys)) (
          All-keep (λ z. key x ≤ key z) p (y ∷ ys)
            (first, All-imp ys (λ z h. omega (arith, first, h)) a.0)) in
        rw (before, front) (ground arith)
    | inr after ↦ ground (arith, after, keep-insert_by p x ys a.1)
  ]

  pub order_by-IsAscending : (xs : List A) → Distinct xs → IsAscending (order_by key xs)
  unfolding order_by
  order_by-IsAscending [] d = tt
  order_by-IsAscending (x ∷ xs) d =
      insert_by-IsAscending x (order_by key xs)
        (any-order_by (λ y. nat_eq (key y) (key x)) key xs ∙ d.0) (order_by-IsAscending xs d.1)

  pub keep-order_by :
      (p : A → Bool) (xs : List A)
      → Distinct xs
      → keep p (order_by key xs) ≡ order_by key (keep p xs)
  unfolding order_by keep
  keep-order_by p [] d = refl
  keep-order_by p (x ∷ xs) d =
      keep-insert_by p x (order_by key xs) (order_by-IsAscending xs d.1)
      ∙ ap (λ l. if p x then insert_by key x l else l) (keep-order_by p xs d.1)
      ∙ by_test (p x)
    where
      by_test :
          (b : Bool)
          → (if b then insert_by key x (order_by key (keep p xs)) else order_by key (keep p xs))
            ≡ order_by key (if b then x ∷ keep p xs else keep p xs)
      by_test true = refl
      by_test false = refl

  -- What is not among the first of an ascending list are the others.
  pub keep-past :
      (n : ℕ) (xs : List A)
      → IsAscending xs
      → keep (λ x. not (any (nat_eq (key x)) (map key (take n xs)))) xs ≡ drop n xs
  unfolding keep any
  keep-past zero xs a = keep-true xs
  keep-past (suc n) [] a = refl
  keep-past (suc n) (x ∷ xs) a =
      let same : nat_eq (key x) (key x) ≡ true = ground arith in
      rw same (
        keep-cong past_both past xs
          (All-imp xs (λ y h. other y (nat_eq_above (key x) (key y) h)) a.0)
        ∙ keep-past n xs a.1)
    where
      past : A → Bool
      past y = not (any (nat_eq (key y)) (map key (take n xs)))

      past_both : A → Bool
      past_both y =
          not (if nat_eq (key y) (key x) then true else any (nat_eq (key y)) (map key (take n xs)))

      other : (y : A) → nat_eq (key y) (key x) ≡ false → past_both y ≡ past y
      other y h = rw h refl
