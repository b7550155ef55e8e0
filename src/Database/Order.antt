-- ===== src/Database/Order.antt =====
-- `ORDER BY` a number: insertion sort, rows with equal keys in the order they stood in. SQL leaves
-- that order open.
pub mod Sorted
use sagaflow.Base.{ℕ, ◌≤◌, ◌≡◌, refl, List, [], ◌∷◌, leb, if◌then◌else◌, arith, All, ◌∙◌, ap}

module _ {A : Type 0} (key : A → ℕ) where
  unfoldable pub insert_by : A → List A → List A
  insert_by a [] = a ∷ []
  insert_by a (b ∷ bs) = if leb (key a) (key b) then a ∷ b ∷ bs else b ∷ insert_by a bs

  unfoldable pub order_by : List A → List A
  unfolding insert_by
  order_by [] = []
  order_by (x ∷ xs) = insert_by x (order_by xs)

  insert_by-front :
      (x : A) (xs : List A) → All (λ (y : A). key x ≤ key y) xs → insert_by x xs ≡ x ∷ xs
  unfolding insert_by
  insert_by-front x [] b = refl
  insert_by-front x (y ∷ ys) b = ground arith

  -- A list is left alone if its head is the least and its tail is left alone.
  pub order_by-cons :
      (x : A) (xs : List A)
      → order_by xs ≡ xs
      → All (λ (y : A). key x ≤ key y) xs
      → order_by (x ∷ xs) ≡ x ∷ xs
  unfolding order_by
  order_by-cons x xs h b = ap (insert_by x) h ∙ insert_by-front x xs b
