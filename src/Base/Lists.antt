-- ===== src/Base/Lists.antt =====
-- Lists over the native numbers, and the reference meaning of the queries on a table's rows.
use Prim.Native.Nat.{ℕ, zero, suc, ◌+◌}
use mathlib.Core.Bool.{Bool, true, false, ◌||◌}
use mathlib.Core.Path.{◌≡◌}
use mathlib.Core.List.{List, [], ◌∷◌}

module _ {ℓ} {A : Type ℓ} where
  abbrev pub length : List A → ℕ
  length [] = 0
  length (x ∷ xs) = suc (length xs)

  -- How many rows satisfy a test.
  abbrev pub count_where : (A → Bool) → List A → ℕ
  count_where p [] = 0
  count_where p (x ∷ xs) = elim (p x) [ true ↦ suc (count_where p xs) | false ↦ count_where p xs ]

  -- Whether a row satisfies it.
  abbrev pub any_where : (A → Bool) → List A → Bool
  any_where p [] = false
  any_where p (x ∷ xs) = p x || any_where p xs

  abbrev pub filter_where : (A → Bool) → List A → List A
  filter_where p [] = []
  filter_where p (x ∷ xs) = elim (p x) [ true ↦ x ∷ filter_where p xs | false ↦ filter_where p xs ]

  -- The rows that satisfy a test are changed, and no others.
  abbrev pub update_where : (A → Bool) → (A → A) → List A → List A
  update_where p f [] = []
  update_where p f (x ∷ xs) = elim (p x) [
    | true ↦ f x ∷ update_where p f xs
    | false ↦ x ∷ update_where p f xs
  ]

  -- The sum of a column over the rows that satisfy a test.
  abbrev pub sum_where : (A → Bool) → (A → ℕ) → List A → ℕ
  sum_where p f [] = 0
  sum_where p f (x ∷ xs) = elim (p x) [ true ↦ f x + sum_where p f xs | false ↦ sum_where p f xs ]

  abbrev pub take_rows : ℕ → List A → List A
  take_rows zero xs = []
  take_rows (suc n) [] = []
  take_rows (suc n) (x ∷ xs) = x ∷ take_rows n xs

  abbrev pub drop_rows : ℕ → List A → List A
  drop_rows zero xs = xs
  drop_rows (suc n) [] = []
  drop_rows (suc n) (x ∷ xs) = drop_rows n xs

  abbrev pub All {κ} : (A → Type κ) → List A → Type κ
  All P [] = Unit
  All P (x ∷ xs) = P x × All P xs

module _ {ℓ} {A : Type ℓ} where
  -- Every row stands before the later ones in the order, or level with them.
  abbrev pub IsSorted : (A → A → Bool) → List A → Type 0
  IsSorted le [] = Unit
  IsSorted le (x ∷ xs) = All (λ y. le x y ≡ true) xs × IsSorted le xs
