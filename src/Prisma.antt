-- ===== src/Prisma.antt =====
-- The Prisma client, which is generated and is not part of the repository: its queries on a table
-- are a parameter of the services, with what its documentation says of each as a law. A `where`
-- object is a test on a row and a `data` object is a change of a row; a table is its rows, in an
-- order that means nothing.
pub mod Listed
pub mod Found
use bankproject.Base.{
  ℕ, ◌≡◌, Bool, true, false, Option, none, some, List, [], ◌∷◌, Memᴰ, ◌==◌, ◌&&◌, ◌||◌, take_rows,
  drop_rows, IsSorted, if◌then◌else◌, map_option, count_where, any_where, filter_where,
  update_where, sum_where,
}

pub record Prisma : Type 1 where
  -- `findUnique` and `findFirst`
  pub find : {R : Type 0} → (R → Bool) → List R → Option R
  -- the `autoincrement` of a table's key, `id`
  pub fresh : {R : Type 0} → (R → ℕ) → List R → ℕ
  -- `create`: none where a row clashes with the new one on a unique column
  pub create : {R : Type 0} → (R → ℕ) → (R → R → Bool) → (ℕ → R) → List R → Option (R × List R)
  -- `createMany`: all of the rows or, where one clashes, none
  pub create_many :
      {R : Type 0} → (R → ℕ) → (R → R → Bool) → List (ℕ → R) → List R → Option (List R)
  -- `update`: none where no row is found
  pub update : {R : Type 0} → (R → Bool) → (R → R) → List R → Option (R × List R)
  -- `updateMany`, with its count
  pub update_many : {R : Type 0} → (R → Bool) → (R → R) → List R → ℕ × List R
  pub delete_many : {R : Type 0} → (R → Bool) → List R → List R
  pub count : {R : Type 0} → (R → Bool) → List R → ℕ
  -- `findMany` without an order: the rows come in any order
  pub find_many : {R : Type 0} → (R → Bool) → List R → List R
  -- `findMany` with `orderBy`, and with `skip` and `take` besides
  pub find_ordered : {R : Type 0} → (R → Bool) → (R → R → Bool) → List R → List R
  pub find_page : {R : Type 0} → (R → Bool) → (R → R → Bool) → ℕ → ℕ → List R → List R
  -- `aggregate` with `_sum` of one column
  pub total : {R : Type 0} → (R → Bool) → (R → ℕ) → List R → ℕ
  pub find_some :
      {R : Type 0} (p : R → Bool) (t : List R) {r : R} → find p t ≡ some r → Memᴰ r t × (p r ≡ true)
  pub find_none : {R : Type 0} (p : R → Bool) (t : List R) → find p t ≡ none → any_where p t ≡ false
  pub fresh_new :
      {R : Type 0} (id : R → ℕ) (t : List R) → any_where (λ r. id r == fresh id t) t ≡ false
  pub create_lem :
      {R : Type 0} (id : R → ℕ) (clash : R → R → Bool) (row : ℕ → R) (t : List R)
      → create id clash row t ≡ (
          if any_where (clash (row (fresh id t))) t
          then none
          else some (row (fresh id t), row (fresh id t) ∷ t))
  pub create_many_nil :
      {R : Type 0} (id : R → ℕ) (clash : R → R → Bool) (t : List R)
      → create_many id clash [] t ≡ some t
  pub create_many_cons :
      {R : Type 0} (id : R → ℕ) (clash : R → R → Bool) (row : ℕ → R) (rows : List (ℕ → R))
      (t : List R)
      → create_many id clash (row ∷ rows) t
        ≡ elim (create id clash row t) [ none ↦ none | some r ↦ create_many id clash rows r.1 ]
  pub update_lem :
      {R : Type 0} (p : R → Bool) (f : R → R) (t : List R)
      → update p f t ≡ map_option (λ r. (f r, update_where p f t)) (find p t)
  pub update_many_lem :
      {R : Type 0} (p : R → Bool) (f : R → R) (t : List R)
      → update_many p f t ≡ (count_where p t, update_where p f t)
  pub delete_many_lem :
      {R : Type 0} (p : R → Bool) (t : List R)
      → delete_many p t ≡ filter_where (λ r. if p r then false else true) t
  pub count_lem : {R : Type 0} (p : R → Bool) (t : List R) → count p t ≡ count_where p t
  pub find_many_lem :
      {R : Type 0} (p q : R → Bool) (t : List R)
      → count_where q (find_many p t) ≡ count_where (λ r. p r && q r) t
  pub find_ordered_lem :
      {R : Type 0} (p q : R → Bool) (le : R → R → Bool) (t : List R)
      → count_where q (find_ordered p le t) ≡ count_where (λ r. p r && q r) t
  pub find_ordered_sorted :
      {R : Type 0} (p : R → Bool) (le : R → R → Bool) (t : List R)
      → ((a b : R) → (le a b || le b a) ≡ true)
      → ((a b c : R) → le a b ≡ true → le b c ≡ true → le a c ≡ true)
      → IsSorted le (find_ordered p le t)
  pub find_page_lem :
      {R : Type 0} (p : R → Bool) (le : R → R → Bool) (skip size : ℕ) (t : List R)
      → find_page p le skip size t ≡ take_rows size (drop_rows skip (find_ordered p le t))
  pub total_lem :
      {R : Type 0} (p : R → Bool) (f : R → ℕ) (t : List R) → total p f t ≡ sum_where p f t
