-- ===== src/Prisma/Listed.antt =====
-- A client that meets the laws, over plain lists: the first row is found, and a new row takes the
-- number after the greatest.
use bankproject.Base.{
  ℕ, suc, ◌≤◌, ◌≡◌, refl, Bool, true, false, Option, none, some, List, [], ◌∷◌, Memᴰ, arith, ◌==◌,
  ◌&&◌, leb, if◌then◌else◌, map_option, count_where, any_where, filter_where, update_where,
  sum_where, Bool-cases, inl, inr, sym, ◌∙◌, ◌||◌, All, take_rows, drop_rows, IsSorted,
}
use bankproject.Prisma.{Prisma}

abbrev pub find_first {ℓ} : {R : Type ℓ} → (R → Bool) → List R → Option R
find_first p [] = none
find_first p (x ∷ xs) = if p x then some x else find_first p xs

abbrev pub above {ℓ} : {R : Type ℓ} → (R → ℕ) → List R → ℕ
above id [] = 1
above id (x ∷ xs) = let n = above id xs in if leb n (id x) then suc (id x) else n

pub find_first-some {ℓ} :
    {R : Type ℓ} (p : R → Bool) (t : List R) {r : R}
    → find_first p t ≡ some r
    → Memᴰ r t × (p r ≡ true)
find_first-some p [] h = cc
find_first-some p (x ∷ xs) {r} h = elim (Bool-cases (p x)) [
  | inl e ↦ let same : x ≡ r = ground arith in (Memᴰ.head (sym same), rw (← same) e)
  | inr e ↦ let (m, q) = find_first-some p xs (ground arith) in (Memᴰ.tail m, q)
]

pub find_first-none {ℓ} :
    {R : Type ℓ} (p : R → Bool) (t : List R) → find_first p t ≡ none → any_where p t ≡ false
find_first-none p [] h = refl
find_first-none p (x ∷ xs) h = ground (arith, find_first-none p xs)

pub above_new {ℓ} :
    {R : Type ℓ} (id : R → ℕ) (t : List R) (n : ℕ)
    → above id t ≤ n
    → any_where (λ r. id r == n) t ≡ false
above_new id [] n h = refl
above_new id (x ∷ xs) n h = ground (arith, above_new id xs n)

pub count-filter_where :
    {R : Type 0} (p q : R → Bool) (t : List R)
    → count_where q (filter_where p t) ≡ count_where (λ r. p r && q r) t
count-filter_where p q [] = refl
count-filter_where p q (x ∷ xs) = ground (arith, count-filter_where p q xs)

abbrev pub insert_one {ℓ} :
    {R : Type ℓ} → (R → ℕ) → (R → R → Bool) → (ℕ → R) → List R → Option (R × List R)
insert_one id clash row t =
    if any_where (clash (row (above id t))) t
    then none
    else some (row (above id t), row (above id t) ∷ t)

abbrev pub insert_all {ℓ} :
    {R : Type ℓ} → (R → ℕ) → (R → R → Bool) → List (ℕ → R) → List R → Option (List R)
insert_all id clash [] t = some t
insert_all id clash (row ∷ rows) t = elim (insert_one id clash row t) [
  | none ↦ none
  | some r ↦ insert_all id clash rows r.1
]

abbrev pub insert_sorted {ℓ} : {R : Type ℓ} → (R → R → Bool) → R → List R → List R
insert_sorted le x [] = x ∷ []
insert_sorted le x (y ∷ ys) =
    let later = insert_sorted le x ys in if le x y then x ∷ y ∷ ys else y ∷ later

abbrev pub sort {ℓ} : {R : Type ℓ} → (R → R → Bool) → List R → List R
sort le [] = []
sort le (x ∷ xs) = insert_sorted le x (sort le xs)

module _ {R : Type 0} (le : R → R → Bool) where
  count-insert_sorted :
      (q : R → Bool) (x : R) (t : List R)
      → count_where q (insert_sorted le x t) ≡ count_where q (x ∷ t)
  count-insert_sorted q x [] = refl
  count-insert_sorted q x (y ∷ ys) = ground (arith, count-insert_sorted q x ys)

  pub count-sort : (q : R → Bool) (t : List R) → count_where q (sort le t) ≡ count_where q t
  count-sort q [] = refl
  count-sort q (x ∷ xs) = ground (arith, count-insert_sorted q x (sort le xs), count-sort q xs)

  module _ (connex : (a b : R) → (le a b || le b a) ≡ true)
      (trans : (a b c : R) → le a b ≡ true → le b c ≡ true → le a c ≡ true) where
    All-before :
        (x y : R) (t : List R)
        → le x y ≡ true
        → All (λ z. le y z ≡ true) t
        → All (λ z. le x z ≡ true) t
    All-before x y [] h k = tt
    All-before x y (z ∷ t) h k = (trans x y z h k.0, All-before x y t h k.1)

    All-insert_sorted :
        (x y : R) (t : List R)
        → le y x ≡ true
        → All (λ z. le y z ≡ true) t
        → All (λ z. le y z ≡ true) (insert_sorted le x t)
    All-insert_sorted x y [] h k = (h, tt)
    All-insert_sorted x y (z ∷ t) h k = elim (Bool-cases (le x z)) [
      | inl e ↦ rw (e, All) (h, k)
      | inr e ↦ rw (e, All) (k.0, All-insert_sorted x y t h k.1)
    ]

    insert_sorted-IsSorted :
        (x : R) (t : List R) → IsSorted le t → IsSorted le (insert_sorted le x t)
    insert_sorted-IsSorted x [] s = (tt, tt)
    insert_sorted-IsSorted x (y ∷ t) s = elim (Bool-cases (le x y)) [
      | inl e ↦ rw (e, IsSorted) ((e, All-before x y t e s.0), s)
      | inr e ↦
          let back : le y x ≡ true = ground (arith, e, connex x y) in
          rw (e, IsSorted) (All-insert_sorted x y t back s.0, insert_sorted-IsSorted x t s.1)
    ]

    pub sort-IsSorted : (t : List R) → IsSorted le (sort le t)
    sort-IsSorted [] = tt
    sort-IsSorted (x ∷ xs) = insert_sorted-IsSorted x (sort le xs) (sort-IsSorted xs)

abbrev pub listed : Prisma
listed = record {
  find = find_first;
  fresh = above;
  create = insert_one;
  create_many = insert_all;
  update = λ p f t. map_option (λ r. (f r, update_where p f t)) (find_first p t);
  update_many = λ p f t. (count_where p t, update_where p f t);
  delete_many = λ p t. filter_where (λ r. if p r then false else true) t;
  count = count_where;
  find_many = filter_where;
  find_ordered = λ p le t. sort le (filter_where p t);
  find_page = λ p le skip size t. take_rows size (drop_rows skip (sort le (filter_where p t)));
  total = sum_where;
  find_some = find_first-some;
  find_none = find_first-none;
  fresh_new = λ id t. above_new id t (above id t) (omega arith);
  create_lem = λ id clash row t. refl;
  create_many_nil = λ id clash t. refl;
  create_many_cons = λ id clash row rows t. refl;
  update_lem = λ p f t. refl;
  update_many_lem = λ p f t. refl;
  delete_many_lem = λ p t. refl;
  count_lem = λ p t. refl;
  find_many_lem = count-filter_where;
  find_ordered_lem = λ p q le t. count-sort le q (filter_where p t) ∙ count-filter_where p q t;
  find_ordered_sorted = λ p le t connex trans. sort-IsSorted le connex trans (filter_where p t);
  find_page_lem = λ p le skip size t. refl;
  total_lem = λ p f t. refl;
}
