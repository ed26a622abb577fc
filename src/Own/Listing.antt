-- ===== src/Own/Listing.antt =====
-- What a query with `where` and `orderBy` on a time lists, for Own and for Users and FraudAlerts.
use bankproject.Base.{
  ℕ, ◌≡◌, ◌∙◌, refl, Bool, true, not, ◌&&◌, List, [], ◌∷◌, arith, All, IsSorted, count_where, ◌≤◌,
  Bool-cases, inl, inr,
}
use bankproject.Prisma.{Prisma}
use bankproject.Own.{latest_first}

abbrev pub IsLatestFirst : {R : Type 0} → (R → ℕ) → List R → Type 0
IsLatestFirst key [] = Unit
IsLatestFirst key (r ∷ rows) = All (λ x. key x ≤ key r) rows × IsLatestFirst key rows

-- The rows of a table that belong to somebody and no others, the latest first. A test that only
-- such rows pass is passed by as many of them as in the table, so that each is there as often.
pub record IsListing {R : Type 0} (P : R → Type 0) (key : R → ℕ) (t rows : List R) : Type 0 where
  pub only : All P rows
  pub same : (q : R → Bool) → ((r : R) → q r ≡ true → P r) → count_where q rows ≡ count_where q t
  pub latest : IsLatestFirst key rows

pub every_counted {ℓ} :
    {R : Type ℓ} (p : R → Bool) (rows : List R)
    → count_where (λ r. not (p r)) rows ≡ 0
    → All (λ r. p r ≡ true) rows
every_counted p [] h = tt
every_counted p (r ∷ rows) h = (ground arith, every_counted p rows (ground arith))

pub none_outside {ℓ} :
    {R : Type ℓ} (p : R → Bool) (t : List R) → count_where (λ r. p r && not (p r)) t ≡ 0
none_outside p [] = refl
none_outside p (r ∷ t) = ground (arith, none_outside p t)

count_where-narrower :
    {R : Type 0} (p q : R → Bool) (t : List R)
    → ((r : R) → q r ≡ true → p r ≡ true)
    → count_where (λ r. p r && q r) t ≡ count_where q t
count_where-narrower p q [] h = refl
count_where-narrower p q (r ∷ t) h = elim (Bool-cases (q r)) [
  | inl holds ↦ ground (arith, holds, h r holds, count_where-narrower p q t h)
  | inr fails ↦ ground (arith, fails, count_where-narrower p q t h)
]

All-weaken :
    {R : Type 0} (P Q : R → Type 0) (rows : List R)
    → ((r : R) → P r → Q r)
    → All P rows
    → All Q rows
All-weaken P Q [] f h = tt
All-weaken P Q (r ∷ rows) f h = (f r h.0, All-weaken P Q rows f h.1)

sorted-IsLatestFirst :
    {R : Type 0} (key : R → ℕ) (rows : List R)
    → IsSorted (latest_first key) rows
    → IsLatestFirst key rows
sorted-IsLatestFirst key [] h = tt
sorted-IsLatestFirst key (r ∷ rows) h = (
  All-weaken (λ x. latest_first key r x ≡ true) (λ x. key x ≤ key r) rows (λ x e. ground (arith, e))
      h.0,
  sorted-IsLatestFirst key rows h.1,
)

-- A `where` object that selects just the rows that belong to somebody gives their listing.
pub ordered-IsListing :
    (pg : Prisma) {R : Type 0} (p : R → Bool) (P : R → Type 0) (key : R → ℕ) (t : List R)
    → ((r : R) → p r ≡ true → P r)
    → ((r : R) → P r → p r ≡ true)
    → IsListing P key t (pg.find_ordered p (latest_first key) t)
ordered-IsListing pg p P key t sound complete =
    let rows = pg.find_ordered p (latest_first key) t in
    record {
      only =
          All-weaken (λ r. p r ≡ true) P rows sound
            (every_counted p rows
              (pg.find_ordered_lem p (λ r. not (p r)) (latest_first key) t ∙ none_outside p t));
      same = λ q own.
          pg.find_ordered_lem p q (latest_first key) t
          ∙ count_where-narrower p q t (λ r h. complete r (own r h));
      latest = sorted-IsLatestFirst key rows (
          pg.find_ordered_sorted p (latest_first key) t (λ a b. ground arith)
            (λ a b c h k. ground arith));
    }
