-- ===== src/Paging/Pages.antt =====
-- The pages of a listing, for the services that skip and take rows of an ordered table.
use bankproject.Base.{
  ℕ, zero, suc, ◌+◌, ◌-◌, ◌*◌, ◌≤◌, ◌≡◌, ◌∙◌, refl, sym, ap, List, [], ◌∷◌, ◌++◌, arith, length,
  take_rows, drop_rows,
}
use bankproject.Paging.{PaginationDto, skip}

module _ {ℓ} {A : Type ℓ} where
  pub length-take : (n : ℕ) (xs : List A) → length (take_rows n xs) ≤ n
  length-take zero xs = omega arith
  length-take (suc n) [] = omega arith
  length-take (suc n) (x ∷ xs) = omega (arith, length-take n xs)

  take-all : (n : ℕ) (xs : List A) → length xs ≤ n → take_rows n xs ≡ xs
  take-all zero [] h = refl
  take-all zero (x ∷ xs) h = absurd (omega arith)
  take-all (suc n) [] h = refl
  take-all (suc n) (x ∷ xs) h = ap (λ ys. x ∷ ys) (take-all n xs (omega arith))

  take-nil : (n : ℕ) → take_rows {A = A} n [] ≡ []
  take-nil zero = refl
  take-nil (suc n) = refl

  -- The rows up to a place, then those of the next page, are the rows up to the place after it.
  take-append-drop :
      (m n : ℕ) (xs : List A)
      → take_rows m xs ++ take_rows n (drop_rows m xs) ≡ take_rows (m + n) xs
  take-append-drop zero n xs = ap (λ k. take_rows k xs) (omega arith)
  take-append-drop (suc m) n [] = take-nil n ∙ sym (take-nil (suc m + n))
  take-append-drop (suc m) n (x ∷ xs) =
      ap (λ ys. x ∷ ys) (take-append-drop m n xs)
      ∙ ap (λ k. take_rows k (x ∷ xs)) {x = suc (m + n)} {y = suc m + n} (omega arith)

  -- The rows of one page of a listing.
  abbrev pub page_rows : PaginationDto → List A → List A
  page_rows q xs = take_rows q.limit (drop_rows (skip q) xs)

  -- The pages 1, …, n one after the other.
  abbrev pub pages : ℕ → ℕ → List A → List A
  pages zero limit xs = []
  pages (suc n) limit xs = pages n limit xs ++ page_rows (record { page = suc n; limit = limit }) xs

  pages-take : (n limit : ℕ) (xs : List A) → pages n limit xs ≡ take_rows (n * limit) xs
  unfolding skip
  pages-take zero limit xs = ap (λ k. take_rows k xs) {x = zero} {y = zero * limit} (omega arith)
  pages-take (suc n) limit xs =
      ap (λ ys. ys ++ take_rows limit (drop_rows ((suc n - 1) * limit) xs)) (pages-take n limit xs)
      ∙ ap (λ k. take_rows (n * limit) xs ++ take_rows limit (drop_rows (k * limit) xs))
          {x = suc n - 1} {y = n} (omega arith)
      ∙ take-append-drop (n * limit) limit xs
      ∙ ap (λ k. take_rows k xs) {x = n * limit + limit} {y = suc n * limit} (omega arith)

  -- Enough pages are the whole listing.
  pub pages-all : (n limit : ℕ) (xs : List A) → length xs ≤ n * limit → pages n limit xs ≡ xs
  pages-all n limit xs h = pages-take n limit xs ∙ take-all (n * limit) xs h
