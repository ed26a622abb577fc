-- ===== src/Prisma/Found.antt =====
-- What a query on the rows of a table says of each row.
use bankproject.Base.{
  ◌≡◌, ◌<◌, Bool, true, false, List, [], ◌∷◌, Memᴰ, arith, refl, ap, count_where, any_where,
  update_where, filter_where, All, Bool-cases, inl, inr,
}

pub any_where_of_Memᴰ {ℓ} :
    {A : Type ℓ} {x : A} {xs : List A} (p : A → Bool)
    → Memᴰ x xs
    → p x ≡ true
    → any_where p xs ≡ true
any_where_of_Memᴰ p (Memᴰ.head e) h = ground (arith, ap p e)
any_where_of_Memᴰ p (Memᴰ.tail m) h = ground (arith, any_where_of_Memᴰ p m h)

module _ {ℓ} {A : Type ℓ} where
  pub All-Memᴰ {κ} : (P : A → Type κ) {x : A} {xs : List A} → Memᴰ x xs → All P xs → P x
  All-Memᴰ P (Memᴰ.head e) h = rw e h.0
  All-Memᴰ P (Memᴰ.tail m) h = All-Memᴰ P m h.1

  pub count-eq-0_of_any :
      (p : A → Bool) (xs : List A) → any_where p xs ≡ false → count_where p xs ≡ 0
  count-eq-0_of_any p [] h = refl
  count-eq-0_of_any p (x ∷ xs) h = ground (arith, count-eq-0_of_any p xs)

  pub any_of_count : (p : A → Bool) (xs : List A) → count_where p xs ≡ 0 → any_where p xs ≡ false
  any_of_count p [] h = refl
  any_of_count p (x ∷ xs) h = ground (arith, any_of_count p xs)

  pub count-pos_of_any : (p : A → Bool) (xs : List A) → any_where p xs ≡ true → 0 < count_where p xs
  count-pos_of_any p [] h = cc
  count-pos_of_any p (x ∷ xs) h = ground (arith, count-pos_of_any p xs)

  -- A predicate that the change keeps holds of every row after it.
  pub All-update_where {κ} :
      (P : A → Type κ) (p : A → Bool) (f : A → A) (xs : List A)
      → ((x : A) → p x ≡ true → P x → P (f x))
      → All P xs
      → All P (update_where p f xs)
  All-update_where P p f [] keep h = tt
  All-update_where P p f (x ∷ xs) keep h = elim (Bool-cases (p x)) [
    | inl e ↦ rw (e, All) (keep x e h.0, All-update_where P p f xs keep h.1)
    | inr e ↦ rw (e, All) (h.0, All-update_where P p f xs keep h.1)
  ]

  pub All-filter_where {κ} :
      (P : A → Type κ) (p : A → Bool) (xs : List A) → All P xs → All P (filter_where p xs)
  All-filter_where P p [] h = tt
  All-filter_where P p (x ∷ xs) h = elim (Bool-cases (p x)) [
    | inl e ↦ rw (e, All) (h.0, All-filter_where P p xs h.1)
    | inr e ↦ rw (e, All) (All-filter_where P p xs h.1)
  ]

  -- A test whose value the change keeps counts as many rows after it.
  pub count-update_where :
      (q p : A → Bool) (f : A → A) (xs : List A)
      → ((x : A) → p x ≡ true → q (f x) ≡ q x)
      → count_where q (update_where p f xs) ≡ count_where q xs
  count-update_where q p f [] keep = refl
  count-update_where q p f (x ∷ xs) keep = ground (arith, keep x, count-update_where q p f xs keep)

  -- Such a test finds a row after the change if it found one before.
  pub any-update_where :
      (q p : A → Bool) (f : A → A) (xs : List A)
      → ((x : A) → q (f x) ≡ q x)
      → any_where q (update_where p f xs) ≡ any_where q xs
  any-update_where q p f [] keep = refl
  any-update_where q p f (x ∷ xs) keep = ground (arith, keep x, any-update_where q p f xs keep)
