-- ===== src/Transactions/Reversal/Once.antt =====
-- A transfer is reversed at most once.
use bankproject.Base.{
  ℕ, ◌≤◌, ◌≡◌, ◌∙◌, refl, sym, ap, subst, String, true, Option, List, [], ◌∷◌, arith, count_where,
  update_where, All, Option-cases, inl, inr,
}
use bankproject.Text.{trim}
use bankproject.Model.{Transaction, reversed}
use bankproject.Prisma.{Prisma}
use bankproject.Prisma.Found.{All-Memᴰ}
use bankproject.Handler.{World, ok, err, Error, begin}
use bankproject.Handler.Laws.{Result-cases}
use bankproject.Transactions.Reversal.{
  Reversible, is_completed, is_transaction, undone, check_reversal, reverse,
}
use bankproject.Transactions.Reversal.Money.{
  reverse-checked, check_reversal-world, undo-IsMovedBack,
}

abbrev IsUndone : ℕ → Transaction → Type 0
IsUndone id x = is_transaction id x ≡ true → x.status ≡ reversed

All-IsUndone_none :
    (id : ℕ) (t : List Transaction) → count_where (is_transaction id) t ≡ 0 → All (IsUndone id) t
All-IsUndone_none id [] h = tt
All-IsUndone_none id (x ∷ t) h = ground (arith, All-IsUndone_none id t)

count-completed :
    (id : ℕ) (t : List Transaction)
    → count_where (is_completed id) t ≤ count_where (is_transaction id) t
count-completed id [] = omega arith
count-completed id (x ∷ t) = ground (arith, count-completed id t)

update_where-none_completed :
    (id : ℕ) (f : Transaction → Transaction) (t : List Transaction)
    → count_where (is_transaction id) t ≡ 0
    → update_where (is_completed id) f t ≡ t
update_where-none_completed id f [] h = refl
update_where-none_completed id f (x ∷ t) h = ground (arith, update_where-none_completed id f t)

All-IsUndone :
    (id at user_id : ℕ) (reason : String) (t : List Transaction)
    → count_where (is_transaction id) t ≤ 1
    → count_where (is_completed id) t ≡ 1
    → All (IsUndone id) (update_where (is_completed id) (undone at user_id reason) t)
All-IsUndone id at user_id reason [] h k = tt
All-IsUndone id at user_id reason (x ∷ t) h k = ground (
  arith,
  All-IsUndone id at user_id reason t,
  All-IsUndone_none id t,
  update_where-none_completed id (undone at user_id reason) t,
  count-completed id t,
)

check_reversal-not_ok :
    (pg : Prisma) (user_id id : ℕ) (w : World) {c : Reversible}
    → All (IsUndone id) w.db.transactions
    → (check_reversal pg user_id id w).0 ≡ ok c
    → ⊥
unfolding check_reversal
check_reversal-not_ok pg user_id id w h e =
    elim (Option-cases (pg.find (is_transaction id) w.db.transactions)) [
      | inl missing ↦ ground (arith, missing)
      | inr (x, found) ↦
          let (m, q) = pg.find_some (is_transaction id) w.db.transactions found in
          let status = All-Memᴰ (IsUndone id) m h q in ground (arith, found, status)
    ]

-- The original of a reversal has the id that was asked for.
check_reversal-id :
    (pg : Prisma) (user_id id : ℕ) (w : World) {c : Reversible}
    → (check_reversal pg user_id id w).0 ≡ ok c
    → c.original.id ≡ id
unfolding check_reversal
check_reversal-id pg user_id id w {c} e =
    elim (Option-cases (pg.find (is_transaction id) w.db.transactions)) [
      | inl missing ↦ absurd (ground (arith, missing))
      | inr (x, found) ↦
          let (m, q) = pg.find_some (is_transaction id) w.db.transactions found in
          let same : x ≡ c.original = ground (arith, found) in
          ground (arith, q, ap (λ (t : Transaction). t.id) same)
    ]

module _ (pg : Prisma) (user_id again_id id : ℕ) (reason again : String) (w v : World) where
  -- After a reversal has succeeded, no reversal of the same transaction does, by any user and for
  -- any reason: it throws and changes nothing, if the database is as the first left it and
  -- transaction ids were unique.
  pub reverse_once :
      {r : Option Transaction}
      → count_where (is_transaction id) (begin w).db.transactions ≤ 1
      → (reverse pg user_id id reason w).0 ≡ ok r
      → v.db ≡ (reverse pg user_id id reason w).1.db
      → (e : Error) × (reverse pg again_id id again v ≡ (err e, v))
  unfolding reverse
  reverse_once unique e same =
      let (c, checked, done, path) = reverse-checked pg user_id id reason w e in
      let m = undo-IsMovedBack pg user_id (trim reason) c (begin w) done in
      let is = check_reversal-id pg user_id id w checked in
      let was =
        subst (λ i. count_where (is_completed i) (begin w).db.transactions ≡ 1) is
          m.was_completed in
      let at = (begin w).clock 0 in
      let now_is : v.db.transactions
          ≡ update_where (is_completed id) (undone at user_id (trim reason))
              (begin w).db.transactions =
        ap (λ d. d.transactions) same
        ∙ ap (λ z. z.db.transactions) path
        ∙ m.marked
        ∙ ap
            (λ i.
              update_where (is_completed i) (undone at user_id (trim reason))
                (begin w).db.transactions)
            is in
      let marks =
        subst (All (IsUndone id)) (sym now_is)
          (All-IsUndone id at user_id (trim reason) (begin w).db.transactions unique was) in
      elim (Result-cases (check_reversal pg again_id id v).0) [
        | inl (c', e') ↦ absurd (check_reversal-not_ok pg again_id id v marks e')
        | inr (x, e') ↦ (x, ground (arith, e', check_reversal-world pg again_id id v))
      ]
