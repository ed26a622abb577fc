-- ===== src/Counts.antt =====
-- The counts that summaries keep by name, `Record<string, number>`.
use text.Mathlib.TextEquality.{eq_iff}
use bankproject.Base.{
  ℕ, ◌+◌, ◌≡◌, ap, String, Option, none, some, List, [], ◌∷◌, arith, or_else, str_eq, count_where,
  if◌then◌else◌, Bool-cases, inl, inr,
}

abbrev pub TextCounts : Type 0
TextCounts = List (String × ℕ)

abbrev pub count_of : String → TextCounts → Option ℕ
count_of key [] = none
count_of key ((k, n) ∷ rest) = if str_eq k key then some n else count_of key rest

-- `counts[key] = (counts[key] ?? 0) + 1`
abbrev pub add_text : String → TextCounts → TextCounts
add_text key [] = (key, 1) ∷ []
add_text key ((k, n) ∷ rest) =
    let more = add_text key rest in if str_eq k key then (k, n + 1) ∷ rest else (k, n) ∷ more

abbrev pub tally_text {ℓ} : {A : Type ℓ} → (A → String) → List A → TextCounts → TextCounts
tally_text key [] counts = counts
tally_text key (a ∷ rest) counts = tally_text key rest (add_text (key a) counts)

count_of-add_text :
    (key k : String) (c : TextCounts)
    → or_else (count_of key (add_text k c)) 0
      ≡ (if str_eq k key then 1 else 0) + or_else (count_of key c) 0
count_of-add_text key k [] = ground arith
count_of-add_text key k ((j, n) ∷ c) = elim (Bool-cases (str_eq j k)) [
  | inl e ↦ ground (arith, e, ap (λ x. str_eq x key) ((eq_iff j k).0 e))
  | inr e ↦ ground (
    arith,
    e,
    ap (λ x. str_eq x key),
    (eq_iff j key).0,
    (eq_iff k key).0,
    (eq_iff j k).1,
    count_of-add_text key k c,
  )
]

-- Each name is counted as often as it occurs.
pub count_of-tally_text {ℓ} :
    {A : Type ℓ} (key : A → String) (k : String) (rows : List A) (c : TextCounts)
    → or_else (count_of k (tally_text key rows c)) 0
      ≡ count_where (λ a. str_eq (key a) k) rows + or_else (count_of k c) 0
count_of-tally_text key k [] c = omega arith
count_of-tally_text key k (a ∷ rest) c =
    ground
      (arith, count_of-tally_text key k rest (add_text (key a) c), count_of-add_text k (key a) c)
