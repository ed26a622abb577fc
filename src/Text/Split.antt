-- ===== src/Text/Split.antt =====
-- `split` at one character and `join`, and `slice`.
pub mod Laws
use Prim.Native.Char.{Char, code}
use bankproject.Base.{
  ℕ, zero, suc, ◌-◌, ◌≡◌, refl, String, Bool, true, false, List, [], ◌∷◌, ◌==◌, if◌then◌else◌,
  arith,
}

abbrev pub onto_first : Char → List String → List String
onto_first c [] = String.◌∷◌ c String.[] ∷ []
onto_first c (w ∷ ws) = String.◌∷◌ c w ∷ ws

-- `s.split(d)`, for a text of one character
unfoldable pub split : ℕ → String → List String
split d String.[] = String.[] ∷ []
split d (String.◌∷◌ c s) =
    let rest = split d s in if code c == d then String.[] ∷ rest else onto_first c rest

-- `ws.join(d)`
unfoldable pub join_with : String → List String → String
join_with d [] = String.[]
join_with d (w ∷ ws) = elim ws [
  | [] ↦ w
  | _ ∷ _ ↦ Prim.Native.String.◌++◌ w (Prim.Native.String.◌++◌ d (join_with d ws))
]

unfoldable pub take_chars : ℕ → String → String
take_chars zero s = String.[]
take_chars (suc n) String.[] = String.[]
take_chars (suc n) (String.◌∷◌ c s) = String.◌∷◌ c (take_chars n s)

unfoldable pub drop_chars : ℕ → String → String
drop_chars zero s = s
drop_chars (suc n) String.[] = String.[]
drop_chars (suc n) (String.◌∷◌ c s) = drop_chars n s

-- `s.slice(a, b)`, for a ≤ b
abbrev pub slice : ℕ → ℕ → String → String
slice a b s = take_chars (b - a) (drop_chars a s)

-- Whether a character is in a text.
abbrev pub has_char : ℕ → String → Bool
has_char d String.[] = false
has_char d (String.◌∷◌ c s) = let rest = has_char d s in if code c == d then true else rest
