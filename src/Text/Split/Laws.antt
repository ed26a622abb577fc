-- ===== src/Text/Split/Laws.antt =====
-- A text that is joined of parts splits into them again, where no part holds the separator.
use Prim.Native.Char.{Char, code}
use Prim.Native.String.{◌++◌}
use Prim.Native.String.append
use bankproject.Base.{ℕ, ◌≡◌, ◌∙◌, refl, ap, String, true, false, List, [], ◌∷◌, ◌==◌, arith, All}
use bankproject.Text.Split.{split, join_with, has_char}

abbrev pub Lacks : ℕ → String → Type 0
Lacks d s = has_char d s ≡ false

abbrev one : Char → String
one c = String.◌∷◌ c String.[]

eq_refl : (n : ℕ) → (n == n) ≡ true
eq_refl n = ground arith

pub split-Lacks : (d : ℕ) (w : String) → Lacks d w → split d w ≡ w ∷ []
unfolding split
split-Lacks d String.[] h = refl
split-Lacks d (String.◌∷◌ c w) h = ground (arith, split-Lacks d w)

pub split-append :
    (c : Char) (w s : String)
    → Lacks (code c) w
    → split (code c) (w ++ (one c ++ s)) ≡ w ∷ split (code c) s
unfolding split
split-append c String.[] s h = simp (append.cons, append.nil, eq_refl (code c))
split-append c (String.◌∷◌ e w) s h =
    ground (arith, append.cons e w (one c ++ s), split-append c w s)

pub split-join_with :
    (c : Char) (w : String) (ws : List String)
    → All (Lacks (code c)) (w ∷ ws)
    → split (code c) (join_with (one c) (w ∷ ws)) ≡ w ∷ ws
unfolding join_with
split-join_with c w [] h = split-Lacks (code c) w h.0
split-join_with c w (v ∷ vs) h =
    split-append c w (join_with (one c) (v ∷ vs)) h.0 ∙ ap (λ x. w ∷ x) (split-join_with c v vs h.1)
