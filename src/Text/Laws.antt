-- ===== src/Text/Laws.antt =====
-- Trimming a text twice is trimming it once, so a text that was stored trimmed is found by any
-- spelling of it with white space around.
use Prim.Native.Char.{Char, code}
use bankproject.Base.{String, ◌≡◌, ◌∙◌, refl, false, Bool-cases, inl, inr, ap}
use bankproject.Text.{is_space, trim_start, keep, trim_end, trim}

-- No white space at the front.
abbrev IsBare : String → Type 0
IsBare String.[] = Unit
IsBare (String.◌∷◌ c s) = is_space (code c) ≡ false

trim_start-IsBare : (s : String) → IsBare (trim_start s)
unfolding trim_start
trim_start-IsBare String.[] = tt
trim_start-IsBare (String.◌∷◌ c s) = elim (Bool-cases (is_space (code c))) [
  | inl e ↦ rw (e, trim_start, IsBare) (trim_start-IsBare s)
  | inr e ↦ rw (e, trim_start, IsBare) e
]

trim_start-eq_of_IsBare : (s : String) → IsBare s → trim_start s ≡ s
unfolding trim_start
trim_start-eq_of_IsBare String.[] h = refl
trim_start-eq_of_IsBare (String.◌∷◌ c s) h = rw (h, trim_start)

keep-IsBare : (c : Char) (r : String) → is_space (code c) ≡ false → IsBare (keep c r)
unfolding keep
keep-IsBare c String.[] h = rw (h, IsBare) h
keep-IsBare c (String.◌∷◌ d t) h = h

trim_end-IsBare : (s : String) → IsBare s → IsBare (trim_end s)
unfolding trim_end
trim_end-IsBare String.[] h = tt
trim_end-IsBare (String.◌∷◌ c s) h = keep-IsBare c (trim_end s) h

trim_end-keep : (c : Char) (r : String) → trim_end r ≡ r → trim_end (keep c r) ≡ keep c r
unfolding keep trim_end
trim_end-keep c String.[] h = elim (Bool-cases (is_space (code c))) [
  | inl e ↦ rw (e, keep)
  | inr e ↦ rw (e, keep) (rw (e, keep))
]
trim_end-keep c (String.◌∷◌ d t) h = rw h

trim_end_idem : (s : String) → trim_end (trim_end s) ≡ trim_end s
unfolding trim_end
trim_end_idem String.[] = refl
trim_end_idem (String.◌∷◌ c s) = trim_end-keep c (trim_end s) (trim_end_idem s)

-- `s.trim().trim()` is `s.trim()`.
pub trim_idem : (s : String) → trim (trim s) ≡ trim s
unfolding trim
trim_idem s =
    ap trim_end (trim_start-eq_of_IsBare _ (trim_end-IsBare _ (trim_start-IsBare s)))
    ∙ trim_end_idem (trim_start s)
