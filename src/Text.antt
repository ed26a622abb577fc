-- ===== src/Text.antt =====
-- The text functions of the language that the services use: `trim`, `toLowerCase` on ASCII
-- letters, and truth of a text.
pub mod Laws
pub mod Split
pub mod Search
use Prim.Native.Char.{Char, code}
use bankproject.Base.{
  ℕ, ◌-◌, String, List, [], ◌∷◌, Bool, true, false, not, ◌||◌, ◌&&◌, Option, none, some, ◌==◌, leb,
  if◌then◌else◌,
}

-- The white space and line ends of ECMAScript.
unfoldable pub is_space : ℕ → Bool
is_space c =
    (leb 9 c && leb c 13)
    || c == 32
    || c == 160
    || c == 0x1680
    || (leb 0x2000 c && leb c 0x200a)
    || c == 0x2028
    || c == 0x2029
    || c == 0x202f
    || c == 0x205f
    || c == 0x3000
    || c == 0xfeff

unfoldable pub trim_start : String → String
trim_start String.[] = String.[]
trim_start (String.◌∷◌ c s) = elim (is_space (code c)) [
  | true ↦ trim_start s
  | false ↦ String.◌∷◌ c s
]

-- A character before a text that is trimmed at its end.
unfoldable pub keep : Char → String → String
keep c String.[] = if is_space (code c) then String.[] else String.◌∷◌ c String.[]
keep c (String.◌∷◌ d r) = String.◌∷◌ c (String.◌∷◌ d r)

-- The text before its last run of white space.
unfoldable pub trim_end : String → String
trim_end String.[] = String.[]
trim_end (String.◌∷◌ c s) = keep c (trim_end s)

-- `s.trim()`
unfoldable pub trim : String → String
unfolding is_space trim_start keep trim_end
trim s = trim_end (trim_start s)

-- `if (s)`
abbrev pub is_truthy : String → Bool
is_truthy String.[] = false
is_truthy (String.◌∷◌ c s) = true

abbrev pub is_present : Option String → Bool
is_present none = false
is_present (some s) = is_truthy s

-- `s.toLowerCase()`, on the capital letters of ASCII
unfoldable pub to_lower : String → String
to_lower String.[] = String.[]
to_lower (String.◌∷◌ c s) =
    String.◌∷◌
      (if leb b'A' (code c) && leb (code c) b'Z'
        then Prim.Native.String.char_at "abcdefghijklmnopqrstuvwxyz" (code c - b'A')
        else c)
      (to_lower s)

-- A word that is being read from its end, before the words that follow it.
abbrev pub close : String × List String → List String
close (String.[], ws) = ws
close (String.◌∷◌ c w, ws) = String.◌∷◌ c w ∷ ws

unfoldable pub read_words : String → String × List String
read_words String.[] = (String.[], [])
read_words (String.◌∷◌ c s) =
    let r = read_words s in
    if is_space (code c) then (String.[], close r) else (String.◌∷◌ c r.0, r.1)

-- `s.trim().split(/\s+/)`, but for the empty text
unfoldable pub words : String → List String
unfolding is_space read_words
words s = close (read_words s)

-- `s.toUpperCase()`, on the small letters of ASCII
unfoldable pub to_upper : String → String
to_upper String.[] = String.[]
to_upper (String.◌∷◌ c s) =
    String.◌∷◌
      (if leb b'a' (code c) && leb (code c) b'z'
        then Prim.Native.String.char_at "ABCDEFGHIJKLMNOPQRSTUVWXYZ" (code c - b'a')
        else c)
      (to_upper s)

-- `s.replace(/-/g, '')`
unfoldable pub drop_dashes : String → String
drop_dashes String.[] = String.[]
drop_dashes (String.◌∷◌ c s) =
    let rest = drop_dashes s in if code c == b'-' then rest else String.◌∷◌ c rest
