-- ===== src/Text/Search.antt =====
-- `contains` of the database's filters: a text that stands somewhere in another.
use Prim.Native.Char.{code}
use bankproject.Base.{String, Bool, true, false, ◌&&◌, ◌||◌, ◌==◌, Option, none, some}

abbrev pub starts_with : String → String → Bool
starts_with String.[] s = true
starts_with (String.◌∷◌ c p) String.[] = false
starts_with (String.◌∷◌ c p) (String.◌∷◌ d s) = code c == code d && starts_with p s

abbrev pub contains : String → String → Bool
contains p String.[] = starts_with p String.[]
contains p (String.◌∷◌ c s) = starts_with p (String.◌∷◌ c s) || contains p s

-- A filter that is missing or empty lets every row pass; a column that is null holds no text.
abbrev pub holds_text : Option String → Option String → Bool
holds_text none column = true
holds_text (some p) none = false
holds_text (some p) (some s) = contains p s
