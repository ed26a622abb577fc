-- ===== src/Soc/Report/Reader.antt =====
-- A reader of comma-separated values, after RFC 4180, and what it reads in the report.
use Prim.Native.Char.{Char, code}
use Prim.Native.String.{◌++◌}
use Prim.Native.String.append
use bankproject.Base.{
  ◌≡◌, ◌∙◌, refl, sym, ap, String, Bool, true, false, not, ◌&&◌, ◌==◌, Option, none, some, List, [],
  ◌∷◌, map, arith, All, or_else, Bool-cases, inl, inr,
}
use bankproject.Text.Split.{join_with, has_char}
use bankproject.Prisma.{Prisma}
use bankproject.Handler.{World, ok}
use bankproject.Soc.Report.{
  double_quotes, escape, csv_line, AlertRow, header, csv_fields, alerts_csv, Texts,
  later_alert_first, joined, get_alerts, get_alerts_csv,
}

-- Where the reader stands: outside of quotes, between them, or behind a quote that may close.
pub data Place : Type 0 where
  outside quoted closing : Place

-- The rest of the field, the later fields of its row, and the later rows.
abbrev pub Rest : Type 0
Rest = Option (String × List String × List (List String))

abbrev pub with_char : Char → Rest → Rest
with_char c none = none
with_char c (some (f, fs, rows)) = some (String.◌∷◌ c f, fs, rows)

abbrev pub next_field : Rest → Rest
next_field none = none
next_field (some (f, fs, rows)) = some (String.[], f ∷ fs, rows)

abbrev pub next_row : Rest → Rest
next_row none = none
next_row (some (f, fs, rows)) = some (String.[], [], (f ∷ fs) ∷ rows)

unfoldable pub read : Place → String → Rest
read quoted String.[] = none
read _ String.[] = some (String.[], [], [])
read quoted (String.◌∷◌ c s) = elim (code c == b'"') [
  | true ↦ read closing s
  | false ↦ with_char c (read quoted s)
]
read closing (String.◌∷◌ c s) = elim (code c == b'"') [
  | true ↦ with_char c (read quoted s)
  | false ↦ elim (code c == b',') [
    | true ↦ next_field (read outside s)
    | false ↦ elim (code c == b'\n') [ true ↦ next_row (read outside s) | false ↦ none ]
  ]
]
read outside (String.◌∷◌ c s) = elim (code c == b'"') [
  | true ↦ read quoted s
  | false ↦ elim (code c == b',') [
    | true ↦ next_field (read outside s)
    | false ↦ elim (code c == b'\n') [
      | true ↦ next_row (read outside s)
      | false ↦ with_char c (read outside s)
    ]
  ]
]

abbrev pub all_rows : Rest → Option (List (List String))
all_rows none = none
all_rows (some (f, fs, rows)) = some ((f ∷ fs) ∷ rows)

-- The rows of a text, each as its fields.
unfoldable pub read_csv : String → Option (List (List String))
unfolding read
read_csv s = all_rows (read outside s)

abbrev pub with_text : String → Rest → Rest
with_text String.[] r = r
with_text (String.◌∷◌ c s) r = with_char c (with_text s r)

abbrev quote : Char
quote = "\""

abbrev comma : Char
comma = ","

abbrev line_end : Char
line_end = "\n"

one-append : (c : Char) (s : String) → String.◌∷◌ c String.[] ++ s ≡ String.◌∷◌ c s
one-append c s = append.cons c String.[] s ∙ ap (String.◌∷◌ c) (append.nil s)

append_assoc : (a b c : String) → (a ++ b) ++ c ≡ a ++ (b ++ c)
append_assoc String.[] b c = ap (λ x. x ++ c) (append.nil b) ∙ sym (append.nil (b ++ c))
append_assoc (String.◌∷◌ x a) b c =
    ap (λ y. y ++ c) (append.cons x a b)
    ∙ append.cons x (a ++ b) c
    ∙ ap (String.◌∷◌ x) (append_assoc a b c)
    ∙ sym (append.cons x a (b ++ c))

read-double_quotes :
    (f s : String) → read quoted (double_quotes f ++ ("\"" ++ s)) ≡ with_text f (read closing s)
unfolding read double_quotes
read-double_quotes String.[] s = ap (read quoted) (append.nil ("\"" ++ s) ∙ one-append quote s)
read-double_quotes (String.◌∷◌ c f) s = elim (Bool-cases (code c == b'"')) [
  | inl e ↦ ground (
    arith,
    e,
    append.cons c (String.◌∷◌ c (double_quotes f)) ("\"" ++ s),
    append.cons c (double_quotes f) ("\"" ++ s),
    read-double_quotes f s,
  )
  | inr e ↦ ground (arith, e, append.cons c (double_quotes f) ("\"" ++ s), read-double_quotes f s)
]

-- A missing text is written like an empty one.
abbrev pub shown : Option String → String
shown v = or_else v ""

with_text-end :
    (f : String) (fs : List String) (rows : List (List String))
    → with_text f (some (String.[], fs, rows)) ≡ some (f, fs, rows)
with_text-end String.[] fs rows = refl
with_text-end (String.◌∷◌ c f) fs rows = ap (with_char c) (with_text-end f fs rows)

-- A field that was written is read as its text, and the reader stands behind its closing quote.
read-escape :
    (v : Option String) (s : String)
    → read outside (escape v ++ s) ≡ with_text (shown v) (read closing s)
unfolding escape read
read-escape none s =
    ap (read outside) (append.cons quote "\"" s ∙ ap (String.◌∷◌ quote) (one-append quote s))
read-escape (some f) s =
    let body = double_quotes f ++ "\"" in
    ap (read outside) (append_assoc "\"" body s ∙ one-append quote (body ++ s))
    ∙ ap (read quoted) (append_assoc (double_quotes f) "\"" s)
    ∙ read-double_quotes f s

read-line :
    (v : Option String) (vs : List (Option String)) (s : String) (rows : List (List String))
    → read closing s ≡ some (String.[], [], rows)
    → read outside (csv_line (v ∷ vs) ++ s) ≡ some (shown v, map shown vs, rows)
unfolding join_with read
read-line v [] s rows h =
    read-escape v s ∙ ap (with_text (shown v)) h ∙ with_text-end (shown v) [] rows
read-line v (u ∷ vs) s rows h =
    let rest = csv_line (u ∷ vs) in
    ap (read outside) (
      append_assoc (escape v) ("," ++ rest) s
      ∙ ap (λ x. escape v ++ x) (append_assoc "," rest s ∙ one-append comma (rest ++ s)))
    ∙ read-escape v (String.◌∷◌ comma (rest ++ s))
    ∙ ap (λ r. with_text (shown v) (next_field r)) (read-line u vs s rows h)
    ∙ with_text-end (shown v) (shown u ∷ map shown vs) rows

-- A text that needs no quotes.
abbrev pub is_plain : String → Bool
is_plain s = not (has_char b'"' s) && not (has_char b',' s) && not (has_char b'\n' s)

read-plain :
    (f s : String) → is_plain f ≡ true → read outside (f ++ s) ≡ with_text f (read outside s)
unfolding read
read-plain String.[] s h = ap (read outside) (append.nil s)
read-plain (String.◌∷◌ c f) s h = ground (arith, h, append.cons c f s, read-plain f s)

read-header :
    (f : String) (fs : List String) (s : String)
    → All (λ g. is_plain g ≡ true) (f ∷ fs)
    → {rows : List (List String)} → read outside s ≡ some (String.[], [], rows)
    → read outside (join_with "," (f ∷ fs) ++ s) ≡ some (f, fs, rows)
unfolding join_with read
read-header f [] s h {rows} e = read-plain f s h.0 ∙ ap (with_text f) e ∙ with_text-end f [] rows
read-header f (g ∷ fs) s h {rows} e =
    let rest = join_with "," (g ∷ fs) in
    ap (read outside) (
      append_assoc f ("," ++ rest) s
      ∙ ap (λ x. f ++ x) (append_assoc "," rest s ∙ one-append comma (rest ++ s)))
    ∙ read-plain f (String.◌∷◌ comma (rest ++ s)) h.0
    ∙ ap (λ r. with_text f (next_field r)) (read-header g fs s h.1 e)
    ∙ with_text-end f (g ∷ fs) rows

append_nil : (a : String) → a ++ "" ≡ a
append_nil String.[] = append.nil ""
append_nil (String.◌∷◌ c a) = append.cons c a "" ∙ ap (String.◌∷◌ c) (append_nil a)

-- The texts of a row.
abbrev pub row_texts : AlertRow → List String
row_texts r = map shown (csv_fields r)

abbrev later_fields : AlertRow → List (Option String)
later_fields r =
    some r.amount
    ∷ some r.currency
    ∷ some r.risk_score
    ∷ some r.severity
    ∷ some r.decision
    ∷ some r.status
    ∷ some r.transaction_id
    ∷ some r.reference
    ∷ some r.created_at
    ∷ []

abbrev lines : List AlertRow → List String
lines = map (λ r. csv_line (csv_fields r))

read-lines :
    (r : AlertRow) (rs : List AlertRow)
    → read outside (join_with "\n" (lines (r ∷ rs)))
      ≡ some (r.id, map shown (later_fields r), map row_texts rs)
unfolding join_with read
read-lines r [] =
    ap (read outside) (sym (append_nil (csv_line (csv_fields r))))
    ∙ read-line (some r.id) (later_fields r) "" [] refl
read-lines r (q ∷ qs) =
    let rest = join_with "\n" (lines (q ∷ qs)) in
    read-line (some r.id) (later_fields r) ("\n" ++ rest) (map row_texts (q ∷ qs))
      (ap (read closing) (one-append line_end rest) ∙ ap next_row (read-lines q qs))

abbrev later_header : List String
later_header =
    "amount" ∷ "currency" ∷ "risk_score" ∷ "severity" ∷ "decision" ∷ "status" ∷ "transaction_id"
    ∷ "reference" ∷ "created_at" ∷ []

plain : All (λ g. is_plain g ≡ true) header
plain = (refl, (refl, (refl, (refl, (refl, (refl, (refl, (refl, (refl, (refl, tt))))))))))

-- The report is read back as its header and the texts of its rows, whatever these hold.
pub read_csv-alerts_csv :
    (rows : List AlertRow) → read_csv (alerts_csv rows) ≡ some (header ∷ map row_texts rows)
unfolding read_csv alerts_csv read join_with
read_csv-alerts_csv [] =
    ap (λ x. all_rows (read outside x)) (sym (append_nil (join_with "," header)))
    ∙ ap all_rows (read-header "id" later_header "" plain refl)
read_csv-alerts_csv (r ∷ rs) =
    let rest = join_with "\n" (lines (r ∷ rs)) in
    ap all_rows (
      read-header "id" later_header ("\n" ++ rest) plain
        (ap (read outside) (one-append line_end rest) ∙ ap next_row (read-lines r rs)))

module _ (pg : Prisma) (texts : Texts) (w : World) where
  -- The report is given always and changes nothing, and a reader of comma-separated values finds
  -- in it the header and, row by row, the texts of the alerts that are listed, whatever characters
  -- these hold.
  pub get_alerts_csv-read :
      (rows : List AlertRow) × (get_alerts pg texts w ≡ (ok rows, w))
      × (csv : String) × (get_alerts_csv pg texts w ≡ (ok csv, w))
      × (read_csv csv ≡ some (header ∷ map row_texts rows))
  unfolding get_alerts_csv
  get_alerts_csv-read =
      let rows =
        joined pg texts w.db.transactions
          (pg.find_ordered (λ a. true) later_alert_first w.db.fraud_alerts) in
      (rows, refl, alerts_csv rows, refl, read_csv-alerts_csv rows)
