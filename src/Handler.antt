-- ===== src/Handler.antt =====
-- A request handler: it reads and changes the database, reads the clock and random texts, and
-- either returns a value or throws one of the HTTP exceptions of @nestjs/common. What a handler
-- wrote before it throws stays written, except inside `$transaction`.
pub mod Laws
pub mod Keeps
use bankproject.Base.{ℕ, suc, ◌≡◌, String, Bool, true, false, Option, none, some, if◌then◌else◌}
use bankproject.Model.{Db}

pub data Error : Type 0 where
  bad_request unauthorized forbidden not_found conflict unavailable internal : String → Error
  -- what the database client throws: a unique column clashes, a record is missing
  unique_violation record_missing : Error

pub data Result (A : Type 0) : Type 0 where
  ok : A → Result A
  err : Error → Result A

-- `clock n` is the time at the n-th reading from here on and `random n` the n-th random text.
-- `others n` is what the other requests have committed when the n-th transaction from here on
-- begins, so that a handler's checks may be out of date by then.
pub record World : Type 0 where
  pub db : Db
  pub clock : ℕ → ℕ
  pub random : ℕ → String
  pub others : ℕ → Db → Db

abbrev pub Handler : Type 0 → Type 0
Handler A = World → Result A × World

infixl 5 ◌>>=◌ ◌>>◌
abbrev pub ◌>>=◌ : {A B : Type 0} → Handler A → (A → Handler B) → Handler B
◌>>=◌ m f w = elim (m w).0 [ ok a ↦ f a (m w).1 | err e ↦ (err e, (m w).1) ]

abbrev pub ◌>>◌ : {A B : Type 0} → Handler A → Handler B → Handler B
m >> k = m >>= λ _. k

-- The world when a transaction begins.
abbrev pub begin : World → World
begin w = record w { db = w.others 0 w.db; others = λ n. w.others (suc n) }

module _ {A : Type 0} where
  abbrev pub pure : A → Handler A
  pure a w = (ok a, w)

  abbrev pub throw : Error → Handler A
  throw e w = (err e, w)

  -- A query that changes nothing.
  abbrev pub gets : (Db → A) → Handler A
  gets f w = (ok (f w.db), w)

  abbrev pub require : Option A → Error → Handler A
  require none e w = (err e, w)
  require (some a) e w = (ok a, w)

  -- A query that changes the database, or throws.
  abbrev pub attempt : (Db → Option (A × Db)) → Error → Handler A
  attempt f e w = elim (f w.db) [ none ↦ (err e, w) | some (a, d) ↦ (ok a, record w { db = d }) ]

  abbrev pub run : (Db → A × Db) → Handler A
  run f w = (ok (f w.db).0, record w { db = (f w.db).1 })

  abbrev pub commit : World → Result A × World → Result A × World
  commit w (ok a, w') = (ok a, w')
  commit w (err e, w') = (err e, record w' { db = w.db })

  -- `prisma.$transaction(async (tx) => …)`: rolled back if the body throws.
  abbrev pub transaction : Handler A → Handler A
  transaction m w = commit (begin w) (m (begin w))

module _ {A : Type 0} where
  -- `if (c) { … } else { … }`
  abbrev pub branch : Bool → Handler A → Handler A → Handler A
  branch true m n = m
  branch false m n = n

  -- the same where the value may be missing
  abbrev pub on_option : {B : Type 0} → Option B → Handler A → (B → Handler A) → Handler A
  on_option none m f = m
  on_option (some b) m f = f b

abbrev pub throw_if : Bool → Error → Handler (Unit {0})
throw_if c e w = (if c then err e else ok tt, w)

-- `new Date()`, `Date.now()`, and the `now()` of a column's default
abbrev pub now : Handler ℕ
now w = (ok (w.clock 0), record w { clock = λ n. w.clock (suc n) })

-- `randomUUID()`, `randomBytes(n).toString('hex')`
abbrev pub random_text : Handler String
random_text w = (ok (w.random 0), record w { random = λ n. w.random (suc n) })
