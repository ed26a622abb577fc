-- ===== src/Paging.antt =====
-- backend/src/common/dto/pagination.dto.ts: the page that a listing asks for.
pub mod Pages
use bankproject.Base.{
  ℕ, ◌-◌, ◌*◌, ◌≡◌, Bool, true, Bool-cases, inl, inr, arith, ◌&&◌, Option, none, some, leb,
  if◌then◌else◌,
}

pub record PaginationDto : Type 0 where
  pub page : ℕ
  pub limit : ℕ

abbrev pub is_valid : PaginationDto → Bool
is_valid q = leb 1 q.page && leb 1 q.limit && leb q.limit 100

-- A field of the query that is missing has its default. A field that is given is none where it is
-- no whole number of zero or more.
abbrev pub field : ℕ → Option (Option ℕ) → Option ℕ
field default none = some default
field default (some n) = n

abbrev pub paging_of : Option ℕ → Option ℕ → Option PaginationDto
paging_of (some page) (some limit) =
    let q : PaginationDto = record { page = page; limit = limit } in
    if is_valid q then some q else none
paging_of _ _ = none

-- The validated page and limit of a query: none where it is refused.
unfoldable pub read_paging : Option (Option ℕ) → Option (Option ℕ) → Option PaginationDto
read_paging page limit = paging_of (field 1 page) (field 50 limit)

unfoldable pub skip : PaginationDto → ℕ
skip q = (q.page - 1) * q.limit

pub read_paging-valid :
    (page limit : Option (Option ℕ)) {q : PaginationDto}
    → read_paging page limit ≡ some q
    → is_valid q ≡ true
unfolding read_paging
read_paging-valid page limit {q} e = go (field 1 page) (field 50 limit) e
  where
    go : (a b : Option ℕ) → paging_of a b ≡ some q → is_valid q ≡ true
    go none b h = absurd (ground arith)
    go (some a) none h = absurd (ground arith)
    go (some a) (some b) h =
        let r : PaginationDto = record { page = a; limit = b } in
        elim (Bool-cases (is_valid r)) [
          | inl valid ↦ let same : r ≡ q = ground (arith, valid, h) in rw (← same) valid
          | inr bad ↦ absurd (ground (arith, bad, h))
        ]
