-- ===== src/Users/Listing.antt =====
-- `findById` and `findAll` of backend/src/users/users.service.ts.
use bankproject.Base.{
  ℕ, ◌≡◌, ◌==◌, refl, String, Bool, true, Option, none, some, List, arith, map_option, any_where,
  false, Option-cases, Memᴰ, inl, inr, ◌⊎◌,
}
use bankproject.Model.{User, UserRole, UserStatus}
use bankproject.Prisma.{Prisma}
use bankproject.Handler.{Handler, World, ok, gets}
use bankproject.Own.{latest_first}
use bankproject.Own.Listing.{IsListing, ordered-IsListing}
use bankproject.FraudAlerts.Listing.{map_rows}

-- The selected columns of a user.
pub record PublicUser : Type 0 where
  pub id : ℕ
  pub email : String
  pub first_name : String
  pub last_name : String
  pub role : UserRole
  pub status : UserStatus
  pub mfa_enabled : Bool
  pub created_at : ℕ

abbrev pub public_user : User → PublicUser
public_user u = record {
  id = u.id;
  email = u.email;
  first_name = u.first_name;
  last_name = u.last_name;
  role = u.role;
  status = u.status;
  mfa_enabled = u.mfa_enabled;
  created_at = u.created_at;
}

module _ (pg : Prisma) where
  unfoldable pub find_by_id : ℕ → Handler (Option PublicUser)
  find_by_id id = gets (λ d. map_option public_user (pg.find (λ (u : User). u.id == id) d.users))

  unfoldable pub find_all : Handler (List PublicUser)
  find_all = gets (λ d.
      map_rows public_user
        (pg.find_ordered (λ u. true) (latest_first (λ (u : User). u.created_at)) d.users))

module _ (pg : Prisma) (w : World) where
  -- The users are listed always, all of them, each as often as it is stored and the latest first;
  -- nothing changes.
  find_all-IsListing :
      (rows : List User) × (find_all pg w ≡ (ok (map_rows public_user rows), w))
      × IsListing (λ u. Unit) (λ u. u.created_at) w.db.users rows
  unfolding find_all
  find_all-IsListing = (
    _,
    refl,
    ordered-IsListing pg (λ u. true) (λ u. Unit) (λ u. u.created_at) w.db.users (λ u h. tt)
        (λ u h. refl),
  )

  -- A stored user is shown, and nothing is for an id that no user has; nothing changes.
  find_by_id_shows :
      (id : ℕ)
      → ((u : User) × Memᴰ u w.db.users
          × (u.id ≡ id)
          × (find_by_id pg id w ≡ (ok (some (public_user u)), w)))
        ⊎ ((any_where (λ (u : User). u.id == id) w.db.users ≡ false)
            × (find_by_id pg id w ≡ (ok none, w)))
  unfolding find_by_id
  find_by_id_shows id = elim (Option-cases (pg.find (λ (u : User). u.id == id) w.db.users)) [
    | inl missing ↦
        inr (pg.find_none (λ (u : User). u.id == id) w.db.users missing, ground (arith, missing))
    | inr (u, found) ↦
        let (m, q) = pg.find_some (λ (u : User). u.id == id) w.db.users found in
        inl (u, m, ground (arith, q), ground (arith, found))
  ]
