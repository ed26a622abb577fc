-- ===== src/Auth/Guards.antt =====
-- The guards of every protected route: `AuthGuard.canActivate` of backend/src/auth/auth.guard.ts
-- and `RolesGuard.canActivate` of backend/src/auth/roles.guard.ts.
pub mod Access
use bankproject.Base.{
  ℕ, String, Bool, true, false, ◌&&◌, ◌||◌, not, Option, none, some, List, [], ◌∷◌, ◌==◌, str_eq,
  is_some, any_where, if◌then◌else◌,
}
use bankproject.Text.{words, to_lower, is_truthy}
use bankproject.Model.{Db, User, UserRole, role_eq, UserStatus, locked, suspended, user_status_eq}
use bankproject.Prisma.{Prisma}
use bankproject.Handler.{
  Handler, ◌>>=◌, ◌>>◌, gets, now, require, throw, throw_if, pure, unauthorized, forbidden,
}
use bankproject.Auth.{Claims, Crypto}
use bankproject.Auth.Tables.{has_uid}

-- `request['user']`
pub record Principal : Type 0 where
  pub sub : ℕ
  pub email : String
  pub role : UserRole

abbrev pub bearer : List String → Option String
bearer (scheme ∷ token ∷ []) = if str_eq (to_lower scheme) "bearer" then some token else none
bearer _ = none

-- `extractTokenFromHeader`
unfoldable pub extract_token : Option String → Option String
extract_token none = none
extract_token (some header) = bearer (words header)

-- `Number.isInteger(n) && n > 0`
abbrev pub positive : Option ℕ → Option ℕ
positive none = none
positive (some n) = if n == 0 then none else some n

module _ (pg : Prisma) (crypto : Crypto) where
  unfoldable pub auth_guard : Option String → Handler Principal
  auth_guard header = do
    token ← require (extract_token header) (unauthorized "Authentication required")
    at ← now
    payload ← require (crypto.verify at token) (unauthorized "Invalid or expired token")
    throw_if (not (str_eq payload.kind "access")) (unauthorized "Invalid access token")
    sub ← require (positive payload.sub) (unauthorized "Invalid token payload")
    version ← require payload.token_version (unauthorized "Invalid token payload")
    found ← gets (λ d. pg.find (has_uid sub) d.users)
    user ← require found (unauthorized "User account no longer exists")
    throw_if (user_status_eq user.status locked) (unauthorized "Account is locked")
    throw_if (user_status_eq user.status suspended) (unauthorized "Account is suspended")
    throw_if (not (role_eq user.role payload.role))
        (unauthorized "User permissions changed. Please log in again")
    throw_if (not (version == user.token_version)) (unauthorized "Session has been revoked")
    pure (record { sub = user.id; email = user.email; role = user.role })

-- `requiredRoles.includes(role)`
abbrev pub includes_role : UserRole → List UserRole → Bool
includes_role role = any_where (role_eq role)

-- The roles of the route, if it has any, and the user of the request, if there is one.
unfoldable pub roles_guard : Option (List UserRole) → Option Principal → Handler (Unit {0})
roles_guard none user = pure tt
roles_guard (some []) user = pure tt
roles_guard (some (r ∷ rs)) none = throw (forbidden "User information is missing")
roles_guard (some (r ∷ rs)) (some user) =
    throw_if (not (includes_role user.role (r ∷ rs)))
      (forbidden "You do not have permission to access this resource")
