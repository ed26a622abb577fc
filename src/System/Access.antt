-- ===== src/System/Access.antt =====
-- The guards before the routes: who may call which.
use bankproject.Base.{
  ◌≡◌, refl, ◌∙◌, ap, String, Bool, true, false, Option, none, some, List, [], ◌∷◌, ◌⊎◌, inl, inr,
  Bool-cases,
}
use bankproject.Model.{UserRole}
use bankproject.Handler.{World, Error, ok, err, forbidden, ◌>>◌}
use bankproject.Handler.Laws.{Result-cases, bind-eq, bind-err}
use bankproject.Auth.Guards.{Principal, auth_guard, roles_guard, includes_role}
use bankproject.Auth.Guards.Access.{auth_guard-db}
use bankproject.System.Routes.{Parts, Route, required_roles, perform, guarded}

-- Whether a role is one of those that a route requires, if it requires any.
abbrev pub permits : Option (List UserRole) → UserRole → Bool
permits none role = true
permits (some []) role = true
permits (some (r ∷ rs)) role = includes_role role (r ∷ rs)

roles_guard_lem :
    (roles : Option (List UserRole)) (u : Principal) (w : World)
    → ((permits roles u.role ≡ true) × (roles_guard roles (some u) w ≡ (ok tt, w)))
      ⊎ ((permits roles u.role ≡ false)
          × (roles_guard roles (some u) w
              ≡ (err (forbidden "You do not have permission to access this resource"), w)))
unfolding roles_guard
roles_guard_lem none u w = inl (refl, refl)
roles_guard_lem (some []) u w = inl (refl, refl)
roles_guard_lem (some (r ∷ rs)) u w = elim (Bool-cases (includes_role u.role (r ∷ rs))) [
  | inl allowed ↦ inl (allowed, rw allowed refl)
  | inr barred ↦ inr (barred, rw barred refl)
]

module _ (p : Parts) (header : Option String) (route : Route) (w : World) where
  -- A request behind the guards either is refused and leaves the database as it was, or it comes
  -- with a token that `AuthGuard` accepts, of a user whose role is one that the route requires, if
  -- it requires any; then it does what the route does for that user, and nothing else.
  pub guarded_by_role :
      ((e : Error) × ((guarded p header route w).0 ≡ err e)
        × ((guarded p header route w).1.db ≡ w.db))
      ⊎ ((u : Principal) × ((auth_guard p.pg p.crypto header w).0 ≡ ok u)
          × (permits (required_roles route) u.role ≡ true)
          × (guarded p header route w ≡ perform p route u (auth_guard p.pg p.crypto header w).1))
  unfolding guarded
  guarded_by_role =
      let guard = auth_guard p.pg p.crypto header in
      let next =
        λ (u : Principal). roles_guard (required_roles route) (some u) >> perform p route u in
      let same = auth_guard-db p.pg p.crypto header w in
      elim (Result-cases (guard w).0) [
        | inr (e, bad) ↦
            let stop = bind-err guard next w bad in
            inl (e, ap (λ z. z.0) stop, ap (λ z. z.1.db) stop ∙ same)
        | inl (u, good) ↦
            let path = bind-eq guard next w good in
            let roles = roles_guard (required_roles route) (some u) in
            let act = λ (x : Unit {0}). perform p route u in
            elim (roles_guard_lem (required_roles route) u (guard w).1) [
              | inl (allowed, on) ↦ inr (
                u,
                good,
                allowed,
                path ∙ bind-eq roles act (guard w).1 (ap (λ z. z.0) on) ∙ ap (λ z. act tt z.1) on,
              )
              | inr (barred, off) ↦
                  let stop = path ∙ bind-err roles act (guard w).1 (ap (λ z. z.0) off) in
                  inl (
                    forbidden "You do not have permission to access this resource",
                    ap (λ z. z.0) stop,
                    ap (λ z. z.1.db) stop ∙ ap (λ z. z.1.db) off ∙ same,
                  )
            ]
      ]
