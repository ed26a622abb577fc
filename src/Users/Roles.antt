-- ===== src/Users/Roles.antt =====
-- What a change of a role or of a status does to the user's sessions.
use bankproject.Base.{
  ℕ, suc, ◌≡◌, ◌≢◌, ◌∙◌, refl, sym, ap, true, some, Memᴰ, ◌==◌, arith, update_where, Option-cases,
  Bool-cases, inl, inr, ◌||◌, ◌&&◌, not, if◌then◌else◌,
}
use bankproject.Model.{
  User, UserRole, role_eq, admin, UserStatus, active, locked, suspended, user_status_eq, low,
  medium, high, numbered, plain,
}
use bankproject.Prisma.{Prisma}
use bankproject.Handler.{World, ok, begin, transaction}
use bankproject.Handler.Laws.{commit-ok, commit-result}
use bankproject.Store.{AuditData, EventData}
use bankproject.Store.Effects.{create_audit_log_lem, create_security_event_lem, logged}
use bankproject.Auth.Tables.{has_uid, is_live_of, revoked, revoke_tokens, update_user}
use bankproject.Auth.Sessions.Revocation.{IsUpTo, IsCut, IsCutOff, cut, cut-IsCutOff}
use bankproject.Auth.Guards.Access.{role_eq_same}
use bankproject.Users.{
  from_to, role_text, user_status_text, with_role, with_status, store_role, update_role, sign_out,
  store_status, update_status,
}

module _ (pg : Prisma) (admin_id target_id : ℕ) where
  abbrev role_audit : UserRole → UserRole → AuditData
  role_audit old role = record {
    user_id = some admin_id;
    action = "USER_ROLE_CHANGED";
    resource = some (numbered "USER" target_id);
    outcome = some "SUCCESS";
    details = some (plain (from_to "Role changed from " (role_text old) (role_text role)));
  }

  abbrev role_event : UserRole → UserRole → EventData
  role_event old role = record {
    event_type = "USER_ROLE_CHANGED";
    description = from_to "User role changed from " (role_text old) (role_text role);
    risk_level = medium;
    user_id = some target_id;
  }

  abbrev changed_world : (User → User) → World → World
  changed_world f w = record w {
    db = record w.db { users = update_where (has_uid target_id) f w.db.users };
  }

  store_role-users :
      (old role : UserRole) (w : World) {u : User}
      → (store_role pg admin_id target_id old role w).0 ≡ ok u
      → (store_role pg admin_id target_id old role w).1.db.users
        ≡ update_where (has_uid target_id) (with_role role) w.db.users
  unfolding store_role update_user
  store_role-users old role w e =
      let one = pg.update_lem (has_uid target_id) (with_role role) w.db.users in
      let v = changed_world (with_role role) w in
      let a = create_audit_log_lem pg (role_audit old role) v in
      let n =
        create_security_event_lem pg (role_event old role) (logged pg (role_audit old role) v) in
      elim (Option-cases (pg.find (has_uid target_id) w.db.users)) [
        | inl missing ↦ absurd (ground (arith, one, missing))
        | inr (u, found) ↦ ground (arith, one, found, a, n)
      ]

  abbrev status_audit : UserStatus → UserStatus → AuditData
  status_audit old status = record {
    user_id = some admin_id;
    action = "USER_STATUS_CHANGED";
    resource = some (numbered "USER" target_id);
    outcome = some "SUCCESS";
    details =
        some
          (plain (from_to "Status changed from " (user_status_text old) (user_status_text status)));
  }

  abbrev status_event : UserStatus → UserStatus → EventData
  status_event old status = record {
    event_type = "USER_STATUS_CHANGED";
    description =
        from_to "User status changed from " (user_status_text old) (user_status_text status);
    risk_level = if user_status_eq status active then low else high;
    user_id = some target_id;
  }

  store_status-IsCut :
      (old status : UserStatus) (w : World) {u : User}
      → (user_status_eq status locked || user_status_eq status suspended) ≡ true
      → (store_status pg admin_id target_id old status w).0 ≡ ok u
      → IsCut target_id
          (with_status status)
          (w.clock 0)
          w
          (store_status pg admin_id target_id old status w).1.db
  unfolding store_status update_user sign_out revoke_tokens
  store_status-IsCut old status w shut e =
      let one = pg.update_lem (has_uid target_id) (with_status status) w.db.users in
      let many =
        pg.update_many_lem (is_live_of target_id) (revoked (w.clock 0)) w.db.refresh_tokens in
      let v = record (cut target_id (with_status status) (w.clock 0) w) {
        clock = λ n. w.clock (suc n);
      } in
      let a = create_audit_log_lem pg (status_audit old status) v in
      let n =
        create_security_event_lem pg (status_event old status)
          (logged pg (status_audit old status) v) in
      elim (Option-cases (pg.find (has_uid target_id) w.db.users)) [
        | inl missing ↦ absurd (ground (arith, one, missing))
        | inr (u, found) ↦ record {
          users = ground (arith, one, many, found, shut, a, n);
          tokens = ground (arith, one, many, found, shut, a, n);
        }
      ]

  update_role-ok :
      (role : UserRole) (w : World) {u : User}
      → (update_role pg admin_id target_id role w).0 ≡ ok u
      → (target : User) × Memᴰ target w.db.users
        × (target.id ≡ target_id)
        × (target.role ≢ role)
        × (admin_id ≡ target_id → role ≡ admin)
        × (update_role pg admin_id target_id role w
            ≡ transaction (store_role pg admin_id target_id target.role role) w)
  unfolding update_role
  update_role-ok role w e = elim (Option-cases (pg.find (has_uid target_id) w.db.users)) [
    | inl missing ↦ absurd (ground (arith, missing))
    | inr (t, found) ↦
        let (m, q) = pg.find_some (has_uid target_id) w.db.users found in
        elim (Bool-cases (admin_id == target_id && not (role_eq role admin))) [
          | inl own ↦ absurd (ground (arith, found, own))
          | inr other ↦ elim (Bool-cases (role_eq t.role role)) [
            | inl same ↦ absurd (ground (arith, found, other, same))
            | inr new ↦ (
              t,
              m,
              ground (arith, q),
              (λ is. absurd (cc (new, ap (λ r. role_eq r role) is, role_eq-refl role))),
              (λ is. role_eq_same role admin (ground (arith, other, is))),
              simp (found, other, new),
            )
          ]
        ]
  ]
    where
      role_eq-refl : (r : UserRole) → role_eq r r ≡ true
      role_eq-refl r = ground arith

  -- A role is changed only to another one, of a stored user, and no administrator takes the own
  -- role away; every row of the user then has the new role and the next token version, and the
  -- other users are as they were when the transaction began.
  update_role_changes :
      (role : UserRole) (w : World) {u : User}
      → (update_role pg admin_id target_id role w).0 ≡ ok u
      → ((target : User) × Memᴰ target w.db.users × (target.id ≡ target_id) × (target.role ≢ role))
        × (admin_id ≡ target_id → role ≡ admin)
        × ((update_role pg admin_id target_id role w).1.db.users
            ≡ update_where (has_uid target_id) (with_role role) (w.others 0 w.db).users)
  update_role_changes role w e =
      let (t, m, is, other, own, path) = update_role-ok role w e in
      let body = store_role pg admin_id target_id t.role role in
      let done = sym (commit-result (begin w) (body (begin w))) ∙ sym (ap (λ z. z.0) path) ∙ e in
      (
        (t, m, is, other),
        own,
        ap (λ z. z.1.db.users) (path ∙ commit-ok (begin w) (body (begin w)) done)
            ∙ store_role-users t.role role (begin w) done,
      )

  update_status-ok :
      (status : UserStatus) (w : World) {u : User}
      → (update_status pg admin_id target_id status w).0 ≡ ok u
      → (admin_id ≡ target_id → user_status_eq status active ≡ true)
        × (old : UserStatus) × (update_status pg admin_id target_id status w
            ≡ transaction (store_status pg admin_id target_id old status) w)
  unfolding update_status
  update_status-ok status w e = elim (Option-cases (pg.find (has_uid target_id) w.db.users)) [
    | inl missing ↦ absurd (ground (arith, missing))
    | inr (t, found) ↦
        elim (Bool-cases (admin_id == target_id && not (user_status_eq status active))) [
          | inl own ↦ absurd (ground (arith, found, own))
          | inr other ↦ elim (Bool-cases (user_status_eq t.status status)) [
            | inl same ↦ absurd (ground (arith, found, other, same))
            | inr new ↦ ((λ is. ground (arith, other, is)), t.status, simp (found, other, new))
          ]
        ]
  ]

  -- An administrator who locks or suspends a user, which is never the administrator's own account,
  -- cuts the user off: no refresh token of the user is live and the token version is past that of
  -- every access token signed before, if the user's rows had at least that version when the
  -- transaction began.
  pub update_status-IsCutOff :
      (status : UserStatus) (version : ℕ) (w : World) {u : User}
      → (update_status pg admin_id target_id status w).0 ≡ ok u
      → (user_status_eq status locked || user_status_eq status suspended) ≡ true
      → IsUpTo target_id version (w.others 0 w.db)
      → (admin_id ≢ target_id)
        × IsCutOff target_id version (update_status pg admin_id target_id status w).1.db
  update_status-IsCutOff status version w e shut old =
      let (own, before, path) = update_status-ok status w e in
      let body = store_status pg admin_id target_id before status in
      let done = sym (commit-result (begin w) (body (begin w))) ∙ sym (ap (λ z. z.0) path) ∙ e in
      let c = store_status-IsCut before status (begin w) shut done in
      (
        (λ is. not_active status shut (own is)),
        rw (path, commit-ok (begin w) (body (begin w)) done)
            (cut-IsCutOff target_id version (w.clock 0) (with_status status) (begin w) (λ u. refl) c
              old),
      )
    where
      not_active :
          (s : UserStatus)
          → (user_status_eq s locked || user_status_eq s suspended) ≡ true
          → user_status_eq s active ≡ true
          → ⊥
      not_active active h k = cc
      not_active locked h k = cc
      not_active suspended h k = cc
