-- ===== src/Store/Effects.antt =====
-- What the shared writes do: a row for the audit log or for the security events is always written,
-- and changes no other table.
use bankproject.Base.{ℕ, suc, ◌≡◌, refl, false, List, [], ◌∷◌, any_where, some, arith}
use bankproject.Prisma.{Prisma}
use bankproject.Handler.{World, ok}
use bankproject.Store.{
  AuditData, EventData, AttemptData, no_clash, audit_row, event_row, attempt_row, create_audit_log,
  create_security_event, create_login_attempt,
}

any_where-no_clash {ℓ} : {R : Type ℓ} (r : R) (t : List R) → any_where (no_clash r) t ≡ false
any_where-no_clash r [] = refl
any_where-no_clash r (x ∷ t) = any_where-no_clash r t

module _ (pg : Prisma) where
  pub create-no_clash :
      {R : Type 0} (id : R → ℕ) (row : ℕ → R) (t : List R)
      → pg.create id no_clash row t ≡ some (row (pg.fresh id t), row (pg.fresh id t) ∷ t)
  create-no_clash id row t =
      rw (pg.create_lem id no_clash row t) (rw (any_where-no_clash (row (pg.fresh id t)) t))

  abbrev pub logged : AuditData → World → World
  logged a w = record w {
    db = record w.db {
      audit_logs = audit_row a (w.clock 0) (pg.fresh (λ r. r.id) w.db.audit_logs) ∷ w.db.audit_logs;
    };
    clock = λ n. w.clock (suc n);
  }

  pub create_audit_log_lem :
      (a : AuditData) (w : World)
      → create_audit_log pg a w
        ≡ (ok (audit_row a (w.clock 0) (pg.fresh (λ r. r.id) w.db.audit_logs)), logged a w)
  unfolding create_audit_log
  create_audit_log_lem a w =
      ground (arith, create-no_clash (λ r. r.id) (audit_row a (w.clock 0)) w.db.audit_logs)

  abbrev pub noted : EventData → World → World
  noted e w = record w {
    db = record w.db {
      security_events =
          event_row e (w.clock 0) (pg.fresh (λ r. r.id) w.db.security_events)
          ∷ w.db.security_events;
    };
    clock = λ n. w.clock (suc n);
  }

  pub create_security_event_lem :
      (e : EventData) (w : World)
      → create_security_event pg e w
        ≡ (ok (event_row e (w.clock 0) (pg.fresh (λ r. r.id) w.db.security_events)), noted e w)
  unfolding create_security_event
  create_security_event_lem e w =
      ground (arith, create-no_clash (λ r. r.id) (event_row e (w.clock 0)) w.db.security_events)

  abbrev pub attempted : AttemptData → World → World
  attempted a w = record w {
    db = record w.db {
      login_attempts =
          attempt_row a (w.clock 0) (pg.fresh (λ r. r.id) w.db.login_attempts)
          ∷ w.db.login_attempts;
    };
    clock = λ n. w.clock (suc n);
  }

  pub create_login_attempt_lem :
      (a : AttemptData) (w : World)
      → create_login_attempt pg a w
        ≡ (ok (attempt_row a (w.clock 0) (pg.fresh (λ r. r.id) w.db.login_attempts)), attempted a w)
  unfolding create_login_attempt
  create_login_attempt_lem a w =
      ground (arith, create-no_clash (λ r. r.id) (attempt_row a (w.clock 0)) w.db.login_attempts)
