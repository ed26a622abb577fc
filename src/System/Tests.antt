-- ===== src/System/Tests.antt =====
-- A transfer through the guards, and the instances of the theorems on the whole back end.
use bankproject.Base.{◌+◌, arith, ◌≡◌, refl, true, none, some, [], ◌∷◌, ◌⊎◌}
use bankproject.Int.{pos, ◌+ℤ◌, ◌-ℤ◌}
use bankproject.Text.{trim, words, to_lower}
use bankproject.Model.{customer, active}
use bankproject.Prisma.Listed.{listed}
use bankproject.Handler.{Error, World, ok, err}
use bankproject.Fraud.{analyze_transaction}
use bankproject.Store.{
  create_audit_log, create_security_event, create_transaction, create_fraud_alert,
}
use bankproject.Devices.{is_new_device}
use bankproject.Auth.Guards.{Principal, extract_token, auth_guard, roles_guard}
use bankproject.Auth.Sample.{person, clear}
use bankproject.Transactions.Sample.{account, bank, platform, calm, dto}
use bankproject.Transactions.Idempotency.{
  normalize_idempotency_key, transfer_fingerprint, find_idempotent_transfer,
}
use bankproject.Transactions.Limits.{enforce_transfer_limits}
use bankproject.Transactions.Checks.{check_transfer, fraud_features}
use bankproject.Transactions.Settlement.{debit, credit, complete}
use bankproject.Transactions.Transfer.{transfer, post_transfer}
use bankproject.System.Routes.{
  Parts, Request, calls, on_transactions, on_admin, serve_transactions, serve_admin,
  post_transaction, patch_role, required_roles, perform, guarded, serve,
}
use bankproject.System.Ledger.{Ledger, IsSound}
use bankproject.System.Runs.{Run, here, then, Run-Ledger, Run-IsSound}
use bankproject.System.Access.{permits, guarded_by_role}

abbrev parts : Parts
parts = record {
  pg = listed;
  crypto = clear;
  totp = λ at secret code. some true;
  seal = λ iv s. ("tag", s);
  platform = platform;
  engine = calm;
  draws = 3;
}

abbrev start : World
start = record {
  db = record bank { users = person 1 "ann@b" customer active ∷ [] };
  clock = λ n. 1000000 + n;
  random = λ n. "r";
  others = λ n d. d;
}

abbrev paying : Request
paying = calls (some "Bearer signed") (on_transactions (post_transaction dto (some "phone") none))

abbrev later : World
later = (serve parts paying start).1

abbrev promoting : Request
promoting = calls (some "Bearer signed") (on_admin (patch_role 1 customer))

ran : Unit {0}
unfolding transfer post_transfer normalize_idempotency_key transfer_fingerprint trim
    find_idempotent_transfer check_transfer enforce_transfer_limits fraud_features is_new_device
    analyze_transaction complete debit credit create_transaction create_fraud_alert extract_token
    words to_lower auth_guard roles_guard serve_transactions serve_admin perform guarded serve
    create_audit_log create_security_event ◌-ℤ◌ ◌+ℤ◌
ran = tt

run_paying :
    (serve parts paying start).1.db.accounts
    ≡ account 1 "BS1" 3800 1 ∷ account 2 "BS2" 1300 2 ∷ account 3 "BS3" 70 1 ∷ []
unfolding ran
run_paying = refl

-- The transfer, then a request that only an administrator may make.
two_requests : Run parts start.db (serve parts promoting later).1.db
unfolding ran
two_requests = then later (then start here (λ n x. here) paying) (λ n x. here) promoting

Run-Ledger_example : Ledger start.db.accounts (serve parts promoting later).1.db.accounts
Run-Ledger_example = Run-Ledger parts two_requests (refl, (refl, (refl, tt)))

Run-IsSound_example : IsSound (pos 5170) (serve parts promoting later).1.db.accounts
unfolding ran
Run-IsSound_example = Run-IsSound parts (pos 5170) two_requests (record {
  keyed = (refl, (refl, (refl, tt)));
  solvent = (omega arith, (omega arith, (omega arith, tt)));
  sum = refl;
})

guarded_by_role_example :
    ((e : Error) × ((guarded parts
          (some "Bearer signed")
          (on_admin (patch_role 1 customer))
          start).0
        ≡ err e)
      × ((guarded parts (some "Bearer signed") (on_admin (patch_role 1 customer)) start).1.db
          ≡ start.db))
    ⊎ ((u : Principal) × ((auth_guard listed clear (some "Bearer signed") start).0 ≡ ok u)
        × (permits (required_roles (on_admin (patch_role 1 customer))) u.role ≡ true)
        × (guarded parts (some "Bearer signed") (on_admin (patch_role 1 customer)) start
            ≡ perform parts
                (on_admin (patch_role 1 customer))
                u
                (auth_guard listed clear (some "Bearer signed") start).1))
guarded_by_role_example =
    guarded_by_role parts (some "Bearer signed") (on_admin (patch_role 1 customer)) start
