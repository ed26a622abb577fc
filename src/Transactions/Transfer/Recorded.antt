-- ===== src/Transactions/Transfer/Recorded.antt =====
-- What a settled transfer leaves in the table of transactions, and how its key finds it.
use text.Mathlib.TextPositions.{eq_refl}
use text.Mathlib.TextEquality.{eq_iff}
use bankproject.Base.{
  ℕ, ◌≡◌, ◌∙◌, refl, sym, ap, subst, String, Bool, true, false, Option, none, some, List, ◌∷◌,
  arith, Memᴰ, any_where, opt_str_eq, inl, inr, if◌then◌else◌, Option-cases,
}
use bankproject.Model.{Beneficiary, Transaction, flagged, completed}
use bankproject.Prisma.{Prisma}
use bankproject.Prisma.Found.{any_where_of_Memᴰ}
use bankproject.Handler.{World, Result, ok, Handler, begin, transaction, ◌>>=◌}
use bankproject.Handler.Laws.{commit-ok, commit-result, bind-ok, bind-eq}
use bankproject.Fraud.{FraudEngine, FraudAnalysisRequest, FraudAnalysisResponse}
use bankproject.Store.{transaction_clash, create_transaction, create_fraud_alert, create_audit_log}
use bankproject.Transactions.{Checked, TransferReply, Platform, CreateTransferDto}
use bankproject.Transactions.Idempotency.{
  has_key, find_idempotent_transfer, account_of, is_owned_by, alert_of, replay_message,
}
use bankproject.Transactions.Settlement.{transaction_row, debit, credit, flag, complete}
use bankproject.Transactions.Transfer.{settle, analyze, transfer_anew}
use bankproject.Transactions.Checks.{check_transfer, fraud_features}
use bankproject.Transactions.Limits.{enforce_transfer_limits}
use bankproject.Transactions.Transfer.Races.{clash_of_key}

-- The one row with a key is found by it.
pub find-recorded :
    (pg : Prisma) (key : String) (row : Transaction) (t : List Transaction)
    → row.idempotency_key ≡ some key
    → any_where (transaction_clash row) t ≡ false
    → pg.find (has_key key) (row ∷ t) ≡ some row
find-recorded pg key row t k free = elim (Option-cases (pg.find (has_key key) (row ∷ t))) [
  | inl missing ↦
      absurd (ground (arith, pg.find_none (has_key key) (row ∷ t) missing, k, eq_refl key))
  | inr (x, found) ↦
      let (m, q) = pg.find_some (has_key key) (row ∷ t) found in found ∙ ap some (among x m q)
]
  where
    among : (x : Transaction) → Memᴰ x (row ∷ t) → has_key key x ≡ true → x ≡ row
    among x (Memᴰ.head e) q = e
    among x (Memᴰ.tail m) q =
        cc (clash_of_key row key t k (any_where_of_Memᴰ (has_key key) m q), free)

pub some_of_opt_str_eq :
    (o : Option String) (s : String) → opt_str_eq o (some s) ≡ true → o ≡ some s
some_of_opt_str_eq none s h = cc
some_of_opt_str_eq (some x) s h = ap some ((eq_iff x s).0 h)

-- What a settled transfer has recorded.
pub record IsRecorded (c : Checked) (before after : List Transaction) (row : Transaction)
    : Type 0 where
  pub added : after ≡ row ∷ before
  pub free : any_where (transaction_clash row) before ≡ false
  pub keyed : row.idempotency_key ≡ c.idempotency_key
  pub printed : row.idempotency_fingerprint ≡ c.idempotency_fingerprint
  pub sent : row.sender_account_id ≡ some c.sender.id
  pub received : row.receiver_account_id ≡ some c.receiver.id
  pub amount : row.amount ≡ c.dto.amount

module _ (pg : Prisma) (c : Checked) (analysis : FraudAnalysisResponse) (w : World) where
  pub complete-IsRecorded :
      {r : TransferReply}
      → (complete pg c analysis w).0 ≡ ok r
      → IsRecorded c w.db.transactions (complete pg c analysis w).1.db.transactions r.transaction
  unfolding complete debit credit create_transaction create_audit_log
  complete-IsRecorded e = ground (
    arith,
    pg.create_lem (λ r. r.id) transaction_clash
        (transaction_row c completed (some analysis.risk_score) (some analysis.risk_level)
          (w.clock 0))
        w.db.transactions,
  )

  flag-IsRecorded :
      {r : TransferReply}
      → (flag pg c analysis w).0 ≡ ok r
      → IsRecorded c w.db.transactions (flag pg c analysis w).1.db.transactions r.transaction
  unfolding flag create_transaction create_fraud_alert create_audit_log
  flag-IsRecorded e = ground (
    arith,
    pg.create_lem (λ r. r.id) transaction_clash
        (transaction_row c flagged (some analysis.risk_score) (some analysis.risk_level)
          (w.clock 0))
        w.db.transactions,
  )

module _ (pg : Prisma) (c : Checked) (analysis : FraudAnalysisResponse) (w : World) where
  settle-IsRecorded :
      {r : TransferReply}
      → (settle pg c analysis w).0 ≡ ok r
      → (before : List Transaction) × IsRecorded c before
          (settle pg c analysis w).1.db.transactions
          r.transaction
  unfolding settle
  settle-IsRecorded {r} = go analysis.is_flagged
    where
      Records : Handler TransferReply → Type 0
      Records m =
          (m w).0 ≡ ok r
          → (before : List Transaction) × IsRecorded c before (m w).1.db.transactions r.transaction

      go :
          (b : Bool)
          → Records
              (if b then transaction (flag pg c analysis) else transaction (complete pg c analysis))
      go true e =
          let body = flag pg c analysis (begin w) in
          let done = sym (commit-result (begin w) body) ∙ e in
          (
            (begin w).db.transactions,
            rw (commit-ok (begin w) body done) (flag-IsRecorded pg c analysis (begin w) done),
          )
      go false e =
          let body = complete pg c analysis (begin w) in
          let done = sym (commit-result (begin w) body) ∙ e in
          (
            (begin w).db.transactions,
            rw (commit-ok (begin w) body done) (complete-IsRecorded pg c analysis (begin w) done),
          )

pub find_idempotent_transfer-replays :
    (pg : Prisma) (user_id : ℕ) (key fingerprint : String) (w : World) (row : Transaction)
    → pg.find (has_key key) w.db.transactions ≡ some row
    → row.idempotency_fingerprint ≡ some fingerprint
    → is_owned_by user_id (account_of pg row.sender_account_id w.db) ≡ true
    → (r : TransferReply) × (find_idempotent_transfer pg user_id key fingerprint w
        ≡ (ok (some r), w))
      × (r.transaction ≡ row)
      × (r.idempotent_replay ≡ true)
unfolding find_idempotent_transfer
find_idempotent_transfer-replays pg user_id key fingerprint w row found p owned = (
  record {
    message = replay_message row.status;
    transaction = row;
    fraud_alert = alert_of pg row w.db;
    fraud_analysis = none;
    idempotent_replay = true;
  },
  ground (arith, eq_refl fingerprint),
  refl,
  refl,
)

module _ (pg : Prisma) (platform : Platform) (user_id : ℕ) (dto : CreateTransferDto)
    (key fingerprint : Option String) (w : World) where
  check_transfer-keys :
      {found : Checked × Beneficiary}
      → (check_transfer pg platform user_id dto key fingerprint w).0 ≡ ok found
      → (found.0.idempotency_key ≡ key) × (found.0.idempotency_fingerprint ≡ fingerprint)
  unfolding check_transfer enforce_transfer_limits
  check_transfer-keys e = ground arith

  pub transfer_anew-IsRecorded :
      (engine : FraudEngine) (device_id : String) {r : TransferReply}
      → (transfer_anew pg platform engine user_id dto device_id key fingerprint w).0 ≡ ok r
      → (c : Checked) × (before : List Transaction) × (c.idempotency_key ≡ key)
        × (c.idempotency_fingerprint ≡ fingerprint)
        × IsRecorded c before
            (transfer_anew pg platform engine user_id dto device_id key fingerprint
              w).1.db.transactions
            r.transaction
  unfolding transfer_anew
  transfer_anew-IsRecorded engine device_id {r} e =
      let checks = check_transfer pg platform user_id dto key fingerprint in
      let settled =
        λ (found : Checked × Beneficiary) (a : FraudAnalysisResponse). settle pg found.0 a in
      let asked = λ (found : Checked × Beneficiary) (q : FraudAnalysisRequest).
        analyze pg platform engine found.0 q >>= settled found in
      let featured = λ (found : Checked × Beneficiary).
        fraud_features pg platform found.0 found.1 device_id >>= asked found in
      let (found, e0, e1) = bind-ok checks featured w e in
      let w1 = (checks w).1 in
      let (q, f0, f1) =
        bind-ok (fraud_features pg platform found.0 found.1 device_id) (asked found) w1 e1 in
      let w2 = (fraud_features pg platform found.0 found.1 device_id w1).1 in
      let (a, g0, g1) = bind-ok (analyze pg platform engine found.0 q) (settled found) w2 f1 in
      let w3 = (analyze pg platform engine found.0 q w2).1 in
      let (before, recorded) = settle-IsRecorded pg found.0 a w3 g1 in
      let (k, p) = check_transfer-keys e0 in
      let path =
        bind-eq checks featured w e0
        ∙ bind-eq (fraud_features pg platform found.0 found.1 device_id) (asked found) w1 f0
        ∙ bind-eq (analyze pg platform engine found.0 q) (settled found) w2 g0 in
      let kept = λ (z : Result TransferReply × World).
        IsRecorded found.0 before z.1.db.transactions r.transaction in
      (found.0, before, k, p, subst kept (sym path) recorded)
