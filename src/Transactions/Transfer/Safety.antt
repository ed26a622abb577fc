-- ===== src/Transactions/Transfer/Safety.antt =====
-- What a transfer that succeeds has passed: the checks of `transfer` and of
-- `enforceTransferLimits`.
use text.Mathlib.TextEquality.{eq_iff}
use bankproject.Base.{
  ℕ, ◌+◌, ◌≤◌, ◌≡◌, ◌≢◌, refl, String, true, Option, none, some, Memᴰ, arith, sum_where,
  Option-cases, inl, inr, ◌⊎◌,
}
use bankproject.Int.{pos, ◌≤ℤ◌}
use bankproject.Model.{Db, BankAccount, Beneficiary}
use bankproject.Prisma.{Prisma}
use bankproject.Handler.{World, ok, ◌>>=◌}
use bankproject.Handler.Laws.{bind-ok, bind-eq}
use bankproject.Fraud.{FraudEngine}
use bankproject.Transactions.{CreateTransferDto, TransferReply, Platform, Checked}
use bankproject.Transactions.Limits.{
  enforce_transfer_limits, is_used_since, per_transfer_limit, daily_transfer_limit,
}
use bankproject.Transactions.Checks.{
  check_transfer, fraud_features, is_account_of, is_beneficiary_of, has_number,
}
use bankproject.Transactions.Idempotency.{
  find_idempotent_transfer, normalize_idempotency_key, transfer_fingerprint,
}
use bankproject.Transactions.Transfer.{
  analyze, settle, transfer_anew, unless_replayed, transfer_under, transfer,
}

-- What the database says in favour of a transfer, when it is checked at a time of the day `at`.
pub record IsAllowed (platform : Platform) (user_id : ℕ) (dto : CreateTransferDto) (at : ℕ) (d : Db)
    : Type 0 where
  pub sender : BankAccount
  pub receiver : BankAccount
  pub beneficiary : Beneficiary
  pub sender_listed : Memᴰ sender d.accounts
  pub receiver_listed : Memᴰ receiver d.accounts
  pub beneficiary_listed : Memᴰ beneficiary d.beneficiaries
  pub sender_is : sender.id ≡ dto.sender_account_id
  pub sender_owned : sender.user_id ≡ user_id
  pub beneficiary_is : beneficiary.id ≡ dto.beneficiary_id
  pub beneficiary_owned : beneficiary.owner_id ≡ user_id
  pub receiver_is : receiver.account_number ≡ beneficiary.account_number
  pub differ : sender.id ≢ receiver.id
  pub same_currency : sender.currency ≡ receiver.currency
  pub covered : pos dto.amount ≤ℤ sender.balance
  pub within_transfer : dto.amount ≤ per_transfer_limit
  pub within_day :
      sum_where (is_used_since sender.id (platform.start_of_day at)) (λ t. t.amount) d.transactions
        + dto.amount
      ≤ daily_transfer_limit

module _ (pg : Prisma) (platform : Platform) (user_id : ℕ) (dto : CreateTransferDto)
    (key fingerprint : Option String) (w : World) where
  check_transfer-IsAllowed :
      {found : Checked × Beneficiary}
      → (check_transfer pg platform user_id dto key fingerprint w).0 ≡ ok found
      → IsAllowed platform user_id dto (w.clock 0) w.db
  unfolding check_transfer enforce_transfer_limits
  check_transfer-IsAllowed e =
      elim (Option-cases (pg.find (is_account_of dto.sender_account_id user_id) w.db.accounts)) [
        | inl missing ↦ absurd (ground (arith, missing))
        | inr (s, found_s) ↦
            elim (Option-cases
              (pg.find (is_beneficiary_of dto.beneficiary_id user_id) w.db.beneficiaries)) [
                | inl missing ↦ absurd (ground (arith, missing, found_s))
                | inr (b, found_b) ↦
                    elim (Option-cases (pg.find (has_number b.account_number) w.db.accounts)) [
                      | inl missing ↦ absurd (ground (arith, missing, found_s, found_b))
                      | inr (r, found_r) ↦
                          let (ms, ps) = pg.find_some _ w.db.accounts found_s in
                          let (mb, pb) = pg.find_some _ w.db.beneficiaries found_b in
                          let (mr, pr) = pg.find_some _ w.db.accounts found_r in
                          let used =
                            pg.total_lem (is_used_since s.id (platform.start_of_day (w.clock 0)))
                              (λ t. t.amount) w.db.transactions in
                          record {
                            sender = s;
                            receiver = r;
                            beneficiary = b;
                            sender_listed = ms;
                            receiver_listed = mr;
                            beneficiary_listed = mb;
                            sender_is = ground (arith, ps);
                            sender_owned = ground (arith, ps);
                            beneficiary_is = ground (arith, pb);
                            beneficiary_owned = ground (arith, pb);
                            receiver_is = (eq_iff _ _).0 pr;
                            differ = ground (arith, found_s, found_b, found_r);
                            same_currency =
                                (eq_iff _ _).0 (ground (arith, found_s, found_b, found_r));
                            covered = ground (arith, found_s, found_b, found_r);
                            within_transfer = ground (arith, found_s, found_b, found_r);
                            within_day = ground (arith, found_s, found_b, found_r, used);
                          }
                    ]
              ]
      ]

pub find_idempotent_transfer-world :
    (pg : Prisma) (user_id : ℕ) (key fingerprint : String) (w : World)
    → (find_idempotent_transfer pg user_id key fingerprint w).1 ≡ w
unfolding find_idempotent_transfer
find_idempotent_transfer-world pg user_id key fingerprint w = ground arith

find_idempotent_transfer-replay :
    (pg : Prisma) (user_id : ℕ) (key fingerprint : String) (w : World) {r : TransferReply}
    → (find_idempotent_transfer pg user_id key fingerprint w).0 ≡ ok (some r)
    → r.idempotent_replay ≡ true
unfolding find_idempotent_transfer
find_idempotent_transfer-replay pg user_id key fingerprint w e = ground arith

module _ (pg : Prisma) (platform : Platform) (engine : FraudEngine) (user_id : ℕ)
    (dto : CreateTransferDto) (device_id : String) where
  transfer_anew-IsAllowed :
      (key fingerprint : Option String) (w : World) {r : TransferReply}
      → (transfer_anew pg platform engine user_id dto device_id key fingerprint w).0 ≡ ok r
      → IsAllowed platform user_id dto (w.clock 0) w.db
  unfolding transfer_anew
  transfer_anew-IsAllowed key fingerprint w e =
      let (found, passed, _) =
        bind-ok (check_transfer pg platform user_id dto key fingerprint)
          (λ found. fraud_features pg platform found.0 found.1 device_id >>= λ q.
            analyze pg platform engine found.0 q >>= λ a. settle pg found.0 a)
          w e in
      check_transfer-IsAllowed pg platform user_id dto key fingerprint w passed

  -- A replay that changes nothing, or an allowed transfer.
  abbrev pub Justified : World → TransferReply → World → Type 0
  Justified w r v =
      ((r.idempotent_replay ≡ true) × (v ≡ w)) ⊎ IsAllowed platform user_id dto (w.clock 0) w.db

  print : String
  print = transfer_fingerprint platform user_id dto

  unless_replayed-Justified :
      (key : String) (o : Option TransferReply) (w : World) {r : TransferReply}
      → (find_idempotent_transfer pg user_id key print w).0 ≡ ok o
      → (unless_replayed pg platform engine user_id dto device_id key o w).0 ≡ ok r
      → Justified w r (unless_replayed pg platform engine user_id dto device_id key o w).1
  unfolding unless_replayed print
  unless_replayed-Justified key (some reply) w found e =
      inl (ground (arith, find_idempotent_transfer-replay pg user_id key print w found), refl)
  unless_replayed-Justified key none w found e =
      inr (transfer_anew-IsAllowed (some key) (some print) w e)

  transfer_under-Justified :
      (key : Option String) (w : World) {r : TransferReply}
      → (transfer_under pg platform engine user_id dto device_id key w).0 ≡ ok r
      → Justified w r (transfer_under pg platform engine user_id dto device_id key w).1
  unfolding transfer_under print
  transfer_under-Justified none w e = inr (transfer_anew-IsAllowed none none w e)
  transfer_under-Justified (some key) w {r} e =
      let look = find_idempotent_transfer pg user_id key print in
      let next = unless_replayed pg platform engine user_id dto device_id key in
      let same = find_idempotent_transfer-world pg user_id key print w in
      let (o, found, done) = bind-ok look next w e in
      rw (bind-eq look next w found)
        (rw same (unless_replayed-Justified key o w found (rw same at done)))

  -- A transfer that succeeds is a replay that changes nothing, or it was allowed by the database
  -- at its start: the sender's account is the user's own, is not the receiver's, has the same
  -- currency and covers the amount; the receiver's account is that of a beneficiary of the user;
  -- and the amount is within the limit of one transfer and, with what the account sent since the
  -- start of the day, within the limit of a day.
  pub transfer-IsAllowed :
      (key : Option String) (w : World) {r : TransferReply}
      → (transfer pg platform engine user_id dto device_id key w).0 ≡ ok r
      → Justified w r (transfer pg platform engine user_id dto device_id key w).1
  unfolding transfer
  transfer-IsAllowed key w e = transfer_under-Justified (normalize_idempotency_key key) w e
