-- ===== src/Transactions/Transfer/Retry.antt =====
-- A client that repeats a request under one idempotency key is answered from the record.
use bankproject.Base.{
  ℕ, ◌≡◌, ◌∙◌, sym, ap, subst, String, true, Option, none, some, arith, inl, inr, Option-cases,
}
use bankproject.Model.{Db, Transaction}
use bankproject.Prisma.{Prisma}
use bankproject.Handler.{World, ok, ◌>>=◌}
use bankproject.Handler.Laws.{bind-ok, bind-eq}
use bankproject.Fraud.{FraudEngine}
use bankproject.Transactions.{TransferReply, Platform, CreateTransferDto}
use bankproject.Transactions.Idempotency.{
  normalize_idempotency_key, transfer_fingerprint, has_key, find_idempotent_transfer, account_of,
  is_owned_by,
}
use bankproject.Transactions.Transfer.{transfer_anew, unless_replayed, transfer_under, transfer}
use bankproject.Transactions.Transfer.Safety.{find_idempotent_transfer-world}
use bankproject.Transactions.Transfer.Recorded.{
  find-recorded, some_of_opt_str_eq, find_idempotent_transfer-replays, transfer_anew-IsRecorded,
}

module _ (pg : Prisma) (platform : Platform) (engine : FraudEngine) (user_id : ℕ)
    (dto : CreateTransferDto) (key : String) where
  print : String
  print = transfer_fingerprint platform user_id dto

  -- The record answers the key: it is found, it has the fingerprint, and its sender is the user's.
  abbrev Answers : Transaction → Db → Type 0
  Answers row d =
      (pg.find (has_key key) d.transactions ≡ some row)
      × (row.idempotency_fingerprint ≡ some print)
      × (is_owned_by user_id (account_of pg row.sender_account_id d) ≡ true)

  transfer_under-replays :
      (device_id : String) (w : World) (row : Transaction)
      → Answers row w.db
      → (r : TransferReply) × (transfer_under pg platform engine user_id dto device_id (some key) w
          ≡ (ok r, w))
        × (r.transaction ≡ row)
        × (r.idempotent_replay ≡ true)
  unfolding transfer_under unless_replayed print
  transfer_under-replays device_id w row (found, printed, owned) =
      let (r, e, same, again) =
        find_idempotent_transfer-replays pg user_id key print w row found printed owned in
      (r, ground (arith, e), same, again)

  find_idempotent_transfer-Answers :
      (w : World) {r : TransferReply}
      → (find_idempotent_transfer pg user_id key print w).0 ≡ ok (some r)
      → Answers r.transaction w.db
  unfolding find_idempotent_transfer
  find_idempotent_transfer-Answers w {r} e =
      elim (Option-cases (pg.find (has_key key) w.db.transactions)) [
        | inl missing ↦ absurd (ground (arith, missing))
        | inr (row, found) ↦
            let same : row ≡ r.transaction = ground (arith, found) in
            subst (λ x. Answers x w.db) same
              (
                found,
                some_of_opt_str_eq row.idempotency_fingerprint print (ground (arith, found)),
                ground (arith, found),
              )
      ]

  abbrev Owned : Transaction → Db → Type 0
  Owned row d = is_owned_by user_id (account_of pg row.sender_account_id d) ≡ true

  transfer_anew-Answers :
      (device_id : String) (w : World) {r : TransferReply}
      → (transfer_anew pg platform engine user_id dto device_id (some key) (some print) w).0 ≡ ok r
      → let d =
          (transfer_anew pg platform engine user_id dto device_id (some key) (some print) w).1.db in
        Owned r.transaction d → Answers r.transaction d
  transfer_anew-Answers device_id w {r} e owned =
      let (c, before, k, p, recorded) =
        transfer_anew-IsRecorded pg platform user_id dto (some key) (some print) w engine device_id
          e in
      (
        rw (recorded.added)
            (find-recorded pg key r.transaction before (recorded.keyed ∙ k) recorded.free),
        recorded.printed ∙ p,
        owned,
      )

  unless_replayed-Answers :
      (device_id : String) (o : Option TransferReply) (w : World) {r : TransferReply}
      → (find_idempotent_transfer pg user_id key print w).0 ≡ ok o
      → (unless_replayed pg platform engine user_id dto device_id key o w).0 ≡ ok r
      → let d = (unless_replayed pg platform engine user_id dto device_id key o w).1.db in
        Owned r.transaction d → Answers r.transaction d
  unfolding unless_replayed print
  unless_replayed-Answers device_id (some reply) w {r} found done owned =
      let same : reply ≡ r = ground (arith, done) in
      subst (λ x. Answers x.transaction w.db) same (find_idempotent_transfer-Answers w found)
  unless_replayed-Answers device_id none w found done owned =
      transfer_anew-Answers device_id w done owned

  -- The record of a transfer under the key answers it from then on, while its sender's account is
  -- the user's.
  transfer_under-Answers :
      (device_id : String) (w : World) {r : TransferReply}
      → (transfer_under pg platform engine user_id dto device_id (some key) w).0 ≡ ok r
      → let d = (transfer_under pg platform engine user_id dto device_id (some key) w).1.db in
        Owned r.transaction d → Answers r.transaction d
  unfolding transfer_under print
  transfer_under-Answers device_id w {r} e owned =
      let look = find_idempotent_transfer pg user_id key print in
      let next = unless_replayed pg platform engine user_id dto device_id key in
      let same = find_idempotent_transfer-world pg user_id key print w in
      let (o, found, done) = bind-ok look next w e in
      let path : (look >>= next) w ≡ next o w = bind-eq look next w found ∙ ap (next o) same in
      subst (λ z. Answers r.transaction z.1.db) (sym path)
        (unless_replayed-Answers device_id o w found (subst (λ z. (next o z).0 ≡ ok r) same done)
          (subst (λ z. Owned r.transaction z.1.db) path owned))

module _ (pg : Prisma) (platform : Platform) (engine : FraudEngine) (user_id : ℕ)
    (dto : CreateTransferDto) (raw_key key : String) (device_id again_id : String)
    (w v : World) where
  -- After a transfer under an idempotency key has succeeded, the same transfer under the same key
  -- succeeds again as a replay with the same transaction, from any device, and changes nothing, as
  -- long as the database is as the first left it and the sender's account in it is the user's.
  pub transfer_retried :
      {r : TransferReply}
      → normalize_idempotency_key (some raw_key) ≡ some key
      → (transfer pg platform engine user_id dto device_id (some raw_key) w).0 ≡ ok r
      → v.db ≡ (transfer pg platform engine user_id dto device_id (some raw_key) w).1.db
      → is_owned_by user_id (account_of pg r.transaction.sender_account_id v.db) ≡ true
      → (again : TransferReply) × (transfer pg platform engine user_id dto again_id (some raw_key) v
          ≡ (ok again, v))
        × (again.transaction ≡ r.transaction)
        × (again.idempotent_replay ≡ true)
  unfolding transfer
  transfer_retried {r} k e same owned =
      let first =
        λ (o : Option String). transfer_under pg platform engine user_id dto device_id o w in
      let q = ap first k in
      let left = same ∙ ap (λ z. z.1.db) q in
      let answers = Answers pg platform engine user_id dto key r.transaction in
      let owned' = subst (Owned pg platform engine user_id dto key r.transaction) left owned in
      let recorded =
        transfer_under-Answers pg platform engine user_id dto key device_id w
          (subst (λ z. z.0 ≡ ok r) q e) owned' in
      rw k (
        transfer_under-replays pg platform engine user_id dto key again_id v r.transaction
          (subst answers (sym left) recorded))
