-- ===== src/Payment/Topup/Once.antt =====
-- A checkout that is reported twice is credited once.
use upstride_api.Base.{
  ℕ, ◌*◌, ◌≡◌, refl, ap, ◌∙◌, inl, inr, Bool, true, false, Option, none, some, List, [], ◌∷◌, ◌++◌,
  arith, ◌==◌, ==_iff, if◌then◌else◌, any, find, Bool-cases, Option-cases, ◌+ℤ◌, pos,
}
use upstride_api.Store.{
  World, unit, ok, PaymentTransaction, PaymentRef, PaymentStatus, TransactionOwner,
  CoinTransactionType, find_payment, is_payment_of, create_payment, update_payment_status,
  update_first, find_user, increment_balance, User, find_key, user_key, create_coin_transaction,
}
use upstride_api.Wallet.{credit}
use upstride_api.Wallet.Balance.{balance, balance-add_coins}
use upstride_api.Payment.Topup.{
  PaymentEvent, topup_payment, upsert, is_completed_payment, topup, granted, process_wallet_topup,
}

abbrev of_checkout : ℕ → PaymentTransaction → Bool
of_checkout s = is_payment_of (PaymentRef.checkout s) TransactionOwner.user

credit-payments :
    (user coins : ℕ) (k : CoinTransactionType) (r : ℕ) (w : World)
    → (credit user coins k r w).1.payments ≡ w.payments
unfolding credit increment_balance create_coin_transaction
credit-payments user coins k r w = ground arith

find-append :
    (q : PaymentTransaction → Bool) (ps : List PaymentTransaction) (p : PaymentTransaction)
    → find q ps ≡ none
    → q p ≡ true
    → find q (ps ++ p ∷ []) ≡ some p
find-append q [] p h t = ground arith
find-append q (x ∷ ps) p h t = ground (arith, find-append q ps p)

find-none :
    (q : PaymentTransaction → Bool) (ps : List PaymentTransaction)
    → find q ps ≡ none
    → any q ps ≡ false
find-none q [] h = refl
find-none q (x ∷ ps) h = ground (arith, find-none q ps)

is_completed-update_first :
    (s : ℕ) (ps : List PaymentTransaction) (p : PaymentTransaction)
    → find (of_checkout s) ps ≡ some p
    → is_completed_payment
        (find (of_checkout s) (update_first (of_checkout s) PaymentStatus.completed ps))
      ≡ true
is_completed-update_first s [] p h = ground arith
is_completed-update_first s (x ∷ ps) p h = ground (arith, is_completed-update_first s ps p)

-- Once the payment is stored, it is completed.
upsert-completed :
    (e : PaymentEvent) (user coins : ℕ) (w : World)
    → let w' =
        (upsert
          (find_payment (PaymentRef.checkout e.session_id) TransactionOwner.user w)
          (topup_payment e user coins)
          w) in
      (w'.0 ≡ ok tt) × (is_completed_payment (find (of_checkout e.session_id) w'.1.payments) ≡ true)
unfolding upsert create_payment update_payment_status
upsert-completed e user coins w = elim (Option-cases (find (of_checkout e.session_id) w.payments)) [
  | inl n ↦ ground (
    arith,
    find-none (of_checkout e.session_id) w.payments n,
    find-append (of_checkout e.session_id) w.payments (topup_payment e user coins) n,
    ==_iff e.session_id e.session_id,
  )
  | inr (p, n) ↦ ground (arith, is_completed-update_first e.session_id w.payments p n)
]

topup-payments :
    (e : PaymentEvent) (user coins : ℕ) (w : World)
    → is_completed_payment (find (of_checkout e.session_id) (topup e user coins w).1.payments)
      ≡ true
unfolding topup
topup-payments e user coins w =
    elim (Bool-cases (is_completed_payment (find (of_checkout e.session_id) w.payments))) [
      | inl paid ↦ ground arith
      | inr unpaid ↦
          let after =
            upsert (find_payment (PaymentRef.checkout e.session_id) TransactionOwner.user w)
              (topup_payment e user coins) w in
          ground (
            arith,
            upsert-completed e user coins w,
            credit-payments user (coins * unit) CoinTransactionType.purchase e.session_id after.1,
          )
    ]

topup-completed :
    (e : PaymentEvent) (user coins : ℕ) (w : World)
    → is_completed_payment (find (of_checkout e.session_id) w.payments) ≡ true
    → topup e user coins w ≡ (ok tt, w)
unfolding topup
topup-completed e user coins w paid = ground arith

-- A completed top-up that is reported again changes nothing and returns, whatever the first report
-- did, also where it threw after the payment was stored.
pub process_wallet_topup-process_wallet_topup :
    (e : PaymentEvent) (w : World)
    → let w' = (process_wallet_topup e w).1 in process_wallet_topup e w' ≡ (ok tt, w')
unfolding process_wallet_topup
process_wallet_topup-process_wallet_topup e w = elim (Option-cases (granted e)) [
  | inl n ↦ ground arith
  | inr (g, n) ↦
      ground (arith, topup-payments e g.0 g.1 w, topup-completed e g.0 g.1 (topup e g.0 g.1 w).1)
]

upsert-users :
    (old : Option PaymentTransaction) (p : PaymentTransaction) (w : World)
    → (upsert old p w).1.users ≡ w.users
unfolding upsert create_payment update_payment_status
upsert-users old p w = ground arith

balance-credit_found :
    (i user coins : ℕ) (k : CoinTransactionType) (r : ℕ) (w : World) (u : User)
    → find_user user w ≡ some u
    → balance (find_user i (credit user coins k r w).1)
      ≡ balance (find_user i w) +ℤ (if user == i then pos coins else pos 0)
unfolding credit increment_balance create_coin_transaction
balance-credit_found i user coins k r w u e =
    grind (arith, balance-add_coins i user (pos coins) w.users u e)

topup-credit :
    (e : PaymentEvent) (user coins : ℕ) (w : World)
    → is_completed_payment (find_payment (PaymentRef.checkout e.session_id) TransactionOwner.user w)
      ≡ false
    → let after =
        upsert
          (find_payment (PaymentRef.checkout e.session_id) TransactionOwner.user w)
          (topup_payment e user coins)
          w in
      topup e user coins w
      ≡ credit user (coins * unit) CoinTransactionType.purchase e.session_id after.1
unfolding topup
topup-credit e user coins w unpaid =
    let after =
      upsert (find_payment (PaymentRef.checkout e.session_id) TransactionOwner.user w)
        (topup_payment e user coins) w in
    ground (arith, upsert-completed e user coins w)

process_wallet_topup-topup :
    (e : PaymentEvent) (user coins : ℕ) (w : World)
    → granted e ≡ some (user, coins)
    → process_wallet_topup e w ≡ topup e user coins w
unfolding process_wallet_topup
process_wallet_topup-topup e user coins w g = ground arith

-- A top-up of a user who is there, of a checkout that is not stored as completed, adds the coins to
-- the balance of that user and leaves the balances of the others.
pub balance-process_wallet_topup :
    (i : ℕ) (e : PaymentEvent) (w : World) (user coins : ℕ) (u : User)
    → granted e ≡ some (user, coins)
    → find_user user w ≡ some u
    → is_completed_payment (find_payment (PaymentRef.checkout e.session_id) TransactionOwner.user w)
      ≡ false
    → balance (find_user i (process_wallet_topup e w).1)
      ≡ balance (find_user i w) +ℤ (if user == i then pos (coins * unit) else pos 0)
balance-process_wallet_topup i e w user coins u g k unpaid =
    let old = find_payment (PaymentRef.checkout e.session_id) TransactionOwner.user w in
    let w' = (upsert old (topup_payment e user coins) w).1 in
    let same : w'.users ≡ w.users = upsert-users old (topup_payment e user coins) w in
    rw
      (
        process_wallet_topup-topup e user coins w g,
        topup-credit e user coins w unpaid,
        balance-credit_found i user (coins * unit) CoinTransactionType.purchase e.session_id w' u
            (ap (λ us. find_key user_key user us) same ∙ k),
        same,
      )
      refl
