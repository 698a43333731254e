-- ===== src/Payment/Topup.antt =====
-- src/application/modules/payment/services: process-wallet-topup.service.ts and
-- upsert-payment-transaction.service.ts.
pub mod Once
use upstride_api.Base.{ℕ, ◌*◌, Bool, true, false, Option, none, some, pos, ◌==◌, if◌then◌else◌}
use upstride_api.Store.{
  Action, World, PaymentTransaction, PaymentProvider, PaymentRef, PaymentStatus, PaymentPurpose,
  PaymentType, TransactionOwner, Currency, CoinTransactionType, pure, gets, ◌>>=◌, ◌>>◌,
  find_payment, create_payment, update_payment_status, is_paid, unit,
}
use upstride_api.Wallet.{credit}

-- `coins` is none where the number is not finite or negative. `booking` is the booking's id in the
-- metadata, if there is one and its type is "BOOKING_PAYMENT".
pub record PaymentEvent : Type 0 where
  pub session_id : ℕ
  pub user_id : Option ℕ
  pub coins : Option ℕ
  pub amount_minor : ℕ
  pub currency : Currency
  pub booking : Option ℕ

abbrev pub topup_payment : PaymentEvent → (user coins : ℕ) → PaymentTransaction
topup_payment e user coins = record {
  user_id = user;
  provider = PaymentProvider.stripe;
  provider_payment_id = PaymentRef.checkout e.session_id;
  amount = pos e.amount_minor;
  currency = e.currency;
  status = PaymentStatus.completed;
  coins_granted = coins;
  purpose = PaymentPurpose.coins;
  payment_type = PaymentType.stripe;
  owner = TransactionOwner.user;
}

-- `UpsertPaymentTransactionService.upsert`
unfoldable pub upsert : Option PaymentTransaction → PaymentTransaction → Action (Unit {0})
upsert none p = create_payment p
upsert (some old) p =
    if is_paid old.status
    then pure tt
    else update_payment_status p.provider_payment_id PaymentStatus.completed p.owner

abbrev pub is_completed_payment : Option PaymentTransaction → Bool
is_completed_payment none = false
is_completed_payment (some p) = is_paid p.status

unfoldable pub topup : PaymentEvent → (user coins : ℕ) → Action (Unit {0})
topup e user coins w =
    let existing = find_payment (PaymentRef.checkout e.session_id) TransactionOwner.user w in
    elim (is_completed_payment existing) [
      | true ↦ pure tt w
      | false ↦
          (upsert existing (topup_payment e user coins)
              >> credit user (coins * unit) CoinTransactionType.purchase e.session_id)
            w
    ]

-- The user and the coins of the event, if both are there and the coins are more than none.
abbrev pub granted : PaymentEvent → Option (ℕ × ℕ)
granted e = elim e.user_id [
  | none ↦ none
  | some user ↦ elim e.coins [
    | none ↦ none
    | some coins ↦ if coins == 0 then none else some (user, coins)
  ]
]

-- `ProcessWalletTopupService.process`
unfoldable pub process_wallet_topup : PaymentEvent → Action (Unit {0})
process_wallet_topup e w = elim (granted e) [ none ↦ pure tt w | some g ↦ topup e g.0 g.1 w ]
