-- ===== src/Payment/Refund.antt =====
-- src/application/modules/payment/services/refund.service.ts
pub mod Frame
use upstride_api.Base.{
  ℕ, ◌*◌, Bool, true, false, not, Option, ℤ, pos, neg, ltb, is_some, if◌then◌else◌,
}
use upstride_api.Store.{
  Action, PaymentType, PaymentStatus, PaymentProvider, PaymentRef, TransactionOwner, PaymentPurpose,
  Currency, CoinTransactionType, unit, pure, gets, when, ◌>>=◌, ◌>>◌, find_payment, create_payment,
  increment_platform_balance,
}
use upstride_api.Money.{refund_coins}
use upstride_api.Wallet.{credit}

-- The provider under which a booking's internal records are kept.
abbrev pub provider_of : PaymentType → PaymentProvider
provider_of PaymentType.stripe = PaymentProvider.stripe
provider_of PaymentType.coins = PaymentProvider.internal

-- The platform's side of a refund: one payment record to a booking, and the wallet. `RefundService`
-- and `SessionRefundService` have the same lines.
unfoldable pub refund_platform :
    (booking_id user_id amount_minor : ℕ) → PaymentType → Action (Unit {0})
refund_platform booking_id user_id amount_minor payment_type = when (ltb 0 amount_minor) do
  existing ← gets (find_payment (PaymentRef.refund booking_id) TransactionOwner.platform)
  when (not (is_some existing)) (
      create_payment (record {
        user_id = user_id;
        provider = provider_of payment_type;
        provider_payment_id = PaymentRef.refund booking_id;
        amount = neg amount_minor;
        currency = Currency.inr;
        status = PaymentStatus.refunded;
        coins_granted = 0;
        purpose = PaymentPurpose.session;
        payment_type = payment_type;
        owner = TransactionOwner.platform;
      }))
  increment_platform_balance (neg amount_minor)

unfoldable pub process_refund :
    (booking_id user_id amount amount_minor : ℕ) → PaymentType → Action (Unit {0})
process_refund booking_id user_id amount amount_minor payment_type = when (ltb 0 amount) do
  credit user_id (refund_coins payment_type amount amount_minor * unit) CoinTransactionType.refund
      booking_id
  refund_platform booking_id user_id amount_minor payment_type
