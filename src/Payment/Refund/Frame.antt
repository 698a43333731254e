-- ===== src/Payment/Refund/Frame.antt =====
-- What a refund leaves alone.
use upstride_api.Base.{ℕ, ◌≡◌, arith}
use upstride_api.Store.{
  World, PaymentType, increment_balance, create_coin_transaction, create_payment,
  increment_platform_balance,
}
use upstride_api.Wallet.{credit}
use upstride_api.Payment.Refund.{refund_platform, process_refund}

pub process_refund-bookings :
    (b u a m : ℕ) (p : PaymentType) (w : World)
    → (process_refund b u a m p w).1.bookings ≡ w.bookings
unfolding process_refund refund_platform credit increment_balance create_coin_transaction
    create_payment increment_platform_balance
process_refund-bookings b u a m p w = ground arith
