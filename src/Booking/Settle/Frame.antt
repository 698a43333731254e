-- ===== src/Booking/Settle/Frame.antt =====
-- What the parts of a settlement leave alone: none of them touches the bookings.
use upstride_api.Base.{ℕ, ◌≡◌, refl, Option, none, some, arith}
use upstride_api.Store.{
  World, Booking, increment_balance, create_coin_transaction, create_payment,
  increment_platform_balance, create_notification, update_mentor,
}
use upstride_api.Money.{SessionSettlementAmounts}
use upstride_api.Wallet.{credit}
use upstride_api.Payment.Refund.{refund_platform}
use upstride_api.Booking.Settle.{
  record_no_show, block_mentor, credit_mentor, refund_booked_user, settle_joined, settle_no_show,
}

credit_mentor-bookings :
    (b : Booking) (m c p : ℕ) (w : World) → (credit_mentor b m c p w).1.bookings ≡ w.bookings
unfolding credit_mentor credit increment_balance create_coin_transaction create_notification
    create_payment increment_platform_balance
credit_mentor-bookings b m c p w = ground arith

refund_booked_user-bookings :
    (b : Booking) (a m : ℕ) (w : World) → (refund_booked_user b a m w).1.bookings ≡ w.bookings
unfolding refund_booked_user credit increment_balance create_coin_transaction create_notification
    refund_platform create_payment increment_platform_balance
refund_booked_user-bookings b a m w = ground arith

record_no_show-bookings : (m : ℕ) (w : World) → (record_no_show m w).1.bookings ≡ w.bookings
unfolding record_no_show update_mentor
record_no_show-bookings m w = ground arith

block_mentor-bookings : (m : ℕ) (w : World) → (block_mentor m w).1.bookings ≡ w.bookings
unfolding block_mentor create_notification
block_mentor-bookings m w = refl

pub settle_joined-bookings :
    (b : Booking) (m : Option ℕ) (a : SessionSettlementAmounts) (w : World)
    → (settle_joined b m a w).1.bookings ≡ w.bookings
unfolding settle_joined
settle_joined-bookings b none a w = refl
settle_joined-bookings b (some m) a w = credit_mentor-bookings b m _ _ w

pub settle_no_show-bookings :
    (b : Booking) (m : Option ℕ) (a : SessionSettlementAmounts) (w : World)
    → (settle_no_show b m a w).1.bookings ≡ w.bookings
unfolding settle_no_show
settle_no_show-bookings b none a w = refl
settle_no_show-bookings b (some m) a w =
    grind (arith, record_no_show-bookings, block_mentor-bookings, refund_booked_user-bookings)
