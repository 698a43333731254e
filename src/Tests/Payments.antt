-- ===== src/Tests/Payments.antt =====
-- Runs of the payments' services and handlers.
use upstride_api.Base.{ℕ, ◌+◌, ◌*◌, ◌≡◌, refl, none, some, pos, ◌+ℤ◌, arith}
use upstride_api.Store.{Booking, Currency, ok, unit, find_user, find_booking}
use upstride_api.Wallet.Balance.{balance}
use upstride_api.Payment.Confirm.{ConfirmBookingPaymentParams, confirm, paid_update}
use upstride_api.Payment.Confirm.Once.{confirm-confirm}
use upstride_api.Payment.Confirm.DoubleBooking.{find_booking-confirm_other}
use upstride_api.Payment.Topup.{PaymentEvent, process_wallet_topup}
use upstride_api.Payment.Topup.Once.{
  process_wallet_topup-process_wallet_topup, balance-process_wallet_topup,
}
use upstride_api.Tests.{world, mentee, unpaid_booking}

abbrev pay : ℕ → ConfirmBookingPaymentParams
pay i = record {
  booking_id = i;
  session_id = i + 900;
  amount_minor = 60000;
  currency = Currency.inr;
}

confirm-confirm_example : let w' = (confirm (pay 101) world).1 in confirm (pay 101) w' ≡ (ok tt, w')
confirm-confirm_example = confirm-confirm (pay 101) (pay 101) world refl

-- Two bookings of one mentor, at one time.
find_booking-confirm_other_example :
    let w' = (confirm (pay 102) (confirm (pay 101) world).1).1 in
    (find_booking 101 w' ≡ some (paid_update (unpaid_booking 101) (unpaid_booking 101)))
    × ((d : Booking) × (find_booking 102 w' ≡ some (paid_update d d)))
find_booking-confirm_other_example =
    find_booking-confirm_other (pay 101) (pay 102) world (unpaid_booking 101) (unpaid_booking 102)
      (refl, (refl, (refl, tt))) (λ e. omega (arith, e)) refl refl refl refl

abbrev event : PaymentEvent
event = record {
  session_id = 77;
  user_id = some 1;
  coins = some 40;
  amount_minor = 2000;
  currency = Currency.inr;
  booking = none;
}

process_wallet_topup-process_wallet_topup_example :
    let w' = (process_wallet_topup event world).1 in process_wallet_topup event w' ≡ (ok tt, w')
process_wallet_topup-process_wallet_topup_example =
    process_wallet_topup-process_wallet_topup event world

balance-process_wallet_topup_example :
    balance (find_user 1 (process_wallet_topup event world).1)
    ≡ balance (find_user 1 world) +ℤ pos (40 * unit)
balance-process_wallet_topup_example =
    balance-process_wallet_topup 1 event world 1 40 mentee refl refl refl
