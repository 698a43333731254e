-- ===== src/Payment/Webhook/Expired.antt =====
-- What the end of a checkout without a payment does to the booking that it was for.
use upstride_api.Base.{ℕ, ◌≡◌, false, some, arith}
use upstride_api.Store.{
  World, Booking, find_booking, booking_key, find_key-update_self, key-find_key, update_booking,
  update_payment_status, holds_time,
}
use upstride_api.Payment.Topup.{PaymentEvent}
use upstride_api.Payment.Webhook.{
  handle_failure, handle_expired, with_failed_payment, process_payment_event, deliver,
  PaymentEventType,
}

pub handle_failure-bookings : (s : ℕ) (w : World) → (handle_failure s w).1.bookings ≡ w.bookings
unfolding handle_failure update_payment_status
handle_failure-bookings s w = ground arith

-- An expired checkout marks the payment of its booking as failed, also where the booking has been
-- paid for through another checkout, and the booking no longer holds its time.
pub find_booking-process_expired :
    (e : PaymentEvent) (i : ℕ) (w : World) (b : Booking)
    → e.booking ≡ some i
    → find_booking i w ≡ some b
    → let b' = with_failed_payment b in
      (find_booking i (process_payment_event PaymentEventType.expired e w).1 ≡ some b')
      × (holds_time b' ≡ false)
unfolding process_payment_event deliver handle_expired update_booking handle_failure
    update_payment_status
find_booking-process_expired e i w b at f = (
  ground (
    arith,
    find_key-update_self booking_key i with_failed_payment w.bookings b f,
    key-find_key booking_key i w.bookings b f,
  ),
  ground arith,
)
