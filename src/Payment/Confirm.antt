-- ===== src/Payment/Confirm.antt =====
-- src/application/modules/payment/services/confirm-booking-payment.service.ts. The check for a
-- conflict of the mentee is left out: its result is only logged.
pub mod Slots
pub mod Once
pub mod DoubleBooking
use upstride_api.Base.{
  ℕ, Bool, true, false, not, ◌&&◌, Option, none, some, List, [], ◌∷◌, pos, ltb, ◌==◌, filter,
  if◌then◌else◌,
}
use upstride_api.Store.{
  Action, World, Result, Booking, BookingStatus, PaymentStatus, PaymentType, PaymentProvider,
  PaymentRef, PaymentPurpose, PaymentTransaction, TransactionOwner, MeetingLink, Currency,
  ReminderLabel, pure, gets, when, both, ◌>>=◌, ◌>>◌, find_booking, mentor_user_id, update_booking,
  find_by_mentor_and_date, overlaps, is_paid, create_payment, increment_platform_balance,
}
use upstride_api.Booking.Schedule.{remind, hour_ms, five_minutes_ms, schedule_settlement}

pub record ConfirmBookingPaymentParams : Type 0 where
  pub booking_id : ℕ
  pub session_id : ℕ
  pub amount_minor : ℕ
  pub currency : Currency

-- A link that is there and is not the text "Pending" is kept.
abbrev pub confirmed_link : ℕ → MeetingLink → MeetingLink
confirmed_link i MeetingLink.empty = MeetingLink.session_link i
confirmed_link i MeetingLink.pending_title = MeetingLink.session_link i
confirmed_link i MeetingLink.pending_upper = MeetingLink.pending_upper
confirmed_link i (MeetingLink.call_link j) = MeetingLink.call_link j
confirmed_link i (MeetingLink.session_link j) = MeetingLink.session_link j

-- The update of the booking, with the link from the booking as it was read.
abbrev pub paid_update : Booking → Booking → Booking
paid_update read b = record b {
  status = BookingStatus.confirmed;
  payment_status = PaymentStatus.completed;
  meeting_link = confirmed_link read.id read.meeting_link;
}

-- The other unpaid bookings in the time of the booking.
abbrev pub is_stale : Booking → Booking → Bool
is_stale b s =
    not (s.id == b.id) && (overlaps b.start_time b.end_time s && not (is_paid s.payment_status))

abbrev pub lose_slot : Booking → Booking
lose_slot s = record s { status = BookingStatus.slot_taken_by_another_user }

-- One update for each.
unfoldable pub take_slots : List Booking → Action (Unit {0})
take_slots [] = pure tt
take_slots (s ∷ ss) = update_booking s.id lose_slot >> take_slots ss

abbrev pub stripe_payment : ConfirmBookingPaymentParams → ℕ → TransactionOwner → PaymentTransaction
stripe_payment p payer owner = record {
  user_id = payer;
  provider = PaymentProvider.stripe;
  provider_payment_id = PaymentRef.checkout p.session_id;
  amount = pos p.amount_minor;
  currency = p.currency;
  status = PaymentStatus.completed;
  coins_granted = 0;
  purpose = PaymentPurpose.session;
  payment_type = PaymentType.stripe;
  owner = owner;
}

abbrev pub remind_both : Booking → Option ℕ → Action (Unit {0})
remind_both b none = pure tt
remind_both b (some m) =
    remind b.id m b.mentee_id ReminderLabel.one_hour hour_ms b.start_time
    >> remind b.id m b.mentee_id ReminderLabel.five_minutes five_minutes_ms b.start_time

-- What follows once the booking is marked as paid.
unfoldable pub confirm_rest : ConfirmBookingPaymentParams → Booking → Option ℕ → Action (Unit {0})
confirm_rest p b mentor = do
  remind_both b mentor
  schedule_settlement b.id b.end_time
  both (create_payment (stripe_payment p b.mentee_id TransactionOwner.user))
      (create_payment (stripe_payment p b.mentee_id TransactionOwner.platform))
  when (ltb 0 p.amount_minor) (increment_platform_balance (pos p.amount_minor))

unfoldable pub confirm_found : ConfirmBookingPaymentParams → Booking → Option ℕ → Action (Unit {0})
confirm_found p b mentor = do
  update_booking b.id (paid_update b)
  for_day ← gets (find_by_mentor_and_date true b.mentor_id b.start_time)
  take_slots (filter (is_stale b) for_day)
  confirm_rest p b mentor

-- `ConfirmBookingPaymentService.confirm`
unfoldable pub confirm : ConfirmBookingPaymentParams → Action (Unit {0})
confirm p w = elim (find_booking p.booking_id w) [
  | none ↦ pure tt w
  | some b ↦
      if is_paid b.payment_status
      then (Result.ok tt, w)
      else confirm_found p b (mentor_user_id w b) w
]
