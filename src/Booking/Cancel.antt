-- ===== src/Booking/Cancel.antt =====
-- src/application/modules/booking/use-cases: cancel-booking.use-case.ts,
-- cancel-booking-by-mentor.use-case.ts and refund-session-amount.use-case.ts.
-- Texts for people (titles, descriptions, reasons of a refund) are left out.
pub mod Once
pub mod Refunds
use upstride_api.Base.{
  ℕ, ◌++◌, [], ◌∷◌, Bool, true, false, not, Option, none, some, ltb, ◌==◌, is_some, if◌then◌else◌,
}
use upstride_api.Store.{
  Action, World, Booking, BookingStatus, PaymentType, PaymentStatus, Note, SessionRefunded,
  Notification, NotificationEvent, Error, pure, gets, when, raise_if, or_raise, ◌>>=◌, ◌>>◌,
  find_booking, find_mentor_by_user, mentor_user_id, update_booking, create_notification, publish,
  is_cancelled, is_payment_pending,
}
use upstride_api.Money.{CancelledBy, refund_percentage, refund_amount, refund_amount_minor}
use upstride_api.Payment.Refund.{process_refund}

-- `Booking.assertCancellable`
abbrev pub cancellable : BookingStatus → Bool
cancellable BookingStatus.pending = true
cancellable BookingStatus.confirmed = true
cancellable _ = false

pub record RefundInfo : Type 0 where
  pub amount : ℕ
  pub percentage : ℕ

-- `RefundSessionAmountUseCase.execute`, on the booking as it was read.
unfoldable pub refund_session_amount : Booking → CancelledBy → Action RefundInfo
refund_session_amount b cancelled_by = do
  now ← gets (λ w. w.now)
  let percentage = refund_percentage b.payment_status cancelled_by b.start_time now
  let amount = refund_amount b.payment_type b.payment_status b.total_amount percentage
  when (ltb 0 amount)
      (process_refund b.id b.mentee_id amount (refund_amount_minor amount) b.payment_type)
  publish (record {
    booking_id = b.id;
    user_id = b.mentee_id;
    refund_amount = amount;
    refund_percentage = percentage;
  })
  pure (record { amount = amount; percentage = percentage })

-- `updateById(id, { status, notes })`, with the notes as they were read.
abbrev pub with_cancellation : Booking → BookingStatus → Option ℕ → Booking → Booking
with_cancellation read status reason b = record b {
  status = status;
  notes = read.notes ++ Note.cancellation reason ∷ [];
}

-- `CancelBookingUseCase.execute`
unfoldable pub cancel_booking : (user_id booking_id : ℕ) → Option ℕ → Action RefundInfo
cancel_booking user_id booking_id reason = do
  b ← or_raise Error.booking_not_found (← gets (find_booking booking_id))
  raise_if (not (b.mentee_id == user_id)) Error.unauthorized_booking_action
  raise_if (is_cancelled b.status) Error.already_cancelled
  raise_if (is_payment_pending b.payment_status) Error.validation
  raise_if (not (cancellable b.status)) Error.entity_validation
  mentor ← gets (λ w. mentor_user_id w b)
  update_booking booking_id (with_cancellation b BookingStatus.cancelled_by_mentee reason)
  refund ← refund_session_amount b CancelledBy.user
  elim mentor [
    | none ↦ pure tt
    | some m ↦ create_notification (record {
      user_id = m;
      event = NotificationEvent.session_cancelled;
      related_entity = some b.id;
      amount = refund.amount;
    })
  ]
  pure refund

-- `CancelBookingByMentorUseCase.execute`
unfoldable pub cancel_booking_by_mentor : (user_id booking_id : ℕ) → Option ℕ → Action RefundInfo
cancel_booking_by_mentor user_id booking_id reason = do
  mentor ← or_raise Error.mentor_not_found (← gets (find_mentor_by_user user_id))
  b ← or_raise Error.booking_not_found (← gets (find_booking booking_id))
  raise_if (not (b.mentor_id == mentor.id)) Error.unauthorized_booking_action
  raise_if (is_cancelled b.status) Error.already_cancelled
  raise_if (not (cancellable b.status)) Error.entity_validation
  update_booking booking_id (with_cancellation b BookingStatus.cancelled_by_mentor reason)
  refund ← refund_session_amount b CancelledBy.mentor
  create_notification (record {
    user_id = b.mentee_id;
    event = NotificationEvent.session_cancelled;
    related_entity = some b.id;
    amount = refund.amount;
  })
  pure refund
