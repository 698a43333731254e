-- ===== src/Booking/Cancel/Once.antt =====
-- A booking is cancelled at most once, so a cancellation is refunded at most once.
use upstride_api.Base.{
  ℕ, ◌≡◌, refl, inl, inr, Bool, true, false, not, ◌&&◌, ◌==◌, Bool-cases, Option, some, arith,
  Option-cases,
}
use upstride_api.Store.{
  World, Action, Booking, Result, is_err, find_booking, find_mentor_by_user, is_cancelled,
  update_key, booking_key, update_booking, create_notification, publish, BookingStatus,
  is_payment_pending, find_key-update_self, key-find_key,
}
use upstride_api.Money.{CancelledBy, refund_amount, refund_amount_minor, refund_percentage}
use upstride_api.Payment.Refund.Frame.{process_refund-bookings}
use upstride_api.Booking.Cancel.{
  RefundInfo, refund_session_amount, cancel_booking, cancel_booking_by_mentor, cancellable,
  with_cancellation,
}

pub refund_session_amount-bookings :
    (b : Booking) (c : CancelledBy) (w : World)
    → (refund_session_amount b c w).1.bookings ≡ w.bookings
unfolding refund_session_amount publish
refund_session_amount-bookings b c w =
    let a =
      refund_amount b.payment_type b.payment_status b.total_amount
        (refund_percentage b.payment_status c b.start_time w.now) in
    ground
      (arith, process_refund-bookings b.id b.mentee_id a (refund_amount_minor a) b.payment_type w)

-- The booking's status is a cancelled one.
abbrev pub IsCancelled : ℕ → World → Type 0
IsCancelled i w = (b : Booking) × (find_booking i w ≡ some b) × (is_cancelled b.status ≡ true)

-- All guards of a cancellation pass.
abbrev pub mentee_may_cancel : ℕ → Booking → Bool
mentee_may_cancel u b =
    b.mentee_id == u && (not (is_payment_pending b.payment_status) && cancellable b.status)

-- A refused cancellation changes nothing; any other writes the status, also where the refund fails.
module _ {A : Type 0} (i : ℕ) (w : World) (s : BookingStatus) (reason : Option ℕ) where
  pub data Cancels (r : Result A × World) : Type 0 where
    refused : is_err r.0 ≡ true → r.1 ≡ w → Cancels r
    written :
        (b : Booking)
        → find_booking i w ≡ some b
        → cancellable b.status ≡ true
        → r.1.bookings ≡ update_key booking_key i (with_cancellation b s reason) w.bookings
        → Cancels r

pub cancel_booking-Cancels :
    (u i : ℕ) (reason : Option ℕ) (w : World)
    → Cancels i w BookingStatus.cancelled_by_mentee reason (cancel_booking u i reason w)
unfolding cancel_booking update_booking create_notification
cancel_booking-Cancels u i reason w = elim (Option-cases (find_booking i w)) [
  | inl e ↦ refused (ground arith) (ground arith)
  | inr (b, e) ↦ elim (Bool-cases (mentee_may_cancel u b)) [
    | inl may ↦ written b e (ground arith) (
        ground (
          arith,
          refund_session_amount-bookings b CancelledBy.user
              (update_booking i (with_cancellation b BookingStatus.cancelled_by_mentee reason) w).1,
        ))
    | inr not_may ↦ refused (ground arith) (ground arith)
  ]
]

pub cancel_booking_by_mentor-Cancels :
    (u i : ℕ) (reason : Option ℕ) (w : World)
    → Cancels i w BookingStatus.cancelled_by_mentor reason (cancel_booking_by_mentor u i reason w)
unfolding cancel_booking_by_mentor update_booking create_notification
cancel_booking_by_mentor-Cancels u i reason w = elim (Option-cases (find_mentor_by_user u w)) [
  | inl e ↦ refused (ground arith) (ground arith)
  | inr (m, em) ↦ elim (Option-cases (find_booking i w)) [
    | inl e ↦ refused (ground arith) (ground arith)
    | inr (b, e) ↦ elim (Bool-cases (b.mentor_id == m.id && cancellable b.status)) [
      | inl may ↦ written b e (ground arith) (
          ground (
            arith,
            refund_session_amount-bookings b CancelledBy.mentor
                (update_booking i (with_cancellation b BookingStatus.cancelled_by_mentor reason)
                  w).1,
          ))
      | inr not_may ↦ refused (ground arith) (ground arith)
    ]
  ]
]

-- Whoever cancels it again, a cancelled booking refuses, and nothing changes.
cancelled-refuses :
    (u i : ℕ) (reason : Option ℕ) (w : World)
    → IsCancelled i w
    → (is_err (cancel_booking u i reason w).0 ≡ true)
      × ((cancel_booking u i reason w).1 ≡ w)
      × (is_err (cancel_booking_by_mentor u i reason w).0 ≡ true)
      × ((cancel_booking_by_mentor u i reason w).1 ≡ w)
unfolding cancel_booking cancel_booking_by_mentor
cancelled-refuses u i reason w (b, e, c) = (ground arith, ground arith, ground arith, ground arith)

Cancels-IsCancelled :
    {A : Type 0} (i : ℕ) (w : World) (s : BookingStatus) (reason : Option ℕ) (r : Result A × World)
    → is_cancelled s ≡ true
    → Cancels i w s reason r
    → is_err r.0 ≡ false
    → IsCancelled i r.1
Cancels-IsCancelled i w s reason r c (refused e same) h = cc
Cancels-IsCancelled i w s reason r c (written b e may same) h = (
  with_cancellation b s reason b,
  rw same (
      find_key-update_self booking_key i (with_cancellation b s reason) w.bookings b e
        (key-find_key booking_key i w.bookings b e)),
  c,
)

-- Either cancellation.
abbrev pub cancel : CancelledBy → (user_id booking_id : ℕ) → Option ℕ → Action RefundInfo
cancel CancelledBy.user = cancel_booking
cancel CancelledBy.mentor = cancel_booking_by_mentor

cancel-IsCancelled :
    (c : CancelledBy) (u i : ℕ) (reason : Option ℕ) (w : World)
    → is_err (cancel c u i reason w).0 ≡ false
    → IsCancelled i (cancel c u i reason w).1
cancel-IsCancelled CancelledBy.user u i reason w =
    Cancels-IsCancelled i w _ reason _ refl (cancel_booking-Cancels u i reason w)
cancel-IsCancelled CancelledBy.mentor u i reason w =
    Cancels-IsCancelled i w _ reason _ refl (cancel_booking_by_mentor-Cancels u i reason w)

-- After a cancellation that returned, by the mentee or by the mentor, any further cancellation of the
-- booking, by whichever of the two ways and whichever caller, throws and changes nothing.
pub cancel-cancel :
    (c c' : CancelledBy) (u u' i : ℕ) (reason reason' : Option ℕ) (w : World)
    → is_err (cancel c u i reason w).0 ≡ false
    → let w' = (cancel c u i reason w).1 in
      (is_err (cancel c' u' i reason' w').0 ≡ true) × ((cancel c' u' i reason' w').1 ≡ w')
cancel-cancel c CancelledBy.user u u' i reason reason' w h =
    let r = cancelled-refuses u' i reason' _ (cancel-IsCancelled c u i reason w h) in (r.0, r.1)
cancel-cancel c CancelledBy.mentor u u' i reason reason' w h =
    let r = cancelled-refuses u' i reason' _ (cancel-IsCancelled c u i reason w h) in (r.2, r.3)
