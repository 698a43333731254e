-- ===== src/Booking/Reschedule.antt =====
-- src/application/modules/booking/use-cases: reschedule-booking.use-case.ts and, for the guards of
-- another checkout, repay-booking.use-case.ts. The texts of the notification and the mail are left out.
pub mod Offered
pub mod Moved
use upstride_api.Base.{
  ℕ, ◌+◌, ◌*◌, ◌/◌, ◌%◌, Bool, true, false, not, ◌&&◌, ◌||◌, Option, none, some, List, ltb, leb,
  ◌==◌, any, is_some, if◌then◌else◌,
}
use upstride_api.Store.{
  Action, World, Booking, BreakTime, Availability, Notification, NotificationEvent, Job,
  PaymentStatus, Currency, Error, pure, gets, when, or_raise, raise, ◌>>=◌, ◌>>◌, find_booking,
  find_user, mentor_user_id, update_booking, find_overlapping, find_active_by_mentor_and_date,
  create_notification, enqueue, is_confirmed, is_paid, is_cancelled, is_stripe, day_ms,
  ist_offset_ms, unit,
}
use upstride_api.Booking.Conflict.{check_booking_conflict}
use upstride_api.Booking.Schedule.{schedule_reminders, schedule_settlement}
use upstride_api.Money.{round_div}

-- The minutes since midnight on the clock of India: `toMinutes(toIstHHMM(date))`.
abbrev pub ist_minutes : ℕ → ℕ
ist_minutes t = (t + ist_offset_ms) / 60000 % 1440

abbrev pub meets_break : ℕ → ℕ → BreakTime → Bool
meets_break from until b = ltb from b.end_time && ltb b.start_time until

-- The times, in minutes, lie in the availability's and meet none of its breaks.
abbrev pub fits : ℕ → ℕ → Availability → Bool
fits from until a =
    (leb a.start_time from && leb until a.end_time)
    && not (any (meets_break from until) a.break_times)

unfoldable pub is_within_availability : ℕ → ℕ → List Availability → Bool
is_within_availability start end availabilities =
    any (fits (ist_minutes start) (ist_minutes end)) availabilities

-- Another booking in the mentor's time that is paid for or is the mentee's own.
abbrev pub is_blocking : Booking → Booking → Bool
is_blocking booking b =
    not (b.id == booking.id) && (is_paid b.payment_status || b.mentee_id == booking.mentee_id)

-- `assertReschedulable(24)`
abbrev pub too_late : Booking → ℕ → Bool
too_late b now = ltb b.start_time (now + day_ms)

-- The error that the first failing check of `RescheduleBookingUseCase.execute` throws, if any.
unfoldable pub reschedule_error : (mentee_id start end : ℕ) → Booking → World → Option Error
reschedule_error mentee_id start end b w =
    if not (b.mentee_id == mentee_id)
    then some Error.unauthorized_booking_action
    else if not (is_confirmed b.status)
    then some Error.conflict
    else if too_late b w.now
    then some Error.entity_validation
    else if leb start (w.now + day_ms)
    then some Error.conflict
    else if not
        (is_within_availability start end (find_active_by_mentor_and_date b.mentor_id start w))
    then some Error.conflict
    else if any (is_blocking b) (find_overlapping b.mentor_id start end w)
    then some Error.conflict
    else if check_booking_conflict b.mentee_id start end (some b.id) w
    then some Error.conflict
    else none

-- The update writes the booking as it was read, with the new times.
abbrev pub moved : (start end : ℕ) → Booking → Booking → Booking
moved start end read b = record read { start_time = start; end_time = end }

-- The mentor is told, if both users are there.
abbrev pub tell_mentor : Booking → (mentor : ℕ) → World → Action (Unit {0})
tell_mentor b mentor w = when (is_some (find_user mentor w) && is_some (find_user b.mentee_id w)) (
    create_notification (record {
      user_id = mentor;
      event = NotificationEvent.session_rescheduled;
      related_entity = some b.id;
      amount = 0;
    })
    >> enqueue (Job.reschedule_email b.id mentor))

-- What follows the checks.
unfoldable pub reschedule_to : (start end : ℕ) → Booking → Option ℕ → Action (Unit {0})
reschedule_to start end b mentor = do
  update_booking b.id (moved start end b)
  schedule_reminders b.id (elim mentor [ none ↦ 0 | some m ↦ m ]) b.mentee_id start
  schedule_settlement b.id end
  elim mentor [ none ↦ pure tt | some m ↦ λ w. tell_mentor b m w w ]

-- `RescheduleBookingUseCase.execute`
unfoldable pub reschedule_booking : (booking_id mentee_id start end : ℕ) → Action (Unit {0})
reschedule_booking booking_id mentee_id start end w = elim (find_booking booking_id w) [
  | none ↦ raise Error.not_found w
  | some b ↦ elim (reschedule_error mentee_id start end b w) [
    | some e ↦ raise e w
    | none ↦ reschedule_to start end b (mentor_user_id w b) w
  ]
]

-- What is asked of the payment provider: a checkout of an amount in the minor unit.
pub record CheckoutRequest : Type 0 where
  pub user_id : ℕ
  pub amount : ℕ
  pub currency : Currency
  pub booking_id : ℕ

abbrev pub checkout_request : Booking → CheckoutRequest
checkout_request b = record {
  user_id = b.mentee_id;
  amount = round_div (b.total_amount * 100) unit;
  currency = b.currency;
  booking_id = b.id;
}

-- `RepayBookingUseCase.execute` up to the call of the provider: none where the booking is paid.
unfoldable pub repay_booking : (booking_id user_id : ℕ) → Action (Option CheckoutRequest)
repay_booking booking_id user_id w = elim (find_booking booking_id w) [
  | none ↦ raise Error.not_found w
  | some b ↦
      (if not (b.mentee_id == user_id)
          then raise Error.unauthorized
          else if not (is_stripe b.payment_type)
          then raise Error.validation
          else if is_paid b.payment_status
          then pure none
          else if is_cancelled b.status
          then raise Error.validation
          else if check_booking_conflict b.mentee_id b.start_time b.end_time (some b.id) w
          then raise Error.conflict
          else pure (some (checkout_request b)))
        w
]
