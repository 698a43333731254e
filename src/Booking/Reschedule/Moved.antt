-- ===== src/Booking/Reschedule/Moved.antt =====
-- A rescheduling that is refused changes nothing; one that is done moves the booking.
use upstride_api.Base.{
  ℕ, ◌+◌, ◌<◌, ◌≤◌, ◌≡◌, ◌⊎◌, refl, inl, inr, true, Option, none, some, arith, Option-cases, ==_iff,
}
use upstride_api.Store.{
  World, Action, Booking, BookingStatus, Availability, ReminderLabel, pure, ◌>>◌, ok, is_err,
  find_booking, booking_key, update_key, find_key-update_self, key-find_key, update_booking,
  mentor_user_id, create_notification, enqueue, is_confirmed, day_ms,
}
use upstride_api.Booking.Schedule.{
  schedule_reminders, schedule_settlement, remind, hour_ms, five_minutes_ms,
}
use upstride_api.Booking.Reschedule.{
  reschedule_booking, reschedule_error, reschedule_to, moved, is_blocking, tell_mentor,
}
use upstride_api.Booking.Reschedule.Offered.{IsOfferedBy, is_within_availability-IsOfferedBy}
use upstride_api.Booking.Conflict.Clear.{IsClear, any-IsClear}
use mathlib.Core.List.{Memᴰ}

-- The call returns, and leaves the bookings and the users.
abbrev pub IsQuiet : Action (Unit {0}) → Type 0
IsQuiet m =
    (w : World) → ((m w).0 ≡ ok tt) × (((m w).1.bookings ≡ w.bookings) × ((m w).1.users ≡ w.users))

>>-IsQuiet : (m k : Action (Unit {0})) → IsQuiet m → IsQuiet k → IsQuiet (m >> k)
>>-IsQuiet m k p q w = ground (arith, p w, q (m w).1)

remind-IsQuiet :
    (b m n : ℕ) (l : ReminderLabel) (before start : ℕ) → IsQuiet (remind b m n l before start)
unfolding remind enqueue
remind-IsQuiet b m n l before start w = ground arith

pub schedule_reminders-IsQuiet : (b m n start : ℕ) → IsQuiet (schedule_reminders b m n start)
unfolding schedule_reminders
schedule_reminders-IsQuiet b m n start =
    let day = remind b m n ReminderLabel.one_day day_ms start in
    let hour = remind b m n ReminderLabel.one_hour hour_ms start in
    let five = remind b m n ReminderLabel.five_minutes five_minutes_ms start in
    >>-IsQuiet day (hour >> five) (remind-IsQuiet b m n ReminderLabel.one_day day_ms start) (
      >>-IsQuiet hour five (remind-IsQuiet b m n ReminderLabel.one_hour hour_ms start)
        (remind-IsQuiet b m n ReminderLabel.five_minutes five_minutes_ms start))

pub schedule_settlement-IsQuiet : (b end : ℕ) → IsQuiet (schedule_settlement b end)
unfolding schedule_settlement enqueue
schedule_settlement-IsQuiet b end w = ground arith

tell_mentor-IsQuiet : (b : Booking) (m : ℕ) → IsQuiet (λ w. tell_mentor b m w w)
unfolding create_notification enqueue
tell_mentor-IsQuiet b m w = ground arith

abbrev tell : Booking → Option ℕ → Action (Unit {0})
tell b mentor = elim mentor [ none ↦ pure tt | some m ↦ λ w. tell_mentor b m w w ]

tell-IsQuiet : (b : Booking) (mentor : Option ℕ) → IsQuiet (tell b mentor)
tell-IsQuiet b none w = (refl, (refl, refl))
tell-IsQuiet b (some m) w = tell_mentor-IsQuiet b m w

-- What follows the checks returns, and moves the booking.
pub reschedule_to_lem :
    (start end : ℕ) (b : Booking) (m : Option ℕ) (w : World)
    → ((reschedule_to start end b m w).0 ≡ ok tt)
      × ((reschedule_to start end b m w).1.bookings
          ≡ update_key booking_key b.id (moved start end b) w.bookings)
unfolding reschedule_to update_booking
reschedule_to_lem start end b m w =
    let mentor : ℕ = elim m [ none ↦ 0 | some u ↦ u ] in
    let reminders = schedule_reminders b.id mentor b.mentee_id start in
    let settlement = schedule_settlement b.id end in
    let quiet =
      >>-IsQuiet reminders (settlement >> tell b m)
        (schedule_reminders-IsQuiet b.id mentor b.mentee_id start)
        (>>-IsQuiet settlement (tell b m) (schedule_settlement-IsQuiet b.id end) (tell-IsQuiet b m))
        (record w { bookings = update_key booking_key b.id (moved start end b) w.bookings }) in
    (quiet.0, quiet.1.0)

-- What holds of a booking that may be moved: it is the mentee's and confirmed, it starts in a day at
-- the earliest, and so it will; a rule of the mentor offers the new time, and no other booking stands in
-- its way.
abbrev pub MayMove : (mentee_id start end : ℕ) → Booking → World → Type 0
MayMove mentee_id start end b w =
    (b.mentee_id ≡ mentee_id)
    × ((b.status ≡ BookingStatus.confirmed)
        × ((w.now + day_ms ≤ b.start_time)
            × ((w.now + day_ms < start)
                × (((a : Availability) × (Memᴰ a w.availabilities
                        × IsOfferedBy b.mentor_id start end a))
                    × IsClear b.mentor_id b.mentee_id start end (some b.id) w))))

is_confirmed-true : (s : BookingStatus) → is_confirmed s ≡ true → s ≡ BookingStatus.confirmed
is_confirmed-true s h = ground arith

reschedule_error-none :
    (mentee_id start end : ℕ) (b : Booking) (w : World)
    → reschedule_error mentee_id start end b w ≡ none
    → MayMove mentee_id start end b w
unfolding reschedule_error
reschedule_error-none mentee_id start end b w h =
    let offered = is_within_availability-IsOfferedBy b.mentor_id start end w (ground arith) in
    let clear =
      any-IsClear b.mentor_id b.mentee_id start end (some b.id) (is_blocking b) w
        (λ c. ground (arith, ==_iff c.id b.id)) (ground arith) (ground arith) in
    (
      ground (arith, ==_iff b.mentee_id mentee_id),
      (is_confirmed-true b.status (ground arith), (ground arith, (ground arith, (offered, clear)))),
    )

-- A rescheduling throws and changes nothing, or the booking may be moved, the call returns and the
-- booking has the new times and is else as it was.
pub reschedule_booking_lem :
    (booking_id mentee_id start end : ℕ) (w : World)
    → let r = reschedule_booking booking_id mentee_id start end w in
      ((is_err r.0 ≡ true) × (r.1 ≡ w))
      ⊎ ((b : Booking) × ((find_booking booking_id w ≡ some b)
            × (MayMove mentee_id start end b w
                × ((r.0 ≡ ok tt)
                    × (find_booking booking_id r.1
                        ≡ some (record b { start_time = start; end_time = end }))))))
unfolding reschedule_booking
reschedule_booking_lem booking_id mentee_id start end w =
    elim (Option-cases (find_booking booking_id w)) [
      | inl n ↦ inl (ground arith)
      | inr (b, n) ↦ elim (Option-cases (reschedule_error mentee_id start end b w)) [
        | inr (e, bad) ↦ inl (ground arith)
        | inl good ↦ inr (
          b,
          (
            n,
            (
              reschedule_error-none mentee_id start end b w good,
              ground (
                arith,
                reschedule_to_lem start end b (mentor_user_id w b) w,
                key-find_key booking_key booking_id w.bookings b n,
                find_key-update_self booking_key booking_id (moved start end b) w.bookings b n,
              ),
            ),
          ),
        )
      ]
    ]
