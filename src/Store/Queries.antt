-- ===== src/Store/Queries.antt =====
-- The finders of `BookingRepository`, and the tests on enumerations that they and the use cases make.
use upstride_api.Base.{
  ℕ, ◌+◌, ◌/◌, any, ◌-◌, ◌%◌, Bool, true, false, ◌&&◌, ◌||◌, not, Option, List, ltb, leb, ◌==◌,
  eq_option, filter,
}
use upstride_api.Store.Docs.{
  Availability, Day, day_number, Booking, BookingStatus, PaymentStatus, PaymentType,
}
use upstride_api.Store.State.{World}

-- `=== "COMPLETED"` and the like.
abbrev pub is_paid : PaymentStatus → Bool
is_paid PaymentStatus.completed = true
is_paid _ = false

abbrev pub is_payment_pending : PaymentStatus → Bool
is_payment_pending PaymentStatus.pending = true
is_payment_pending _ = false

abbrev pub is_payment_failed : PaymentStatus → Bool
is_payment_failed PaymentStatus.failed = true
is_payment_failed _ = false

abbrev pub is_stripe : PaymentType → Bool
is_stripe PaymentType.stripe = true
is_stripe _ = false

abbrev pub is_cancelled : BookingStatus → Bool
is_cancelled BookingStatus.cancelled_by_mentee = true
is_cancelled BookingStatus.cancelled_by_mentor = true
is_cancelled _ = false

-- `$in: ["PENDING", "CONFIRMED", "STARTED"]`
abbrev pub is_live : BookingStatus → Bool
is_live BookingStatus.pending = true
is_live BookingStatus.confirmed = true
is_live BookingStatus.started = true
is_live _ = false

abbrev pub is_confirmed : BookingStatus → Bool
is_confirmed BookingStatus.confirmed = true
is_confirmed _ = false

abbrev pub is_pending : BookingStatus → Bool
is_pending BookingStatus.pending = true
is_pending _ = false

abbrev pub is_started : BookingStatus → Bool
is_started BookingStatus.started = true
is_started _ = false

abbrev pub is_completed : BookingStatus → Bool
is_completed BookingStatus.completed = true
is_completed _ = false

-- `startTime < end` and `endTime > start`
abbrev pub overlaps : ℕ → ℕ → Booking → Bool
overlaps from until b = ltb b.start_time until && ltb from b.end_time

-- A booking that holds its time: live, and not failed to be paid.
abbrev pub holds_time : Booking → Bool
holds_time b = is_live b.status && not (is_payment_failed b.payment_status)

unfoldable pub find_overlapping : ℕ → ℕ → ℕ → World → List Booking
find_overlapping mentor_id from until w =
    filter (λ b. b.mentor_id == mentor_id && (holds_time b && overlaps from until b)) w.bookings

unfoldable pub find_overlapping_for_user : ℕ → Option ℕ → ℕ → ℕ → World → List Booking
find_overlapping_for_user user_id mentor_id from until w =
    filter
      (λ b.
        (b.mentee_id == user_id || eq_option mentor_id b.mentor_id)
        && (holds_time b && overlaps from until b))
      w.bookings

abbrev pub day_ms : ℕ
day_ms = 86400000

-- `IST_OFFSET_MINUTES * 60_000`
abbrev pub ist_offset_ms : ℕ
ist_offset_ms = 19800000

-- `getUtcRangeForIstDate`: from the midnight that opens the date's UTC day to a millisecond before
-- the next, both moved back by the offset. `t` is in the range that opens at `day` if it is so when
-- moved forward.
abbrev pub in_ist_day : ℕ → ℕ → Bool
in_ist_day date t =
    let day = date - date % day_ms in
    leb day (t + ist_offset_ms) && leb (t + ist_offset_ms) (day + (day_ms - 1))

-- `findByMentorIdAndDate`
unfoldable pub find_by_mentor_and_date : Bool → ℕ → ℕ → World → List Booking
find_by_mentor_and_date include_failed mentor_id date w =
    filter
      (λ b.
        b.mentor_id == mentor_id
        && ((is_live b.status || is_completed b.status)
            && (in_ist_day date b.start_time
                && (include_failed || not (is_payment_failed b.payment_status)))))
      w.bookings

abbrev pub has_day : ℕ → List Day → Bool
has_day n = any (λ d. day_number d == n)

-- `AvailabilityRepository.findByMentorId(mentorId, { status: true })`
unfoldable pub find_active_by_mentor : ℕ → World → List Availability
find_active_by_mentor mentor_id w =
    filter (λ a. a.mentor_id == mentor_id && a.status) w.availabilities

-- `findActiveByMentorIdAndDate`: the day is that of the date in UTC. The epoch was a Thursday.
unfoldable pub find_active_by_mentor_and_date : ℕ → ℕ → World → List Availability
find_active_by_mentor_and_date mentor_id date w =
    let day = date / day_ms in
    filter
      (λ a.
        (a.mentor_id == mentor_id && a.status)
        && (has_day ((day + 4) % 7) a.days && (leb a.start_date day && leb day a.end_date)))
      w.availabilities
