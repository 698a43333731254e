-- ===== src/Booking/Settle/Once.antt =====
-- A settlement that returned marks the booking, and a booking that is marked is not settled again.
use upstride_api.Base.{
  ℕ, ◌≡◌, refl, sym, subst, inl, inr, true, false, Option, none, some, arith, Bool-cases, is_some,
  if◌then◌else◌, ◌&&◌, List,
}
use upstride_api.Store.{
  World, Booking, ok, is_err, find_booking, find_key, update_key, booking_key, update_booking,
  find_key-update_self, key-find_key, is_paid, is_started, mentor_user_id, BookingStatus,
  record_completed_session, update_mentor,
}
use upstride_api.Booking.Settle.{
  settle_paid, settle_found, settle_ended_session, settled, mentor_joined,
}
use upstride_api.Money.{calculate}
use upstride_api.Booking.Settle.Frame.{settle_joined-bookings, settle_no_show-bookings}

-- The booking is there and carries the date of its settlement.
abbrev pub IsSettled : ℕ → World → Type 0
IsSettled i w = (b : Booking) × (find_booking i w ≡ some b) × (is_some b.settled_at ≡ true)

pub settled-refuses : (i : ℕ) (w : World) → IsSettled i w → settle_ended_session i w ≡ (ok tt, w)
unfolding settle_ended_session settle_found
settled-refuses i w (b, e, s) = ground arith

-- Writing the date into a booking that is there.
marked :
    (i now : ℕ) (x : Booking) (bs : List Booking)
    → find_key booking_key i bs ≡ some x
    → find_key booking_key i (update_key booking_key i (settled now) bs) ≡ some (settled now x)
marked i now x bs e =
    find_key-update_self booking_key i (settled now) bs x e (key-find_key booking_key i bs x e)

abbrev pub as_completed : Booking → Booking
as_completed d = record d { status = BookingStatus.completed }

-- The first step of the settlement of a paid booking: a session that the mentor started is over.
unfoldable pub after_end : Booking → World → World
after_end b w =
    if mentor_joined b && is_started b.status
    then (record_completed_session b.mentor_id b.end_time (update_booking b.id as_completed w).1).1
    else w

settle_paid-bookings :
    (b : Booking) (m : Option ℕ) (now : ℕ) (w : World)
    → is_err (settle_paid b m now w).0 ≡ false
    → (settle_paid b m now w).1.bookings
      ≡ update_key booking_key b.id (settled now) (after_end b w).bookings
unfolding settle_paid update_booking record_completed_session update_mentor after_end
settle_paid-bookings b m now w h =
    let a = calculate b.payment_type b.total_amount in
    ground (
      arith,
      settle_joined-bookings b m a (after_end b w),
      settle_no_show-bookings b m a (after_end b w),
    )

after_end-find :
    (b : Booking) (w : World)
    → find_booking b.id w ≡ some b
    → (x : Booking) × (find_booking b.id (after_end b w) ≡ some x)
unfolding after_end record_completed_session update_booking update_mentor
after_end-find b w e = elim (Bool-cases (mentor_joined b && is_started b.status)) [
  | inl over ↦ (
    as_completed b,
    rw over (find_key-update_self booking_key b.id as_completed w.bookings b e refl),
  )
  | inr not_over ↦ (b, rw not_over e)
]

settle_found-IsSettled :
    (b : Booking) (m : Option ℕ) (now : ℕ) (w : World)
    → find_booking b.id w ≡ some b
    → is_err (settle_found b m now w).0 ≡ false
    → IsSettled b.id (settle_found b m now w).1
unfolding settle_found update_booking
settle_found-IsSettled b m now w e h = elim (Bool-cases (is_some b.settled_at)) [
  | inl already ↦ (b, rw already e, already)
  | inr fresh ↦ elim (Bool-cases (is_paid b.payment_status)) [
    | inl paid ↦
        let (x, ex) = after_end-find b w e in
        (
          settled now x,
          rw (fresh, paid)
              (rw (settle_paid-bookings b m now w (rw (fresh, paid) at h))
                (marked b.id now x _ ex)),
          refl,
        )
    | inr unpaid ↦ (settled now b, rw (fresh, unpaid) (marked b.id now b w.bookings e), refl)
  ]
]

pub settle-none :
    (i : ℕ) (w : World) → find_booking i w ≡ none → settle_ended_session i w ≡ (ok tt, w)
unfolding settle_ended_session
settle-none i w e = ground arith

pub settle-some :
    (i : ℕ) (w : World) (b : Booking)
    → find_booking i w ≡ some b
    → settle_ended_session i w ≡ settle_found b (mentor_user_id w b) w.now w
unfolding settle_ended_session
settle-some i w b e = ground arith

pub settle-IsSettled :
    (i : ℕ) (w : World) (b : Booking)
    → find_booking i w ≡ some b
    → is_err (settle_ended_session i w).0 ≡ false
    → IsSettled i (settle_ended_session i w).1
settle-IsSettled i w b e h =
    let k : b.id ≡ i = key-find_key booking_key i w.bookings b e in
    rw (settle-some i w b e) (
      subst (λ j. IsSettled j (settle_found b (mentor_user_id w b) w.now w).1) k
        (settle_found-IsSettled b _ _ w
          (subst (λ j. find_key booking_key j w.bookings ≡ some b) (sym k) e)
          (rw (settle-some i w b e) at h)))
