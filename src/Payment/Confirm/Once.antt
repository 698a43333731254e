-- ===== src/Payment/Confirm/Once.antt =====
-- A payment that is confirmed twice is counted once.
use upstride_api.Base.{
  ℕ, ◌≡◌, refl, sym, subst, ◌∙◌, inl, inr, true, false, Option, none, some, List, [], ◌∷◌, filter,
  arith, Bool-cases, Option-cases,
}
use upstride_api.Store.{
  World, Booking, ok, find_booking, booking_key, find_key-update_self, key-find_key, update_booking,
  is_paid, create_payment, increment_platform_balance, enqueue, mentor_user_id, update_key,
  find_by_mentor_and_date,
}
use upstride_api.Booking.Schedule.{remind, schedule_settlement}
use upstride_api.Payment.Confirm.{
  ConfirmBookingPaymentParams, confirm, confirm_found, confirm_rest, paid_update, is_stale,
}
use upstride_api.Payment.Confirm.Slots.{lost, take_slots_lem, has_id, find_key-lost}

confirm_rest-bookings :
    (p : ConfirmBookingPaymentParams) (b : Booking) (m : Option ℕ) (w : World)
    → (confirm_rest p b m w).1.bookings ≡ w.bookings
unfolding confirm_rest remind schedule_settlement enqueue create_payment increment_platform_balance
confirm_rest-bookings p b none w = ground arith
confirm_rest-bookings p b (some m) w = ground arith

-- The bookings that the stale ones are among, and those.
abbrev pub paid_bookings : Booking → World → World
paid_bookings b w = record w { bookings = update_key booking_key b.id (paid_update b) w.bookings }

abbrev pub stale : Booking → World → List Booking
stale b w =
    filter (is_stale b) (find_by_mentor_and_date true b.mentor_id b.start_time (paid_bookings b w))

pub confirm_found-bookings :
    (p : ConfirmBookingPaymentParams) (b : Booking) (m : Option ℕ) (w : World)
    → (confirm_found p b m w).1.bookings ≡ lost (stale b w) (paid_bookings b w).bookings
unfolding confirm_found update_booking
confirm_found-bookings p b m w = rw take_slots_lem (confirm_rest-bookings p b m _)

-- A booking is not stale beside itself.
has_id-stale : (b : Booking) (bs : List Booking) → has_id b.id (filter (is_stale b) bs) ≡ false
has_id-stale b [] = refl
has_id-stale b (s ∷ ss) = ground (arith, has_id-stale b ss)

pub find_booking-confirm_found :
    (p : ConfirmBookingPaymentParams) (b : Booking) (m : Option ℕ) (w : World)
    → find_booking b.id w ≡ some b
    → find_booking b.id (confirm_found p b m w).1 ≡ some (paid_update b b)
find_booking-confirm_found p b m w e = rw (confirm_found-bookings p b m w) (
    find_key-lost b.id (stale b w) (paid_bookings b w).bookings (has_id-stale b _)
    ∙ find_key-update_self booking_key b.id (paid_update b) w.bookings b e refl)

pub confirm-unpaid :
    (p : ConfirmBookingPaymentParams) (w : World) (b : Booking)
    → find_booking p.booking_id w ≡ some b
    → is_paid b.payment_status ≡ false
    → confirm p w ≡ confirm_found p b (mentor_user_id w b) w
unfolding confirm
confirm-unpaid p w b e unpaid = ground arith

-- Confirming the payment of an unpaid booking marks it as confirmed and paid, on every branch, also
-- where a later step throws. It does so whatever the status of the booking was.
pub find_booking-confirm :
    (p : ConfirmBookingPaymentParams) (w : World) (b : Booking)
    → find_booking p.booking_id w ≡ some b
    → is_paid b.payment_status ≡ false
    → find_booking p.booking_id (confirm p w).1 ≡ some (paid_update b b)
find_booking-confirm p w b e unpaid =
    let k : b.id ≡ p.booking_id = key-find_key booking_key p.booking_id w.bookings b e in
    rw (confirm-unpaid p w b e unpaid) (
      subst
        (λ i. find_booking i (confirm_found p b (mentor_user_id w b) w).1 ≡ some (paid_update b b))
        k
        (find_booking-confirm_found p b (mentor_user_id w b) w
          (subst (λ i. find_booking i w ≡ some b) (sym k) e)))

pub paid-confirm :
    (p : ConfirmBookingPaymentParams) (w : World) (b : Booking)
    → find_booking p.booking_id w ≡ some b
    → is_paid b.payment_status ≡ true
    → confirm p w ≡ (ok tt, w)
unfolding confirm
paid-confirm p w b e paid = ground arith

pub none-confirm :
    (p : ConfirmBookingPaymentParams) (w : World)
    → find_booking p.booking_id w ≡ none
    → confirm p w ≡ (ok tt, w)
unfolding confirm
none-confirm p w e = ground arith

-- The webhook may deliver a completed checkout again: the second confirmation for the same booking
-- returns and changes nothing, whatever the first did, also where the first threw part of the way.
pub confirm-confirm :
    (p q : ConfirmBookingPaymentParams) (w : World)
    → q.booking_id ≡ p.booking_id
    → let w' = (confirm p w).1 in confirm q w' ≡ (ok tt, w')
confirm-confirm p q w same = elim (Option-cases (find_booking p.booking_id w)) [
  | inl e ↦
      rw (none-confirm p w e) (none-confirm q w (subst (λ i. find_booking i w ≡ none) (sym same) e))
  | inr (b, e) ↦ elim (Bool-cases (is_paid b.payment_status)) [
    | inl paid ↦
        rw (paid-confirm p w b e paid)
          (paid-confirm q w b (subst (λ i. find_booking i w ≡ some b) (sym same) e) paid)
    | inr unpaid ↦
        paid-confirm q _ (paid_update b b)
          (subst (λ i. find_booking i (confirm p w).1 ≡ some (paid_update b b)) (sym same)
            (find_booking-confirm p w b e unpaid))
          refl
  ]
]
