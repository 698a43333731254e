-- ===== src/Payment/Confirm/DoubleBooking.antt =====
-- Confirming a payment does not look at the mentor's other bookings.
use upstride_api.Base.{
  ℕ, ◌≡◌, refl, ◌≢◌, sym, subst, ◌∙◌, ap, inl, inr, true, false, Option, none, some, List, [], ◌∷◌,
  arith, ◌==◌, filter-filter, Bool-cases, ==_iff,
}
use upstride_api.Store.{
  World, Booking, find_booking, find_key, update_key, booking_key, find_key-update_ne,
  find_key-update_self, key-find_key, find_by_mentor_and_date, is_paid, mentor_user_id,
}
use upstride_api.Payment.Confirm.{
  ConfirmBookingPaymentParams, confirm, confirm_found, paid_update, lose_slot,
}
use upstride_api.Payment.Confirm.Slots.{lost, has_id, find_key-lost, IsUnique, has_id-filter}
use upstride_api.Payment.Confirm.Once.{
  paid_bookings, stale, confirm_found-bookings, confirm-unpaid, find_booking-confirm,
}

find_key-update_none :
    (i j : ℕ) (f : Booking → Booking) (bs : List Booking)
    → ((b : Booking) → (f b).id ≡ b.id)
    → find_key booking_key i bs ≡ none
    → find_key booking_key i (update_key booking_key j f bs) ≡ none
unfolding update_key
find_key-update_none i j f [] k e = refl
find_key-update_none i j f (b ∷ bs) k e = ground (arith, k b, find_key-update_none i j f bs k)

IsUnique-update_key :
    (j : ℕ) (f : Booking → Booking) (bs : List Booking)
    → ((b : Booking) → (f b).id ≡ b.id)
    → IsUnique bs
    → IsUnique (update_key booking_key j f bs)
unfolding update_key
IsUnique-update_key j f [] k u = tt
IsUnique-update_key j f (b ∷ bs) k u =
    ground (arith, k b, IsUnique-update_key j f bs k u.1, find_key-update_none b.id j f bs k)

-- Losing the slot leaves the payment of a booking as it is.
find_key-lost_payment :
    (i : ℕ) (ss bs : List Booking) (b : Booking)
    → find_key booking_key i bs ≡ some b
    → (c : Booking) × (find_key booking_key i (lost ss bs) ≡ some c)
      × (c.payment_status ≡ b.payment_status)
unfolding lost
find_key-lost_payment i [] bs b e = (b, e, refl)
find_key-lost_payment i (s ∷ ss) bs b e = elim (Bool-cases (s.id == i)) [
  | inl same ↦ find_key-lost_payment i ss (update_key booking_key s.id lose_slot bs) (lose_slot b) (
      ground (
        arith,
        ==_iff s.id i,
        key-find_key booking_key i bs b e,
        find_key-update_self booking_key s.id lose_slot bs b,
      ))
  | inr other ↦ find_key-lost_payment i ss (update_key booking_key s.id lose_slot bs) b (
      ground (arith, ==_iff s.id i, find_key-update_ne booking_key s.id i lose_slot bs (λ b. refl)))
]

pub IsUnique-lost : (ss bs : List Booking) → IsUnique bs → IsUnique (lost ss bs)
unfolding lost
IsUnique-lost [] bs u = u
IsUnique-lost (s ∷ ss) bs u =
    IsUnique-lost ss (update_key booking_key s.id lose_slot bs)
      (IsUnique-update_key s.id lose_slot bs (λ b. refl) u)

IsUnique-confirm_found :
    (p : ConfirmBookingPaymentParams) (b : Booking) (m : Option ℕ) (w : World)
    → IsUnique w.bookings
    → IsUnique (confirm_found p b m w).1.bookings
IsUnique-confirm_found p b m w u = rw (confirm_found-bookings p b m w) (
    IsUnique-lost (stale b w) (paid_bookings b w).bookings
      (IsUnique-update_key b.id (paid_update b) w.bookings (λ c. refl) u))

-- Another booking stays as paid or unpaid as it was.
find_booking-confirm_found_other :
    (p : ConfirmBookingPaymentParams) (b c : Booking) (m : Option ℕ) (w : World) (j : ℕ)
    → b.id ≢ j
    → find_booking j w ≡ some c
    → (d : Booking) × (find_booking j (confirm_found p b m w).1 ≡ some d)
      × (d.payment_status ≡ c.payment_status)
find_booking-confirm_found_other p b c m w j n e = rw (confirm_found-bookings p b m w) (
    find_key-lost_payment j (stale b w) (paid_bookings b w).bookings c
      (find_key-update_ne booking_key b.id j (paid_update b) w.bookings (λ x. refl) n ∙ e))

-- A paid booking is not stale.
has_id-stale_paid :
    (b c : Booking) (w : World) (i : ℕ)
    → IsUnique w.bookings
    → c.id ≢ i
    → find_booking i w ≡ some b
    → is_paid b.payment_status ≡ true
    → has_id i (stale c w) ≡ false
unfolding find_by_mentor_and_date
has_id-stale_paid b c w i u n e paid = rw filter-filter (
    has_id-filter i _ (paid_bookings c w).bookings b
      (IsUnique-update_key c.id (paid_update c) w.bookings (λ x. refl) u)
      (find_key-update_ne booking_key c.id i (paid_update c) w.bookings (λ x. refl) n ∙ e)
      (ground arith))

find_booking-confirm_found_paid :
    (q : ConfirmBookingPaymentParams) (b c : Booking) (m : Option ℕ) (w : World) (i : ℕ)
    → IsUnique w.bookings
    → c.id ≢ i
    → find_booking i w ≡ some b
    → is_paid b.payment_status ≡ true
    → find_booking i (confirm_found q c m w).1 ≡ some b
find_booking-confirm_found_paid q b c m w i u n e paid = rw (confirm_found-bookings q c m w) (
    find_key-lost i (stale c w) (paid_bookings c w).bookings (has_id-stale_paid b c w i u n e paid)
    ∙ find_key-update_ne booking_key c.id i (paid_update c) w.bookings (λ x. refl) n
    ∙ e)

-- Of two unpaid bookings both are confirmed when both are paid for, in whichever time they are: the
-- second confirmation does not look at the first booking, which keeps its place.
pub find_booking-confirm_other :
    (p q : ConfirmBookingPaymentParams) (w : World) (b c : Booking)
    → IsUnique w.bookings
    → p.booking_id ≢ q.booking_id
    → find_booking p.booking_id w ≡ some b
    → is_paid b.payment_status ≡ false
    → find_booking q.booking_id w ≡ some c
    → is_paid c.payment_status ≡ false
    → let w' = (confirm q (confirm p w).1).1 in
      (find_booking p.booking_id w' ≡ some (paid_update b b))
      × ((d : Booking) × (find_booking q.booking_id w' ≡ some (paid_update d d)))
find_booking-confirm_other p q w b c u n eb ub ec uc =
    let kb : b.id ≡ p.booking_id = key-find_key booking_key p.booking_id w.bookings b eb in
    let (d, ed, same) =
      find_booking-confirm_found_other p b c (mentor_user_id w b) w q.booking_id
        (subst (λ i. i ≢ q.booking_id) (sym kb) n) ec in
    let w1 : World = (confirm p w).1 in
    let at : (confirm p w).1 ≡ (confirm_found p b (mentor_user_id w b) w).1 =
      ap (λ x. x.1) (confirm-unpaid p w b eb ub) in
    let ed' : find_booking q.booking_id w1 ≡ some d =
      subst (λ x. find_booking q.booking_id x ≡ some d) (sym at) ed in
    let ud : is_paid d.payment_status ≡ false = subst (λ x. is_paid x ≡ false) (sym same) uc in
    let u1 : IsUnique w1.bookings =
      subst (λ (x : World). IsUnique x.bookings) (sym at) (IsUnique-confirm_found p b _ w u) in
    let kd : d.id ≡ q.booking_id = key-find_key booking_key q.booking_id w1.bookings d ed' in
    (
      rw (confirm-unpaid q w1 d ed' ud) (
          find_booking-confirm_found_paid q (paid_update b b) d (mentor_user_id w1 d) w1
            p.booking_id u1 (λ k. n (sym k ∙ kd)) (find_booking-confirm p w b eb ub) refl),
      (d, find_booking-confirm q w1 d ed' ud),
    )
