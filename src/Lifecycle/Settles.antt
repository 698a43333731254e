-- ===== src/Lifecycle/Settles.antt =====
-- Cancellations, settlements and reschedulings, as moves of the bookings' lives.
use upstride_api.Base.{
  ℕ, ◌≡◌, refl, sym, ap, subst, ◌⊎◌, Bool, true, inl, inr, Option, some, arith, Option-cases,
  Bool-cases, is_some, ◌&&◌,
}
use upstride_api.Store.{
  World, Booking, BookingStatus, Result, is_err, find_booking, update_key, booking_key, is_paid,
  is_started, mentor_user_id, find_key-update_self, key-find_key, update_booking,
  record_completed_session, update_mentor,
}
use upstride_api.Money.{CancelledBy, calculate}
use upstride_api.Booking.Cancel.{with_cancellation, cancellable}
use upstride_api.Booking.Cancel.Once.{
  cancel, Cancels, refused, written, cancel_booking-Cancels, cancel_booking_by_mentor-Cancels,
}
use upstride_api.Booking.Settle.{
  settle_paid, settle_found, settle_ended_session, settled, mentor_joined,
}
use upstride_api.Booking.Settle.Frame.{settle_joined-bookings, settle_no_show-bookings}
use upstride_api.Booking.Settle.Once.{settle-none, settle-some, after_end, as_completed}
use upstride_api.Booking.Reschedule.{reschedule_booking, reschedule_error, moved}
use upstride_api.Booking.Reschedule.Moved.{reschedule_to_lem}
use upstride_api.Lifecycle.{life, Move, here}
use upstride_api.Lifecycle.Evolves.{
  Evolves, Evolves-same, Evolves-trans, Evolves-update_found, Evolves-update_own,
}
use upstride_api.Lifecycle.Operations.{IsEvolving, Lives-move}

Cancels-Evolves :
    (x : Bool) {A : Type 0} (i : ℕ) (w : World) (s : BookingStatus) (reason : Option ℕ)
    (r : Result A × World)
    → ((b : Booking)
        → cancellable b.status ≡ true
        → Move x (life b) (life (with_cancellation b s reason b)))
    → Cancels i w s reason r
    → Evolves x w.bookings r.1.bookings
Cancels-Evolves x i w s reason r h (refused e same) =
    Evolves-same x w.bookings _ (ap (λ (v : World). v.bookings) same)
Cancels-Evolves x i w s reason r h (written b e may bs) = rw bs (
    Evolves-update_found x i (with_cancellation b s reason) w.bookings b e refl
      (Lives-move x (life b) _ (h b may)))

pub cancel-IsEvolving :
    (x : Bool) (c : CancelledBy) (u i : ℕ) (reason : Option ℕ) → IsEvolving x (cancel c u i reason)
cancel-IsEvolving x CancelledBy.user u i reason w =
    Cancels-Evolves x i w BookingStatus.cancelled_by_mentee reason _
      (λ b may. Move.cancel_as_mentee may refl) (cancel_booking-Cancels u i reason w)
cancel-IsEvolving x CancelledBy.mentor u i reason w =
    Cancels-Evolves x i w BookingStatus.cancelled_by_mentor reason _
      (λ b may. Move.cancel_as_mentor may refl) (cancel_booking_by_mentor-Cancels u i reason w)

after_end-Evolves :
    (x : Bool) (b : Booking) (w : World)
    → find_booking b.id w ≡ some b
    → Evolves x w.bookings (after_end b w).bookings
unfolding after_end update_booking record_completed_session update_mentor
after_end-Evolves x b w e = elim (Bool-cases (mentor_joined b && is_started b.status)) [
  | inl over ↦ rw over (
      Evolves-update_found x b.id as_completed w.bookings b e refl
        (Lives-move x (life b) _ (Move.finish (ground arith) refl)))
  | inr not_over ↦ rw not_over (Evolves-same x w.bookings _ refl)
]

-- A settlement of a paid booking writes its date, or it throws before.
settle_paid_cases :
    (b : Booking) (m : Option ℕ) (now : ℕ) (w : World)
    → ((settle_paid b m now w).1.bookings ≡ (after_end b w).bookings)
      ⊎ ((settle_paid b m now w).1.bookings
          ≡ update_key booking_key b.id (settled now) (after_end b w).bookings)
unfolding settle_paid update_booking record_completed_session update_mentor after_end
settle_paid_cases b m now w =
    let a = calculate b.payment_type b.total_amount in
    elim (Bool-cases (is_err (settle_paid b m now w).0)) [
      | inl thrown ↦ inl (
          ground (
            arith,
            settle_joined-bookings b m a (after_end b w),
            settle_no_show-bookings b m a (after_end b w),
          ))
      | inr returned ↦ inr (
          ground (
            arith,
            settle_joined-bookings b m a (after_end b w),
            settle_no_show-bookings b m a (after_end b w),
          ))
    ]

-- What the end of the session leaves of the booking, if anything is done.
after_end-find :
    (b : Booking) (w : World)
    → find_booking b.id w ≡ some b
    → (c : Booking) × ((find_booking b.id (after_end b w) ≡ some c)
        × ((c.id ≡ b.id) × (c.settled_at ≡ b.settled_at)))
unfolding after_end update_booking record_completed_session update_mentor
after_end-find b w e = elim (Bool-cases (mentor_joined b && is_started b.status)) [
  | inl over ↦ (
    as_completed b,
    (
      rw over (find_key-update_self booking_key b.id as_completed w.bookings b e refl),
      (refl, refl),
    ),
  )
  | inr not_over ↦ (b, (rw not_over e, (refl, refl)))
]

settle_found-Evolves :
    (x : Bool) (b : Booking) (m : Option ℕ) (now : ℕ) (w : World)
    → find_booking b.id w ≡ some b
    → Evolves x w.bookings (settle_found b m now w).1.bookings
unfolding settle_found update_booking
settle_found-Evolves x b m now w e = elim (Bool-cases (is_some b.settled_at)) [
  | inl already ↦ rw already (Evolves-same x w.bookings _ refl)
  | inr fresh ↦ elim (Bool-cases (is_paid b.payment_status)) [
    | inl paid ↦
        rw (fresh, paid)
          (elim (settle_paid_cases b m now w) [
            | inl thrown ↦ rw thrown (after_end-Evolves x b w e)
            | inr returned ↦
                let (c, (ec, (k, s))) = after_end-find b w e in
                rw returned (
                  Evolves-trans x w.bookings (after_end b w).bookings _ (after_end-Evolves x b w e)
                    (Evolves-update_found x b.id (settled now) (after_end b w).bookings c ec refl
                      (Lives-move x (life c) _ (Move.settle (rw s fresh) refl))))
          ])
    | inr unpaid ↦
        rw (fresh, unpaid)
          (Evolves-update_found x b.id (settled now) w.bookings b e refl
            (Lives-move x (life b) _ (Move.settle fresh refl)))
  ]
]

pub settle-IsEvolving : (x : Bool) (i : ℕ) → IsEvolving x (settle_ended_session i)
settle-IsEvolving x i w = elim (Option-cases (find_booking i w)) [
  | inl e ↦ rw (settle-none i w e) (Evolves-same x w.bookings _ refl)
  | inr (b, e) ↦ rw (settle-some i w b e) (
      settle_found-Evolves x b (mentor_user_id w b) w.now w (
        subst (λ j. find_booking j w ≡ some b) (sym (key-find_key booking_key i w.bookings b e)) e))
]

reschedule_cases :
    (i u from until : ℕ) (w : World)
    → ((reschedule_booking i u from until w).1 ≡ w)
      ⊎ ((b : Booking) × ((find_booking i w ≡ some b)
            × ((reschedule_booking i u from until w).1.bookings
                ≡ update_key booking_key b.id (moved from until b) w.bookings)))
unfolding reschedule_booking
reschedule_cases i u from until w = elim (Option-cases (find_booking i w)) [
  | inl e ↦ inl (ground arith)
  | inr (b, e) ↦ elim (Option-cases (reschedule_error u from until b w)) [
    | inr (bad, refusal) ↦ inl (ground arith)
    | inl good ↦ inr (b, (e, ground (arith, reschedule_to_lem from until b (mentor_user_id w b) w)))
  ]
]

pub reschedule-IsEvolving :
    (x : Bool) (i u from until : ℕ) → IsEvolving x (reschedule_booking i u from until)
reschedule-IsEvolving x i u from until w = elim (reschedule_cases i u from until w) [
  | inl same ↦ Evolves-same x w.bookings _ (ap (λ (v : World). v.bookings) same)
  | inr (b, (e, bs)) ↦ rw bs (Evolves-update_own x i (moved from until b) w.bookings b e refl here)
]
