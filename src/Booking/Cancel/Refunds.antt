-- ===== src/Booking/Cancel/Refunds.antt =====
-- What a refund pays to whom.
use upstride_api.Booking.Cancel.Once.{cancel, mentee_may_cancel}
use upstride_api.Base.{
  ℕ, ◌*◌, ◌≡◌, Option, some, false, arith, pos, ◌+ℤ◌, int_laws, ◌==◌, if◌then◌else◌, Bool-cases,
  inl, inr, ltb,
}
use upstride_api.Store.{
  World, Booking, PaymentType, ok, is_err, find_user, find_booking, update_booking,
  create_notification, BookingStatus, unit, CoinTransactionType, publish, create_payment,
  increment_platform_balance,
}
use upstride_api.Money.{CancelledBy, refund_amount, refund_amount_minor, refund_percentage}
use upstride_api.Money.Bounds.{refund_coins-amount_minor}
use upstride_api.Wallet.{credit}
use upstride_api.Wallet.Balance.{balance, balance-credit}
use upstride_api.Payment.Refund.{process_refund, refund_platform}
use upstride_api.Booking.Cancel.{
  RefundInfo, cancel_booking, cancel_booking_by_mentor, with_cancellation, refund_session_amount,
}

pub refund_platform-users :
    (i u m : ℕ) (p : PaymentType) (w : World) → (refund_platform i u m p w).1.users ≡ w.users
unfolding refund_platform create_payment increment_platform_balance
refund_platform-users i u m p w = ground arith

-- A refund that returns pays its amount of coins to its user, and to nobody else.
balance-process_refund :
    (j i u a : ℕ) (p : PaymentType) (w : World)
    → is_err (process_refund i u a (refund_amount_minor a) p w).0 ≡ false
    → balance (find_user j (process_refund i u a (refund_amount_minor a) p w).1)
      ≡ balance (find_user j w) +ℤ (if u == j then pos (a * unit) else pos 0)
unfolding process_refund
balance-process_refund j i u a p w h = elim (Bool-cases (ltb 0 a)) [
  | inl some_amount ↦ ground (
    arith,
    refund_coins-amount_minor p a,
    balance-credit j u (a * unit) CoinTransactionType.refund i w,
    refund_platform-users i u (refund_amount_minor a) p
        (credit u (a * unit) CoinTransactionType.refund i w).1,
  )
  | inr nothing ↦ grind (int_laws)
]

-- A refund that returns reports the amount that the policy grants; the mentee's balance goes up by that
-- many coins, and no other changes.
pub balance-refund_session_amount :
    (j : ℕ) (b : Booking) (c : CancelledBy) (w : World) (r : RefundInfo)
    → (refund_session_amount b c w).0 ≡ ok r
    → (r.amount
        ≡ refund_amount b.payment_type b.payment_status b.total_amount
            (refund_percentage b.payment_status c b.start_time w.now))
      × (balance (find_user j (refund_session_amount b c w).1)
          ≡ balance (find_user j w) +ℤ (if b.mentee_id == j then pos (r.amount * unit) else pos 0))
unfolding refund_session_amount publish
balance-refund_session_amount j b c w r h =
    let a =
      refund_amount b.payment_type b.payment_status b.total_amount
        (refund_percentage b.payment_status c b.start_time w.now) in
    elim (Bool-cases (ltb 0 a)) [
      | inl some_amount ↦
          ground (arith, balance-process_refund j b.id b.mentee_id a b.payment_type w)
      | inr nothing ↦ grind (int_laws)
    ]

-- A cancellation that returns, by the mentee or by the mentor, pays the mentee what it reports, which
-- is what the policy grants for the booking as it stood.
pub balance-cancel :
    (j u i : ℕ) (c : CancelledBy) (reason : Option ℕ) (w : World) (b : Booking) (r : RefundInfo)
    → find_booking i w ≡ some b
    → (cancel c u i reason w).0 ≡ ok r
    → (r.amount
        ≡ refund_amount b.payment_type b.payment_status b.total_amount
            (refund_percentage b.payment_status c b.start_time w.now))
      × (balance (find_user j (cancel c u i reason w).1)
          ≡ balance (find_user j w) +ℤ (if b.mentee_id == j then pos (r.amount * unit) else pos 0))
unfolding cancel_booking cancel_booking_by_mentor update_booking create_notification
balance-cancel j u i CancelledBy.user reason w b r e h = elim (Bool-cases (mentee_may_cancel u b)) [
  | inl may ↦
      let w' =
        (update_booking i (with_cancellation b BookingStatus.cancelled_by_mentee reason) w).1 in
      ground (arith, balance-refund_session_amount j b CancelledBy.user w' r)
  | inr not_may ↦ ground arith
]
balance-cancel j u i CancelledBy.mentor reason w b r e h =
    let w' =
      (update_booking i (with_cancellation b BookingStatus.cancelled_by_mentor reason) w).1 in
    ground (arith, balance-refund_session_amount j b CancelledBy.mentor w' r)
