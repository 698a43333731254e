-- ===== src/Booking/Create/Price.antt =====
-- What a booking costs its mentee in coins.
use upstride_api.Base.{
  ℕ, ◌≡◌, subst, false, some, arith, neg, pos, ◌+ℤ◌, ◌==◌, if◌then◌else◌, get_or,
}
use upstride_api.Store.{
  World, Result, PaymentStatus, PaymentType, Mentor, CoinTransactionType, is_err, find_mentor,
  find_user, create_payment, create_booking_doc, increment_platform_balance,
}
use upstride_api.Money.{BookingAmount, calculate_booking_amount}
use upstride_api.Wallet.Balance.{balance, balance-debit}
use upstride_api.Booking.Schedule.{schedule_reminders}
use upstride_api.Booking.Reschedule.{CheckoutRequest}
use upstride_api.Booking.Reschedule.Moved.{schedule_reminders-IsQuiet, schedule_settlement-IsQuiet}
use upstride_api.Booking.Create.{
  CreateBookingInput, Response, new_booking, pay_with_coins, place, create_checked, create_booking,
}

balance-pay_with_coins :
    (j i : ℕ) (input : CreateBookingInput) (a : BookingAmount) (w : World)
    → is_err (pay_with_coins i input a w).0 ≡ false
    → balance (find_user j (pay_with_coins i input a w).1)
      ≡ balance (find_user j w)
        +ℤ (if input.mentee_id == j then neg a.total_amount_coins else pos 0)
unfolding pay_with_coins increment_platform_balance create_payment
balance-pay_with_coins j i input a w h = ground (
  arith,
  balance-debit j input.mentee_id a.total_amount_coins CoinTransactionType.session_spend i w,
)

module _ (create_checkout_session : CheckoutRequest → Result ℕ) where
  balance-place :
      (j i : ℕ) (input : CreateBookingInput) (m : Mentor) (s e : ℕ) (a : BookingAmount) (w : World)
      → is_err (place create_checkout_session i input m s e a PaymentType.coins w).0 ≡ false
      → balance (find_user j (place create_checkout_session i input m s e a PaymentType.coins w).1)
        ≡ balance (find_user j w)
          +ℤ (if input.mentee_id == j then neg a.total_amount_coins else pos 0)
  unfolding place create_booking_doc
  balance-place j i input m s e a w h =
      let w1 = (pay_with_coins i input a w).1 in
      let w2 = (create_booking_doc (new_booking i input s e a PaymentStatus.completed) w1).1 in
      let w3 = (schedule_reminders i m.user_id input.mentee_id s w2).1 in
      ground (
        arith,
        balance-pay_with_coins j i input a w,
        schedule_reminders-IsQuiet i m.user_id input.mentee_id s w2,
        schedule_settlement-IsQuiet i e w3,
      )

  balance-place_type :
      (j i : ℕ) (input : CreateBookingInput) (m : Mentor) (s e : ℕ) (a : BookingAmount)
      (p : PaymentType) (w : World)
      → p ≡ PaymentType.coins
      → is_err (place create_checkout_session i input m s e a p w).0 ≡ false
      → balance (find_user j (place create_checkout_session i input m s e a p w).1)
        ≡ balance (find_user j w)
          +ℤ (if input.mentee_id == j then neg a.total_amount_coins else pos 0)
  balance-place_type j i input m s e a PaymentType.coins w k h = balance-place j i input m s e a w h
  balance-place_type j i input m s e a PaymentType.stripe w k h = ground arith

  create_booking-place :
      (i : ℕ) (input : CreateBookingInput) (m : Mentor) (s e : ℕ) (w : World)
      → find_mentor input.mentor_id w ≡ some m
      → input.start_time ≡ some s
      → input.end_time ≡ some e
      → is_err (create_booking create_checkout_session i input w).0 ≡ false
      → create_booking create_checkout_session i input w
        ≡ place create_checkout_session i input m s e
            (calculate_booking_amount (get_or m.current_price_per_30_min 0) s e)
            input.payment_type
            w
  unfolding create_booking create_checked
  create_booking-place i input m s e w em es ee h = ground arith

  -- A booking with coins that is created takes the price of its time, in coins at the mentor's price, off
  -- the mentee's balance, and changes no other.
  pub balance-create_booking :
      (j i : ℕ) (input : CreateBookingInput) (m : Mentor) (s e : ℕ) (w : World)
      → input.payment_type ≡ PaymentType.coins
      → find_mentor input.mentor_id w ≡ some m
      → input.start_time ≡ some s
      → input.end_time ≡ some e
      → is_err (create_booking create_checkout_session i input w).0 ≡ false
      → let a = calculate_booking_amount (get_or m.current_price_per_30_min 0) s e in
        balance (find_user j (create_booking create_checkout_session i input w).1)
        ≡ balance (find_user j w)
          +ℤ (if input.mentee_id == j then neg a.total_amount_coins else pos 0)
  balance-create_booking j i input m s e w k em es ee h =
      let a = calculate_booking_amount (get_or m.current_price_per_30_min 0) s e in
      let at = create_booking-place i input m s e w em es ee h in
      rw at (
        balance-place_type j i input m s e a input.payment_type w k
          (subst (λ (r : Result Response × World). is_err r.0 ≡ false) at h))
