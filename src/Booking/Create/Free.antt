-- ===== src/Booking/Create/Free.antt =====
-- A booking is created only in a time that is free.
use upstride_api.Base.{
  ℕ, ◌<◌, ◌≡◌, ◌⊎◌, inl, inr, true, Option, none, some, [], ◌∷◌, ◌++◌, arith, any, Bool-cases,
  Option-cases, get_or, ◌==◌, ==_iff, ◌≢◌, refl,
}
use upstride_api.Store.{
  World, Result, Booking, BookingStatus, Currency, MeetingLink, PaymentStatus, PaymentType, Mentor,
  is_err, find_mentor, find_overlapping, create_payment, create_booking_doc, increment_balance,
  increment_platform_balance, create_coin_transaction,
}
use upstride_api.Money.{BookingAmount, calculate_booking_amount}
use upstride_api.Wallet.{debit}
use upstride_api.Booking.Conflict.{check_booking_conflict}
use upstride_api.Booking.Conflict.Clear.{IsClear, any-IsClear}
use upstride_api.Booking.Schedule.{schedule_reminders}
use upstride_api.Booking.Reschedule.{CheckoutRequest}
use upstride_api.Booking.Reschedule.Moved.{schedule_reminders-IsQuiet, schedule_settlement-IsQuiet}
use upstride_api.Booking.Create.{
  CreateBookingInput, valid_times, new_booking, takes_slot, pay_with_coins, place, create_checked,
  create_booking,
}

pay_with_coins-bookings :
    (i : ℕ) (input : CreateBookingInput) (a : BookingAmount) (w : World)
    → (pay_with_coins i input a w).1.bookings ≡ w.bookings
unfolding pay_with_coins debit increment_balance create_coin_transaction increment_platform_balance
    create_payment
pay_with_coins-bookings i input a w = ground arith

-- The status that a new booking's payment has.
abbrev pub initial_status : PaymentType → PaymentStatus
initial_status PaymentType.coins = PaymentStatus.completed
initial_status PaymentType.stripe = PaymentStatus.pending

-- What holds where a booking is created: the mentee is not the mentor, the mentor is there, the times
-- are dates, in order and to come, and no booking stands in their way.
abbrev pub MayBook : CreateBookingInput → Mentor → (start end : ℕ) → World → Type 0
MayBook input m start end w =
    (input.mentee_id ≢ input.mentor_id)
    × ((find_mentor input.mentor_id w ≡ some m)
        × ((input.start_time ≡ some start)
            × ((input.end_time ≡ some end)
                × ((start < end)
                    × ((w.now < start)
                        × IsClear input.mentor_id input.mentee_id start end none w)))))

-- The price of the time in rupees or coins, as the payment is.
abbrev pub price : PaymentType → (per_30_min start end : ℕ) → ℕ
price PaymentType.stripe p start end = (calculate_booking_amount p start end).total_amount_currency
price PaymentType.coins p start end = (calculate_booking_amount p start end).total_amount_coins

-- What depends on how a booking is paid.
abbrev pub IsPaidBy : PaymentType → Booking → Type 0
IsPaidBy PaymentType.coins b =
    (b.status ≡ BookingStatus.confirmed)
    × ((b.payment_status ≡ PaymentStatus.completed)
        × ((b.currency ≡ Currency.coins) × (b.meeting_link ≡ MeetingLink.call_link b.id)))
IsPaidBy PaymentType.stripe b =
    (b.status ≡ BookingStatus.pending)
    × ((b.payment_status ≡ PaymentStatus.pending)
        × ((b.currency ≡ Currency.inr) × (b.meeting_link ≡ MeetingLink.pending_upper)))

-- The booking is the one that was asked for, at the mentor's price, and nothing has happened to it.
pub record IsAskedFor (i : ℕ) (input : CreateBookingInput) (m : Mentor) (start end : ℕ)
    (b : Booking) : Type 0 where
  pub id : b.id ≡ i
  pub mentor : b.mentor_id ≡ input.mentor_id
  pub mentee : b.mentee_id ≡ input.mentee_id
  pub starts : b.start_time ≡ start
  pub ends : b.end_time ≡ end
  pub payment_type : b.payment_type ≡ input.payment_type
  pub paid : IsPaidBy input.payment_type b
  pub total :
      b.total_amount ≡ price input.payment_type (get_or m.current_price_per_30_min 0) start end
  pub notes : b.notes ≡ input.notes
  pub untouched : (b.mentor_joined_at ≡ none) × ((b.settled_at ≡ none) × (b.feedback ≡ none))

new_booking-IsAskedFor :
    (i : ℕ) (p : PaymentType) (input : CreateBookingInput) (m : Mentor) (start end : ℕ)
    → input.payment_type ≡ p
    → IsAskedFor i input m start end (
        new_booking i input start end
          (calculate_booking_amount (get_or m.current_price_per_30_min 0) start end)
          (initial_status input.payment_type))
new_booking-IsAskedFor i PaymentType.coins input m start end e = record {
  id = refl;
  mentor = refl;
  mentee = refl;
  starts = refl;
  ends = refl;
  payment_type = refl;
  paid = rw e (refl, (refl, (refl, refl)));
  total = rw e refl;
  notes = refl;
  untouched = (refl, (refl, refl));
}
new_booking-IsAskedFor i PaymentType.stripe input m start end e = record {
  id = refl;
  mentor = refl;
  mentee = refl;
  starts = refl;
  ends = refl;
  payment_type = refl;
  paid = rw e (refl, (refl, (refl, refl)));
  total = rw e refl;
  notes = refl;
  untouched = (refl, (refl, refl));
}

valid_times-some :
    (start end : Option ℕ) (now s e : ℕ)
    → valid_times start end now ≡ some (s, e)
    → (start ≡ some s) × ((end ≡ some e) × ((s < e) × (now < s)))
valid_times-some none end now s e h = ground arith
valid_times-some (some a) none now s e h = ground arith
valid_times-some (some a) (some b) now s e h = ground arith

module _ (create_checkout_session : CheckoutRequest → Result ℕ) where
  place-bookings :
      (i : ℕ) (input : CreateBookingInput) (m : Mentor) (s e : ℕ) (a : BookingAmount)
      (p : PaymentType) (w : World)
      → let r = place create_checkout_session i input m s e a p w in
        ((is_err r.0 ≡ true) × (r.1.bookings ≡ w.bookings))
        ⊎ (r.1.bookings ≡ w.bookings ++ new_booking i input s e a (initial_status p) ∷ [])
  unfolding place create_booking_doc
  place-bookings i input m s e a PaymentType.stripe w = inr (ground arith)
  place-bookings i input m s e a PaymentType.coins w =
      elim (Bool-cases (is_err (pay_with_coins i input a w).0)) [
        | inl bad ↦ inl (ground (arith, pay_with_coins-bookings i input a w))
        | inr good ↦
            let w1 = (pay_with_coins i input a w).1 in
            let w2 =
              (create_booking_doc (new_booking i input s e a PaymentStatus.completed) w1).1 in
            let w3 = (schedule_reminders i m.user_id input.mentee_id s w2).1 in
            inr (
              ground (
                arith,
                pay_with_coins-bookings i input a w,
                schedule_reminders-IsQuiet i m.user_id input.mentee_id s w2,
                schedule_settlement-IsQuiet i e w3,
              ))
      ]

  -- A creation throws and adds no booking, or one booking is added, the one that was asked for at the
  -- mentor's price, unpaid for a card and paid for with coins, in a time that is to come and free, whether
  -- or not the payment provider then throws.
  pub create_booking_lem :
      (i : ℕ) (input : CreateBookingInput) (w : World)
      → let r = create_booking create_checkout_session i input w in
        ((is_err r.0 ≡ true) × (r.1.bookings ≡ w.bookings))
        ⊎ ((m : Mentor) × ((s : ℕ) × ((e : ℕ) × ((b : Booking) × (MayBook input m s e w
                    × (IsAskedFor i input m s e b × (r.1.bookings ≡ w.bookings ++ b ∷ [])))))))
  unfolding create_booking create_checked
  create_booking_lem i input w = elim (Bool-cases (input.mentee_id == input.mentor_id)) [
    | inl own ↦ inl (ground arith)
    | inr other ↦ elim (Option-cases (find_mentor input.mentor_id w)) [
      | inl e ↦ inl (ground arith)
      | inr (m, e) ↦ elim (Option-cases (valid_times input.start_time input.end_time w.now)) [
        | inl bad ↦ inl (ground arith)
        | inr (t, good) ↦
            elim (Bool-cases
              (any (takes_slot input.mentee_id) (find_overlapping input.mentor_id t.0 t.1 w))) [
                | inl taken ↦ inl (ground arith)
                | inr free ↦
                    elim (Bool-cases (check_booking_conflict input.mentee_id t.0 t.1 none w)) [
                      | inl busy ↦ inl (ground arith)
                      | inr idle ↦
                          let a =
                            calculate_booking_amount (get_or m.current_price_per_30_min 0) t.0
                              t.1 in
                          let (hs, (he, (hl, hn))) =
                            valid_times-some input.start_time input.end_time w.now t.0 t.1 good in
                          let clear =
                            any-IsClear input.mentor_id input.mentee_id t.0 t.1 none
                              (takes_slot input.mentee_id) w (λ c. refl) free idle in
                          let two : input.mentee_id ≢ input.mentor_id =
                            λ q. ground (arith, ==_iff input.mentee_id input.mentor_id) in
                          elim (place-bookings i input m t.0 t.1 a input.payment_type w) [
                            | inl bad ↦ inl (ground arith)
                            | inr done ↦ inr (
                              m,
                              (
                                t.0,
                                (
                                  t.1,
                                  (
                                    new_booking i input t.0 t.1 a
                                        (initial_status input.payment_type),
                                    (
                                      (two, (e, (hs, (he, (hl, (hn, clear)))))),
                                      (
                                        new_booking-IsAskedFor i input.payment_type input m t.0 t.1
                                            refl,
                                        ground arith,
                                      ),
                                    ),
                                  ),
                                ),
                              ),
                            )
                          ]
                    ]
              ]
      ]
    ]
  ]
