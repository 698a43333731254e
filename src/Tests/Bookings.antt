-- ===== src/Tests/Bookings.antt =====
-- Runs of the use cases of bookings.
use upstride_api.Base.{◌+◌, ◌*◌, ◌≡◌, ◌⊎◌, refl, ap, true, false, none, some, pos, ◌+ℤ◌}
use upstride_api.Store.{
  Booking, ok, is_err, unit, find_user, find_mentor, find_booking, update_booking, update_mentor,
  create_notification, create_payment, increment_balance, increment_platform_balance,
  create_coin_transaction, publish, record_completed_session, update_key,
}
use upstride_api.Money.{
  calculate, CancelledBy, refund_amount, refund_percentage, refund_amount_minor, refund_coins,
}
use upstride_api.Wallet.{credit}
use upstride_api.Wallet.Balance.{balance}
use upstride_api.Payment.Refund.{process_refund, refund_platform}
use upstride_api.Booking.Cancel.{cancel_booking, refund_session_amount}
use upstride_api.Booking.Cancel.Once.{cancel, cancel-cancel}
use upstride_api.Booking.Cancel.Refunds.{balance-cancel}
use upstride_api.Booking.Settle.{
  settle_ended_session, settle_found, settle_paid, settle_no_show, settle_joined, record_no_show,
  block_mentor, refund_booked_user,
}
use upstride_api.Booking.Settle.Balances.{share, balance-settle}
use upstride_api.Booking.Settle.NoShow.{after_missing, mentor-settle}
use upstride_api.Booking.Reschedule.{reschedule_booking}
use upstride_api.Booking.Reschedule.Moved.{MayMove, reschedule_booking_lem}
use upstride_api.Booking.Create.{
  CreateBookingInput, create_booking, create_checked, place, pay_with_coins,
}
use upstride_api.Booking.Conflict.{check_booking_conflict}
use upstride_api.Booking.Schedule.{schedule_reminders, schedule_settlement, remind}
use upstride_api.Wallet.{debit}
use upstride_api.Booking.Create.Price.{balance-create_booking}
use upstride_api.Booking.Create.Free.{MayBook, IsAskedFor, create_booking_lem}
use upstride_api.Money.{calculate_booking_amount, round_div}
use upstride_api.Store.{
  find_overlapping, find_overlapping_for_user, create_booking_doc, enqueue, Result, Mentor,
  PaymentType,
}
use upstride_api.Base.{ℕ, neg, [], ◌∷◌, ◌++◌}
use upstride_api.Base.{List, map}
use upstride_api.Store.{World, find_by_mentor_and_date, find_active_by_mentor_and_date}
use upstride_api.Availability.Slots.{compute_slots_for_date, slots_from}
use upstride_api.Booking.Offers.{
  SlotDto, SlotStatus, ist_time, get_available_slots, slots_of_rules, offer_all, offer_slots,
  slot_dto, set_slot, set_slots, insert_slot, sort_slots,
}
use mathlib.Core.List.{Memᴰ}
use upstride_api.Tests.{rule}
use upstride_api.Booking.Offers.{shows}
use upstride_api.Booking.Offers.Complete.{get_available_slots-shows}
use upstride_api.Tests.{unpaid_booking, world, hour, mentor, paid_booking}

pub settle_returns : is_err (settle_ended_session 100 world).0 ≡ false
unfolding settle_ended_session settle_found settle_paid settle_no_show settle_joined record_no_show
    block_mentor refund_booked_user calculate credit increment_balance create_coin_transaction
    create_notification create_payment increment_platform_balance refund_platform update_booking
    update_mentor record_completed_session update_key ◌+ℤ◌
settle_returns = refl

-- The mentor missed a second session: the mentee gets 1200 coins.
balance-settle_example :
    let amounts = calculate paid_booking.payment_type paid_booking.total_amount in
    balance (find_user 1 (settle_ended_session 100 world).1)
    ≡ balance (find_user 1 world) +ℤ share 1 1 (amounts.refund_coins * unit)
balance-settle_example =
    balance-settle 1 100 world paid_booking mentor refl refl refl refl refl settle_returns

mentor-settle_example :
    find_mentor 10 (settle_ended_session 100 world).1 ≡ some (after_missing mentor)
mentor-settle_example =
    mentor-settle 100 world paid_booking mentor refl refl refl refl refl refl refl

cancel_returns :
    (cancel CancelledBy.user 1 100 none world).0 ≡ ok (record { amount = 600; percentage = 50 })
unfolding cancel_booking refund_session_amount refund_amount refund_percentage refund_amount_minor
    refund_coins process_refund credit increment_balance create_coin_transaction create_notification
    create_payment increment_platform_balance refund_platform update_booking publish ◌+ℤ◌
cancel_returns = refl

cancel-cancel_example :
    let w' = (cancel CancelledBy.user 1 100 none world).1 in
    (is_err (cancel CancelledBy.mentor 2 100 (some 5) w').0 ≡ true)
    × ((cancel CancelledBy.mentor 2 100 (some 5) w').1 ≡ w')
cancel-cancel_example =
    cancel-cancel CancelledBy.user CancelledBy.mentor 1 2 100 none (some 5) world
      (ap (λ r. is_err r) cancel_returns)

balance-cancel_example :
    (600
      ≡ refund_amount paid_booking.payment_type paid_booking.payment_status
          paid_booking.total_amount
          (refund_percentage paid_booking.payment_status CancelledBy.user paid_booking.start_time
            world.now))
    × (balance (find_user 1 (cancel CancelledBy.user 1 100 none world).1)
        ≡ balance (find_user 1 world) +ℤ pos (600 * unit))
balance-cancel_example =
    balance-cancel 1 1 100 CancelledBy.user none world paid_booking
      (record { amount = 600; percentage = 50 }) refl cancel_returns

-- A week later, from 10:00 to 11:00 on the clock of India.
reschedule_booking_lem_example :
    let start = 244 * hour + 1800000 in
    let end = 245 * hour + 1800000 in
    let r = reschedule_booking 100 1 start end world in
    ((is_err r.0 ≡ true) × (r.1 ≡ world))
    ⊎ ((b : Booking) × ((find_booking 100 world ≡ some b)
          × (MayMove 1 start end b world
              × ((r.0 ≡ ok tt)
                  × (find_booking 100 r.1
                      ≡ some (record b { start_time = start; end_time = end }))))))
reschedule_booking_lem_example =
    reschedule_booking_lem 100 1 (244 * hour + 1800000) (245 * hour + 1800000) world

-- An hour on another day, paid for with coins.
abbrev input : CreateBookingInput
input = record {
  mentee_id = 1;
  mentor_id = 10;
  start_time = some (100 * hour);
  end_time = some (101 * hour);
  payment_type = PaymentType.coins;
  notes = [];
}

create_booking_lem_example :
    let r = create_booking (λ q. Result.ok 5) 103 input world in
    ((is_err r.0 ≡ true) × (r.1.bookings ≡ world.bookings))
    ⊎ ((m : Mentor) × ((s : ℕ) × ((e : ℕ) × ((b : Booking) × (MayBook input m s e world
                × (IsAskedFor 103 input m s e b × (r.1.bookings ≡ world.bookings ++ b ∷ [])))))))
create_booking_lem_example = create_booking_lem (λ q. Result.ok 5) 103 input world

create_returns : is_err (create_booking (λ q. Result.ok 5) 103 input world).0 ≡ false
unfolding create_booking create_checked find_overlapping check_booking_conflict
    find_overlapping_for_user place pay_with_coins debit calculate_booking_amount increment_balance
    create_coin_transaction round_div increment_platform_balance ◌+ℤ◌ create_payment
    create_booking_doc schedule_reminders remind schedule_settlement update_key enqueue
create_returns = refl

-- Two half hours at 300 coins each.
balance-create_booking_example :
    balance (find_user 1 (create_booking (λ q. Result.ok 5) 103 input world).1)
    ≡ balance (find_user 1 world) +ℤ neg (600 * unit)
unfolding calculate_booking_amount
balance-create_booking_example =
    balance-create_booking (λ q. Result.ok 5) 1 103 input mentor (100 * hour) (101 * hour) world
      refl refl refl refl create_returns

-- The second slot of the day is the requester's, who has not paid for it yet.
abbrev pending_world : World
pending_world = record world {
  bookings =
      record (unpaid_booking 103) { start_time = ist_time 3 670; end_time = ist_time 3 730 } ∷ [];
}

abbrev offered : Result (List SlotDto) → List SlotDto
offered (ok slots) = slots
offered (Result.err e) = []

slots_run :
    let slots = offered (get_available_slots 10 1 (some (72 * hour)) pending_world).0 in
    (map (λ d. d.start_time) slots ≡ ist_time 3 600 ∷ ist_time 3 670 ∷ [])
    × ((map (λ d. d.status) slots ≡ SlotStatus.available ∷ SlotStatus.booked_pending ∷ [])
        × (map (λ d. d.booking_id) slots ≡ none ∷ some 103 ∷ []))
unfolding get_available_slots slots_of_rules offer_all offer_slots slot_dto set_slot set_slots
    insert_slot sort_slots compute_slots_for_date slots_from find_active_by_mentor_and_date
    find_by_mentor_and_date
slots_run = (refl, (refl, refl))

get_available_slots-shows_example :
    (slots : List SlotDto) × ((get_available_slots 10 1 (some (72 * hour)) pending_world
        ≡ (ok slots, pending_world))
      × (shows (ist_time 3 670) (ist_time 3 730) slots ≡ true))
unfolding find_active_by_mentor_and_date compute_slots_for_date slots_from find_by_mentor_and_date
get_available_slots-shows_example =
    get_available_slots-shows 10 1 (72 * hour) rule (record { start_time = 670; end_time = 730 })
      pending_world mentor refl (Memᴰ.head refl) (Memᴰ.tail (Memᴰ.head refl)) refl
