-- ===== src/Booking/Create.antt =====
-- src/application/modules/booking/use-cases/create-booking.use-case.ts, `Booking.create` and
-- `Booking.assertCanBook` of src/domain/entities/booking.entity.ts, and
-- src/application/modules/booking/utils/generate-meeting-link.ts. The payment provider is a parameter.
pub mod Free
pub mod Price
use upstride_api.Base.{
  ℕ, ◌*◌, Bool, true, false, ◌&&◌, ◌||◌, Option, none, some, List, [], ◌∷◌, pos, ltb, ◌==◌, any,
  get_or, if◌then◌else◌,
}
use upstride_api.Store.{
  Action, World, Result, Booking, BookingStatus, PaymentStatus, PaymentType, PaymentProvider,
  PaymentRef, PaymentPurpose, PaymentTransaction, TransactionOwner, CoinTransactionType,
  MeetingLink, Currency, Mentor, Note, Error, unit, pure, raise, from_result, when, ◌>>=◌, ◌>>◌,
  find_mentor, find_overlapping, is_paid, create_payment, create_booking_doc,
  increment_platform_balance,
}
use upstride_api.Money.{round_div, BookingAmount, calculate_booking_amount}
use upstride_api.Wallet.{debit}
use upstride_api.Booking.Conflict.{check_booking_conflict}
use upstride_api.Booking.Schedule.{schedule_reminders, schedule_settlement}
use upstride_api.Booking.Reschedule.{CheckoutRequest}

-- A time that is not a date is none.
pub record CreateBookingInput : Type 0 where
  pub mentee_id : ℕ
  pub mentor_id : ℕ
  pub start_time : Option ℕ
  pub end_time : Option ℕ
  pub payment_type : PaymentType
  pub notes : List Note

-- The times that `Booking.create` accepts.
abbrev pub valid_times : Option ℕ → Option ℕ → ℕ → Option (ℕ × ℕ)
valid_times start end now = elim start [
  | none ↦ none
  | some s ↦ elim end [ none ↦ none | some e ↦ if ltb s e && ltb now s then some (s, e) else none ]
]

-- `generateMeetingLink`
abbrev pub generate_meeting_link : ℕ → PaymentStatus → MeetingLink
generate_meeting_link i status =
    if is_paid status then MeetingLink.call_link i else MeetingLink.pending_upper

abbrev pub total_of : PaymentType → BookingAmount → ℕ
total_of PaymentType.stripe a = a.total_amount_currency
total_of PaymentType.coins a = a.total_amount_coins

abbrev pub currency_of : PaymentType → Currency
currency_of PaymentType.stripe = Currency.inr
currency_of PaymentType.coins = Currency.coins

abbrev pub new_booking :
    (id : ℕ) → CreateBookingInput → (start end : ℕ) → BookingAmount → PaymentStatus → Booking
new_booking i input start end a status = record {
  id = i;
  mentor_id = input.mentor_id;
  mentee_id = input.mentee_id;
  start_time = start;
  end_time = end;
  status = if is_paid status then BookingStatus.confirmed else BookingStatus.pending;
  meeting_link = generate_meeting_link i status;
  payment_type = input.payment_type;
  payment_status = status;
  total_amount = total_of input.payment_type a;
  currency = currency_of input.payment_type;
  notes = input.notes;
  mentor_joined_at = none;
  settled_at = none;
  feedback = none;
}

-- A booking in the time that is paid for or is the mentee's own.
abbrev pub takes_slot : ℕ → Booking → Bool
takes_slot mentee_id b = is_paid b.payment_status || b.mentee_id == mentee_id

abbrev pub amount_minor : BookingAmount → ℕ
amount_minor a = round_div (a.total_amount_currency * 100) unit

abbrev pub coin_payment : (id payer amount : ℕ) → PaymentTransaction
coin_payment i payer amount = record {
  user_id = payer;
  provider = PaymentProvider.internal;
  provider_payment_id = PaymentRef.coin_booking i;
  amount = pos amount;
  currency = Currency.inr;
  status = PaymentStatus.completed;
  coins_granted = 0;
  purpose = PaymentPurpose.session;
  payment_type = PaymentType.coins;
  owner = TransactionOwner.platform;
}

-- The coins are debited and the platform's books are kept.
unfoldable pub pay_with_coins : (id : ℕ) → CreateBookingInput → BookingAmount → Action (Unit {0})
pay_with_coins i input a =
    debit input.mentee_id a.total_amount_coins CoinTransactionType.session_spend i
    >> when (ltb 0 (amount_minor a)) (
        increment_platform_balance (pos (amount_minor a))
        >> create_payment (coin_payment i input.mentee_id (amount_minor a)))

-- The response: the payment's status and the URL of the checkout.
abbrev pub Response : Type 0
Response = PaymentStatus × Option ℕ

module _ (create_checkout_session : CheckoutRequest → Result ℕ) where
  -- What follows the checks.
  unfoldable pub place :
      (id : ℕ)
      → CreateBookingInput
      → Mentor
      → (start end : ℕ) → BookingAmount
      → PaymentType
      → Action Response
  place i input m start end a PaymentType.coins = do
    pay_with_coins i input a
    create_booking_doc (new_booking i input start end a PaymentStatus.completed)
    schedule_reminders i m.user_id input.mentee_id start
    schedule_settlement i end
    pure (PaymentStatus.completed, none)
  place i input m start end a PaymentType.stripe = do
    create_booking_doc (new_booking i input start end a PaymentStatus.pending)
    url ← from_result (
        create_checkout_session (record {
          user_id = input.mentee_id;
          amount = amount_minor a;
          currency = Currency.inr;
          booking_id = i;
        }))
    pure (PaymentStatus.pending, some url)

  -- The checks for other bookings.
  unfoldable pub create_checked :
      (id : ℕ) → CreateBookingInput → Mentor → (start end : ℕ) → Action Response
  create_checked i input m start end w =
      if any (takes_slot input.mentee_id) (find_overlapping input.mentor_id start end w)
      then raise Error.slot_not_available w
      else if check_booking_conflict input.mentee_id start end none w
      then raise Error.conflict w
      else place i input m start end
          (calculate_booking_amount (get_or m.current_price_per_30_min 0) start end)
          input.payment_type w

  -- `CreateBookingUseCase.execute`, with the id that the generator gives.
  unfoldable pub create_booking : (id : ℕ) → CreateBookingInput → Action Response
  create_booking i input w =
      if input.mentee_id == input.mentor_id
      then raise Error.entity_validation w
      else elim (find_mentor input.mentor_id w) [
        | none ↦ raise Error.not_found w
        | some m ↦ elim (valid_times input.start_time input.end_time w.now) [
          | none ↦ raise Error.entity_validation w
          | some t ↦ create_checked i input m t.0 t.1 w
        ]
      ]
