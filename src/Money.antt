-- ===== src/Money.antt =====
-- Prices, refunds and settlements (src/application/modules/booking/utils/calculate-booking-amount.util.ts,
-- src/application/modules/booking/services/session-settlement-calculator.service.ts and the amounts
-- of src/application/modules/booking/use-cases/refund-session-amount.use-case.ts).
-- The source computes in binary floats; here the numbers are exact, in units of 1/3,600,000.
pub mod Bounds
pub mod Policy
use upstride_api.Base.{ℕ, ◌+◌, ◌-◌, ◌*◌, ◌/◌, Bool, true, false, ltb, leb, if◌then◌else◌}
use upstride_api.Store.{
  unit, coin_value, session_percentage, day_ms, PaymentType, PaymentStatus, is_paid,
}

-- `Math.round(a / b)`, which rounds a half up.
unfoldable pub round_div : ℕ → ℕ → ℕ
round_div a b = (2 * a + b) / (2 * b)

pub record BookingAmount : Type 0 where
  pub total_amount_currency : ℕ
  pub total_amount_coins : ℕ

-- The price of a span, in units of a rupee and of a coin. The caller refuses a span that does not
-- end after it starts before it uses the result.
unfoldable pub calculate_booking_amount : ℕ → ℕ → ℕ → BookingAmount
calculate_booking_amount price_per_30_min start end = record {
  total_amount_currency = (end - start) * price_per_30_min;
  total_amount_coins = coin_value * ((end - start) * price_per_30_min);
}

pub record SessionSettlementAmounts : Type 0 where
  pub mentor_coins : ℕ
  pub mentor_payout_minor : ℕ
  pub refund_coins : ℕ
  pub refund_minor : ℕ

-- `Math.max(0, 100 - SESSION_PERCENTAGE)`
abbrev pub mentor_percentage : ℕ
mentor_percentage = 100 - session_percentage

unfoldable pub calculate : PaymentType → ℕ → SessionSettlementAmounts
unfolding round_div
calculate PaymentType.coins total_amount = record {
  mentor_coins = round_div (total_amount * mentor_percentage) (unit * 100);
  mentor_payout_minor =
      round_div (total_amount * 100 * mentor_percentage) (unit * coin_value * 100);
  refund_coins = round_div total_amount unit;
  refund_minor = round_div (total_amount * 100) (unit * coin_value);
}
calculate PaymentType.stripe total_amount = record {
  mentor_coins = round_div (total_amount * coin_value * mentor_percentage) (unit * 100);
  mentor_payout_minor = round_div (total_amount * 100 * mentor_percentage) (unit * 100);
  refund_coins = round_div (total_amount * coin_value) unit;
  refund_minor = round_div (total_amount * 100) unit;
}

pub data CancelledBy : Type 0 where
  user mentor : CancelledBy

-- The share of the price that a cancellation pays back, in percent.
unfoldable pub refund_percentage : PaymentStatus → CancelledBy → ℕ → ℕ → ℕ
refund_percentage payment_status CancelledBy.mentor start_time now =
    if is_paid payment_status then 100 else 0
refund_percentage payment_status CancelledBy.user start_time now =
    if is_paid payment_status
    then if leb start_time now
      then 0
      else if leb (start_time - now) day_ms
      then 0
      else if leb (start_time - now) (3 * day_ms)
      then 50
      else 75
    else 0

abbrev pub base_coins : PaymentType → PaymentStatus → ℕ → ℕ
base_coins PaymentType.coins payment_status total_amount =
    if is_paid payment_status then total_amount else 0
base_coins PaymentType.stripe payment_status total_amount =
    if is_paid payment_status then total_amount * coin_value else 0

-- Whole coins, and the same in the minor unit of the currency.
unfoldable pub refund_amount : PaymentType → PaymentStatus → ℕ → ℕ → ℕ
unfolding round_div
refund_amount payment_type payment_status total_amount percentage =
    round_div (base_coins payment_type payment_status total_amount * percentage) (unit * 100)

unfoldable pub refund_amount_minor : ℕ → ℕ
unfolding round_div
refund_amount_minor amount = round_div (amount * 100) coin_value

-- `RefundService` turns the minor amount of a card payment back into coins.
unfoldable pub refund_coins : PaymentType → ℕ → ℕ → ℕ
unfolding round_div
refund_coins PaymentType.coins amount amount_minor = amount
refund_coins PaymentType.stripe amount amount_minor = round_div (amount_minor * coin_value) 100
