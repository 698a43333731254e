-- ===== src/Money/Bounds.antt =====
-- What the amounts of a settlement and of a refund amount to.
use upstride_api.Base.{ℕ, ◌+◌, ◌*◌, ◌≤◌, ◌<◌, ◌≡◌, arith}
use upstride_api.Store.{unit, PaymentType}
use upstride_api.Money.{calculate, calculate_booking_amount, refund_amount_minor, refund_coins}

-- A session is settled alike however it was paid: the amounts that are computed from its price in
-- coins are those that are computed from its price in rupees.
pub calculate-payment_type :
    (price start end : ℕ)
    → let amount = calculate_booking_amount price start end in
      calculate PaymentType.coins amount.total_amount_coins
      ≡ calculate PaymentType.stripe amount.total_amount_currency
unfolding calculate calculate_booking_amount
calculate-payment_type price start end = ground arith

-- The mentor's share never exceeds what a full refund pays, in coins and in the minor currency, and
-- each refund is worth the price to within half of its unit.
pub calculate_bounds :
    (t : ℕ)
    → let a = calculate PaymentType.stripe t in
      (a.mentor_coins ≤ a.refund_coins)
      × (a.mentor_payout_minor ≤ a.refund_minor)
      × (2 * (a.refund_minor * unit) ≤ 2 * (t * 100) + unit)
      × (2 * (t * 100) < 2 * (a.refund_minor * unit) + unit)
unfolding calculate
calculate_bounds t = omega arith

-- For a refund of any whole number of coins, the coins that `RefundService` credits are those coins,
-- also for a card payment, where it computes them back from the minor currency.
pub refund_coins-amount_minor :
    (p : PaymentType) (amount : ℕ) → refund_coins p amount (refund_amount_minor amount) ≡ amount
unfolding refund_coins refund_amount_minor
refund_coins-amount_minor p amount = ground arith
