-- ===== src/Money/Policy.antt =====
-- The cancellation policy.
use upstride_api.Base.{ℕ, ◌≤◌, ◌≡◌, arith}
use upstride_api.Store.{PaymentType, PaymentStatus}
use upstride_api.Money.{CancelledBy, refund_percentage, refund_amount, calculate}

-- The earlier a mentee cancels, the larger the share that is paid back.
refund_percentage_mono :
    (p : PaymentStatus) (start now later : ℕ)
    → now ≤ later
    → refund_percentage p CancelledBy.user start later
      ≤ refund_percentage p CancelledBy.user start now
unfolding refund_percentage
refund_percentage_mono p start now later h = ground arith

refund_percentage_le :
    (p : PaymentStatus) (c : CancelledBy) (start now : ℕ) → refund_percentage p c start now ≤ 100
unfolding refund_percentage
refund_percentage_le p c start now = ground arith

round_mono :
    (p : PaymentType) (t k : ℕ)
    → k ≤ 100
    → refund_amount p PaymentStatus.completed t k ≤ refund_amount p PaymentStatus.completed t 100
unfolding refund_amount
round_mono PaymentType.coins t k h = grind arith
round_mono PaymentType.stripe t k h = grind arith

full_refund :
    (p : PaymentType) (t : ℕ)
    → refund_amount p PaymentStatus.completed t 100 ≡ (calculate p t).refund_coins
unfolding refund_amount calculate
full_refund PaymentType.coins t = ground arith
full_refund PaymentType.stripe t = ground arith

-- A mentor who cancels a paid booking pays back what a full refund at settlement would, and a mentee
-- who cancels gets at most that.
pub refund_amount-calculate :
    (p : PaymentType) (t start now : ℕ)
    → let full = (calculate p t).refund_coins in
      let by = λ (c : CancelledBy).
        refund_amount p PaymentStatus.completed t
          (refund_percentage PaymentStatus.completed c start now) in
      (by CancelledBy.mentor ≡ full) × (by CancelledBy.user ≤ full)
unfolding refund_percentage
refund_amount-calculate p t start now = (
  full_refund p t,
  rw (← full_refund p t)
      (round_mono p t _ (refund_percentage_le PaymentStatus.completed CancelledBy.user start now)),
)
