-- ===== src/Tests/Money.antt =====
-- Runs of the amounts and the wallet.
use upstride_api.Base.{◌≤◌, ◌≡◌, refl, ◌*◌, arith, ==_iff}
use upstride_api.Store.{PaymentType, PaymentStatus, CoinTransactionType, unit}
use upstride_api.Money.{
  CancelledBy, calculate, refund_percentage, refund_amount, refund_amount_minor, refund_coins,
}
use upstride_api.Money.Bounds.{refund_coins-amount_minor}
use upstride_api.Money.Policy.{refund_amount-calculate}
use upstride_api.Base.{List, [], ◌∷◌}
use upstride_api.Wallet.Transfers.{Transfer, transfer_all, transfer_all-IsSolvent}
use upstride_api.Wallet.Balance.{IsSolvent, unexplained}
use upstride_api.Tests.{world, hour}

-- 600 rupees: 1020 coins for the mentor, 1200 back in full, of 60000 paise.
calculate_run :
    let a = calculate PaymentType.stripe (600 * unit) in
    (a.mentor_coins ≡ 1020)
    × (a.mentor_payout_minor ≡ 51000)
    × (a.refund_coins ≡ 1200)
    × (a.refund_minor ≡ 60000)
unfolding calculate
calculate_run = (refl, refl, refl, refl)

refund_coins-amount_minor_example :
    refund_coins PaymentType.stripe 601 (refund_amount_minor 601) ≡ 601
refund_coins-amount_minor_example = refund_coins-amount_minor PaymentType.stripe 601

refund_amount-calculate_example :
    let full = (calculate PaymentType.stripe (600 * unit)).refund_coins in
    let by = λ (c : CancelledBy).
      refund_amount PaymentType.stripe PaymentStatus.completed
        (600 * unit)
        (refund_percentage PaymentStatus.completed c (72 * hour) (10 * hour)) in
    (by CancelledBy.mentor ≡ full) × (by CancelledBy.user ≤ full)
refund_amount-calculate_example =
    refund_amount-calculate PaymentType.stripe (600 * unit) (72 * hour) (10 * hour)

world-IsSolvent : IsSolvent world
world-IsSolvent i = grind (arith, ==_iff 1 i, ==_iff 2 i)

-- A refund, a session that is paid for, and a debit that the balance does not cover.
abbrev transfers : List Transfer
transfers =
    Transfer.credits 1 (200 * unit) CoinTransactionType.refund 100
    ∷ Transfer.debits 1 (300 * unit) CoinTransactionType.session_spend 103
    ∷ Transfer.debits 2 (300 * unit) CoinTransactionType.session_spend 104
    ∷ []

transfer_all-IsSolvent_example :
    IsSolvent (transfer_all transfers world)
    × (unexplained 1 (transfer_all transfers world) ≡ unexplained 1 world)
transfer_all-IsSolvent_example = transfer_all-IsSolvent 1 transfers world world-IsSolvent
