-- ===== src/Wallet.antt =====
-- src/infrastructure/services/wallet.service.ts: coins are credited and debited, and every change is
-- recorded as a transaction of the user.
pub mod Balance
pub mod Transfers
use upstride_api.Base.{ℕ, Bool, Option, ℤ, neg, ltb_ℤ, pos}
use upstride_api.Store.{
  World, Action, User, CoinTransactionType, ◌>>=◌, ◌>>◌, raise_if, or_raise, gets, find_user,
  user_not_found, insufficient_balance, increment_balance, create_coin_transaction,
}

unfoldable pub credit : ℕ → ℕ → CoinTransactionType → ℕ → Action (Unit {0})
credit user_id amount kind reference = do
  increment_balance user_id (pos amount)
  create_coin_transaction
      (record { user_id = user_id; amount = pos amount; kind = kind; reference = reference })

unfoldable pub debit : ℕ → ℕ → CoinTransactionType → ℕ → Action (Unit {0})
debit user_id amount kind reference = do
  user ← or_raise user_not_found (← gets (find_user user_id))
  raise_if (ltb_ℤ user.coin_balance (pos amount)) insufficient_balance
  increment_balance user_id (neg amount)
  create_coin_transaction
      (record { user_id = user_id; amount = neg amount; kind = kind; reference = reference })
