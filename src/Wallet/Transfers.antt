-- ===== src/Wallet/Transfers.antt =====
-- Any sequence of calls of WalletService (src/infrastructure/services/wallet.service.ts).
use upstride_api.Base.{ℕ, ◌≡◌, refl, ◌∙◌, List, [], ◌∷◌}
use upstride_api.Store.{World, CoinTransactionType}
use upstride_api.Wallet.{credit, debit}
use upstride_api.Wallet.Balance.{
  unexplained, IsSolvent, unexplained-credit, unexplained-debit, credit-IsSolvent, debit-IsSolvent,
}

-- A call, as it is made.
pub data Transfer : Type 0 where
  credits : (user_id amount : ℕ) → CoinTransactionType → (reference : ℕ) → Transfer
  debits : (user_id amount : ℕ) → CoinTransactionType → (reference : ℕ) → Transfer

abbrev pub transfer : Transfer → World → World
transfer (credits user_id amount kind reference) w = (credit user_id amount kind reference w).1
transfer (debits user_id amount kind reference) w = (debit user_id amount kind reference w).1

abbrev pub transfer_all : List Transfer → World → World
transfer_all [] w = w
transfer_all (t ∷ ts) w = transfer_all ts (transfer t w)

unexplained-transfer :
    (i : ℕ) (t : Transfer) (w : World) → unexplained i (transfer t w) ≡ unexplained i w
unexplained-transfer i (credits user_id amount kind reference) w =
    unexplained-credit i user_id amount kind reference w
unexplained-transfer i (debits user_id amount kind reference) w =
    unexplained-debit i user_id amount kind reference w

transfer-IsSolvent : (t : Transfer) (w : World) → IsSolvent w → IsSolvent (transfer t w)
transfer-IsSolvent (credits user_id amount kind reference) w h =
    credit-IsSolvent user_id amount kind reference w h
transfer-IsSolvent (debits user_id amount kind reference) w h =
    debit-IsSolvent user_id amount kind reference w h

unexplained-transfer_all :
    (i : ℕ) (ts : List Transfer) (w : World) → unexplained i (transfer_all ts w) ≡ unexplained i w
unexplained-transfer_all i [] w = refl
unexplained-transfer_all i (t ∷ ts) w =
    unexplained-transfer_all i ts (transfer t w) ∙ unexplained-transfer i t w

transfer_all-IsSolvent_every :
    (ts : List Transfer) (w : World) → IsSolvent w → IsSolvent (transfer_all ts w)
transfer_all-IsSolvent_every [] w h = h
transfer_all-IsSolvent_every (t ∷ ts) w h =
    transfer_all-IsSolvent_every ts (transfer t w) (transfer-IsSolvent t w h)

-- Over any credits and debits, whether they return or throw, where no balance is negative before, none
-- is after, and for every user the difference between the balance and the sum of the recorded
-- transactions is what it was.
pub transfer_all-IsSolvent :
    (i : ℕ) (ts : List Transfer) (w : World)
    → IsSolvent w
    → IsSolvent (transfer_all ts w) × (unexplained i (transfer_all ts w) ≡ unexplained i w)
transfer_all-IsSolvent i ts w h =
    (transfer_all-IsSolvent_every ts w h, unexplained-transfer_all i ts w)
