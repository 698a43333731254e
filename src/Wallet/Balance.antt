-- ===== src/Wallet/Balance.antt =====
-- The balances and the coin transactions account for each other, and no debit overdraws.
use upstride_api.Base.{
  ℕ, ◌≡◌, refl, subst, inl, inr, false, Option, none, some, List, [], ◌∷◌, ◌++◌, arith, ℤ, pos, neg,
  ◌+ℤ◌, ◌-ℤ◌, ◌≤ℤ◌, int_laws, ◌==◌, if◌then◌else◌, Option-cases, ==_iff,
}
use upstride_api.Store.{
  World, is_err, User, CoinTransaction, CoinTransactionType, find_user, find_key, user_key,
  update_key, find_key-update_self, find_key-update_ne, key-find_key, add_coins, ◌>>◌,
  increment_balance, create_coin_transaction,
}
use native.Mathlib.Decide.{ℕ_discrete}
use upstride_api.Wallet.{credit, debit}

abbrev pub balance : Option User → ℤ
balance none = pos 0
balance (some u) = u.coin_balance

pub +ℤ_zero : (a : ℤ) → a +ℤ pos 0 ≡ a
+ℤ_zero a = omega int_laws

-- The sum of a user's coin transactions.
abbrev pub transacted : ℕ → List CoinTransaction → ℤ
transacted i [] = pos 0
transacted i (t ∷ ts) = (if t.user_id == i then t.amount else pos 0) +ℤ transacted i ts

transacted-append :
    (i : ℕ) (ts us : List CoinTransaction)
    → transacted i (ts ++ us) ≡ transacted i ts +ℤ transacted i us
transacted-append i [] us = omega int_laws
transacted-append i (t ∷ ts) us = rw (transacted-append i ts us) (omega int_laws)

-- What a user holds beyond what the recorded transactions explain.
abbrev pub unexplained : ℕ → World → ℤ
unexplained i w = balance (find_user i w) -ℤ transacted i w.coin_transactions

-- No user has a negative balance.
abbrev pub IsSolvent : World → Type 0
IsSolvent w = (i : ℕ) → pos 0 ≤ℤ balance (find_user i w)

-- The balances after one of them has changed by `a`.
pub balance-add_coins :
    (i j : ℕ) (a : ℤ) (us : List User) (u : User)
    → find_key user_key j us ≡ some u
    → balance (find_key user_key i (update_key user_key j (add_coins a) us))
      ≡ balance (find_key user_key i us) +ℤ (if j == i then a else pos 0)
balance-add_coins i j a us u e = elim (ℕ_discrete j i) [
  | yes p ↦
      subst
        (λ k.
          balance (find_key user_key k (update_key user_key j (add_coins a) us))
          ≡ balance (find_key user_key k us) +ℤ (if j == k then a else pos 0))
        p
        (rw
          (find_key-update_self user_key j (add_coins a) us u e (key-find_key user_key j us u e), e)
          (ground arith))
  | no n ↦
      rw (find_key-update_ne user_key j i (add_coins a) us (λ v. refl) n)
        (ground (arith, ==_iff j i, +ℤ_zero (balance (find_key user_key i us))))
]

moved :
    (i : ℕ) (t : CoinTransaction) (w : World)
    → unexplained i ((increment_balance t.user_id t.amount >> create_coin_transaction t) w).1
      ≡ unexplained i w
unfolding increment_balance create_coin_transaction
moved i t w = elim (Option-cases (find_user t.user_id w)) [
  | inl e ↦ grind (int_laws)
  | inr (u, e) ↦ grind (
    int_laws,
    balance-add_coins i t.user_id t.amount w.users u e,
    transacted-append i w.coin_transactions (t ∷ []),
  )
]

-- Crediting leaves, for every user, the difference between the balance and the recorded transactions
-- as it was, whether the call returns or throws.
pub unexplained-credit :
    (i user_id amount : ℕ) (kind : CoinTransactionType) (reference : ℕ) (w : World)
    → unexplained i (credit user_id amount kind reference w).1 ≡ unexplained i w
unfolding credit
unexplained-credit i user_id amount kind reference w =
    moved i (record { user_id = user_id; amount = pos amount; kind = kind; reference = reference })
      w

-- And so does debiting.
pub unexplained-debit :
    (i user_id amount : ℕ) (kind : CoinTransactionType) (reference : ℕ) (w : World)
    → unexplained i (debit user_id amount kind reference w).1 ≡ unexplained i w
unfolding debit increment_balance create_coin_transaction
unexplained-debit i user_id amount kind reference w = grind (
  arith,
  moved i (record { user_id = user_id; amount = neg amount; kind = kind; reference = reference }) w,
)

-- No debit makes a balance negative, on any branch.
pub debit-IsSolvent :
    (user_id amount : ℕ) (kind : CoinTransactionType) (reference : ℕ) (w : World)
    → IsSolvent w
    → IsSolvent (debit user_id amount kind reference w).1
unfolding debit increment_balance create_coin_transaction
debit-IsSolvent user_id amount kind reference w h i = elim (Option-cases (find_user user_id w)) [
  | inl e ↦ grind (int_laws, h i)
  | inr (u, e) ↦ grind (
    int_laws,
    h i,
    h user_id,
    ==_iff user_id i,
    balance-add_coins i user_id (neg amount) w.users u e,
  )
]

pub credit-IsSolvent :
    (user_id amount : ℕ) (kind : CoinTransactionType) (reference : ℕ) (w : World)
    → IsSolvent w
    → IsSolvent (credit user_id amount kind reference w).1
unfolding credit increment_balance create_coin_transaction
credit-IsSolvent user_id amount kind reference w h i = elim (Option-cases (find_user user_id w)) [
  | inl e ↦ grind (int_laws, h i)
  | inr (u, e) ↦ grind (int_laws, h i, balance-add_coins i user_id (pos amount) w.users u e)
]

-- A credit that returns adds its amount to the balance of its user, and to no other.
pub balance-credit :
    (i user_id amount : ℕ) (kind : CoinTransactionType) (reference : ℕ) (w : World)
    → is_err (credit user_id amount kind reference w).0 ≡ false
    → balance (find_user i (credit user_id amount kind reference w).1)
      ≡ balance (find_user i w) +ℤ (if user_id == i then pos amount else pos 0)
unfolding credit increment_balance create_coin_transaction
balance-credit i user_id amount kind reference w h = elim (Option-cases (find_user user_id w)) [
  | inl e ↦ ground arith
  | inr (u, e) ↦ grind (arith, balance-add_coins i user_id (pos amount) w.users u e)
]

-- A debit that returns takes its amount off the balance of its user, and off no other.
pub balance-debit :
    (i user_id amount : ℕ) (kind : CoinTransactionType) (reference : ℕ) (w : World)
    → is_err (debit user_id amount kind reference w).0 ≡ false
    → balance (find_user i (debit user_id amount kind reference w).1)
      ≡ balance (find_user i w) +ℤ (if user_id == i then neg amount else pos 0)
unfolding debit increment_balance create_coin_transaction
balance-debit i user_id amount kind reference w h = elim (Option-cases (find_user user_id w)) [
  | inl e ↦ ground arith
  | inr (u, e) ↦ grind (arith, balance-add_coins i user_id (neg amount) w.users u e)
]
