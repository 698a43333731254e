-- ===== src/Store/Ledger.antt =====
-- The collections that only grow: payment and coin transactions, notifications, jobs and events.
use upstride_api.Base.{
  Bool, true, false, ◌&&◌, Option, List, [], ◌∷◌, ◌++◌, ℤ, pos, negsuc, ◌==◌, if◌then◌else◌, any,
  find,
}
use Prim.Native.Nat.{zero, suc}
use upstride_api.Store.Docs.{
  CoinTransaction, PaymentTransaction, PaymentRef, PaymentStatus, TransactionOwner, Notification,
  Job, SessionRefunded,
}
use upstride_api.Store.State.{World, Action, Result, entity_validation, duplicate_key}

abbrev pub ref_eq : PaymentRef → PaymentRef → Bool
ref_eq (PaymentRef.checkout a) (PaymentRef.checkout b) = a == b
ref_eq (PaymentRef.coin_booking a) (PaymentRef.coin_booking b) = a == b
ref_eq (PaymentRef.session_payout a) (PaymentRef.session_payout b) = a == b
ref_eq (PaymentRef.refund a) (PaymentRef.refund b) = a == b
ref_eq _ _ = false

abbrev pub owner_eq : TransactionOwner → TransactionOwner → Bool
owner_eq TransactionOwner.platform TransactionOwner.platform = true
owner_eq TransactionOwner.user TransactionOwner.user = true
owner_eq TransactionOwner.mentor TransactionOwner.mentor = true
owner_eq _ _ = false

abbrev pub is_payment_of : PaymentRef → TransactionOwner → PaymentTransaction → Bool
is_payment_of r o p = ref_eq p.provider_payment_id r && owner_eq p.owner o

-- `findByProviderPaymentIdAndOwner`
abbrev pub find_payment : PaymentRef → TransactionOwner → World → Option PaymentTransaction
find_payment r o w = find (is_payment_of r o) w.payments

-- The collection has a unique index on the provider's payment id and the owner.
unfoldable pub create_payment : PaymentTransaction → Action (Unit {0})
create_payment p w =
    if any (is_payment_of p.provider_payment_id p.owner) w.payments
    then (Result.err duplicate_key, w)
    else (Result.ok tt, record w { payments = w.payments ++ p ∷ [] })

abbrev pub update_first :
    (PaymentTransaction → Bool) → PaymentStatus → List PaymentTransaction → List PaymentTransaction
update_first q s [] = []
update_first q s (p ∷ ps) = if q p then (record p { status = s }) ∷ ps else p ∷ update_first q s ps

-- `updateStatusByProviderPaymentIdAndOwner`
unfoldable pub update_payment_status :
    PaymentRef → PaymentStatus → TransactionOwner → Action (Unit {0})
update_payment_status r s o w =
    (Result.ok tt, record w { payments = update_first (is_payment_of r o) s w.payments })

abbrev pub is_zero_ℤ : ℤ → Bool
is_zero_ℤ (pos zero) = true
is_zero_ℤ (pos (suc n)) = false
is_zero_ℤ (negsuc n) = false

-- The constructor of `CoinTransaction` refuses an amount of 0.
unfoldable pub create_coin_transaction : CoinTransaction → Action (Unit {0})
create_coin_transaction t w =
    if is_zero_ℤ t.amount
    then (Result.err entity_validation, w)
    else (Result.ok tt, record w { coin_transactions = w.coin_transactions ++ t ∷ [] })

-- `CreateNotificationUseCase.execute`
unfoldable pub create_notification : Notification → Action (Unit {0})
create_notification n w = (Result.ok tt, record w { notifications = w.notifications ++ n ∷ [] })

-- `JobQueuePort.enqueue`, with a queue that keeps every job: by its id one that is there is not added again.
unfoldable pub enqueue : Job → Action (Unit {0})
enqueue j w = (Result.ok tt, record w { jobs = w.jobs ++ j ∷ [] })

-- `EventBus.publish`
unfoldable pub publish : SessionRefunded → Action (Unit {0})
publish e w = (Result.ok tt, record w { events = w.events ++ e ∷ [] })
