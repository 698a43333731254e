-- ===== src/Payment/Webhook.antt =====
-- What a payment provider's event does: src/application/modules/payment/use-cases/process-payment-event.use-case.ts
-- and the handlers of src/application/events/handlers/payment.
pub mod Expired
use upstride_api.Base.{ℕ, Option, none, some}
use upstride_api.Store.{
  Action, ok, Booking, PaymentRef, PaymentStatus, TransactionOwner, pure, both, ◌>>=◌, ◌>>◌,
  update_booking, update_payment_status,
}
use upstride_api.Payment.Confirm.{confirm}
use upstride_api.Payment.Topup.{PaymentEvent, process_wallet_topup}

-- `CheckoutCompletedHandler.handle`
unfoldable pub handle_completed : PaymentEvent → Action (Unit {0})
handle_completed e = elim e.booking [
  | none ↦ process_wallet_topup e
  | some i ↦ confirm (record {
    booking_id = i;
    session_id = e.session_id;
    amount_minor = e.amount_minor;
    currency = e.currency;
  })
]

-- `handleFailure`
unfoldable pub handle_failure : ℕ → Action (Unit {0})
handle_failure session_id =
    both
      (update_payment_status (PaymentRef.checkout session_id) PaymentStatus.failed
        TransactionOwner.user)
      (update_payment_status (PaymentRef.checkout session_id) PaymentStatus.failed
        TransactionOwner.platform)

abbrev pub with_failed_payment : Booking → Booking
with_failed_payment b = record b { payment_status = PaymentStatus.failed }

-- `CheckoutExpiredHandler.handle`
unfoldable pub handle_expired : PaymentEvent → Action (Unit {0})
handle_expired e =
    handle_failure e.session_id
    >> elim e.booking [ none ↦ pure tt | some i ↦ update_booking i with_failed_payment ]

-- `CheckoutFailedHandler.handle`
unfoldable pub handle_failed : PaymentEvent → Action (Unit {0})
handle_failed e =
    handle_failure e.session_id
    >> elim e.booking [ none ↦ pure tt | some i ↦ update_booking i with_failed_payment ]

pub data PaymentEventType : Type 0 where
  completed expired async_payment_failed other : PaymentEventType

-- `InMemoryEventBus`: an error of a handler is logged and goes no further. The handler, which need not be
-- done when `publish` returns, is run to its end.
unfoldable pub deliver : Action (Unit {0}) → Action (Unit {0})
deliver handler w = (ok tt, (handler w).1)

-- `ProcessPaymentEventUseCase.execute`
unfoldable pub process_payment_event : PaymentEventType → PaymentEvent → Action (Unit {0})
process_payment_event PaymentEventType.completed e = deliver (handle_completed e)
process_payment_event PaymentEventType.expired e = deliver (handle_expired e)
process_payment_event PaymentEventType.async_payment_failed e = deliver (handle_failed e)
process_payment_event PaymentEventType.other e = pure tt
