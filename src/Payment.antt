-- ===== src/Payment.antt =====
-- The payment module (src/application/modules/payment) and the handlers of its events
-- (src/application/events/handlers/payment).
pub mod Refund
pub mod Confirm
pub mod Topup
pub mod Webhook
