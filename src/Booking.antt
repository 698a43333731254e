-- ===== src/Booking.antt =====
-- The booking module (src/application/modules/booking, src/domain/entities/booking.entity.ts) and the
-- live call's steps on a booking (src/application/modules/live-call).
pub mod Conflict
pub mod Schedule
pub mod Cancel
pub mod Settle
pub mod Reschedule
pub mod Create
pub mod Offers
