-- ===== src/Availability.antt =====
-- The times that a mentor offers: src/domain/entities/availability.entity.ts,
-- src/domain/utilties/validate-availability-breaktime.ts and src/application/modules/availability.
pub mod Breaks
pub mod Entity
pub mod Conflict
pub mod Slots
pub mod Manage
