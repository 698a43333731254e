-- ===== src/Availability/Slots.antt =====
-- src/application/modules/availability/utils/availability-slot.util.ts, as it is called: with no
-- existing bookings. The loop is bounded by the minutes of the window, since each turn moves forward.
pub mod Window
use upstride_api.Base.{
  ℕ, ◌+◌, ◌-◌, ◌*◌, Bool, true, false, not, ◌&&◌, ◌||◌, List, [], ◌∷◌, ltb, leb, any, if◌then◌else◌,
}
use Prim.Native.Nat.{zero, suc}
use upstride_api.Store.{Availability, BreakTime, day_ms, ist_offset_ms}

pub record Slot : Type 0 where
  pub start_time : ℕ
  pub end_time : ℕ

abbrev pub minute_ms : ℕ
minute_ms = 60000

abbrev pub overlaps_break : ℕ → ℕ → BreakTime → Bool
overlaps_break from until b = ltb from b.end_time && ltb b.start_time until

-- A slot that has begun by `now`, on the day `date` of the clock of India, or that meets a break
-- is left out.
abbrev pub is_offered : Availability → (date now from : ℕ) → Bool
is_offered a date now from =
    not (leb (date * day_ms + from * minute_ms) (now + ist_offset_ms))
    && not (any (overlaps_break from (from + a.slot_duration)) a.break_times)

-- The turns of the loop from the minute `from` on.
unfoldable pub slots_from : Availability → (date now fuel from : ℕ) → List Slot
slots_from a date now zero from = []
slots_from a date now (suc fuel) from =
    let rest = slots_from a date now fuel (from + a.slot_duration + a.buffer_time) in
    if leb (from + a.slot_duration) a.end_time
    then if is_offered a date now from
      then record { start_time = from; end_time = from + a.slot_duration } ∷ rest
      else rest
    else []

-- `computeSlotsForDate`
unfoldable pub compute_slots_for_date : Availability → (date now : ℕ) → List Slot
compute_slots_for_date a date now =
    if a.status then slots_from a date now (a.end_time + 1) a.start_time else []
