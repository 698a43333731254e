-- ===== src/Availability/Slots/Window.antt =====
-- Where the slots of a day lie.
use upstride_api.Base.{
  ℕ, ◌+◌, ◌*◌, ◌≤◌, ◌<◌, ◌≡◌, refl, true, false, ◌==◌, ==_iff, List, [], ◌∷◌, any, All, arith,
}
use Prim.Native.Nat.{zero, suc}
use upstride_api.Store.{Availability, day_ms, ist_offset_ms}
use upstride_api.Availability.Slots.{
  Slot, minute_ms, overlaps_break, is_offered, slots_from, compute_slots_for_date,
}

-- A slot of the availability's length in its time, that begins after `now` and meets no break.
abbrev pub IsSlotOf : Availability → (date now : ℕ) → Slot → Type 0
IsSlotOf a date now s =
    (a.start_time ≤ s.start_time)
    × ((s.end_time ≡ s.start_time + a.slot_duration)
        × ((s.end_time ≤ a.end_time)
            × ((now + ist_offset_ms < date * day_ms + s.start_time * minute_ms)
                × (any (overlaps_break s.start_time s.end_time) a.break_times ≡ false))))

slots_from-IsSlotOf :
    (a : Availability) (date now fuel from : ℕ)
    → a.start_time ≤ from
    → All (IsSlotOf a date now) (slots_from a date now fuel from)
unfolding slots_from
slots_from-IsSlotOf a date now zero from h = tt
slots_from-IsSlotOf a date now (suc fuel) from h =
    ground (arith, slots_from-IsSlotOf a date now fuel (from + a.slot_duration + a.buffer_time))

-- Every slot that is offered for a date lies in the availability's time, has its length, begins
-- after the present and meets none of the breaks.
pub compute_slots_for_date-IsSlotOf :
    (a : Availability) (date now : ℕ)
    → All (IsSlotOf a date now) (compute_slots_for_date a date now)
unfolding compute_slots_for_date
compute_slots_for_date-IsSlotOf a date now =
    ground (arith, slots_from-IsSlotOf a date now (a.end_time + 1) a.start_time)

-- Where the slots are not empty, the loop over them ends: any two bounds on its turns that are beyond
-- the minutes left until the end of the availability's time give the same slots.
pub slots_from-enough :
    (a : Availability) (date now f g from : ℕ)
    → 0 < a.slot_duration
    → a.end_time < from + f
    → a.end_time < from + g
    → slots_from a date now f from ≡ slots_from a date now g from
unfolding slots_from
slots_from-enough a date now zero zero from d h k = refl
slots_from-enough a date now zero (suc g) from d h k = ground arith
slots_from-enough a date now (suc f) zero from d h k = ground arith
slots_from-enough a date now (suc f) (suc g) from d h k =
    ground (arith, slots_from-enough a date now f g (from + a.slot_duration + a.buffer_time) d)

-- The start of the turn `k` of the loop.
abbrev pub turn : Availability → (k from : ℕ) → ℕ
turn a zero from = from
turn a (suc k) from = turn a k (from + a.slot_duration + a.buffer_time)

turn_ge : (a : Availability) (k from : ℕ) → from ≤ turn a k from
turn_ge a zero from = ground arith
turn_ge a (suc k) from = ground (arith, turn_ge a k (from + a.slot_duration + a.buffer_time))

slots_from-turn :
    (a : Availability) (date now fuel k from : ℕ)
    → 0 < a.slot_duration
    → a.end_time < from + fuel
    → turn a k from + a.slot_duration ≤ a.end_time
    → is_offered a date now (turn a k from) ≡ true
    → any (λ s. s.start_time == turn a k from) (slots_from a date now fuel from) ≡ true
unfolding slots_from
slots_from-turn a date now zero k from d h e o = ground (arith, turn_ge a k from)
slots_from-turn a date now (suc fuel) zero from d h e o = ground (arith, ==_iff from from)
slots_from-turn a date now (suc fuel) (suc k) from d h e o = ground (
  arith,
  turn_ge a k (from + a.slot_duration + a.buffer_time),
  slots_from-turn a date now fuel k (from + a.slot_duration + a.buffer_time) d,
)

-- No slot is left out: a turn of the loop that ends by the end of the availability's time, is still
-- to come and meets no break is offered, if the availability is active and its slots are not empty.
pub compute_slots_for_date-turn :
    (a : Availability) (date now k : ℕ)
    → a.status ≡ true
    → 0 < a.slot_duration
    → turn a k a.start_time + a.slot_duration ≤ a.end_time
    → is_offered a date now (turn a k a.start_time) ≡ true
    → any (λ s. s.start_time == turn a k a.start_time) (compute_slots_for_date a date now) ≡ true
unfolding compute_slots_for_date
compute_slots_for_date-turn a date now k active d e o =
    ground (arith, slots_from-turn a date now (a.end_time + 1) k a.start_time d)

-- The next slots start at `from` or later, each at least the buffer after the one ahead has ended.
abbrev pub AreBuffered : Availability → ℕ → List Slot → Type 0
AreBuffered a from [] = Unit
AreBuffered a from (s ∷ ss) = (from ≤ s.start_time) × AreBuffered a (s.end_time + a.buffer_time) ss

AreBuffered-mono :
    (a : Availability) (i j : ℕ) (ss : List Slot) → i ≤ j → AreBuffered a j ss → AreBuffered a i ss
AreBuffered-mono a i j [] h k = tt
AreBuffered-mono a i j (s ∷ ss) h k = ground arith

slots_from-AreBuffered :
    (a : Availability) (date now fuel from : ℕ)
    → AreBuffered a from (slots_from a date now fuel from)
unfolding slots_from
slots_from-AreBuffered a date now zero from = tt
slots_from-AreBuffered a date now (suc fuel) from =
    let next = from + a.slot_duration + a.buffer_time in
    let rest = slots_from a date now fuel next in
    ground (
      arith,
      slots_from-AreBuffered a date now fuel next,
      AreBuffered-mono a from next rest (omega arith),
    )

-- Of two slots of a date that follow each other, the second starts at least the buffer after the
-- first has ended.
pub compute_slots_for_date-AreBuffered :
    (a : Availability) (date now : ℕ)
    → AreBuffered a a.start_time (compute_slots_for_date a date now)
unfolding compute_slots_for_date
compute_slots_for_date-AreBuffered a date now =
    ground (arith, slots_from-AreBuffered a date now (a.end_time + 1) a.start_time)
