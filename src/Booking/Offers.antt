-- ===== src/Booking/Offers.antt =====
-- src/application/modules/booking/use-cases/get-available-slots.use-case.ts: what a mentor's slots of a
-- day look like to a mentee.
pub mod Found
pub mod Complete
use upstride_api.Base.{
  ℕ, ◌+◌, ◌-◌, ◌*◌, ◌/◌, Bool, true, false, not, ◌&&◌, ◌||◌, Option, none, some, List, [], ◌∷◌,
  ◌++◌, ltb, leb, ◌==◌, find, any, get_or, if◌then◌else◌,
}
use upstride_api.Store.{
  Action, World, Booking, Availability, PaymentStatus, Error, pure, raise, find_mentor,
  find_active_by_mentor_and_date, find_by_mentor_and_date, overlaps, is_paid, is_payment_pending,
  is_started, is_confirmed, day_ms, ist_offset_ms,
}
use upstride_api.Money.{round_div}
use upstride_api.Availability.Slots.{Slot, minute_ms, compute_slots_for_date}

pub data SlotStatus : Type 0 where
  available booked_pending : SlotStatus

-- The price is in units of a coin.
pub record SlotDto : Type 0 where
  pub start_time : ℕ
  pub end_time : ℕ
  pub duration_minutes : ℕ
  pub price : ℕ
  pub status : SlotStatus
  pub booking_id : Option ℕ
  pub booking_payment_status : Option PaymentStatus

-- `istDateStringTimeToUtcIso`: a minute of a day on the clock of India.
abbrev pub ist_time : (day minutes : ℕ) → ℕ
ist_time day minutes = day * day_ms + minutes * minute_ms - ist_offset_ms

-- A booking that takes the slot away: paid for, started or confirmed.
abbrev pub is_taken : Booking → Bool
is_taken b = is_paid b.payment_status || (is_started b.status || is_confirmed b.status)

abbrev pub owns_pending : (requester : ℕ) → Booking → Bool
owns_pending requester b = is_payment_pending b.payment_status && b.mentee_id == requester

-- The slot as it is shown, beside the first booking that overlaps it.
unfoldable pub slot_dto : (price_per_30_min requester start end : ℕ) → Option Booking → SlotDto
slot_dto price_per_30_min requester start end none = record {
  start_time = start;
  end_time = end;
  duration_minutes = round_div (end - start) minute_ms;
  price = round_div (end - start) minute_ms * price_per_30_min * 120000;
  status = SlotStatus.available;
  booking_id = none;
  booking_payment_status = none;
}
slot_dto price_per_30_min requester start end (some b) = record {
  start_time = start;
  end_time = end;
  duration_minutes = round_div (end - start) minute_ms;
  price = round_div (end - start) minute_ms * price_per_30_min * 120000;
  status = if owns_pending requester b then SlotStatus.booked_pending else SlotStatus.available;
  booking_id = if owns_pending requester b then some b.id else none;
  booking_payment_status = if owns_pending requester b then some b.payment_status else none;
}

abbrev pub is_taken_by : Option Booking → Bool
is_taken_by none = false
is_taken_by (some b) = is_taken b

-- `existingBookings.find(...)`
abbrev pub first_overlapping : List Booking → (start end : ℕ) → Option Booking
first_overlapping bookings start end = find (overlaps start end) bookings

module _ (bookings : List Booking) (price_per_30_min requester day : ℕ) where
  -- The turns of the inner loop.
  unfoldable pub offer_slots : List Slot → List SlotDto
  offer_slots [] = []
  offer_slots (s ∷ ss) =
      let rest = offer_slots ss in
      let start = ist_time day s.start_time in
      let end = ist_time day s.end_time in
      let overlapping = first_overlapping bookings start end in
      if is_taken_by overlapping
      then rest
      else slot_dto price_per_30_min requester start end overlapping ∷ rest

  -- The turns of the outer loop.
  unfoldable pub offer_all : (now : ℕ) → List Availability → List SlotDto
  offer_all now [] = []
  offer_all now (a ∷ rules) = offer_slots (compute_slots_for_date a day now) ++ offer_all now rules

abbrev pub same_times : SlotDto → SlotDto → Bool
same_times a b = a.start_time == b.start_time && a.end_time == b.end_time

abbrev pub either_status : SlotStatus → SlotStatus → SlotStatus
either_status SlotStatus.booked_pending s = SlotStatus.booked_pending
either_status SlotStatus.available s = s

abbrev pub first_some {ℓ} : {A : Type ℓ} → Option A → Option A → Option A
first_some none o = o
first_some (some a) o = some a

-- `{ ...existing, ...slot, ... }`
abbrev pub merged : (existing slot : SlotDto) → SlotDto
merged existing slot = record slot {
  status = either_status existing.status slot.status;
  booking_id = first_some existing.booking_id slot.booking_id;
  booking_payment_status = first_some existing.booking_payment_status slot.booking_payment_status;
}

-- `uniqueSlotsMap.set`: a key that is there keeps its place.
unfoldable pub set_slot : SlotDto → List SlotDto → List SlotDto
set_slot slot [] = slot ∷ []
set_slot slot (d ∷ ds) = if same_times d slot then merged d slot ∷ ds else d ∷ set_slot slot ds

unfoldable pub set_slots : List SlotDto → List SlotDto → List SlotDto
set_slots [] map = map
set_slots (slot ∷ slots) map = set_slots slots (set_slot slot map)

-- `uniqueSlots.sort`, which keeps the order of slots that start at one time.
unfoldable pub insert_slot : SlotDto → List SlotDto → List SlotDto
insert_slot slot [] = slot ∷ []
insert_slot slot (d ∷ ds) =
    if leb slot.start_time d.start_time then slot ∷ d ∷ ds else d ∷ insert_slot slot ds

unfoldable pub sort_slots : List SlotDto → List SlotDto
sort_slots [] = []
sort_slots (slot ∷ slots) = insert_slot slot (sort_slots slots)

-- What follows the search for the rules of the day.
unfoldable pub slots_of_rules :
    (mentor_id requester date : ℕ) → List Availability → Action (List SlotDto)
slots_of_rules mentor_id requester date [] w = pure [] w
slots_of_rules mentor_id requester date (a ∷ rules) w = elim (find_mentor mentor_id w) [
  | none ↦ raise Error.not_found w
  | some m ↦
      let bookings = find_by_mentor_and_date false mentor_id date w in
      let price = get_or m.current_price_per_30_min 0 in
      let slots = offer_all bookings price requester (date / day_ms) w.now (a ∷ rules) in
      pure (sort_slots (set_slots slots [])) w
]

-- `GetAvailableSlotsUseCase.execute`. The date is none where it is not a date.
unfoldable pub get_available_slots : (mentor_id requester : ℕ) → Option ℕ → Action (List SlotDto)
get_available_slots mentor_id requester none w = raise Error.validation w
get_available_slots mentor_id requester (some date) w =
    slots_of_rules mentor_id requester date (find_active_by_mentor_and_date mentor_id date w) w

-- A slot of these times is among the slots.
abbrev pub shows : (start end : ℕ) → List SlotDto → Bool
shows start end = any (λ d. d.start_time == start && d.end_time == end)
