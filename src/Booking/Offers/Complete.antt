-- ===== src/Booking/Offers/Complete.antt =====
-- Which slots are among those that are shown.
use upstride_api.Base.{
  ℕ, ◌/◌, ◌-◌, ◌*◌, ◌≡◌, refl, subst, ◌∙◌, inl, inr, Bool, true, false, ◌==◌, ==_iff, ◌&&◌, ◌||◌,
  List, [], ◌∷◌, ◌++◌, Option, none, some, arith, Bool-cases, get_or,
}
use mathlib.Core.List.{Memᴰ}
use upstride_api.Store.{
  World, Booking, Availability, ok, find_mentor, Mentor, find_active_by_mentor_and_date,
  find_by_mentor_and_date, day_ms,
}
use upstride_api.Money.{round_div}
use upstride_api.Availability.Slots.{Slot, minute_ms, compute_slots_for_date}
use upstride_api.Booking.Offers.{
  SlotDto, ist_time, slot_dto, is_taken_by, shows, first_overlapping, offer_slots, offer_all,
  set_slot, set_slots, insert_slot, sort_slots, slots_of_rules, get_available_slots,
}

shows-++ :
    (start end : ℕ) (xs ys : List SlotDto)
    → shows start end (xs ++ ys) ≡ (shows start end xs || shows start end ys)
shows-++ start end [] ys = refl
shows-++ start end (x ∷ xs) ys = ground (arith, shows-++ start end xs ys)

shows-set_slot :
    (start end : ℕ) (slot : SlotDto) (ds : List SlotDto)
    → shows start end (set_slot slot ds)
      ≡ ((slot.start_time == start && slot.end_time == end) || shows start end ds)
unfolding set_slot
shows-set_slot start end slot [] = refl
shows-set_slot start end slot (d ∷ ds) = ground (
  arith,
  shows-set_slot start end slot ds,
  ==_iff d.start_time slot.start_time,
  ==_iff d.end_time slot.end_time,
)

shows-set_slots :
    (start end : ℕ) (slots map : List SlotDto)
    → shows start end (set_slots slots map) ≡ (shows start end slots || shows start end map)
unfolding set_slots
shows-set_slots start end [] map = refl
shows-set_slots start end (slot ∷ slots) map =
    ground (
      arith,
      shows-set_slots start end slots (set_slot slot map),
      shows-set_slot start end slot map,
    )

shows-insert_slot :
    (start end : ℕ) (slot : SlotDto) (ds : List SlotDto)
    → shows start end (insert_slot slot ds)
      ≡ ((slot.start_time == start && slot.end_time == end) || shows start end ds)
unfolding insert_slot
shows-insert_slot start end slot [] = refl
shows-insert_slot start end slot (d ∷ ds) = ground (arith, shows-insert_slot start end slot ds)

shows-sort_slots :
    (start end : ℕ) (ds : List SlotDto) → shows start end (sort_slots ds) ≡ shows start end ds
unfolding sort_slots
shows-sort_slots start end [] = refl
shows-sort_slots start end (d ∷ ds) =
    ground (arith, shows-sort_slots start end ds, shows-insert_slot start end d (sort_slots ds))

or_true : (a b : Bool) → b ≡ true → (a || b) ≡ true
or_true true b h = refl
or_true false b h = h

pub slot_dto_times :
    (price requester start end : ℕ) (o : Option Booking)
    → let d = slot_dto price requester start end o in
      (d.start_time ≡ start)
      × ((d.end_time ≡ end) × (d.price ≡ round_div (end - start) minute_ms * price * 120000))
unfolding slot_dto
slot_dto_times price requester start end none = (refl, (refl, refl))
slot_dto_times price requester start end (some b) = (refl, (refl, refl))

module _ (bookings : List Booking) (price requester day : ℕ) where
  offer_slots-shows :
      (s : Slot) (ss : List Slot)
      → Memᴰ s ss
      → let start = ist_time day s.start_time in
        let end = ist_time day s.end_time in
        is_taken_by (first_overlapping bookings start end) ≡ false
        → shows start end (offer_slots bookings price requester day ss) ≡ true
  unfolding offer_slots
  offer_slots-shows s [] m free = elim m [ ]
  offer_slots-shows s (x ∷ ss) (Memᴰ.head e) free =
      let start = ist_time day s.start_time in
      let end = ist_time day s.end_time in
      let o = first_overlapping bookings start end in
      let (ts, te) = slot_dto_times price requester start end o in
      let first : shows start end
            (slot_dto price requester start end o ∷ offer_slots bookings price requester day ss)
          ≡ true =
        rw (ts, te) (ground (arith, ==_iff start start, ==_iff end end)) in
      subst (λ y. shows start end (offer_slots bookings price requester day (y ∷ ss)) ≡ true) e
        (rw free first)
  offer_slots-shows s (x ∷ ss) (Memᴰ.tail m) free =
      let rest = offer_slots-shows s ss m free in
      elim (Bool-cases (
        is_taken_by
          (first_overlapping bookings (ist_time day x.start_time) (ist_time day x.end_time)))) [
            | inl taken ↦ rw taken rest
            | inr t ↦ rw t (or_true _ _ rest)
          ]

  offer_all-shows :
      (now : ℕ) (a : Availability) (rules : List Availability) (s : Slot)
      → Memᴰ a rules
      → Memᴰ s (compute_slots_for_date a day now)
      → let start = ist_time day s.start_time in
        let end = ist_time day s.end_time in
        is_taken_by (first_overlapping bookings start end) ≡ false
        → shows start end (offer_all bookings price requester day now rules) ≡ true
  unfolding offer_all
  offer_all-shows now a [] s m k free = elim m [ ]
  offer_all-shows now a (b ∷ rules) s (Memᴰ.head e) k free =
      let start = ist_time day s.start_time in
      let end = ist_time day s.end_time in
      let shown = offer_slots-shows s (compute_slots_for_date a day now) k free in
      subst (λ y. shows start end (offer_all bookings price requester day now (y ∷ rules)) ≡ true) e
        (rw
          (
            shows-++ start end
                (offer_slots bookings price requester day (compute_slots_for_date a day now))
                (offer_all bookings price requester day now rules),
            shown,
          )
          refl)
  offer_all-shows now a (b ∷ rules) s (Memᴰ.tail m) k free =
      let start = ist_time day s.start_time in
      let end = ist_time day s.end_time in
      let rest = offer_all-shows now a rules s m k free in
      rw
        (shows-++ start end
          (offer_slots bookings price requester day (compute_slots_for_date b day now))
          (offer_all bookings price requester day now rules))
        (or_true _ _ rest)

slots_of_rules-shows :
    (mentor_id requester date : ℕ) (a : Availability) (s : Slot) (rules : List Availability)
    (w : World) (m : Mentor)
    → find_mentor mentor_id w ≡ some m
    → Memᴰ a rules
    → Memᴰ s (compute_slots_for_date a (date / day_ms) w.now)
    → let start = ist_time (date / day_ms) s.start_time in
      let end = ist_time (date / day_ms) s.end_time in
      is_taken_by (first_overlapping (find_by_mentor_and_date false mentor_id date w) start end)
        ≡ false
      → (slots : List SlotDto) × ((slots_of_rules mentor_id requester date rules w ≡ (ok slots, w))
          × (shows start end slots ≡ true))
unfolding slots_of_rules
slots_of_rules-shows mentor_id requester date a s [] w m f h k free = elim h [ ]
slots_of_rules-shows mentor_id requester date a s (b ∷ rules) w m f h k free =
    let day = date / day_ms in
    let start = ist_time day s.start_time in
    let end = ist_time day s.end_time in
    let bookings = find_by_mentor_and_date false mentor_id date w in
    let price = get_or m.current_price_per_30_min 0 in
    let slots = offer_all bookings price requester day w.now (b ∷ rules) in
    let shown : shows start end (sort_slots (set_slots slots [])) ≡ true =
      shows-sort_slots start end (set_slots slots [])
      ∙ (shows-set_slots start end slots []
          ∙ rw (offer_all-shows bookings price requester day w.now a (b ∷ rules) s h k free)
              refl) in
    (sort_slots (set_slots slots []), (ground arith, shown))

-- Where the mentor is found, no free slot is left out: a slot of any of the mentor's active rules of
-- that day is among those that are returned, by its times, if the first booking that overlaps it does
-- not take it.
pub get_available_slots-shows :
    (mentor_id requester date : ℕ) (a : Availability) (s : Slot) (w : World) (m : Mentor)
    → find_mentor mentor_id w ≡ some m
    → Memᴰ a (find_active_by_mentor_and_date mentor_id date w)
    → Memᴰ s (compute_slots_for_date a (date / day_ms) w.now)
    → let start = ist_time (date / day_ms) s.start_time in
      let end = ist_time (date / day_ms) s.end_time in
      is_taken_by (first_overlapping (find_by_mentor_and_date false mentor_id date w) start end)
        ≡ false
      → (slots : List SlotDto) × ((get_available_slots mentor_id requester (some date) w
            ≡ (ok slots, w))
          × (shows start end slots ≡ true))
unfolding get_available_slots
get_available_slots-shows mentor_id requester date a s w m f h k free =
    slots_of_rules-shows mentor_id requester date a s
      (find_active_by_mentor_and_date mentor_id date w) w m f h k free
