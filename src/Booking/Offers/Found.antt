-- ===== src/Booking/Offers/Found.antt =====
-- What every slot that is shown has.
use upstride_api.Base.{ℕ, ◌≡◌, false, List}
use mathlib.Core.List.{Memᴰ}
use upstride_api.Store.{Booking, Availability}
use upstride_api.Money.{calculate_booking_amount}
use upstride_api.Availability.Slots.{Slot}
use upstride_api.Availability.Slots.Window.{IsSlotOf}
use upstride_api.Booking.Offers.{SlotDto, ist_time, slot_dto, is_taken_by, first_overlapping}

module _ (bookings : List Booking) (price requester day now : ℕ) where
  -- What a slot of these times is shown as.
  abbrev pub offer_at : (start end : ℕ) → SlotDto
  offer_at start end = slot_dto price requester start end (first_overlapping bookings start end)

  -- The slot is one of a rule's, it is still to come, its price is what a booking of its times costs in
  -- coins, and the first booking that overlaps it does not take it away.
  abbrev pub IsOffer : List Availability → SlotDto → Type 0
  IsOffer rules d =
      (a : Availability) × ((s : Slot) × (Memᴰ a rules
          × (IsSlotOf a day now s
              × ((d.start_time ≡ ist_time day s.start_time)
                  × ((d.end_time ≡ ist_time day s.end_time)
                      × ((d ≡ offer_at d.start_time d.end_time)
                          × ((d.price
                                ≡ (calculate_booking_amount price d.start_time
                                    d.end_time).total_amount_coins)
                              × (is_taken_by (first_overlapping bookings d.start_time d.end_time)
                                  ≡ false))))))))
