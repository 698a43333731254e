-- ===== src/Payment/Confirm/Slots.antt =====
-- What taking the slots of the unpaid siblings does to the bookings.
use upstride_api.Base.{
  ℕ, ◌≡◌, refl, Bool, false, none, some, List, [], ◌∷◌, arith, ◌==◌, any, filter, ==_iff,
}
use upstride_api.Store.{
  World, Booking, ok, find_key, update_key, booking_key, find_key-update_ne, update_booking,
}
use upstride_api.Payment.Confirm.{lose_slot, take_slots}

unfoldable pub lost : List Booking → List Booking → List Booking
lost [] bs = bs
lost (s ∷ ss) bs = lost ss (update_key booking_key s.id lose_slot bs)

pub take_slots_lem :
    (ss : List Booking) (w : World)
    → take_slots ss w ≡ (ok tt, record w { bookings = lost ss w.bookings })
unfolding take_slots lost update_booking
take_slots_lem [] w = refl
take_slots_lem (s ∷ ss) w =
    take_slots_lem ss (record w { bookings = update_key booking_key s.id lose_slot w.bookings })

-- The list has a booking of this id.
abbrev pub has_id : ℕ → List Booking → Bool
has_id i = any (λ b. b.id == i)

pub find_key-lost :
    (i : ℕ) (ss bs : List Booking)
    → has_id i ss ≡ false
    → find_key booking_key i (lost ss bs) ≡ find_key booking_key i bs
unfolding lost
find_key-lost i [] bs h = refl
find_key-lost i (s ∷ ss) bs h = ground (
  arith,
  ==_iff s.id i,
  find_key-lost i ss (update_key booking_key s.id lose_slot bs),
  find_key-update_ne booking_key s.id i lose_slot bs (λ b. refl),
)

-- No two bookings have one id: `_id` is the collection's key.
abbrev pub IsUnique : List Booking → Type 0
IsUnique [] = Unit
IsUnique (b ∷ bs) = (find_key booking_key b.id bs ≡ none) × IsUnique bs

has_id-filter-none :
    (i : ℕ) (p : Booking → Bool) (bs : List Booking)
    → find_key booking_key i bs ≡ none
    → has_id i (filter p bs) ≡ false
has_id-filter-none i p [] h = refl
has_id-filter-none i p (b ∷ bs) h = ground (arith, has_id-filter-none i p bs)

-- The booking of an id is the only one that a filter can leave of it.
pub has_id-filter :
    (i : ℕ) (p : Booking → Bool) (bs : List Booking) (b : Booking)
    → IsUnique bs
    → find_key booking_key i bs ≡ some b
    → p b ≡ false
    → has_id i (filter p bs) ≡ false
has_id-filter i p [] b u e h = refl
has_id-filter i p (c ∷ bs) b u e h =
    ground (arith, has_id-filter i p bs b u.1, has_id-filter-none i p bs, ==_iff c.id i)
