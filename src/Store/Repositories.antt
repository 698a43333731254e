-- ===== src/Store/Repositories.antt =====
-- The repositories' methods on the state (src/infrastructure/database/mongodb/repositories).
use upstride_api.Base.{
  ℕ, ◌+◌, Option, none, some, [], ◌∷◌, ◌++◌, ℤ, ◌+ℤ◌, pos, ltb_ℤ, max, if◌then◌else◌,
}
use upstride_api.Store.Docs.{Booking, User, Mentor, Availability}
use upstride_api.Store.Collection.{find_key, update_key}
use upstride_api.Store.State.{World, Action, Result, user_not_found, entity_validation}

abbrev pub booking_key : Booking → ℕ
booking_key b = b.id

abbrev pub user_key : User → ℕ
user_key u = u.id

abbrev pub mentor_key : Mentor → ℕ
mentor_key m = m.id

abbrev pub find_booking : ℕ → World → Option Booking
find_booking i w = find_key booking_key i w.bookings

abbrev pub find_user : ℕ → World → Option User
find_user i w = find_key user_key i w.users

abbrev pub find_mentor : ℕ → World → Option Mentor
find_mentor i w = find_key mentor_key i w.mentors

-- `findOne({ userId })`
abbrev pub find_mentor_by_user : ℕ → World → Option Mentor
find_mentor_by_user i w = find_key (λ (m : Mentor). m.user_id) i w.mentors

-- The `mentorUserId` that `BookingRepository.findById` populates: the user of the booking's mentor,
-- if that user is there.
abbrev pub mentor_user_id : World → Booking → Option ℕ
mentor_user_id w b = elim (find_mentor b.mentor_id w) [
  | none ↦ none
  | some m ↦ elim (find_user m.user_id w) [ none ↦ none | some u ↦ some m.user_id ]
]

unfoldable pub update_booking : ℕ → (Booking → Booking) → Action (Unit {0})
update_booking i f w = (Result.ok tt, record w { bookings = update_key booking_key i f w.bookings })

unfoldable pub create_booking_doc : Booking → Action (Unit {0})
create_booking_doc b w = (Result.ok tt, record w { bookings = w.bookings ++ b ∷ [] })

unfoldable pub update_mentor : ℕ → (Mentor → Mentor) → Action (Unit {0})
update_mentor i f w = (Result.ok tt, record w { mentors = update_key mentor_key i f w.mentors })

-- `$max: { lastSessionAt: completedAt }` writes the later date, and any date over none.
abbrev later : Option ℕ → ℕ → ℕ
later none t = t
later (some s) t = max s t

unfoldable pub record_completed_session : ℕ → ℕ → Action (Unit {0})
record_completed_session i completed_at = update_mentor i λ m. record m {
  total_sessions = m.total_sessions + 1;
  last_session_at = some (later m.last_session_at completed_at);
}

abbrev pub add_coins : ℤ → User → User
add_coins amount u = record u { coin_balance = u.coin_balance +ℤ amount }

-- `UserRepository.incrementBalance`
unfoldable pub increment_balance : ℕ → ℤ → Action (Unit {0})
increment_balance i amount w = elim (find_user i w) [
  | none ↦ (Result.err user_not_found, w)
  | some u ↦ (Result.ok tt, record w { users = update_key user_key i (add_coins amount) w.users })
]

-- `PlatformWalletRepository.incrementBalance`: the document is changed first, and the entity that
-- is built from it throws where the balance has become negative.
unfoldable pub increment_platform_balance : ℤ → Action (Unit {0})
increment_platform_balance amount w =
    let balance = w.platform_balance +ℤ amount in
    let w' = record w { platform_balance = balance } in
    (if ltb_ℤ balance (pos 0) then Result.err entity_validation else Result.ok tt, w')

abbrev pub availability_key : Availability → ℕ
availability_key a = a.id

abbrev pub find_availability : ℕ → World → Option Availability
find_availability i w = find_key availability_key i w.availabilities

unfoldable pub update_availability_doc : ℕ → (Availability → Availability) → Action (Unit {0})
update_availability_doc i f w =
    (Result.ok tt, record w { availabilities = update_key availability_key i f w.availabilities })

unfoldable pub create_availability_doc : Availability → Action (Unit {0})
create_availability_doc a w =
    (Result.ok tt, record w { availabilities = w.availabilities ++ a ∷ [] })
