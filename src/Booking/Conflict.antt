-- ===== src/Booking/Conflict.antt =====
-- src/application/modules/booking/utils/check-booking-conflict.util.ts
pub mod Clear
use upstride_api.Base.{ℕ, Bool, not, ◌&&◌, ◌||◌, Option, none, some, any, ◌==◌, eq_option}
use upstride_api.Store.{World, Booking, find_mentor_by_user, find_overlapping_for_user, is_paid}

abbrev pub own_mentor_id : ℕ → World → Option ℕ
own_mentor_id user_id w = elim (find_mentor_by_user user_id w) [ none ↦ none | some m ↦ some m.id ]

abbrev pub blocks : ℕ → Option ℕ → Option ℕ → Booking → Bool
blocks user_id mentor_id exclude b =
    not (eq_option exclude b.id)
    && (is_paid b.payment_status || (b.mentee_id == user_id || eq_option mentor_id b.mentor_id))

-- Whether the user has another booking, as mentor or as mentee, in the time.
unfoldable pub check_booking_conflict : ℕ → ℕ → ℕ → Option ℕ → World → Bool
check_booking_conflict user_id from until exclude w =
    let mentor_id = own_mentor_id user_id w in
    any (blocks user_id mentor_id exclude)
      (find_overlapping_for_user user_id mentor_id from until w)
