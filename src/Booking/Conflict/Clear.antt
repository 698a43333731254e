-- ===== src/Booking/Conflict/Clear.antt =====
-- A time in which neither a mentor nor a mentee has another booking.
use upstride_api.Base.{
  ℕ, ◌≡◌, Bool, false, not, ◌&&◌, ◌||◌, Option, List, [], ◌∷◌, any, filter, arith, ltb, ◌==◌,
  eq_option, Bool-cases, All, All-ap, All-both, inl, inr,
}
use upstride_api.Store.{
  World, Booking, find_overlapping, find_overlapping_for_user, is_paid, holds_time,
}
use upstride_api.Booking.Conflict.{check_booking_conflict, own_mentor_id}

-- A booking stands in the way of a mentee's session with a mentor: it is another than the excluded one,
-- holds its time and shares some of the given one, and the mentee takes part in it, as mentee or, where
-- the mentee is a mentor, too, as mentor, or it is a paid one of the mentor.
abbrev pub is_in_the_way :
    (mentor mentee from until : ℕ) → (own : Option ℕ) → (exclude : Option ℕ) → Booking → Bool
is_in_the_way mentor mentee from until own exclude c =
    (not (eq_option exclude c.id)
      && (holds_time c && (ltb c.start_time until && ltb from c.end_time)))
    && (c.mentee_id == mentee
        || (eq_option own c.mentor_id || (c.mentor_id == mentor && is_paid c.payment_status)))

-- No booking stands in the way.
abbrev pub IsClear : (mentor mentee from until : ℕ) → (exclude : Option ℕ) → World → Type 0
IsClear mentor mentee from until exclude w =
    All (λ c. is_in_the_way mentor mentee from until (own_mentor_id mentee w) exclude c ≡ false)
      w.bookings

any-filter :
    {A : Type 0} (p q : A → Bool) (xs : List A)
    → any p (filter q xs) ≡ false
    → All (λ x. (q x && p x) ≡ false) xs
any-filter p q [] h = tt
any-filter p q (x ∷ xs) h = elim (Bool-cases (q x)) [
  | inl t ↦ let kept = any-filter p q xs (ground arith) in ground arith
  | inr t ↦ let kept = any-filter p q xs (ground arith) in ground arith
]

-- The checks of a new time find all that is in the way.
pub any-IsClear :
    (mentor mentee from until : ℕ) (exclude : Option ℕ) (taking : Booking → Bool) (w : World)
    → ((c : Booking)
        → taking c
          ≡ (not (eq_option exclude c.id) && (is_paid c.payment_status || c.mentee_id == mentee)))
    → any taking (find_overlapping mentor from until w) ≡ false
    → check_booking_conflict mentee from until exclude w ≡ false
    → IsClear mentor mentee from until exclude w
unfolding find_overlapping find_overlapping_for_user check_booking_conflict
any-IsClear mentor mentee from until exclude taking w e free idle =
    All-ap _
      (λ c. is_in_the_way mentor mentee from until (own_mentor_id mentee w) exclude c ≡ false)
      w.bookings (λ c h. ground (arith, e c))
      (All-both _ _ w.bookings (any-filter _ _ w.bookings free) (any-filter _ _ w.bookings idle))
