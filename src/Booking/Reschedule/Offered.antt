-- ===== src/Booking/Reschedule/Offered.antt =====
-- A time that a mentor offers.
use mathlib.Core.List.{Memᴰ}
use upstride_api.Base.{
  ℕ, ◌+◌, ◌/◌, ◌%◌, ◌≤◌, ◌≡◌, ◌⊎◌, refl, inl, inr, Bool, true, false, ◌&&◌, List, [], ◌∷◌, any,
  filter, arith, ltb, ==_iff, Bool-cases, All,
}
use upstride_api.Store.{
  World, Availability, BreakTime, find_active_by_mentor_and_date, has_day, day_ms,
}
use upstride_api.Booking.Reschedule.{is_within_availability, meets_break}

-- The minutes of a time since midnight, on the clock of India.
abbrev pub minute_of_day : ℕ → ℕ
minute_of_day t = (t + 19800000) / 60000 % 1440

-- An active rule of the mentor has the day, from its first to its last date and on its days of the week;
-- it covers the minutes, and each of its breaks is over by then or comes after.
abbrev pub IsOfferedBy : (mentor start end : ℕ) → Availability → Type 0
IsOfferedBy mentor start end a =
    (a.mentor_id ≡ mentor)
    × ((a.status ≡ true)
        × ((a.start_date ≤ start / day_ms)
            × ((start / day_ms ≤ a.end_date)
                × ((has_day ((start / day_ms + 4) % 7) a.days ≡ true)
                    × ((a.start_time ≤ minute_of_day start)
                        × ((minute_of_day end ≤ a.end_time)
                            × All
                                (λ k.
                                  (k.end_time ≤ minute_of_day start)
                                  ⊎ (minute_of_day end ≤ k.start_time))
                                a.break_times))))))

any-filter-true :
    {A : Type 0} (p q : A → Bool) (xs : List A)
    → any p (filter q xs) ≡ true
    → (x : A) × (Memᴰ x xs × ((q x ≡ true) × (p x ≡ true)))
any-filter-true p q [] h = absurd (ground arith)
any-filter-true p q (x ∷ xs) h = elim (Bool-cases (q x && p x)) [
  | inl t ↦ (x, (Memᴰ.head refl, (ground arith, ground arith)))
  | inr n ↦ let (y, (m, e)) = any-filter-true p q xs (ground arith) in (y, (Memᴰ.tail m, e))
]

breaks_apart :
    (from until : ℕ) (ks : List BreakTime)
    → any (meets_break from until) ks ≡ false
    → All (λ k. (k.end_time ≤ from) ⊎ (until ≤ k.start_time)) ks
breaks_apart from until [] h = tt
breaks_apart from until (k ∷ ks) h = (
  elim (Bool-cases (ltb from k.end_time)) [
    | inl t ↦ inr (ground arith)
    | inr n ↦ inl (ground arith)
  ],
  breaks_apart from until ks (ground arith),
)

pub is_within_availability-IsOfferedBy :
    (mentor start end : ℕ) (w : World)
    → is_within_availability start end (find_active_by_mentor_and_date mentor start w) ≡ true
    → (a : Availability) × (Memᴰ a w.availabilities × IsOfferedBy mentor start end a)
unfolding is_within_availability find_active_by_mentor_and_date
is_within_availability-IsOfferedBy mentor start end w h =
    let (a, (m, (active, fit))) = any-filter-true _ _ w.availabilities h in
    let apart =
      breaks_apart (minute_of_day start) (minute_of_day end) a.break_times (ground arith) in
    (
      a,
      (
        m,
        (
          ground (arith, ==_iff a.mentor_id mentor),
          (
            ground arith,
            (ground arith, (ground arith, (ground arith, (ground arith, (ground arith, apart))))),
          ),
        ),
      ),
    )
