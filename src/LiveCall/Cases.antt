-- ===== src/LiveCall/Cases.antt =====
-- What each step of a live call does to the bookings.
use upstride_api.Base.{
  ℕ, Bool, List, ◌+◌, ◌≡◌, ◌⊎◌, inl, inr, true, false, not, ◌&&◌, ◌||◌, ◌==◌, Option, none, some,
  arith, Bool-cases, ltb, if◌then◌else◌, is_some, ◌≤◌, refl, get_or, ==_iff,
}
use upstride_api.Store.{
  World, Booking, BookingStatus, ok, err, is_err, Error, Result, find_booking, mentor_user_id,
  update_key, booking_key, update_booking, record_completed_session, update_mentor, is_completed,
  is_pending, is_confirmed, find_key-update_self, key-find_key,
}
use upstride_api.LiveCall.{
  validate_join_session, join_session, joined, terminate_session, terminated, create_feedback,
  JoinSessionOutput, JoinerRole, with_feedback, is_host, output_for, join_window_ms, one_minute_ms,
}

-- All guards of joining pass.
abbrev pub may_join : ℕ → Booking → World → Bool
may_join u b w =
    (is_host (mentor_user_id w b) u || b.mentee_id == u)
    && (not (is_pending b.status) && not (ltb (w.now + join_window_ms) b.start_time))

-- The mentor's user or the mentee, of a session that is not waiting for its payment, from five minutes
-- before its start on.
abbrev pub MayJoin : ℕ → Booking → World → Type 0
MayJoin u b w =
    ((mentor_user_id w b ≡ some u) ⊎ (b.mentee_id ≡ u))
    × ((is_pending b.status ≡ false) × (b.start_time ≤ w.now + 300000))

is_host-some : (m : Option ℕ) (u : ℕ) → is_host m u ≡ true → m ≡ some u
is_host-some none u h = ground arith
is_host-some (some m) u h = ground (arith, ==_iff m u)

may_join-MayJoin : (u : ℕ) (b : Booking) (w : World) → may_join u b w ≡ true → MayJoin u b w
may_join-MayJoin u b w h = elim (Bool-cases (is_host (mentor_user_id w b) u)) [
  | inl host ↦ (inl (is_host-some (mentor_user_id w b) u host), (ground arith, ground arith))
  | inr visitor ↦ (inr (ground (arith, ==_iff b.mentee_id u)), (ground arith, ground arith))
]

may_join_not : (u : ℕ) (b : Booking) (w : World) → may_join u b w ≡ false → ¬ MayJoin u b w
may_join_not u b w h (inl host, (paid, early)) =
    let a : is_host (mentor_user_id w b) u ≡ true = rw host (ground arith) in ground arith
may_join_not u b w h (inr visitor, (paid, early)) =
    let a : (b.mentee_id == u) ≡ true = (==_iff b.mentee_id u).1 visitor in ground arith

-- What a host who joins is told, and the booking that is then found.
abbrev pub IsHosted :
    (mentor : Option ℕ) → Booking → (now : ℕ) → JoinSessionOutput → Option Booking → ℕ → Type 0
IsHosted mentor b now o found u =
    (mentor ≡ some u)
    × ((o.other_user_id ≡ some b.mentee_id)
        × ((o.joiner_role ≡ JoinerRole.mentor)
            × (found
                ≡ some (record b {
                  status = if is_confirmed b.status then BookingStatus.started else b.status;
                  mentor_joined_at = some (get_or b.mentor_joined_at now);
                }))))

-- What a mentee who joins is told.
abbrev pub IsVisited :
    (mentor : Option ℕ) → Booking → JoinSessionOutput → Option Booking → ℕ → Type 0
IsVisited mentor b o found u =
    (b.mentee_id ≡ u)
    × ((o.other_user_id ≡ mentor) × ((o.joiner_role ≡ JoinerRole.mentee) × (found ≡ some b)))

-- The update of the host's arrival is due.
abbrev pub arrives : ℕ → Booking → World → Bool
arrives u b w =
    is_host (mentor_user_id w b) u && (is_confirmed b.status || not (is_some b.mentor_joined_at))

-- The guards of ending the session pass.
abbrev pub may_terminate : ℕ → Booking → World → Bool
may_terminate u b w = is_host (mentor_user_id w b) u && not (ltb (w.now + one_minute_ms) b.end_time)

abbrev pub may_give_feedback : ℕ → Booking → World → Bool
may_give_feedback u b w = is_host (mentor_user_id w b) u && is_completed b.status

-- A step that is refused throws and changes nothing; else it returns, and the bookings are as told.
abbrev pub Steps : {A : Type 0} → Bool → Result A × World → A → World → List Booking → Type 0
Steps may r a w bs =
    ((may ≡ false) × ((is_err r.0 ≡ true) × (r.1 ≡ w)))
    ⊎ ((may ≡ true) × ((r.0 ≡ ok a) × (r.1.bookings ≡ bs)))

module _ (i u : ℕ) (w : World) where
  pub join_session-none :
      find_booking i w ≡ none → join_session i u w ≡ (err Error.booking_not_found, w)
  unfolding join_session validate_join_session
  join_session-none e = ground arith

  pub terminate_session-none :
      (feedback : Option ℕ)
      → find_booking i w ≡ none
      → terminate_session i u feedback w ≡ (err Error.booking_not_found, w)
  unfolding terminate_session
  terminate_session-none feedback e = ground arith

  pub create_feedback-none :
      (text : ℕ)
      → find_booking i w ≡ none
      → create_feedback i u text w ≡ (err Error.booking_not_found, w)
  unfolding create_feedback
  create_feedback-none text e = ground arith

  module _ (b : Booking) (e : find_booking i w ≡ some b) where
    pub join_session_cases :
        Steps (may_join u b w) (join_session i u w) (output_for b (mentor_user_id w b) u) w (
          if arrives u b w
          then update_key booking_key b.id (joined b w.now) w.bookings
          else w.bookings)
    unfolding join_session validate_join_session update_booking
    join_session_cases = elim (Bool-cases (may_join u b w)) [
      | inl may ↦ inr (may, (ground arith, ground arith))
      | inr may_not ↦ inl (may_not, (ground arith, ground arith))
    ]

    pub terminate_session_cases :
        (feedback : Option ℕ)
        → Steps (may_terminate u b w) (terminate_session i u feedback w) tt w (
            if is_completed b.status
            then w.bookings
            else update_key booking_key b.id (terminated feedback) w.bookings)
    unfolding terminate_session update_booking record_completed_session update_mentor
    terminate_session_cases feedback = elim (Bool-cases (may_terminate u b w)) [
      | inl may ↦ inr (may, (ground arith, ground arith))
      | inr may_not ↦ inl (may_not, (ground arith, ground arith))
    ]

    pub create_feedback_cases :
        (text : ℕ)
        → Steps
            (may_give_feedback u b w)
            (create_feedback i u text w)
            tt
            w
            (update_key booking_key i (with_feedback text) w.bookings)
    unfolding create_feedback update_booking
    create_feedback_cases text = elim (Bool-cases (may_give_feedback u b w)) [
      | inl may ↦ inr (may, (ground arith, ground arith))
      | inr may_not ↦ inl (may_not, (ground arith, ground arith))
    ]

    -- A user who is not a participant, who comes before the session is paid for or more than five minutes
    -- early, is refused and nothing changes. Else the call returns, and the other participant is the
    -- mentee for the host and the mentor's user for the mentee; the host's arrival starts a confirmed
    -- session and is on record once, and else the booking stays as it was.
    pub join_session_lem :
        let r = join_session i u w in
        let mentor = mentor_user_id w b in
        (¬ MayJoin u b w × ((is_err r.0 ≡ true) × (r.1 ≡ w)))
        ⊎ (MayJoin u b w
            × ((o : JoinSessionOutput) × ((r.0 ≡ ok o)
                  × ((o.room_id ≡ b.id)
                      × (IsHosted mentor b w.now o (find_booking i r.1) u
                          ⊎ IsVisited mentor b o (find_booking i r.1) u)))))
    join_session_lem = elim join_session_cases [
      | inl (not_may, refused) ↦ inl (λ m. absurd (may_join_not u b w not_may m), refused)
      | inr (may, (returns, bs)) ↦ inr (
        may_join-MayJoin u b w may,
        (
          output_for b (mentor_user_id w b) u,
          (
            returns,
            (
              refl,
              elim (Bool-cases (is_host (mentor_user_id w b) u)) [
                | inl host ↦ inl (
                  is_host-some (mentor_user_id w b) u host,
                  (
                    rw host refl,
                    (
                      rw host refl,
                      ground (
                        arith,
                        key-find_key booking_key i w.bookings b e,
                        find_key-update_self booking_key i (joined b w.now) w.bookings b e,
                      ),
                    ),
                  ),
                )
                | inr visitor ↦ inr (
                  ground (arith, ==_iff b.mentee_id u),
                  (rw visitor refl, (rw visitor refl, ground arith)),
                )
              ],
            ),
          ),
        ),
      )
    ]
