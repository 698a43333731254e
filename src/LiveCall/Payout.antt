-- ===== src/LiveCall/Payout.antt =====
-- The host's end of the session, and the settlement that follows it.
use upstride_api.Base.{
  ℕ, List, [], ◌∷◌, ◌*◌, ◌≡◌, refl, ap, ◌∙◌, inl, inr, true, false, Option, none, some, arith, ◌+ℤ◌,
  Bool-cases, eq_option, ==_iff,
}
use upstride_api.Store.{
  World, Booking, Mentor, ok, is_err, find_booking, find_user, mentor_user_id, update_key,
  booking_key, update_booking, record_completed_session, update_mentor, is_completed,
  find_key-update_self, key-find_key, unit, is_paid, mentor_key, user_key, find_key, User,
}
use upstride_api.Money.{calculate}
use upstride_api.Wallet.Balance.{balance}
use upstride_api.Booking.Settle.{settle_ended_session, settle_found, mentor_joined}
use upstride_api.Booking.Settle.Once.{settle-some}
use upstride_api.Booking.Settle.Balances.{share, settle_paid-users, balance-settle_joined}
use upstride_api.LiveCall.{terminate_session, terminated}
use upstride_api.LiveCall.Cases.{may_terminate}

balance-settle_attended :
    (j i u : ℕ) (w : World) (b : Booking)
    → find_booking i w ≡ some b
    → b.settled_at ≡ none
    → is_paid b.payment_status ≡ true
    → mentor_user_id w b ≡ some u
    → mentor_joined b ≡ true
    → is_err (settle_ended_session i w).0 ≡ false
    → balance (find_user j (settle_ended_session i w).1)
      ≡ balance (find_user j w)
        +ℤ share u j ((calculate b.payment_type b.total_amount).mentor_coins * unit)
unfolding settle_found
balance-settle_attended j i u w b e unsettled paid mu joined h = ground (
  arith,
  settle-some i w b e,
  settle_paid-users b (some u) w.now w,
  balance-settle_joined j b u w,
)

abbrev user_of : List User → Option Mentor → Option ℕ
user_of us none = none
user_of us (some m) = elim (find_key user_key m.user_id us) [
  | none ↦ none
  | some u ↦ some m.user_id
]

user_of-update :
    (i k : ℕ) (f : Mentor → Mentor) (us : List User) (ms : List Mentor)
    → ((m : Mentor) → ((f m).id ≡ m.id) × ((f m).user_id ≡ m.user_id))
    → user_of us (find_key mentor_key i (update_key mentor_key k f ms))
      ≡ user_of us (find_key mentor_key i ms)
unfolding update_key
user_of-update i k f us [] h = refl
user_of-update i k f us (m ∷ ms) h = ground (arith, h m, user_of-update i k f us ms h)

mentor_user_id-record_completed_session :
    (i t : ℕ) (w : World) (b : Booking)
    → mentor_user_id (record_completed_session i t w).1 b ≡ mentor_user_id w b
unfolding record_completed_session update_mentor
mentor_user_id-record_completed_session i t w b =
    user_of-update b.mentor_id i _ w.users w.mentors (λ m. (refl, refl))

eq_option-some : (o : Option ℕ) (u : ℕ) → eq_option o u ≡ true → o ≡ some u
eq_option-some none u h = ground arith
eq_option-some (some v) u h = ap some ((==_iff v u).0 h)

-- What ending a session that is not over leaves: the booking first, then the mentor's profile.
abbrev over : Option ℕ → Booking → World → World
over feedback b w =
    (record_completed_session b.mentor_id b.end_time
      (update_booking b.id (terminated feedback) w).1).1

module _ (i u : ℕ) (feedback : Option ℕ) (w : World) (b : Booking) (e : find_booking i w ≡ some b)
    (may : may_terminate u b w ≡ true) where
  terminate-completed : is_completed b.status ≡ true → terminate_session i u feedback w ≡ (ok tt, w)
  unfolding terminate_session
  terminate-completed c = ground arith

  terminate-over :
      is_completed b.status ≡ false → terminate_session i u feedback w ≡ (ok tt, over feedback b w)
  unfolding terminate_session update_booking record_completed_session update_mentor
  terminate-over c = ground arith

  find_booking-over : find_booking i (over feedback b w) ≡ some (terminated feedback b)
  unfolding record_completed_session update_booking update_mentor
  find_booking-over = ground (
    arith,
    key-find_key booking_key i w.bookings b e,
    find_key-update_self booking_key i (terminated feedback) w.bookings b e,
  )

  mentor_user_id-over :
      mentor_user_id (over feedback b w) (terminated feedback b) ≡ mentor_user_id w b
  unfolding update_booking
  mentor_user_id-over =
      mentor_user_id-record_completed_session b.mentor_id b.end_time
        (update_booking b.id (terminated feedback) w).1 b

  over-users : (over feedback b w).users ≡ w.users
  unfolding record_completed_session update_booking update_mentor
  over-users = refl

  host : mentor_user_id w b ≡ some u
  host = eq_option-some (mentor_user_id w b) u (ground arith)

  -- The host of a paid session that is not settled may end it from a minute before its end on, whatever
  -- its status: it also may be cancelled. The settlement that follows then pays the host the mentor's
  -- share of the price, and nobody else.
  pub balance-terminate_settle :
      (j : ℕ)
      → b.settled_at ≡ none
      → is_paid b.payment_status ≡ true
      → let ended = terminate_session i u feedback w in
        is_err (settle_ended_session i ended.1).0 ≡ false
        → (ended.0 ≡ ok tt)
          × (balance (find_user j (settle_ended_session i ended.1).1)
              ≡ balance (find_user j w)
                +ℤ share u j ((calculate b.payment_type b.total_amount).mentor_coins * unit))
  balance-terminate_settle j unsettled paid = elim (Bool-cases (is_completed b.status)) [
    | inl done ↦
        rw (terminate-completed done)
          (λ h. (refl, balance-settle_attended j i u w b e unsettled paid host (ground arith) h))
    | inr not_done ↦ rw (terminate-over not_done) (λ h. (
      refl,
      balance-settle_attended j i u (over feedback b w) (terminated feedback b) find_booking-over
            unsettled paid (mentor_user_id-over ∙ host) (ground arith) h
          ∙ ap
              (λ us.
                balance (find_key user_key j us)
                +ℤ share u j ((calculate b.payment_type b.total_amount).mentor_coins * unit))
              over-users,
    ))
  ]
