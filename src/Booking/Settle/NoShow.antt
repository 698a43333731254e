-- ===== src/Booking/Settle/NoShow.antt =====
-- What a missed session does to the mentor's profile.
use upstride_api.Base.{
  ℕ, ◌+◌, ◌≡◌, inl, inr, true, false, none, some, List, [], ◌∷◌, map, arith, if◌then◌else◌,
  Bool-cases, leb,
}
use upstride_api.Store.{
  World, Booking, Mentor, find_booking, find_key, mentor_key, find_key-update_self, find_mentor,
  find_mentor_by_user, mentor_user_id, is_paid, create_notification, increment_balance,
  create_coin_transaction, create_payment, increment_platform_balance, update_mentor,
  update_booking,
}
use upstride_api.Money.{calculate}
use upstride_api.Wallet.{credit}
use upstride_api.Payment.Refund.{refund_platform}
use upstride_api.Booking.Settle.{
  record_no_show, block_mentor, block_mentor_of, refund_booked_user, settle_no_show, settle_paid,
  settle_found, settle_ended_session, mentor_joined, with_skipped,
}
use upstride_api.Booking.Settle.Once.{settle-some}
use upstride_api.Booking.Settle.Balances.{record_no_show_lem, block_mentor_ok}

abbrev missed : Mentor → Mentor
missed m = with_skipped (m.skipped_sessions_count + 1) m

find_mentor-record_no_show :
    (m : Mentor) (w : World)
    → find_mentor m.id w ≡ some m
    → find_mentor_by_user m.user_id w ≡ some m
    → find_mentor m.id (record_no_show m.user_id w).1 ≡ some (missed m)
unfolding record_no_show update_mentor
find_mentor-record_no_show m w e f = ground (
  arith,
  find_key-update_self mentor_key m.id (with_skipped (m.skipped_sessions_count + 1)) w.mentors m,
)

find_key-map :
    (i u : ℕ) (ms : List Mentor) (m : Mentor)
    → find_key mentor_key i ms ≡ some m
    → find_key mentor_key i (map (block_mentor_of u) ms) ≡ some (block_mentor_of u m)
find_key-map i u [] m e = ground arith
find_key-map i u (x ∷ ms) m e = ground (arith, find_key-map i u ms m)

find_mentor-block_mentor :
    (i u : ℕ) (m : Mentor) (w : World)
    → find_mentor i w ≡ some m
    → find_mentor i (block_mentor u w).1 ≡ some (block_mentor_of u m)
unfolding block_mentor create_notification
find_mentor-block_mentor i u m w e = find_key-map i u w.mentors m e

refund_booked_user-mentors :
    (b : Booking) (a m : ℕ) (w : World) → (refund_booked_user b a m w).1.mentors ≡ w.mentors
unfolding refund_booked_user credit increment_balance create_coin_transaction create_notification
    refund_platform create_payment increment_platform_balance
refund_booked_user-mentors b a m w = ground arith

-- The mentor's profile after a missed session.
abbrev pub after_missing : Mentor → Mentor
after_missing m = record m {
  skipped_sessions_count = m.skipped_sessions_count + 1;
  is_user_blocked = if leb 1 m.skipped_sessions_count then true else m.is_user_blocked;
}

-- Settling a paid booking whose mentor never joined counts a missed session against the mentor, and
-- blocks the profile of one who had missed a session before. Nothing else of the profile changes. The
-- booking's status does not matter: a cancelled booking counts as missed as well.
pub mentor-settle :
    (i : ℕ) (w : World) (b : Booking) (m : Mentor)
    → find_booking i w ≡ some b
    → b.settled_at ≡ none
    → is_paid b.payment_status ≡ true
    → mentor_joined b ≡ false
    → mentor_user_id w b ≡ some m.user_id
    → find_mentor m.id w ≡ some m
    → find_mentor_by_user m.user_id w ≡ some m
    → find_mentor m.id (settle_ended_session i w).1 ≡ some (after_missing m)
unfolding settle_found settle_paid settle_no_show update_booking
mentor-settle i w b m e unsettled paid absent mu f g =
    let a = calculate b.payment_type b.total_amount in
    let w1 = (record_no_show m.user_id w).1 in
    elim (Bool-cases (leb 1 m.skipped_sessions_count)) [
      | inl again ↦ ground (
        arith,
        settle-some i w b e,
        record_no_show_lem m.user_id m w,
        find_mentor-record_no_show m w,
        block_mentor_ok m.user_id w1,
        find_mentor-block_mentor m.id m.user_id (missed m) w1,
        refund_booked_user-mentors b a.refund_coins a.refund_minor (block_mentor m.user_id w1).1,
      )
      | inr first ↦ ground (
        arith,
        settle-some i w b e,
        record_no_show_lem m.user_id m w,
        find_mentor-record_no_show m w,
      )
    ]
