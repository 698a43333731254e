-- ===== src/Booking/Settle/Balances.antt =====
-- Who is paid by a settlement, and how much.
use upstride_api.Base.{
  ℕ, ◌+◌, ◌*◌, ◌≡◌, refl, inl, inr, true, false, Option, none, some, List, [], ◌∷◌, arith, ℤ, pos,
  ◌+ℤ◌, ◌==◌, if◌then◌else◌, Bool-cases, ltb, leb,
}
use upstride_api.Store.{
  World, Action, Booking, Mentor, User, ok, is_err, find_booking, find_user, find_key, update_key,
  user_key, find_mentor_by_user, mentor_user_id, unit, is_paid, CoinTransactionType,
  create_notification, create_payment, increment_platform_balance, update_mentor, update_booking,
  record_completed_session,
}
use upstride_api.Money.{calculate}
use upstride_api.Wallet.{credit}
use upstride_api.Wallet.Balance.{balance, +ℤ_zero, balance-credit}
use upstride_api.Booking.Cancel.Refunds.{refund_platform-users}
use upstride_api.Booking.Settle.{
  record_no_show, block_mentor, block_user, credit_mentor, refund_booked_user, settle_joined,
  settle_no_show, settle_paid, settle_found, settle_ended_session, mentor_joined,
  refund_notification,
}
use upstride_api.Booking.Settle.Once.{settle-some, after_end}

balance-block_user :
    (j m : ℕ) (us : List User)
    → balance (find_key user_key j (update_key user_key m block_user us))
      ≡ balance (find_key user_key j us)
unfolding update_key
balance-block_user j m [] = refl
balance-block_user j m (u ∷ us) = ground (arith, balance-block_user j m us)

balance-block_mentor :
    (j m : ℕ) (w : World) → balance (find_user j (block_mentor m w).1) ≡ balance (find_user j w)
unfolding block_mentor create_notification
balance-block_mentor j m w = balance-block_user j m w.users

pub block_mentor_ok : (m : ℕ) (w : World) → (block_mentor m w).0 ≡ ok tt
unfolding block_mentor create_notification
block_mentor_ok m w = refl

record_no_show-users : (m : ℕ) (w : World) → (record_no_show m w).1.users ≡ w.users
unfolding record_no_show update_mentor
record_no_show-users m w = ground arith

-- What `amount` units paid to user `i` add to the balance of user `j`.
abbrev pub share : ℕ → ℕ → ℕ → ℤ
share i j amount = if i == j then pos amount else pos 0

balance-refund_booked_user :
    (j : ℕ) (b : Booking) (a m : ℕ) (w : World)
    → is_err (refund_booked_user b a m w).0 ≡ false
    → balance (find_user j (refund_booked_user b a m w).1)
      ≡ balance (find_user j w) +ℤ share b.mentee_id j (a * unit)
unfolding refund_booked_user create_notification
balance-refund_booked_user j b a m w h = elim (Bool-cases (ltb 0 a)) [
  | inl some_amount ↦
      let w' = (credit b.mentee_id (a * unit) CoinTransactionType.refund b.id w).1 in
      ground (
        arith,
        balance-credit j b.mentee_id (a * unit) CoinTransactionType.refund b.id w,
        refund_platform-users b.id b.mentee_id m b.payment_type
            (create_notification (refund_notification b a) w').1,
      )
  | inr nothing ↦ ground (arith, +ℤ_zero (balance (find_user j w)))
]

balance-credit_mentor :
    (j : ℕ) (b : Booking) (m c p : ℕ) (w : World)
    → is_err (credit_mentor b m c p w).0 ≡ false
    → balance (find_user j (credit_mentor b m c p w).1)
      ≡ balance (find_user j w) +ℤ share m j (c * unit)
unfolding credit_mentor create_notification create_payment increment_platform_balance
balance-credit_mentor j b m c p w h = elim (Bool-cases (ltb 0 c)) [
  | inl some_amount ↦
      ground (arith, balance-credit j m (c * unit) CoinTransactionType.session_earning b.id w)
  | inr nothing ↦ ground (arith, +ℤ_zero (balance (find_user j w)))
]

-- The part of a paid booking's settlement that moves coins.
abbrev pub paying : Booking → Option ℕ → Action (Unit {0})
paying b m =
    if mentor_joined b
    then settle_joined b m (calculate b.payment_type b.total_amount)
    else settle_no_show b m (calculate b.payment_type b.total_amount)

pub settle_paid-users :
    (b : Booking) (m : Option ℕ) (now : ℕ) (w : World)
    → is_err (settle_paid b m now w).0 ≡ false
    → (is_err (paying b m (after_end b w)).0 ≡ false)
      × ((settle_paid b m now w).1.users ≡ (paying b m (after_end b w)).1.users)
unfolding settle_paid after_end update_booking record_completed_session update_mentor
settle_paid-users b m now w h = ground arith

after_end-users : (b : Booking) (w : World) → (after_end b w).users ≡ w.users
unfolding after_end update_booking record_completed_session update_mentor
after_end-users b w = ground arith

pub balance-settle_joined :
    (j : ℕ) (b : Booking) (u : ℕ) (w : World)
    → mentor_joined b ≡ true
    → is_err (paying b (some u) (after_end b w)).0 ≡ false
    → balance (find_user j (paying b (some u) (after_end b w)).1)
      ≡ balance (find_user j w)
        +ℤ share u j ((calculate b.payment_type b.total_amount).mentor_coins * unit)
unfolding settle_joined
balance-settle_joined j b u w joined h =
    let a = calculate b.payment_type b.total_amount in
    ground (
      arith,
      after_end-users b w,
      balance-credit_mentor j b u a.mentor_coins a.mentor_payout_minor (after_end b w),
    )

-- Recording a missed session returns the new count, and the mentor's profile has it.
pub record_no_show_lem :
    (u : ℕ) (m : Mentor) (w : World)
    → find_mentor_by_user u w ≡ some m
    → (record_no_show u w).0 ≡ ok (m.skipped_sessions_count + 1)
unfolding record_no_show update_mentor
record_no_show_lem u m w e = ground arith

balance-settle_no_show :
    (j : ℕ) (b : Booking) (m : Mentor) (w : World)
    → mentor_joined b ≡ false
    → find_mentor_by_user m.user_id w ≡ some m
    → is_err (paying b (some m.user_id) (after_end b w)).0 ≡ false
    → balance (find_user j (paying b (some m.user_id) (after_end b w)).1)
      ≡ balance (find_user j w)
        +ℤ (if leb 1 m.skipped_sessions_count
            then share b.mentee_id j ((calculate b.payment_type b.total_amount).refund_coins * unit)
            else pos 0)
unfolding settle_no_show after_end
balance-settle_no_show j b m w joined e h =
    let a = calculate b.payment_type b.total_amount in
    let w1 = (record_no_show m.user_id w).1 in
    elim (Bool-cases (leb 1 m.skipped_sessions_count)) [
      | inl again ↦ ground (
        arith,
        record_no_show_lem m.user_id m w,
        record_no_show-users m.user_id w,
        balance-block_mentor j m.user_id w1,
        balance-refund_booked_user j b a.refund_coins a.refund_minor (block_mentor m.user_id w1).1,
        block_mentor_ok m.user_id w1,
      )
      | inr first ↦ ground (
        arith,
        +ℤ_zero (balance (find_user j w)),
        record_no_show_lem m.user_id m w,
        record_no_show-users m.user_id w,
      )
    ]

-- A settlement that returns pays coins in one of three ways. A mentor who joined earns the mentor's
-- share of the price. For a mentor who did not join, the mentee gets the full price back if the mentor
-- had missed a session before, and nobody gets anything if not. No other balance changes.
pub balance-settle :
    (j i : ℕ) (w : World) (b : Booking) (m : Mentor)
    → find_booking i w ≡ some b
    → b.settled_at ≡ none
    → is_paid b.payment_status ≡ true
    → mentor_user_id w b ≡ some m.user_id
    → find_mentor_by_user m.user_id w ≡ some m
    → is_err (settle_ended_session i w).0 ≡ false
    → let amounts = calculate b.payment_type b.total_amount in
      balance (find_user j (settle_ended_session i w).1)
      ≡ balance (find_user j w)
        +ℤ (if mentor_joined b
            then share m.user_id j (amounts.mentor_coins * unit)
            else if leb 1 m.skipped_sessions_count
            then share b.mentee_id j (amounts.refund_coins * unit)
            else pos 0)
unfolding settle_found
balance-settle j i w b m e unsettled paid mu em h = elim (Bool-cases (mentor_joined b)) [
  | inl joined ↦ ground (
    arith,
    settle-some i w b e,
    settle_paid-users b (some m.user_id) w.now w,
    balance-settle_joined j b m.user_id w,
  )
  | inr missed ↦ ground (
    arith,
    settle-some i w b e,
    settle_paid-users b (some m.user_id) w.now w,
    balance-settle_no_show j b m w,
  )
]
