-- ===== src/Booking/Settle.antt =====
-- src/application/modules/booking/use-cases/settle-ended-session.use-case.ts, and the services that
-- it calls: mentor-no-show.service.ts, mentor-session-payout.service.ts and
-- session-refund.service.ts of src/application/modules/booking/services.
pub mod Frame
pub mod Once
pub mod Balances
pub mod NoShow
use upstride_api.Base.{
  ℕ, ◌+◌, ◌*◌, ◌++◌, [], ◌∷◌, Bool, true, false, not, ◌||◌, ◌&&◌, Option, none, some, List, map,
  filter, neg, ltb, leb, ◌==◌, is_some, any, if◌then◌else◌,
}
use upstride_api.Store.{
  Action, World, Result, Booking, BookingStatus, PaymentStatus, PaymentProvider, PaymentRef,
  PaymentPurpose, Currency, TransactionOwner, CoinTransactionType, Mentor, User, Session,
  Notification, NotificationEvent, Error, unit, pure, gets, when, modify, ◌>>=◌, ◌>>◌, find_booking,
  find_mentor_by_user, mentor_user_id, update_booking, update_mentor, record_completed_session,
  create_notification, create_payment, increment_platform_balance, update_key, user_key, is_paid,
  is_started, is_completed,
}
use upstride_api.Money.{SessionSettlementAmounts, calculate}
use upstride_api.Wallet.{credit}
use upstride_api.Payment.Refund.{provider_of, refund_platform}

abbrev pub with_skipped : ℕ → Mentor → Mentor
with_skipped n m = record m { skipped_sessions_count = n }

-- `MentorNoShowService.recordNoShow`, which returns the new count.
unfoldable pub record_no_show : ℕ → Action ℕ
record_no_show mentor_user = do
  found ← gets (find_mentor_by_user mentor_user)
  elim found [
    | none ↦ pure 0
    | some m ↦
        (update_mentor m.id (with_skipped (m.skipped_sessions_count + 1))
          >> pure (m.skipped_sessions_count + 1))
  ]

abbrev revoke_sid : List ℕ → Session → Session
revoke_sid sids s = if any (λ sid. sid == s.sid) sids then record s { revoked = true } else s

abbrev pub block_user : User → User
block_user u = record u { is_blocked = true }

-- `updateMany({ userId }, { isUserBlocked: true })`
abbrev pub block_mentor_of : ℕ → Mentor → Mentor
block_mentor_of i m = if m.user_id == i then record m { is_user_blocked = true } else m

-- `MentorNoShowService.blockMentor`: the user and the mentor's profile are blocked, and the live login
-- sessions are revoked.
unfoldable pub block_mentor : ℕ → Action (Unit {0})
block_mentor mentor_user = do
  modify (λ w. record w { users = update_key user_key mentor_user block_user w.users })
  modify (λ w. record w { mentors = map (block_mentor_of mentor_user) w.mentors })
  sids ← gets λ w.
      map (λ (s : Session). s.sid)
        (filter (λ s. s.user_id == mentor_user && not s.revoked) w.sessions)
  modify (λ w. record w {
    sessions = map (revoke_sid sids) w.sessions;
    revoked_tokens = w.revoked_tokens ++ sids;
  })
  create_notification (record {
    user_id = mentor_user;
    event = NotificationEvent.mentor_blocked;
    related_entity = none;
    amount = 0;
  })

-- `MentorSessionPayoutService.creditMentor`
unfoldable pub credit_mentor :
    Booking → ℕ → (mentor_coins mentor_payout_minor : ℕ) → Action (Unit {0})
credit_mentor b mentor_user mentor_coins mentor_payout_minor = do
  when (ltb 0 mentor_coins) do
    credit mentor_user (mentor_coins * unit) CoinTransactionType.session_earning b.id
    create_notification (record {
      user_id = mentor_user;
      event = NotificationEvent.session_earned;
      related_entity = some b.id;
      amount = mentor_coins;
    })
  when (ltb 0 mentor_payout_minor) do
    increment_platform_balance (neg mentor_payout_minor)
    create_payment (record {
      user_id = b.mentee_id;
      provider = provider_of b.payment_type;
      provider_payment_id = PaymentRef.session_payout b.id;
      amount = neg mentor_payout_minor;
      currency = Currency.inr;
      status = PaymentStatus.completed;
      coins_granted = 0;
      purpose = PaymentPurpose.session;
      payment_type = b.payment_type;
      owner = TransactionOwner.platform;
    })

abbrev pub refund_notification : Booking → ℕ → Notification
refund_notification b amount = record {
  user_id = b.mentee_id;
  event = NotificationEvent.session_refunded;
  related_entity = some b.id;
  amount = amount;
}

-- `SessionRefundService.refundBookedUser`
unfoldable pub refund_booked_user : Booking → (amount amount_minor : ℕ) → Action (Unit {0})
refund_booked_user b amount amount_minor = when (ltb 0 amount) do
  credit b.mentee_id (amount * unit) CoinTransactionType.refund b.id
  create_notification (refund_notification b amount)
  refund_platform b.id b.mentee_id amount_minor b.payment_type

abbrev pub mentor_joined : Booking → Bool
mentor_joined b = is_some b.mentor_joined_at || (is_started b.status || is_completed b.status)

abbrev pub settled : ℕ → Booking → Booking
settled at b = record b { settled_at = some at }

-- A mentor who joined is paid.
unfoldable pub settle_joined : Booking → Option ℕ → SessionSettlementAmounts → Action (Unit {0})
settle_joined b none amounts = pure tt
settle_joined b (some m) amounts =
    credit_mentor b m amounts.mentor_coins amounts.mentor_payout_minor

-- A mentor who did not has missed a session; from the second on, the mentor is blocked and the mentee
-- gets the money back.
unfoldable pub settle_no_show : Booking → Option ℕ → SessionSettlementAmounts → Action (Unit {0})
settle_no_show b none amounts = pure tt
settle_no_show b (some m) amounts = do
  skipped ← record_no_show m
  when (leb 2 skipped)
      do block_mentor m; refund_booked_user b amounts.refund_coins amounts.refund_minor

-- The part of the use case that a paid booking reaches.
unfoldable pub settle_paid : Booking → Option ℕ → ℕ → Action (Unit {0})
settle_paid b mentor settled_at = do
  let amounts = calculate b.payment_type b.total_amount
  when (mentor_joined b && is_started b.status) do
    update_booking b.id (λ d. record d { status = BookingStatus.completed })
    record_completed_session b.mentor_id b.end_time
  if mentor_joined b then settle_joined b mentor amounts else settle_no_show b mentor amounts
  update_booking b.id (settled settled_at)

-- The rest of the use case, once the booking is read.
unfoldable pub settle_found : Booking → Option ℕ → ℕ → Action (Unit {0})
settle_found b mentor now =
    if is_some b.settled_at
    then pure tt
    else if is_paid b.payment_status
    then settle_paid b mentor now
    else update_booking b.id (settled now)

-- `SettleEndedSessionUseCase.execute`
unfoldable pub settle_ended_session : ℕ → Action (Unit {0})
settle_ended_session booking_id w = elim (find_booking booking_id w) [
  | none ↦ pure tt w
  | some b ↦ settle_found b (mentor_user_id w b) w.now w
]
