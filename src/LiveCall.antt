-- ===== src/LiveCall.antt =====
-- The live call's steps on a booking: src/application/modules/live-call/use-cases. Names of people and
-- the texts of errors are left out.
pub mod Cases
pub mod Payout
use upstride_api.Base.{
  ℕ, ◌+◌, Bool, true, false, not, ◌&&◌, ◌||◌, Option, none, some, ltb, ◌==◌, eq_option, is_some,
  if◌then◌else◌,
}
use upstride_api.Store.{
  Action, Booking, BookingStatus, Error, pure, gets, both, when, raise_if, or_raise, ◌>>=◌, ◌>>◌,
  find_booking, mentor_user_id, update_booking, record_completed_session, is_pending, is_confirmed,
  is_completed,
}

abbrev pub join_window_ms : ℕ
join_window_ms = 300000

abbrev pub one_minute_ms : ℕ
one_minute_ms = 60000

-- `booking.mentorUserId === userId`
abbrev pub is_host : Option ℕ → ℕ → Bool
is_host mentor user_id = eq_option mentor user_id

-- `ValidateJoinSessionUseCase.execute`
unfoldable pub validate_join_session : (booking_id user_id : ℕ) → Action (Unit {0})
validate_join_session booking_id user_id = do
  b ← or_raise Error.booking_not_found (← gets (find_booking booking_id))
  host ← gets (λ w. mentor_user_id w b)
  raise_if (not (is_host host user_id) && not (b.mentee_id == user_id)) Error.unauthorized
  raise_if (is_pending b.status) Error.unauthorized
  now ← gets (λ w. w.now)
  raise_if (ltb (now + join_window_ms) b.start_time) Error.session_too_early

pub data JoinerRole : Type 0 where
  mentor mentee : JoinerRole

-- `other_user_id` is none where the mentor's user is gone, for which the source has "".
pub record JoinSessionOutput : Type 0 where
  pub room_id : ℕ
  pub other_user_id : Option ℕ
  pub joiner_role : JoinerRole

-- The update that the host's arrival makes: `status` and `mentorJoinedAt`, each if it is due, by the
-- booking as it was read.
abbrev pub joined : Booking → ℕ → Booking → Booking
joined read now b = record b {
  status = if is_confirmed read.status then BookingStatus.started else b.status;
  mentor_joined_at = if is_some read.mentor_joined_at then b.mentor_joined_at else some now;
}

abbrev pub output_for : Booking → Option ℕ → ℕ → JoinSessionOutput
output_for b host user_id = record {
  room_id = b.id;
  other_user_id = if is_host host user_id then some b.mentee_id else host;
  joiner_role = if is_host host user_id then JoinerRole.mentor else JoinerRole.mentee;
}

-- `JoinSessionUseCase.execute`
unfoldable pub join_session : (booking_id user_id : ℕ) → Action JoinSessionOutput
join_session booking_id user_id = do
  validate_join_session booking_id user_id
  b ← or_raise Error.booking_not_found (← gets (find_booking booking_id))
  host ← gets (λ w. mentor_user_id w b)
  now ← gets (λ w. w.now)
  when (is_host host user_id && (is_confirmed b.status || not (is_some b.mentor_joined_at)))
      (update_booking b.id (joined b now))
  pure (output_for b host user_id)

-- `{ status: "COMPLETED", feedback }`, of which a feedback that is not there writes nothing.
abbrev pub terminated : Option ℕ → Booking → Booking
terminated feedback b = record b {
  status = BookingStatus.completed;
  feedback = if is_some feedback then feedback else b.feedback;
}

-- `TerminateSessionUseCase.execute`
unfoldable pub terminate_session : (booking_id user_id : ℕ) → Option ℕ → Action (Unit {0})
terminate_session booking_id user_id feedback = do
  b ← or_raise Error.booking_not_found (← gets (find_booking booking_id))
  host ← gets (λ w. mentor_user_id w b)
  raise_if (not (is_host host user_id)) Error.unauthorized
  now ← gets (λ w. w.now)
  raise_if (ltb (now + one_minute_ms) b.end_time) Error.validation
  when (not (is_completed b.status)) (
      both (update_booking b.id (terminated feedback))
        (record_completed_session b.mentor_id b.end_time))

abbrev pub with_feedback : ℕ → Booking → Booking
with_feedback text b = record b { feedback = some text }

-- `CreateFeedbackUseCase.execute`
unfoldable pub create_feedback : (booking_id mentor_user text : ℕ) → Action (Unit {0})
create_feedback booking_id mentor_user text = do
  b ← or_raise Error.booking_not_found (← gets (find_booking booking_id))
  host ← gets (λ w. mentor_user_id w b)
  raise_if (not (is_host host mentor_user)) Error.unauthorized
  raise_if (not (is_completed b.status)) Error.validation
  update_booking booking_id (with_feedback text)

-- `AuthorizeWhiteboardPermissionUseCase.execute`
unfoldable pub authorize_whiteboard_permission : (booking_id user_id : ℕ) → Action (Unit {0})
authorize_whiteboard_permission booking_id user_id = do
  b ← or_raise Error.booking_not_found (← gets (find_booking booking_id))
  host ← gets (λ w. mentor_user_id w b)
  raise_if (not (is_host host user_id)) Error.unauthorized
