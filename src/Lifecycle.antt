-- ===== src/Lifecycle.antt =====
-- The life of a booking over any requests: the use cases that change one (src/application/modules/booking,
-- live-call and payment), and the moves between the statuses that they are to make.
pub mod Evolves
pub mod Operations
pub mod Settles
pub mod Payments
pub mod Served
pub mod Forward
use upstride_api.Base.{
  ℕ, ◌+◌, ◌≡◌, Bool, true, false, ◌||◌, Option, none, some, List, [], ◌∷◌, is_some,
}
use upstride_api.Store.{
  World, Booking, BookingStatus, PaymentStatus, is_paid, is_confirmed, is_completed,
}
use upstride_api.Money.{CancelledBy}
use upstride_api.Booking.Cancel.{cancellable}
use upstride_api.Booking.Cancel.Once.{cancel}
use upstride_api.Booking.Settle.{settle_ended_session}
use upstride_api.Booking.Reschedule.{reschedule_booking}
use upstride_api.Payment.Topup.{PaymentEvent}
use upstride_api.Payment.Webhook.{PaymentEventType, process_payment_event}
use upstride_api.LiveCall.{join_session, terminate_session, create_feedback}

-- What is kept of a booking here: its status, its payment's, and whether it is settled.
pub record Life : Type 0 where
  pub status : BookingStatus
  pub payment : PaymentStatus
  pub settled : Bool

abbrev pub life : Booking → Life
life b = record { status = b.status; payment = b.payment_status; settled = is_some b.settled_at }

-- The moves. Only where `fails` is true may a payment fail.
pub data Move (fails : Bool) (s t : Life) : Type 0 where
  pay :
      is_paid s.payment ≡ false
      → t ≡ record s { status = BookingStatus.confirmed; payment = PaymentStatus.completed }
      → Move fails s t
  fail : fails ≡ true → t ≡ record s { payment = PaymentStatus.failed } → Move fails s t
  lose_slot :
      is_paid s.payment ≡ false
      → t ≡ record s { status = BookingStatus.slot_taken_by_another_user }
      → Move fails s t
  cancel_as_mentee :
      cancellable s.status ≡ true
      → t ≡ record s { status = BookingStatus.cancelled_by_mentee }
      → Move fails s t
  cancel_as_mentor :
      cancellable s.status ≡ true
      → t ≡ record s { status = BookingStatus.cancelled_by_mentor }
      → Move fails s t
  start :
      is_confirmed s.status ≡ true
      → t ≡ record s { status = BookingStatus.started }
      → Move fails s t
  finish :
      is_completed s.status ≡ false
      → t ≡ record s { status = BookingStatus.completed }
      → Move fails s t
  settle : s.settled ≡ false → t ≡ record s { settled = true } → Move fails s t

-- Any number of moves.
pub data Lives (fails : Bool) (s : Life) : Life → Type 0 where
  here : Lives fails s s
  next : {t u : Life} → Lives fails s t → Move fails t u → Lives fails s u

-- A request to one of the use cases, or a payment event, or time that passes.
pub data Request : Type 0 where
  join : (booking_id user_id : ℕ) → Request
  terminate : (booking_id user_id : ℕ) → Option ℕ → Request
  give_feedback : (booking_id mentor_user text : ℕ) → Request
  cancel_by : CancelledBy → (user_id booking_id : ℕ) → Option ℕ → Request
  reschedule : (booking_id mentee_id start end : ℕ) → Request
  settle_session : (booking_id : ℕ) → Request
  payment : PaymentEventType → PaymentEvent → Request
  wait : ℕ → Request

-- The state that the request leaves, whether it returns or throws.
unfoldable pub serve : Request → World → World
serve (Request.join i u) w = (join_session i u w).1
serve (Request.terminate i u feedback) w = (terminate_session i u feedback w).1
serve (Request.give_feedback i u text) w = (create_feedback i u text w).1
serve (Request.cancel_by c u i reason) w = (cancel c u i reason w).1
serve (Request.reschedule i mentee from until) w = (reschedule_booking i mentee from until w).1
serve (Request.settle_session i) w = (settle_ended_session i w).1
serve (Request.payment type event) w = (process_payment_event type event w).1
serve (Request.wait ms) w = record w { now = w.now + ms }

unfoldable pub serve_all : List Request → World → World
serve_all [] w = w
serve_all (r ∷ rs) w = serve_all rs (serve r w)

-- The events that mark a payment as failed.
abbrev pub is_failure : Request → Bool
is_failure (Request.payment PaymentEventType.expired e) = true
is_failure (Request.payment PaymentEventType.async_payment_failed e) = true
is_failure _ = false

abbrev pub has_failure : List Request → Bool
has_failure [] = false
has_failure (r ∷ rs) = is_failure r || has_failure rs
