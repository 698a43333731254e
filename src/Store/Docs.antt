-- ===== src/Store/Docs.antt =====
-- The documents of the collections (src/domain/entities, src/infrastructure/database).
-- Identifiers are only compared, so they are numbers; a date is its milliseconds since the epoch.
-- An amount of coins or rupees is a whole number of units, `unit` to the coin or the rupee.
use upstride_api.Base.{ℕ, Bool, Option, List, ℤ}

-- The price of any span of milliseconds is a whole number of these.
abbrev pub unit : ℕ
unit = 3600000

-- `COIN_VALUE`: coins to the rupee. `SESSION_PERCENTAGE`: the platform's commission.
abbrev pub coin_value : ℕ
coin_value = 2

abbrev pub session_percentage : ℕ
session_percentage = 15

pub data BookingStatus : Type 0 where
  cancelled_by_mentee cancelled_by_mentor confirmed pending : BookingStatus
  slot_taken_by_another_user started completed : BookingStatus

pub data PaymentType : Type 0 where
  coins stripe : PaymentType

pub data PaymentStatus : Type 0 where
  pending completed failed refunded : PaymentStatus

pub data Currency : Type 0 where
  inr coins : Currency

-- The texts that a meeting link takes: "", "Pending", "PENDING", and the links to a booking.
pub data MeetingLink : Type 0 where
  empty pending_title pending_upper : MeetingLink
  call_link session_link : ℕ → MeetingLink

-- The parts of the notes: the mentee's own text, and a line for a cancellation with its reason.
pub data Note : Type 0 where
  written : ℕ → Note
  cancellation : Option ℕ → Note

pub record Booking : Type 0 where
  pub id : ℕ
  pub mentor_id : ℕ
  pub mentee_id : ℕ
  pub start_time : ℕ
  pub end_time : ℕ
  pub status : BookingStatus
  pub meeting_link : MeetingLink
  pub payment_type : PaymentType
  pub payment_status : PaymentStatus
  pub total_amount : ℕ
  pub currency : Currency
  pub notes : List Note
  pub mentor_joined_at : Option ℕ
  pub settled_at : Option ℕ
  pub feedback : Option ℕ

pub data AuthType : Type 0 where
  local google linkedin : AuthType

-- An e-mail address and a hash are only compared, so they are numbers.
pub record User : Type 0 where
  pub id : ℕ
  pub email : ℕ
  pub coin_balance : ℤ
  pub password_hash : ℕ
  pub auth_type : AuthType
  pub is_blocked : Bool
  pub is_verified : Bool

pub record Mentor : Type 0 where
  pub id : ℕ
  pub user_id : ℕ
  pub current_price_per_30_min : Option ℕ
  pub skipped_sessions_count : ℕ
  pub total_sessions : ℕ
  pub last_session_at : Option ℕ
  pub is_user_blocked : Bool

pub data CoinTransactionType : Type 0 where
  purchase session_spend session_earning refund : CoinTransactionType

pub record CoinTransaction : Type 0 where
  pub user_id : ℕ
  pub amount : ℤ
  pub kind : CoinTransactionType
  pub reference : ℕ

pub data PaymentProvider : Type 0 where
  stripe internal : PaymentProvider

-- `providerPaymentId`: a checkout session of the provider, or a text made from a booking's id.
pub data PaymentRef : Type 0 where
  checkout coin_booking session_payout refund : ℕ → PaymentRef

pub data TransactionOwner : Type 0 where
  platform user mentor : TransactionOwner

pub data PaymentPurpose : Type 0 where
  coins session : PaymentPurpose

-- `amount` is in the minor unit of the currency.
pub record PaymentTransaction : Type 0 where
  pub user_id : ℕ
  pub provider : PaymentProvider
  pub provider_payment_id : PaymentRef
  pub amount : ℤ
  pub currency : Currency
  pub status : PaymentStatus
  pub coins_granted : ℕ
  pub purpose : PaymentPurpose
  pub payment_type : PaymentType
  pub owner : TransactionOwner

pub data NotificationEvent : Type 0 where
  session_cancelled session_earned session_refunded mentor_blocked : NotificationEvent
  session_rescheduled : NotificationEvent

pub record Notification : Type 0 where
  pub user_id : ℕ
  pub event : NotificationEvent
  pub related_entity : Option ℕ
  pub amount : ℕ

pub data ReminderLabel : Type 0 where
  one_day one_hour five_minutes : ReminderLabel

-- Jobs with their delay in milliseconds.
pub data Job : Type 0 where
  session_reminder : (booking mentor mentee : ℕ) → ReminderLabel → ℕ → Job
  settle_ended_session : (booking : ℕ) → ℕ → Job
  reschedule_email : (booking user : ℕ) → Job

-- The payload of `SessionRefundedEvent`.
pub record SessionRefunded : Type 0 where
  pub booking_id : ℕ
  pub user_id : ℕ
  pub refund_amount : ℕ
  pub refund_percentage : ℕ

-- A login session. What is known of the device is left out.
pub record Session : Type 0 where
  pub sid : ℕ
  pub user_id : ℕ
  pub refresh_token_hash : ℕ
  pub expires_at : ℕ
  pub revoked : Bool
  pub last_used_at : ℕ

pub data Day : Type 0 where
  monday tuesday wednesday thursday friday saturday sunday : Day

-- The number that `getUTCDay` gives the day.
abbrev pub day_number : Day → ℕ
day_number Day.sunday = 0
day_number Day.monday = 1
day_number Day.tuesday = 2
day_number Day.wednesday = 3
day_number Day.thursday = 4
day_number Day.friday = 5
day_number Day.saturday = 6

-- A time "HH:MM" is its minutes since midnight, which is all that is read of it (`toMinutes`).
pub record BreakTime : Type 0 where
  pub start_time : ℕ
  pub end_time : ℕ

-- A date is its days since the epoch. The name and the description are left out.
pub record Availability : Type 0 where
  pub id : ℕ
  pub mentor_id : ℕ
  pub days : List Day
  pub start_time : ℕ
  pub end_time : ℕ
  pub start_date : ℕ
  pub end_date : ℕ
  pub break_times : List BreakTime
  pub slot_duration : ℕ
  pub buffer_time : ℕ
  pub status : Bool
