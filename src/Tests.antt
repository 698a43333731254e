-- ===== src/Tests.antt =====
-- Concrete states and inputs of the runs.
mod Money
mod Bookings
mod Payments
mod Availabilities
mod Lifecycle
mod Redis
mod Auth
mod Reviews
mod Cache
mod Chats
mod Articles
use upstride_api.Base.{ℕ, Bool, true, false, Option, none, some, List, [], ◌∷◌, ◌*◌, pos}
use upstride_api.Store.{
  World, Booking, BookingStatus, PaymentStatus, PaymentType, MeetingLink, Currency, User, Mentor,
  unit, Availability, BreakTime, Day, AuthType,
}

abbrev pub hour : ℕ
hour = 3600000

abbrev pub mentee : User
mentee = record {
  id = 1;
  email = 11;
  coin_balance = pos (5000 * unit);
  password_hash = 501;
  auth_type = AuthType.local;
  is_blocked = false;
  is_verified = true;
}

abbrev pub mentor_user : User
mentor_user = record {
  id = 2;
  email = 12;
  coin_balance = pos 0;
  password_hash = 502;
  auth_type = AuthType.google;
  is_blocked = false;
  is_verified = true;
}

abbrev pub mentor : Mentor
mentor = record {
  id = 10;
  user_id = 2;
  current_price_per_30_min = some 300;
  skipped_sessions_count = 1;
  total_sessions = 4;
  last_session_at = none;
  is_user_blocked = false;
}

-- An hour for 600 rupees, at the start of the fourth day.
abbrev pub paid_booking : Booking
paid_booking = record {
  id = 100;
  mentor_id = 10;
  mentee_id = 1;
  start_time = 72 * hour;
  end_time = 73 * hour;
  status = BookingStatus.confirmed;
  meeting_link = MeetingLink.call_link 100;
  payment_type = PaymentType.stripe;
  payment_status = PaymentStatus.completed;
  total_amount = 600 * unit;
  currency = Currency.inr;
  notes = [];
  mentor_joined_at = none;
  settled_at = none;
  feedback = none;
}

abbrev pub unpaid_booking : ℕ → Booking
unpaid_booking i = record paid_booking {
  id = i;
  status = BookingStatus.pending;
  meeting_link = MeetingLink.pending_upper;
  payment_status = PaymentStatus.pending;
}

-- From 10:00 to 13:00 on Mondays and Sundays, in slots of an hour with a buffer of ten minutes.
abbrev pub rule : Availability
rule = record {
  id = 7;
  mentor_id = 10;
  days = Day.monday ∷ Day.sunday ∷ [];
  start_time = 600;
  end_time = 780;
  start_date = 0;
  end_date = 90;
  break_times = record { start_time = 665; end_time = 670 } ∷ [];
  slot_duration = 60;
  buffer_time = 10;
  status = true;
}

abbrev pub world : World
world = record {
  now = 10 * hour;
  bookings = paid_booking ∷ unpaid_booking 101 ∷ unpaid_booking 102 ∷ [];
  users = mentee ∷ mentor_user ∷ [];
  mentors = mentor ∷ [];
  coin_transactions = [];
  payments = [];
  platform_balance = pos 90000;
  notifications = [];
  jobs = [];
  events = [];
  sessions = [];
  revoked_tokens = [];
  availabilities = rule ∷ [];
}
