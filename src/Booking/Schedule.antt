-- ===== src/Booking/Schedule.antt =====
-- src/application/modules/booking/use-cases: schedule-live-sesion-reminder.use-case.ts and
-- schedule-session-settlement.use-case.ts. Delays are in milliseconds.
use upstride_api.Base.{ℕ, ◌+◌, ◌-◌, ltb}
use upstride_api.Store.{Action, Job, ReminderLabel, day_ms, gets, when, ◌>>=◌, ◌>>◌, enqueue}

abbrev pub hour_ms : ℕ
hour_ms = 3600000

abbrev pub five_minutes_ms : ℕ
five_minutes_ms = 300000

-- A reminder `before` milliseconds ahead of the start, if that is still to come.
unfoldable pub remind :
    (booking mentor mentee : ℕ) → ReminderLabel → (before start : ℕ) → Action (Unit {0})
remind booking mentor mentee label before start = do
  now ← gets (λ w. w.now)
  when (ltb (now + before) start)
      (enqueue (Job.session_reminder booking mentor mentee label (start - before - now)))

unfoldable pub schedule_reminders : (booking mentor mentee start : ℕ) → Action (Unit {0})
schedule_reminders booking mentor mentee start = do
  remind booking mentor mentee ReminderLabel.one_day day_ms start
  remind booking mentor mentee ReminderLabel.one_hour hour_ms start
  remind booking mentor mentee ReminderLabel.five_minutes five_minutes_ms start

-- The settlement runs five minutes after the end, at once if that has passed: subtraction stops at 0.
unfoldable pub schedule_settlement : (booking end_time : ℕ) → Action (Unit {0})
schedule_settlement booking end_time = do
  now ← gets (λ w. w.now)
  enqueue (Job.settle_ended_session booking (end_time + five_minutes_ms - now))
