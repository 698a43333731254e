-- ===== src/Store/State.antt =====
-- The state that a use case reads and changes, and the calls: a method returns or throws, and
-- what it wrote before it threw stays written, since no use case runs in a transaction.
use upstride_api.Base.{ℕ, Bool, true, false, Option, none, some, List, ℤ, ◌≡◌, ap}
use upstride_api.Store.Docs.{
  Booking, User, Mentor, CoinTransaction, PaymentTransaction, Notification, Job, SessionRefunded,
  Session, Availability,
}

pub record World : Type 0 where
  pub now : ℕ
  pub bookings : List Booking
  pub users : List User
  pub mentors : List Mentor
  pub coin_transactions : List CoinTransaction
  pub payments : List PaymentTransaction
  pub platform_balance : ℤ
  pub notifications : List Notification
  pub jobs : List Job
  pub events : List SessionRefunded
  pub sessions : List Session
  pub revoked_tokens : List ℕ
  pub availabilities : List Availability

pub data Error : Type 0 where
  booking_not_found not_found mentor_not_found user_not_found : Error
  unauthorized unauthorized_booking_action already_cancelled validation entity_validation : Error
  conflict slot_not_available session_too_early : Error
  availability_not_found unauthorized_availability_action invalid_amount : Error
  insufficient_balance duplicate_key provider_failure : Error
  max_attempts_exceeded invalid_otp max_resends_exceeded : Error
  authentication user_blocked invalid_password invalid_token redis_failure user_already_exists :
      Error

pub data Result (A : Type 0) : Type 0 where
  ok : A → Result A
  err : Error → Result A

abbrev pub is_err : {A : Type 0} → Result A → Bool
is_err (ok a) = false
is_err (err e) = true

abbrev pub Action : Type 0 → Type 0
Action A = World → Result A × World

module _ {A : Type 0} where
  abbrev pub pure : A → Action A
  pure a w = (ok a, w)

  abbrev pub raise : Error → Action A
  raise e w = (err e, w)

  abbrev pub gets : (World → A) → Action A
  gets f w = (ok (f w), w)

  abbrev pub or_raise : Error → Option A → Action A
  or_raise e none = raise e
  or_raise e (some a) = pure a

  abbrev pub from_result : Result A → Action A
  from_result r w = (r, w)

-- What comes after a call, by how the call ended.
abbrev pub follow : {A B : Type 0} → Result A × World → (A → Action B) → Result B × World
follow (ok a, w) f = f a w
follow (err e, w) f = (err e, w)

infixl 5 ◌>>=◌ ◌>>◌
abbrev pub ◌>>=◌ : {A B : Type 0} → Action A → (A → Action B) → Action B
◌>>=◌ m f w = follow (m w) f

abbrev pub ◌>>◌ : {A B : Type 0} → Action A → Action B → Action B
m >> k = m >>= λ _. k

abbrev pub raise_if : Bool → Error → Action (Unit {0})
raise_if true e = raise e
raise_if false e = pure tt

abbrev pub when : Bool → Action (Unit {0}) → Action (Unit {0})
when true m = m
when false m = pure tt

abbrev pub modify : (World → World) → Action (Unit {0})
modify f w = (ok tt, f w)

abbrev pub keep_error : Result (Unit {0}) → Result (Unit {0}) × World → Result (Unit {0}) × World
keep_error (ok _) r = r
keep_error (err e) (r, w) = (err e, w)

-- `Promise.all` of two calls: the second runs also where the first throws.
abbrev pub both : Action (Unit {0}) → Action (Unit {0}) → Action (Unit {0})
both m k w = keep_error (m w).0 (k (m w).1)

module _ {A B : Type 0} (m : Action A) (f : A → Action B) {w w' : World} where
  -- One step of a chain whose parts stay shut.
  pub >>=-ok : (a : A) → m w ≡ (ok a, w') → (m >>= f) w ≡ f a w'
  >>=-ok a h = ap (λ r. follow r f) h

  pub >>=-err : (e : Error) → m w ≡ (err e, w') → (m >>= f) w ≡ (err e, w')
  >>=-err e h = ap (λ r. follow r f) h
