-- ===== src/Auth/State.antt =====
-- The state of authentication, and its calls. A database of Redis is a parameter.
use upstride_api.Base.{ℕ, Bool, true, false, Option, none, some, List}
use upstride_api.Store.{User, Session, Result, Error}
use upstride_api.Auth.Redis.{OtpPurpose}

-- A mail with a one-time password, one job name to a purpose.
pub record OtpMail : Type 0 where
  pub to : ℕ
  pub purpose : OtpPurpose
  pub otp : ℕ

-- `registered` are the users of the `UserRegisteredEvent`s.
pub record AuthState (D : Type 0) : Type 0 where
  pub now : ℕ
  pub users : List User
  pub sessions : List Session
  pub redis : D
  pub mails : List OtpMail
  pub registered : List ℕ

-- As `Action` of the store: a call returns or throws, and what it wrote before stays.
abbrev pub Call : Type 0 → Type 0 → Type 0
Call D A = AuthState D → Result A × AuthState D

module _ {D A : Type 0} where
  abbrev pub pure : A → Call D A
  pure a s = (Result.ok a, s)

  abbrev pub raise : Error → Call D A
  raise e s = (Result.err e, s)

  abbrev pub gets : (AuthState D → A) → Call D A
  gets f s = (Result.ok (f s), s)

  abbrev pub or_raise : Error → Option A → Call D A
  or_raise e none = raise e
  or_raise e (some a) = pure a

module _ {D : Type 0} where
  abbrev pub follow :
      {A B : Type 0} → Result A × AuthState D → (A → Call D B) → Result B × AuthState D
  follow (Result.ok a, s) f = f a s
  follow (Result.err e, s) f = (Result.err e, s)

  infixl 5 ◌>>=◌ ◌>>◌
  abbrev pub ◌>>=◌ : {A B : Type 0} → Call D A → (A → Call D B) → Call D B
  ◌>>=◌ m f s = follow (m s) f

  abbrev pub ◌>>◌ : {A B : Type 0} → Call D A → Call D B → Call D B
  m >> k = m >>= λ _. k

  abbrev pub raise_if : Bool → Error → Call D (Unit {0})
  raise_if true e = raise e
  raise_if false e = pure tt

  abbrev pub modify : (AuthState D → AuthState D) → Call D (Unit {0})
  modify f s = (Result.ok tt, f s)
