-- ===== src/Auth/Otp.antt =====
-- One-time passwords: src/infrastructure/database/redis/repositories/otp.repository.ts, the policies of
-- src/domain/policies and what the use cases of application/modules/authentication do alike with them.
pub mod Counts
pub mod Guesses
pub mod Resends
pub mod Once
use upstride_api.Base.{
  ℕ, ◌+◌, ◌++◌, [], ◌∷◌, Bool, true, false, not, Option, none, some, ltb, leb, ◌==◌, eq_option,
  get_or, if◌then◌else◌,
}
use upstride_api.Store.{Error}
use upstride_api.Auth.Redis.{Redis, Key, OtpPurpose}
use upstride_api.Auth.State.{AuthState, Call, pure, gets, raise, raise_if, modify, ◌>>=◌, ◌>>◌}

pub record OtpPolicy : Type 0 where
  pub purpose : OtpPurpose
  pub ttl : ℕ
  pub max_attempts : ℕ
  pub max_resends : ℕ

abbrev pub register_policy : OtpPolicy
register_policy = record {
  purpose = OtpPurpose.register;
  ttl = 300;
  max_attempts = 5;
  max_resends = 3;
}

abbrev pub reset_password_policy : OtpPolicy
reset_password_policy = record {
  purpose = OtpPurpose.reset_password;
  ttl = 180;
  max_attempts = 3;
  max_resends = 3;
}

abbrev pub change_password_policy : OtpPolicy
change_password_policy = record {
  purpose = OtpPurpose.change_password;
  ttl = 300;
  max_attempts = 3;
  max_resends = 3;
}

module _ (r : Redis) where
  open r use {Db, get, set_ex, del, incr, expire}

  abbrev pub with_db : Db → AuthState Db → AuthState Db
  with_db d s = record s { redis = d }

  -- The methods of `RedisOtpRepository`.
  unfoldable pub save_code : (id : ℕ) → OtpPurpose → (code ttl : ℕ) → Call Db (Unit {0})
  save_code id p code ttl =
      modify (λ s. with_db (set_ex (Key.otp id p) code ttl s.now s.redis) s)
      >> modify (λ s. with_db (del (Key.otp_attempts id p) s.redis) s)

  unfoldable pub get_code : (id : ℕ) → OtpPurpose → Call Db (Option ℕ)
  get_code id p = gets (λ s. get (Key.otp id p) s.now s.redis)

  -- The count, whose key gets a time to live when it is made.
  abbrev pub count_with_ttl : Key → (ttl : ℕ) → Call Db ℕ
  count_with_ttl k ttl s =
      let (count, d) = incr k s.now s.redis in
      (pure count) (with_db (if count == 1 then expire k ttl s.now d else d) s)

  unfoldable pub increment_attempts : (id : ℕ) → OtpPurpose → (ttl : ℕ) → Call Db ℕ
  increment_attempts id p ttl = count_with_ttl (Key.otp_attempts id p) ttl

  unfoldable pub increment_resends : (id : ℕ) → OtpPurpose → (ttl : ℕ) → Call Db ℕ
  increment_resends id p ttl = count_with_ttl (Key.otp_resends id p) ttl

  unfoldable pub get_attempts : (id : ℕ) → OtpPurpose → Call Db ℕ
  get_attempts id p = gets (λ s. get_or (get (Key.otp_attempts id p) s.now s.redis) 0)

  unfoldable pub reset_attempts : (id : ℕ) → OtpPurpose → Call Db (Unit {0})
  reset_attempts id p = modify (λ s. with_db (del (Key.otp_attempts id p) s.redis) s)

  unfoldable pub delete_all : (id : ℕ) → OtpPurpose → Call Db (Unit {0})
  delete_all id p =
      modify (λ s. with_db (del (Key.otp id p) s.redis) s)
      >> modify (λ s. with_db (del (Key.otp_attempts id p) s.redis) s)
      >> modify (λ s. with_db (del (Key.otp_resends id p) s.redis) s)

  -- What a wrong password, or one without a code, leads to.
  unfoldable pub refuse_otp : OtpPolicy → (id : ℕ) → Call Db (Unit {0})
  refuse_otp policy id = do
    attempts ← increment_attempts id policy.purpose policy.ttl
    if leb policy.max_attempts attempts
        then delete_all id policy.purpose >> raise Error.max_attempts_exceeded
        else raise Error.invalid_otp

  -- The check of a password, up to the deletion of the code: the same lines in the three use cases.
  unfoldable pub take_otp : OtpPolicy → (id otp : ℕ) → Call Db (Unit {0})
  take_otp policy id otp = do
    current_attempts ← get_attempts id policy.purpose
    raise_if (leb policy.max_attempts current_attempts) Error.max_attempts_exceeded
    stored_code ← get_code id policy.purpose
    if eq_option stored_code otp then delete_all id policy.purpose else refuse_otp policy id

  abbrev pub send_mail : (to : ℕ) → OtpPurpose → (otp : ℕ) → Call Db (Unit {0})
  send_mail to p otp =
      modify
        (λ s. record s { mails = s.mails ++ (record { to = to; purpose = p; otp = otp }) ∷ [] })

  -- `Promise.all` of `saveCode` and the mail, neither of which throws.
  unfoldable pub send_code : OtpPolicy → (id email otp : ℕ) → Call Db (Unit {0})
  send_code policy id email otp =
      save_code id policy.purpose otp policy.ttl >> send_mail email policy.purpose otp

  -- Another code on demand, up to a number of times: the same lines in the three use cases.
  unfoldable pub resend_code : OtpPolicy → (max id email otp : ℕ) → Call Db (Unit {0})
  resend_code policy max id email otp = do
    resends ← increment_resends id policy.purpose policy.ttl
    raise_if (ltb max resends) Error.max_resends_exceeded
    reset_attempts id policy.purpose
    send_code policy id email otp
