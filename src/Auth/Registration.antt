-- ===== src/Auth/Registration.antt =====
-- src/application/modules/authentication/use-cases/registration: register-with-email.use-case.ts,
-- verify-registration-otp.use-case.ts and resend-registration-otp.use-case.ts. The mail's name, the
-- phone and the role are left out.
use upstride_api.Base.{ℕ, ◌++◌, [], ◌∷◌, true, false, Option, none, some, pos, if◌then◌else◌}
use upstride_api.Store.{User, AuthType, Error}
use upstride_api.Auth.Redis.{Redis}
use upstride_api.Auth.State.{Call, pure, gets, raise, or_raise, modify, ◌>>=◌, ◌>>◌}
use upstride_api.Auth.Services.{AuthServices}
use upstride_api.Auth.Users.{find_user_by_email, update_user, create_user, delete_user}
use upstride_api.Auth.Otp.{register_policy, take_otp, send_code, resend_code}

pub record RegisterWithEmailInput : Type 0 where
  pub email : ℕ
  pub password : ℕ

abbrev pub new_user : (id hash : ℕ) → RegisterWithEmailInput → User
new_user id hash input = record {
  id = id;
  email = input.email;
  coin_balance = pos 0;
  password_hash = hash;
  auth_type = AuthType.local;
  is_blocked = false;
  is_verified = false;
}

abbrev pub verified : User → User
verified u = record u { is_verified = true }

module _ (r : Redis) (v : AuthServices) where
  open r use {Db}
  open v use {Token, generate_setup_token, hash_password}

  -- An unverified user of this address makes room.
  abbrev make_room : Option User → Call Db (Unit {0})
  make_room none = pure tt
  make_room (some u) = if u.is_verified then raise Error.user_already_exists else delete_user u.id

  -- `RegisterWithEmailUseCase.execute`, with the id that the database gives and the code that is drawn.
  unfoldable pub register_with_email :
      (new_id otp : ℕ) → RegisterWithEmailInput → Call Db (Unit {0})
  register_with_email new_id otp input = do
    existing_user ← gets (find_user_by_email input.email)
    make_room existing_user
    create_user (new_user new_id (hash_password input.password) input)
    send_code r register_policy new_id input.email otp

  -- `VerifyRegistrationOtpUseCase.execute`, which returns the setup token.
  unfoldable pub verify_registration_otp : (email otp : ℕ) → Call Db Token
  verify_registration_otp email otp = do
    user ← or_raise Error.user_not_found (← gets (find_user_by_email email))
    take_otp r register_policy user.id otp
    update_user user.id verified
    modify (λ s. record s { registered = s.registered ++ user.id ∷ [] })
    gets (λ s. generate_setup_token user.id s.now)

  -- `ResendRegistrationOtpUseCase.execute`
  unfoldable pub resend_registration_otp : (email otp : ℕ) → Call Db (Unit {0})
  resend_registration_otp email otp = do
    user ← or_raise Error.user_not_found (← gets (find_user_by_email email))
    resend_code r register_policy register_policy.max_resends user.id user.email otp
