-- ===== src/Auth/PasswordReset.antt =====
-- src/application/modules/authentication/use-cases/password-reset: request-password-reset.use-case.ts,
-- verify-reset-password-otp.use-case.ts, resend-reset-password-otp.use-case.ts and
-- update-password.use-case.ts.
use upstride_api.Base.{ℕ, not, none, some, ◌==◌, if◌then◌else◌}
use upstride_api.Store.{User, Error}
use upstride_api.Auth.Redis.{Redis}
use upstride_api.Auth.State.{Call, pure, gets, raise_if, or_raise, ◌>>=◌, ◌>>◌}
use upstride_api.Auth.Services.{AuthServices}
use upstride_api.Auth.Users.{
  find_user_by_email, update_user, is_local, assert_user_can_authenticate,
}
use upstride_api.Auth.Otp.{reset_password_policy, take_otp, send_code, resend_code}

abbrev pub with_password : ℕ → User → User
with_password hash u = record u { password_hash = hash }

module _ (r : Redis) (v : AuthServices) where
  open r use {Db}
  open v use {Token, generate_reset_token, verify_reset_token, hash_password}

  abbrev send_reset_code : User → (email otp : ℕ) → Call Db (Unit {0})
  send_reset_code u email otp =
      if not (is_local u.auth_type)
      then pure tt
      else assert_user_can_authenticate u >> send_code r reset_password_policy u.id email otp

  -- `RequestPasswordResetUseCase.execute`, which is silent about an address that is not known.
  unfoldable pub request_password_reset : (email otp : ℕ) → Call Db (Unit {0})
  request_password_reset email otp s = elim (find_user_by_email email s) [
    | none ↦ pure tt s
    | some u ↦ send_reset_code u email otp s
  ]

  -- `VerifyResetPasswordOtpUseCase.execute`, which returns the reset token.
  unfoldable pub verify_reset_password_otp : (email otp : ℕ) → Call Db Token
  verify_reset_password_otp email otp = do
    user ← or_raise Error.user_not_found (← gets (find_user_by_email email))
    take_otp r reset_password_policy user.id otp
    gets (λ s. generate_reset_token user.id s.now)

  -- `ResendResetPasswordOtpUseCase.execute`
  unfoldable pub resend_reset_password_otp : (email otp : ℕ) → Call Db (Unit {0})
  resend_reset_password_otp email otp = do
    user ← or_raise Error.user_not_found (← gets (find_user_by_email email))
    resend_code r reset_password_policy reset_password_policy.max_resends user.id user.email otp

  -- `UpdatePasswordUseCase.execute`. The address of the demonstration account is configured.
  unfoldable pub update_password :
      (dummy_email email : ℕ) → Token → (password : ℕ) → Call Db (Unit {0})
  update_password dummy_email email token password = do
    raise_if (email == dummy_email) Error.unauthorized
    user ← or_raise Error.user_not_found (← gets (find_user_by_email email))
    sub ← or_raise Error.invalid_token (← gets (λ s. verify_reset_token token s.now))
    raise_if (not (sub == user.id)) Error.authentication
    update_user user.id (with_password (hash_password password))
