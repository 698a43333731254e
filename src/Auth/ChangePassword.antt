-- ===== src/Auth/ChangePassword.antt =====
-- src/application/modules/profile/use-cases: request-change-password.use-case.ts and
-- change-password.use-case.ts, and verify-change-password-otp.use-case.ts of
-- src/application/modules/authentication/use-cases/registration.
use upstride_api.Base.{ℕ, ◌+◌, not, ◌==◌}
use upstride_api.Store.{Error}
use upstride_api.Auth.Redis.{Redis}
use upstride_api.Auth.State.{Call, gets, raise_if, or_raise, ◌>>=◌, ◌>>◌}
use upstride_api.Auth.Services.{AuthServices}
use upstride_api.Auth.Users.{find_user_by_id, update_user}
use upstride_api.Auth.Otp.{change_password_policy, take_otp, resend_code}
use upstride_api.Auth.PasswordReset.{with_password}

module _ (r : Redis) (v : AuthServices) where
  open r use {Db}
  open v use {Token, generate_reset_token, verify_reset_token, verify_password, hash_password}

  -- `RequestChangePasswordUseCase.execute`: the first code counts as a resend, so one more is allowed.
  unfoldable pub request_change_password : (user_id old_password otp : ℕ) → Call Db (Unit {0})
  request_change_password user_id old_password otp = do
    user ← or_raise Error.user_not_found (← gets (find_user_by_id user_id))
    raise_if (not (verify_password old_password user.password_hash)) Error.invalid_password
    resend_code r change_password_policy (change_password_policy.max_resends + 1) user.id user.email
        otp

  -- `VerifyChangePasswordOtpUseCase.execute`, which returns the reset token.
  unfoldable pub verify_change_password_otp : (user_id otp : ℕ) → Call Db Token
  verify_change_password_otp user_id otp = do
    user ← or_raise Error.user_not_found (← gets (find_user_by_id user_id))
    take_otp r change_password_policy user.id otp
    gets (λ s. generate_reset_token user.id s.now)

  -- `ChangePasswordUseCase.execute`. Of two errors at once, the user's is told first.
  unfoldable pub change_password : (user_id : ℕ) → Token → (password : ℕ) → Call Db (Unit {0})
  change_password user_id token password = do
    user ← or_raise Error.user_not_found (← gets (find_user_by_id user_id))
    sub ← or_raise Error.invalid_token (← gets (λ s. verify_reset_token token s.now))
    raise_if (not (sub == user.id)) Error.authentication
    update_user user.id (with_password (hash_password password))
