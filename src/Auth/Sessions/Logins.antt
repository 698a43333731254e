-- ===== src/Auth/Sessions/Logins.antt =====
-- src/application/modules/authentication: services/auth-session.service.ts,
-- use-cases/login/login-with-email.use-case.ts and use-cases/refresh-session. The device, the role and
-- the profile are left out.
use upstride_api.Base.{ℕ, ◌+◌, false, not, Option, ltb, ◌==◌, if◌then◌else◌}
use upstride_api.Store.{User, Session, Error}
use upstride_api.Auth.Redis.{Redis}
use upstride_api.Auth.State.{Call, pure, raise, gets, raise_if, or_raise, ◌>>=◌, ◌>>◌}
use upstride_api.Auth.Services.{
  AuthServices, RefreshTokenPayload, AccessTokenPayload, refresh_token_ms,
}
use upstride_api.Auth.Users.{
  find_user_by_email, find_user_by_id, is_local, resolve_authentication_status,
  assert_authentication_allowed, assert_user_can_authenticate,
}
use upstride_api.Auth.Sessions.{find_session, create_session, update_by_sid, revoke, rotated}

pub record LoginResponse (T : Type 0) : Type 0 where
  pub user_id : ℕ
  pub access_token : T
  pub refresh_token : T

pub record RefreshSessionOutput (T : Type 0) : Type 0 where
  pub access_token : T
  pub refresh_token : T

-- The identifiers that are drawn for a session and its tokens.
pub record NewIds : Type 0 where
  pub session_id : ℕ
  pub refresh_token_id : ℕ
  pub access_token_id : ℕ

abbrev pub new_session : (sid user_id hash now : ℕ) → Session
new_session sid user_id hash now = record {
  sid = sid;
  user_id = user_id;
  refresh_token_hash = hash;
  expires_at = now + refresh_token_ms;
  revoked = false;
  last_used_at = now;
}

abbrev pub refresh_payload : (sub jti sid : ℕ) → RefreshTokenPayload
refresh_payload sub jti sid = record { sub = sub; jti = jti; sid = sid }

abbrev pub access_payload : (sub jti sid : ℕ) → AccessTokenPayload
access_payload sub jti sid = record { sub = sub; jti = jti; sid = sid }

module _ (r : Redis) (v : AuthServices) where
  open r use {Db}
  open v use {
    Token, generate_access_token, generate_refresh_token, verify_refresh_token, hash_token,
    verify_password,
  }

  -- `AuthSessionService.createLoginResponse`
  unfoldable pub create_login_response : NewIds → User → Call Db (LoginResponse Token)
  create_login_response ids user = do
    now ← gets (λ s. s.now)
    let access_token =
        generate_access_token (access_payload user.id ids.access_token_id ids.session_id) now
    let refresh_token =
        generate_refresh_token (refresh_payload user.id ids.refresh_token_id ids.session_id) now
    create_session (new_session ids.session_id user.id (hash_token refresh_token) now)
    pure (record { user_id = user.id; access_token = access_token; refresh_token = refresh_token })

  -- `LoginWithEmailUseCase.execute`
  unfoldable pub login_with_email : NewIds → (email password : ℕ) → Call Db (LoginResponse Token)
  login_with_email ids email password = do
    user ← or_raise Error.authentication (← gets (find_user_by_email email))
    raise_if (not (is_local user.auth_type)) Error.authentication
    assert_authentication_allowed (resolve_authentication_status user)
    raise_if (not (verify_password password user.password_hash)) Error.authentication
    create_login_response ids user

  -- The last part of the use case: new tokens for a session that may be refreshed.
  unfoldable pub rotate :
      (refresh_token_id access_token_id : ℕ) → Session → Call Db (RefreshSessionOutput Token)
  rotate refresh_token_id access_token_id x = do
    now ← gets (λ s. s.now)
    raise_if (ltb x.expires_at now) Error.unauthorized
    user ← or_raise Error.authentication (← gets (find_user_by_id x.user_id))
    assert_user_can_authenticate user
    let refresh_token = generate_refresh_token (refresh_payload user.id refresh_token_id x.sid) now
    let access_token = generate_access_token (access_payload user.id access_token_id x.sid) now
    update_by_sid x.sid (rotated (hash_token refresh_token) now)
    pure (record { access_token = access_token; refresh_token = refresh_token })

  -- `RefreshSessionUseCase.execute`. A token that is not the session's last revokes the session.
  unfoldable pub refresh_session :
      (refresh_token_id access_token_id : ℕ) → Option Token → Call Db (RefreshSessionOutput Token)
  refresh_session refresh_token_id access_token_id input = do
    token ← or_raise Error.unauthorized input
    payload ← or_raise Error.invalid_token (← gets (λ s. verify_refresh_token token s.now))
    x ← or_raise Error.unauthorized (← gets (find_session payload.sid))
    raise_if x.revoked Error.unauthorized
    if x.refresh_token_hash == hash_token token
        then rotate refresh_token_id access_token_id x
        else revoke payload.sid >> raise Error.unauthorized
