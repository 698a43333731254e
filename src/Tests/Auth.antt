-- ===== src/Tests/Auth.antt =====
-- Runs of authentication on a concrete database.
use upstride_api.Base.{ℕ, ◌+◌, ◌*◌, ◌-◌, ◌≡◌, refl, true, false, none, some, List, [], ◌∷◌, arith}
use upstride_api.Store.{Session, Error, err, ok, is_err}
use upstride_api.Auth.Redis.{OtpPurpose}
use upstride_api.Auth.State.{AuthState}
use upstride_api.Auth.Services.{RefreshTokenPayload}
use upstride_api.Auth.Users.{assert_user_can_authenticate, assert_authentication_allowed}
use upstride_api.Auth.Otp.{
  register_policy, reset_password_policy, take_otp, save_code, resend_code, delete_all,
  get_attempts, get_code, refuse_otp, increment_attempts, increment_resends, reset_attempts,
  send_code,
}
use upstride_api.Auth.Otp.Guesses.{guess_all, take_otp-guess_all}
use upstride_api.Auth.Otp.Once.{take_otp-take_otp}
use upstride_api.Auth.Otp.Resends.{
  CodeRequest, serve_request, serve_requests, resend_code-serve_requests,
}
use upstride_api.Auth.PasswordReset.{
  request_password_reset, verify_reset_password_otp, update_password,
}
use upstride_api.Auth.Flow.{login-update_password}
use upstride_api.Auth.Sessions.{verify_session, update_by_sid, create_session, revoke, revoke_token}
use upstride_api.Auth.Sessions.Logins.{
  NewIds, login_with_email, refresh_session, refresh_payload, access_payload, rotate,
  create_login_response,
}
use upstride_api.Auth.Sessions.Logouts.{logout}
use upstride_api.Auth.Sessions.Rotation.{IsRevoked}
use upstride_api.Auth.Sessions.Reuse.{refresh_session-refresh_session}
use upstride_api.Auth.Sessions.Requests.{
  SessionRequest, serve, serve_sessions, refresh_session-serve_sessions,
}
use upstride_api.Auth.Sessions.Access.{verify_session-logout}
use upstride_api.Tests.{hour, mentee, mentor_user}
use upstride_api.Tests.Redis.{table, Table, services, Token}

-- The session 7 of the mentee, whose refresh token has the identifier 70.
abbrev session : Session
session = record {
  sid = 7;
  user_id = 1;
  refresh_token_hash = 70;
  expires_at = 178 * hour;
  revoked = false;
  last_used_at = 10 * hour;
}

abbrev start : AuthState Table
start = record {
  now = 10 * hour;
  users = mentee ∷ mentor_user ∷ [];
  sessions = session ∷ [];
  redis = λ k. none;
  mails = [];
  registered = [];
}

abbrev ids : NewIds
ids = record { session_id = 8; refresh_token_id = 80; access_token_id = 81 }

-- Five wrong guesses, a second apart, and the right one.
abbrev guesses : List (ℕ × ℕ)
guesses =
    (10 * hour + 1000, 111111)
    ∷ (10 * hour + 2000, 222222)
    ∷ (10 * hour + 3000, 333333)
    ∷ (10 * hour + 4000, 444444)
    ∷ (10 * hour + 5000, 555555)
    ∷ []

take_otp-guess_all_example :
    let s' =
      guess_all table register_policy 1 guesses
        (save_code table 1 OtpPurpose.register 123456 300 start).1 in
    is_err (take_otp table register_policy 1 123456 (record s' { now = 10 * hour + 6000 })).0 ≡ true
take_otp-guess_all_example =
    take_otp-guess_all table register_policy 1 123456 123456 (10 * hour + 6000) guesses start
      (omega arith) (omega arith, (omega arith, (omega arith, (omega arith, (omega arith, tt)))))
      (
        λ e. omega (arith, e),
        (
          λ e. omega (arith, e),
          (λ e. omega (arith, e), (λ e. omega (arith, e), (λ e. omega (arith, e), tt))),
        ),
      )
      (omega arith) (omega arith)

-- The state with a code to reset the password.
abbrev requested : AuthState Table
requested = (save_code table 1 OtpPurpose.reset_password 123456 180 start).1

taken : is_err (take_otp table reset_password_policy 1 123456 requested).0 ≡ false
unfolding take_otp save_code get_attempts get_code delete_all
taken = refl

take_otp-take_otp_example :
    let s' = (take_otp table reset_password_policy 1 123456 requested).1 in
    is_err (take_otp table reset_password_policy 1 123456 (record s' { now = 10 * hour + 1000 })).0
    ≡ true
take_otp-take_otp_example =
    take_otp-take_otp table reset_password_policy 1 123456 123456 (10 * hour + 1000) requested taken

-- Three more codes, half a minute apart, and a wrong password after the first.
abbrev first_call : CodeRequest table register_policy 3 1 11
first_call = CodeRequest.resend (10 * hour + 30000) 111111

abbrev calls : List (CodeRequest table register_policy 3 1 11)
calls =
    first_call
    ∷ CodeRequest.guess (10 * hour + 40000) 222222
    ∷ CodeRequest.resend (10 * hour + 60000) 333333
    ∷ CodeRequest.resend (10 * hour + 90000) 444444
    ∷ []

only_wrong :
    (take_otp table register_policy 1 222222
      (record (serve_request table register_policy 3 1 11 first_call start) {
        now = 10 * hour + 40000;
      })).0
    ≡ err Error.invalid_otp
unfolding take_otp save_code get_attempts get_code refuse_otp increment_attempts resend_code
    send_code increment_resends reset_attempts
only_wrong = refl

resend_code-serve_requests_example :
    (resend_code table register_policy 3 1 11 555555
      (record (serve_requests table register_policy 3 1 11 calls start) {
        now = 10 * hour + 120000;
      })).0
    ≡ err Error.max_resends_exceeded
resend_code-serve_requests_example =
    resend_code-serve_requests table register_policy 3 1 11 555555 (10 * hour + 120000) calls start
      refl
      (
        omega arith,
        (tt, (omega arith, (only_wrong, (omega arith, (tt, (omega arith, (tt, omega arith))))))),
      )
      (omega arith) (omega arith)

-- A minute to read the code, and two to think of a password.
login-update_password_example :
    let s1 = (request_password_reset table services 11 123456 start).1 in
    let s2 =
      (verify_reset_password_otp table services 11 123456
        (record s1 { now = 10 * hour + 60000 })).1 in
    let token = Token.reset 1 (10 * hour + 60000) in
    let s3 =
      (update_password table services 99 11 token 777 (record s2 { now = 10 * hour + 180000 })).1 in
    ((verify_reset_password_otp table services 11 123456 (record s1 { now = 10 * hour + 60000 })).0
      ≡ ok token)
    × (((update_password table services 99 11 token 777 (record s2 { now = 10 * hour + 180000 })).0
          ≡ ok tt)
        × (is_err (login_with_email table services ids 11 777 (record s3 { now = 12 * hour })).0
            ≡ false))
login-update_password_example =
    login-update_password table services mentee 99 123456 777 (10 * hour + 60000)
      (10 * hour + 180000) (12 * hour) ids start (refl, (refl, (refl, (refl, refl))))
      (λ e. omega (arith, e)) (omega arith) (omega arith) (omega arith) (omega arith)

abbrev payload : RefreshTokenPayload
payload = refresh_payload 1 70 7

refreshed :
    is_err (refresh_session table services 71 72 (some (Token.refresh payload (10 * hour))) start).0
    ≡ false
unfolding refresh_session rotate assert_user_can_authenticate assert_authentication_allowed
    update_by_sid
refreshed = refl

refresh_session-refresh_session_example :
    let token = Token.refresh payload (10 * hour) in
    let s' = record (refresh_session table services 71 72 (some token) start).1 {
      now = 11 * hour;
    } in
    (is_err (refresh_session table services 73 74 (some token) s').0 ≡ true)
    × IsRevoked 7 (refresh_session table services 73 74 (some token) s').1.sessions
refresh_session-refresh_session_example =
    refresh_session-refresh_session table services 71 72 73 74 (10 * hour) (11 * hour) payload start
      (omega arith) (omega arith) (omega arith) (λ e. omega (arith, e)) refreshed

-- The session is revoked from the start; the user logs in again and leaves that session.
abbrev revoked_start : AuthState Table
revoked_start = record start { sessions = (record session { revoked = true }) ∷ [] }

abbrev requests : List (SessionRequest Token)
requests =
    SessionRequest.log_in ids 11 501 ∷ SessionRequest.wait hour ∷ SessionRequest.log_out 8 ∷ []

still_read :
    services.verify_refresh_token
      (Token.refresh payload (10 * hour))
      (serve_sessions table services requests revoked_start).now
    ≡ some payload
unfolding serve_sessions serve logout login_with_email assert_authentication_allowed
    create_login_response create_session revoke update_by_sid revoke_token
still_read = refl

refresh_session-serve_sessions_example :
    let s' = serve_sessions table services requests revoked_start in
    (is_err (refresh_session table services 71 72 (some (Token.refresh payload (10 * hour))) s').0
      ≡ true)
    × ((refresh_session table services 71 72 (some (Token.refresh payload (10 * hour))) s').1 ≡ s')
refresh_session-serve_sessions_example =
    refresh_session-serve_sessions table services requests revoked_start 71 72
      (Token.refresh payload (10 * hour)) payload (record session { revoked = true }, (refl, refl))
      still_read

-- The access token is from ten minutes before, and has five left.
verify_session-logout_example :
    let s' = record (logout table 7 start).1 { now = 10 * hour + 1000 } in
    verify_session table services
      (some (Token.access (access_payload 1 72 7) (10 * hour - 600000)))
      s'
    ≡ (err Error.unauthorized, s')
verify_session-logout_example =
    verify_session-logout table services 7 (10 * hour + 1000) session start
      (Token.access (access_payload 1 72 7) (10 * hour - 600000)) (access_payload 1 72 7) refl refl
      (omega arith) (omega arith) refl refl
