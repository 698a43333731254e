-- ===== src/Auth/Flow.antt =====
-- A forgotten password from the request to the next login.
use upstride_api.Base.{
  ℕ, ◌+◌, ◌≤◌, ◌<◌, ◌≡◌, ◌≢◌, refl, ◌∙◌, inl, inr, true, false, none, some, List, [], ◌∷◌, arith,
  ◌==◌, ==_iff, Bool-cases,
}
use upstride_api.Store.{User, ok, is_err, find_key, update_key, user_key, key-find_key}
use upstride_api.Auth.Redis.{Redis, Key, OtpPurpose}
use upstride_api.Auth.State.{AuthState}
use upstride_api.Auth.Services.{AuthServices, reset_token_ms}
use upstride_api.Auth.Users.{
  email_key, find_user_by_email, find_user_by_id, is_local, update_user,
  assert_user_can_authenticate, assert_authentication_allowed,
}
use upstride_api.Auth.Otp.{reset_password_policy, send_code, save_code, delete_all}
use upstride_api.Auth.Otp.Counts.{take_otp-right}
use upstride_api.Auth.PasswordReset.{
  request_password_reset, verify_reset_password_otp, update_password, with_password,
}
use upstride_api.Auth.Sessions.{create_session}
use upstride_api.Auth.Sessions.Logins.{NewIds, login_with_email, create_login_response}

-- One user has the address and the id, so that an update by the id is seen under the address.
find_key-update_email :
    (e : ℕ) (f : User → User) (us : List User) (u : User)
    → ((y : User) → ((f y).id ≡ y.id) × ((f y).email ≡ y.email))
    → find_key email_key e us ≡ some u
    → find_key user_key u.id us ≡ some u
    → find_key email_key e (update_key user_key u.id f us) ≡ some (f u)
unfolding update_key
find_key-update_email e f [] u k by_email by_id = ground arith
find_key-update_email e f (y ∷ us) u k by_email by_id = elim (Bool-cases (y.id == u.id)) [
  | inl same ↦ ground (arith, k y, key-find_key email_key e (y ∷ us) u by_email)
  | inr other ↦ ground (arith, find_key-update_email e f us u k)
]

module _ (r : Redis) (v : AuthServices) (u : User) where
  open r use {Db, get, set_ex, del}
  open v use {Token, generate_reset_token, hash_password}

  -- A user who can log in with a password.
  abbrev pub IsLocal : AuthState Db → Type 0
  IsLocal s =
      (find_user_by_email u.email s ≡ some u)
      × ((find_user_by_id u.id s ≡ some u)
          × ((is_local u.auth_type ≡ true) × ((u.is_blocked ≡ false) × (u.is_verified ≡ true))))

  request-users :
      (otp : ℕ) (s : AuthState Db)
      → IsLocal s
      → ((request_password_reset r v u.email otp s).0 ≡ ok tt)
        × (((request_password_reset r v u.email otp s).1.users ≡ s.users)
            × ((request_password_reset r v u.email otp s).1.redis
                ≡ (save_code r u.id OtpPurpose.reset_password otp 180 s).1.redis))
  unfolding request_password_reset send_code save_code assert_user_can_authenticate
      assert_authentication_allowed
  request-users otp s h = (ground arith, (ground arith, ground arith))

  -- What is stored after the request: the code, and no guess.
  code_ready :
      (otp t : ℕ) (s : AuthState Db)
      → IsLocal s
      → s.now ≤ t
      → t < s.now + 180000
      → let d = (request_password_reset r v u.email otp s).1.redis in
        (get (Key.otp u.id OtpPurpose.reset_password) t d ≡ some otp)
        × (get (Key.otp_attempts u.id OtpPurpose.reset_password) t d ≡ none)
  unfolding save_code
  code_ready otp t s h later inside =
      let code = Key.otp u.id OtpPurpose.reset_password in
      let attempts = Key.otp_attempts u.id OtpPurpose.reset_password in
      let d = set_ex code otp 180 s.now s.redis in
      rw ((request-users otp s h).1.1) (
        r.get-del_other attempts code t d (λ e. cc)
            ∙ r.get-set_ex code otp 180 s.now t s.redis later
            ∙ ground arith,
        r.get-del attempts t d,
      )

  -- The code that was sent is taken in its time, whatever was tried before.
  verify-request :
      (otp t : ℕ) (s : AuthState Db)
      → IsLocal s
      → s.now ≤ t
      → t < s.now + 180000
      → let s' = record (request_password_reset r v u.email otp s).1 { now = t } in
        ((verify_reset_password_otp r v u.email otp s').0 ≡ ok (generate_reset_token u.id t))
        × ((verify_reset_password_otp r v u.email otp s').1.users ≡ s.users)
  unfolding verify_reset_password_otp delete_all
  verify-request otp t s h later inside =
      let s' = record (request_password_reset r v u.email otp s).1 { now = t } in
      ground (
        arith,
        request-users otp s h,
        code_ready otp t s h later inside,
        take_otp-right r reset_password_policy u.id otp s',
      )

  update-users :
      (dummy password : ℕ) (token : Token) (w : AuthState Db)
      → IsLocal w
      → (u.email == dummy) ≡ false
      → v.verify_reset_token token w.now ≡ some u.id
      → ((update_password r v dummy u.email token password w).0 ≡ ok tt)
        × ((update_password r v dummy u.email token password w).1.users
            ≡ update_key user_key u.id (with_password (hash_password password)) w.users)
  unfolding update_password update_user
  update-users dummy password token w h other read =
      (ground (arith, ==_iff u.id u.id), ground (arith, ==_iff u.id u.id))

  login-password :
      (ids : NewIds) (password : ℕ) (w : AuthState Db)
      → find_user_by_email u.email w ≡ some (with_password (hash_password password) u)
      → is_local u.auth_type ≡ true
      → u.is_blocked ≡ false
      → u.is_verified ≡ true
      → is_err (login_with_email r v ids u.email password w).0 ≡ false
  unfolding login_with_email create_login_response create_session assert_authentication_allowed
  login-password ids password w found local free verified =
      ground (arith, v.verify-hash_password password)

  -- A user who has forgotten the password gets in again: the code that was asked for is taken within its
  -- three minutes, however many wrong ones were tried before it was sent; the token that this returns
  -- sets a new password within its fifteen minutes; and with that the user can log in at any time.
  pub login-update_password :
      (dummy otp password t1 t2 t3 : ℕ) (ids : NewIds) (s : AuthState Db)
      → IsLocal s
      → u.email ≢ dummy
      → s.now ≤ t1
      → t1 < s.now + 180000
      → t1 ≤ t2
      → t2 + 1000 ≤ t1 + reset_token_ms
      → let s1 = (request_password_reset r v u.email otp s).1 in
        let s2 = (verify_reset_password_otp r v u.email otp (record s1 { now = t1 })).1 in
        let token = generate_reset_token u.id t1 in
        let s3 = (update_password r v dummy u.email token password (record s2 { now = t2 })).1 in
        ((verify_reset_password_otp r v u.email otp (record s1 { now = t1 })).0 ≡ ok token)
        × (((update_password r v dummy u.email token password (record s2 { now = t2 })).0 ≡ ok tt)
            × (is_err (login_with_email r v ids u.email password (record s3 { now = t3 })).0
                ≡ false))
  login-update_password dummy otp password t1 t2 t3 ids s h other l1 i1 l2 i2 =
      let s1 = record (request_password_reset r v u.email otp s).1 { now = t1 } in
      let (taken, users) = verify-request otp t1 s h l1 i1 in
      let s2 : AuthState Db = record (verify_reset_password_otp r v u.email otp s1).1 {
        now = t2;
      } in
      let token = generate_reset_token u.id t1 in
      let local2 : IsLocal s2 = rw users h in
      let (done, changed) =
        update-users dummy password token s2 local2 (ground (arith, ==_iff u.email dummy))
          (v.verify-reset_token u.id t1 t2 l2 i2) in
      let s3 : AuthState Db = record (update_password r v dummy u.email token password s2).1 {
        now = t3;
      } in
      (
        taken,
        (
          done,
          login-password ids password s3
              (rw changed (
                find_key-update_email u.email (with_password (hash_password password)) s2.users u
                  (λ y. (refl, refl)) local2.0 local2.1.0))
              h.1.1.0 h.1.1.1.0 h.1.1.1.1,
        ),
      )
