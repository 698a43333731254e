-- ===== src/Auth/Sessions/Access.antt =====
-- The access tokens of a session that was logged out.
use upstride_api.Base.{ℕ, ◌+◌, ◌*◌, ◌-◌, ◌/◌, ◌≤◌, ◌≡◌, refl, true, false, some, arith, ltb}
use upstride_api.Store.{Session, Error, err}
use upstride_api.Auth.Redis.{Redis, Key}
use upstride_api.Auth.State.{AuthState}
use upstride_api.Auth.Services.{AuthServices, AccessTokenPayload}
use upstride_api.Auth.Sessions.{
  find_session, revoke, update_by_sid, revoke_token, is_session_revoked, verify_session,
}
use upstride_api.Auth.Sessions.Logouts.{logout}

module _ (r : Redis) (v : AuthServices) where
  open r use {Db, get, set_ex}
  open v use {Token, verify_access_token}

  module _ (sid t : ℕ) (x : Session) (s : AuthState Db) where
    logout-redis :
        find_session sid s ≡ some x
        → x.revoked ≡ false
        → s.now + 1000 ≤ x.expires_at
        → (logout r sid s).1.redis
          ≡ set_ex (Key.revoked_session sid) 1 ((x.expires_at - s.now) / 1000) s.now s.redis
    unfolding logout revoke update_by_sid revoke_token
    logout-redis found live left = ground arith

    -- A time to live in whole seconds falls short by less than one.
    in_time :
        s.now ≤ t
        → t + 1000 ≤ x.expires_at
        → ltb t (s.now + (x.expires_at - s.now) / 1000 * 1000) ≡ true
    in_time later left = ground arith

    verify_session-revoked :
        (token : Token) (p : AccessTokenPayload) (w : AuthState Db)
        → verify_access_token token w.now ≡ some p
        → is_session_revoked r p.sid w ≡ true
        → verify_session r v (some token) w ≡ (err Error.unauthorized, w)
    unfolding verify_session
    verify_session-revoked token p w read revoked = ground arith

    -- After a logout, the session's access tokens are refused until a second before the session's end,
    -- though they have not expired.
    pub verify_session-logout :
        (token : Token) (p : AccessTokenPayload)
        → find_session sid s ≡ some x
        → x.revoked ≡ false
        → s.now ≤ t
        → t + 1000 ≤ x.expires_at
        → verify_access_token token t ≡ some p
        → p.sid ≡ sid
        → let s' = record (logout r sid s).1 { now = t } in
          verify_session r v (some token) s' ≡ (err Error.unauthorized, s')
    unfolding is_session_revoked
    verify_session-logout token p found live later left read own =
        verify_session-revoked token p (record (logout r sid s).1 { now = t }) read
          (rw (own, logout-redis found live (omega arith))
            (rw
              (r.get-set_ex (Key.revoked_session sid) 1 ((x.expires_at - s.now) / 1000) s.now t
                s.redis later)
              (rw (in_time later left) refl)))
