-- ===== src/Auth/Sessions.antt =====
-- Login sessions: src/infrastructure/database/mongodb/repositories/session.repository.ts,
-- src/infrastructure/database/redis/repositories/token-revocation.repository.ts and
-- src/presentation/http/middlewares/session.middleware.ts.
pub mod Logins
pub mod Logouts
pub mod Rotation
pub mod Reuse
pub mod Revoked
pub mod Requests
pub mod Access
use upstride_api.Base.{
  ℕ, ◌+◌, ◌*◌, ◌-◌, ◌/◌, ◌++◌, [], ◌∷◌, List, map, filter, any, Bool, true, false, not, ◌&&◌, ◌||◌,
  Option, none, some, ltb, ◌==◌, is_some, if◌then◌else◌,
}
use upstride_api.Store.{User, Session, Result, Error, find_key, update_key}
use upstride_api.Auth.Redis.{Redis, Key}
use upstride_api.Auth.State.{
  AuthState, Call, pure, raise, gets, raise_if, or_raise, modify, ◌>>=◌, ◌>>◌,
}
use upstride_api.Auth.Services.{
  AuthServices, RefreshTokenPayload, AccessTokenPayload, refresh_token_ms,
}
use upstride_api.Auth.Users.{
  find_user_by_email, find_user_by_id, is_local, resolve_authentication_status,
  assert_authentication_allowed, assert_user_can_authenticate,
}

abbrev pub sid_key : Session → ℕ
sid_key x = x.sid

abbrev pub revoked_session : Session → Session
revoked_session x = record x { revoked = true }

abbrev pub is_one_of : List ℕ → Session → Bool
is_one_of sids x = any (λ sid. sid == x.sid) sids

abbrev pub revoke_one_of : List ℕ → Session → Session
revoke_one_of sids x = if is_one_of sids x then revoked_session x else x

-- `{ lastUsedAt, refreshTokenHash }`
abbrev pub rotated : (hash now : ℕ) → Session → Session
rotated hash now x = record x { refresh_token_hash = hash; last_used_at = now }

-- The sessions that are revoked on demand of the session `sid`: the user's others that are not yet.
abbrev pub is_other : (user_id sid : ℕ) → Session → Bool
is_other user_id sid x = x.user_id == user_id && (not (x.sid == sid) && not x.revoked)

module _ {D : Type 0} where
  -- `findBySid`
  abbrev pub find_session : ℕ → AuthState D → Option Session
  find_session sid s = find_key sid_key sid s.sessions

  unfoldable pub create_session : Session → Call D (Unit {0})
  create_session x = modify (λ s. record s { sessions = s.sessions ++ x ∷ [] })

  unfoldable pub update_by_sid : ℕ → (Session → Session) → Call D (Unit {0})
  update_by_sid sid f = modify (λ s. record s { sessions = update_key sid_key sid f s.sessions })

  unfoldable pub revoke : ℕ → Call D (Unit {0})
  revoke sid = update_by_sid sid revoked_session

  unfoldable pub revoke_multiple : List ℕ → Call D (Unit {0})
  revoke_multiple sids = modify (λ s. record s { sessions = map (revoke_one_of sids) s.sessions })

  -- `Promise.all` of two calls: both run, and the first error is thrown.
  abbrev keep_error :
      Result (Unit {0}) → Result (Unit {0}) × AuthState D → Result (Unit {0}) × AuthState D
  keep_error (Result.ok _) x = x
  keep_error (Result.err e) (x, s) = (Result.err e, s)

  abbrev pub both : Call D (Unit {0}) → Call D (Unit {0}) → Call D (Unit {0})
  both m k s = keep_error (m s).0 (k (m s).1)

module _ (r : Redis) where
  open r use {Db, get, set_ex}

  abbrev pub set_revoked : (sid ttl : ℕ) → AuthState Db → AuthState Db
  set_revoked sid ttl s = record s { redis = set_ex (Key.revoked_session sid) 1 ttl s.now s.redis }

  -- `TokenRevocationRepository.revokeSession`. Redis refuses a time to live that is not positive.
  unfoldable pub revoke_token : (sid ttl : ℕ) → Call Db (Unit {0})
  revoke_token sid ttl =
      if ttl == 0 then raise Error.redis_failure else modify (set_revoked sid ttl)

  -- `revokeMultiple`: in a pipeline a command that is refused throws nothing.
  unfoldable pub revoke_tokens : List (ℕ × ℕ) → Call Db (Unit {0})
  revoke_tokens [] = pure tt
  revoke_tokens (x ∷ xs) =
      modify (λ s. if x.1 == 0 then s else set_revoked x.0 x.1 s) >> revoke_tokens xs

  unfoldable pub is_session_revoked : (sid : ℕ) → AuthState Db → Bool
  is_session_revoked sid s = is_some (get (Key.revoked_session sid) s.now s.redis)

module _ (r : Redis) (v : AuthServices) where
  open r use {Db}
  open v use {Token, verify_access_token}

  -- `verifySession`: the session of a request with this token, which is the caller's if it is not revoked.
  unfoldable pub verify_session : Option Token → Call Db AccessTokenPayload
  verify_session header = do
    token ← or_raise Error.unauthorized header
    payload ← or_raise Error.unauthorized (← gets (λ s. verify_access_token token s.now))
    is_revoked ← gets (is_session_revoked r payload.sid)
    raise_if is_revoked Error.unauthorized
    pure payload
