-- ===== src/Auth/Sessions/Logouts.antt =====
-- src/application/modules/authentication/use-cases/logout: logout.use-case.ts, revoke-session.use-case.ts
-- and revoke-all-other-sessions.use-case.ts.
use upstride_api.Base.{ℕ, ◌-◌, ◌/◌, not, map, filter, none, some, ◌==◌, if◌then◌else◌}
use upstride_api.Store.{Session, Error}
use upstride_api.Auth.Redis.{Redis}
use upstride_api.Auth.State.{Call, pure, gets, raise_if, or_raise, ◌>>=◌, ◌>>◌}
use upstride_api.Auth.Sessions.{
  find_session, revoke, revoke_multiple, both, revoke_token, revoke_tokens, is_other,
}

module _ (r : Redis) where
  open r use {Db}

  abbrev log_out : ℕ → Session → Call Db (Unit {0})
  log_out sid x s =
      if x.revoked
      then pure tt s
      else both (revoke sid) (revoke_token r sid ((x.expires_at - s.now) / 1000)) s

  -- `LogoutUseCase.execute`. A session whose end has passed has no time to live, as one that is less than 0.
  unfoldable pub logout : (session_id : ℕ) → Call Db (Unit {0})
  logout session_id s = elim (find_session session_id s) [
    | none ↦ pure tt s
    | some x ↦ log_out session_id x s
  ]

  -- `RevokeSessionUseCase.execute`, which gives milliseconds where seconds are due.
  unfoldable pub revoke_session : (requester_user_id target_session_id : ℕ) → Call Db (Unit {0})
  revoke_session requester_user_id target_session_id = do
    x ← or_raise Error.validation (← gets (find_session target_session_id))
    raise_if (not (requester_user_id == x.user_id)) Error.unauthorized
    now ← gets (λ s. s.now)
    both (revoke target_session_id) (revoke_token r target_session_id (x.expires_at - now))

  abbrev pub with_ttl : ℕ → Session → ℕ × ℕ
  with_ttl now x = (x.sid, (x.expires_at - now) / 1000)

  -- `RevokeAllOtherSessionsUseCase.execute`: with no session to revoke, neither call does anything.
  unfoldable pub revoke_all_other_sessions :
      (requester_user_id requester_session_id : ℕ) → Call Db (Unit {0})
  revoke_all_other_sessions requester_user_id requester_session_id = do
    now ← gets (λ s. s.now)
    others ← gets (λ s. filter (is_other requester_user_id requester_session_id) s.sessions)
    both (revoke_multiple (map (λ (x : Session). x.sid) others))
        (revoke_tokens r (map (with_ttl now) others))
