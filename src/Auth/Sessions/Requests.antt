-- ===== src/Auth/Sessions/Requests.antt =====
-- Sequences of requests that concern the login sessions.
use upstride_api.Base.{ℕ, ◌+◌, ◌≡◌, refl, true, Option, some, List, [], ◌∷◌}
use upstride_api.Store.{is_err}
use upstride_api.Auth.Redis.{Redis}
use upstride_api.Auth.State.{AuthState}
use upstride_api.Auth.Services.{AuthServices, RefreshTokenPayload}
use upstride_api.Auth.Sessions.Logins.{NewIds, login_with_email, refresh_session}
use upstride_api.Auth.Sessions.Logouts.{logout, revoke_session, revoke_all_other_sessions}
use upstride_api.Auth.Sessions.Rotation.{IsRevoked, refresh-revoked}
use upstride_api.Auth.Sessions.Revoked.{
  KeepsRevoked, Follows-KeepsRevoked, login-Follows, refresh-Follows, logout-Follows,
  revoke_session-Follows, revoke_others-KeepsRevoked,
}

-- A request, with the token that it carries, or time that passes.
pub data SessionRequest (T : Type 0) : Type 0 where
  log_in : NewIds → (email password : ℕ) → SessionRequest T
  refresh : (refresh_token_id access_token_id : ℕ) → Option T → SessionRequest T
  log_out : (session_id : ℕ) → SessionRequest T
  revoke_one : (user_id session_id : ℕ) → SessionRequest T
  revoke_others : (user_id session_id : ℕ) → SessionRequest T
  wait : ℕ → SessionRequest T

module _ (r : Redis) (v : AuthServices) where
  open r use {Db}
  open v use {Token, verify_refresh_token}

  -- The state that the request leaves, whether it returns or throws.
  unfoldable pub serve : SessionRequest Token → AuthState Db → AuthState Db
  serve (SessionRequest.log_in ids email password) s = (login_with_email r v ids email password s).1
  serve (SessionRequest.refresh j a input) s = (refresh_session r v j a input s).1
  serve (SessionRequest.log_out sid) s = (logout r sid s).1
  serve (SessionRequest.revoke_one user sid) s = (revoke_session r user sid s).1
  serve (SessionRequest.revoke_others user sid) s = (revoke_all_other_sessions r user sid s).1
  serve (SessionRequest.wait ms) s = record s { now = s.now + ms }

  unfoldable pub serve_sessions : List (SessionRequest Token) → AuthState Db → AuthState Db
  serve_sessions [] s = s
  serve_sessions (q ∷ qs) s = serve_sessions qs (serve q s)

  serve-KeepsRevoked :
      (q : SessionRequest Token) (s : AuthState Db) → KeepsRevoked s.sessions (serve q s).sessions
  unfolding serve
  serve-KeepsRevoked (SessionRequest.log_in ids email password) s =
      Follows-KeepsRevoked s.sessions (login_with_email r v ids email password s).1.sessions
        (login-Follows r v ids email password s)
  serve-KeepsRevoked (SessionRequest.refresh j a input) s =
      Follows-KeepsRevoked s.sessions (refresh_session r v j a input s).1.sessions
        (refresh-Follows r v j a input s)
  serve-KeepsRevoked (SessionRequest.log_out sid) s =
      Follows-KeepsRevoked s.sessions (logout r sid s).1.sessions (logout-Follows r v sid s)
  serve-KeepsRevoked (SessionRequest.revoke_one user sid) s =
      Follows-KeepsRevoked s.sessions (revoke_session r user sid s).1.sessions
        (revoke_session-Follows r v user sid s)
  serve-KeepsRevoked (SessionRequest.revoke_others user sid) s =
      revoke_others-KeepsRevoked r v user sid s
  serve-KeepsRevoked (SessionRequest.wait ms) s = λ sid p. p

  serve_sessions-KeepsRevoked :
      (qs : List (SessionRequest Token)) (s : AuthState Db)
      → KeepsRevoked s.sessions (serve_sessions qs s).sessions
  unfolding serve_sessions
  serve_sessions-KeepsRevoked [] s sid p = p
  serve_sessions-KeepsRevoked (q ∷ qs) s sid p =
      serve_sessions-KeepsRevoked qs (serve q s) sid (serve-KeepsRevoked q s sid p)

  -- A session that is revoked is over: whatever logins, refreshings and logouts come, no refresh token of
  -- it is taken.
  pub refresh_session-serve_sessions :
      (qs : List (SessionRequest Token)) (s : AuthState Db) (j a : ℕ) (token : Token)
      (p : RefreshTokenPayload)
      → IsRevoked p.sid s.sessions
      → let s' = serve_sessions qs s in
        verify_refresh_token token s'.now ≡ some p
        → (is_err (refresh_session r v j a (some token) s').0 ≡ true)
          × ((refresh_session r v j a (some token) s').1 ≡ s')
  refresh_session-serve_sessions qs s j a token p revoked read =
      let (x, (found, over)) = serve_sessions-KeepsRevoked qs s p.sid revoked in
      rw (refresh-revoked r v j a (serve_sessions qs s) token p read x found over) (refl, refl)
