-- ===== src/Auth/Sessions/Reuse.antt =====
-- A refresh token that has been used is not taken again.
use upstride_api.Base.{
  ℕ, ◌+◌, ◌≤◌, ◌≡◌, ◌≢◌, refl, sym, subst, true, false, some, arith, ◌==◌, ==_iff,
}
use upstride_api.Store.{Session, is_err, find_key, update_key, find_key-update_self, key-find_key}
use upstride_api.Auth.Redis.{Redis}
use upstride_api.Auth.State.{AuthState}
use upstride_api.Auth.Services.{AuthServices, RefreshTokenPayload, refresh_token_ms}
use upstride_api.Auth.Sessions.{find_session, sid_key, rotated, revoked_session}
use upstride_api.Auth.Sessions.Logins.{refresh_session, refresh_payload}
use upstride_api.Auth.Sessions.Rotation.{
  IsRevoked, refresh_session_lem, refresh-old, new_refresh_token,
}

module _ (r : Redis) (v : AuthServices) where
  open r use {Db}
  open v use {Token, generate_refresh_token, verify_refresh_token, hash_token}

  -- A session that is found under a hash that is not the token's is revoked.
  refused_old :
      (j a : ℕ) (s : AuthState Db) (token : Token) (p : RefreshTokenPayload) (x : Session)
      → verify_refresh_token token s.now ≡ some p
      → find_session p.sid s ≡ some x
      → x.revoked ≡ false
      → x.refresh_token_hash ≢ hash_token token
      → (is_err (refresh_session r v j a (some token) s).0 ≡ true)
        × IsRevoked p.sid (refresh_session r v j a (some token) s).1.sessions
  refused_old j a s token p x read found live other =
      let old : (x.refresh_token_hash == hash_token token) ≡ false =
        ground (arith, ==_iff x.refresh_token_hash (hash_token token)) in
      rw (refresh-old r v j a s token p read x found live old) (
        refl,
        (
          revoked_session x,
          (
            find_key-update_self sid_key p.sid revoked_session s.sessions x found
                (key-find_key sid_key p.sid s.sessions x found),
            refl,
          ),
        ),
      )

  -- A refresh token is good for one refreshing. When it is used again after one that returned, while it
  -- has not expired, the call throws and the session is revoked, so that the thief and the owner of a
  -- stolen token are both out.
  pub refresh_session-refresh_session :
      (j a j' a' t0 t : ℕ) (q : RefreshTokenPayload) (s : AuthState Db)
      → t0 ≤ s.now
      → s.now ≤ t
      → t + 1000 ≤ t0 + refresh_token_ms
      → q.jti ≢ j
      → is_err (refresh_session r v j a (some (generate_refresh_token q t0)) s).0 ≡ false
      → let token = generate_refresh_token q t0 in
        let s' = record (refresh_session r v j a (some token) s).1 { now = t } in
        (is_err (refresh_session r v j' a' (some token) s').0 ≡ true)
        × IsRevoked q.sid (refresh_session r v j' a' (some token) s').1.sessions
  refresh_session-refresh_session j a j' a' t0 t q s issued later lives fresh h =
      let token = generate_refresh_token q t0 in
      let (x, (found, (live, (_, (u, (_, (_, done))))))) =
        refresh_session_lem r v j a s token q
          (v.verify-refresh_token q t0 s.now issued (omega arith)) h in
      let k : x.sid ≡ q.sid = key-find_key sid_key q.sid s.sessions x found in
      let new = new_refresh_token r v j a x u s in
      let f = rotated (hash_token new) s.now in
      rw done (
        refused_old j' a' (record s { now = t; sessions = update_key sid_key x.sid f s.sessions })
          token q (f x) (v.verify-refresh_token q t0 t (omega arith) lives)
          (subst (λ i. find_key sid_key q.sid (update_key sid_key i f s.sessions) ≡ some (f x))
            (sym k) (find_key-update_self sid_key q.sid f s.sessions x found k))
          live (λ e. fresh (sym (v.hash_token-jti (refresh_payload u.id j x.sid) q s.now t0 e))))
