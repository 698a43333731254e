-- ===== src/Auth/Sessions/Rotation.antt =====
-- Refreshing a session: its ways, and the reuse of a token that is not the last.
use upstride_api.Base.{
  ℕ, List, ◌≡◌, refl, ◌⊎◌, inl, inr, ◌∙◌, Bool, true, false, not, ◌&&◌, none, some, arith,
  Bool-cases, Option-cases, ◌==◌, ==_iff, ltb,
}
use upstride_api.Store.{User, Session, Error, ok, err, is_err, find_key, update_key}
use upstride_api.Auth.Redis.{Redis}
use upstride_api.Auth.State.{AuthState}
use upstride_api.Auth.Services.{AuthServices, RefreshTokenPayload}
use upstride_api.Auth.Users.{
  find_user_by_id, assert_user_can_authenticate, assert_authentication_allowed,
}
use upstride_api.Auth.Sessions.{
  find_session, sid_key, revoke, update_by_sid, rotated, revoked_session,
}
use upstride_api.Auth.Sessions.Logins.{
  refresh_session, rotate, refresh_payload, access_payload, RefreshSessionOutput,
}

-- The session is there and revoked.
abbrev pub IsRevoked : ℕ → List Session → Type 0
IsRevoked sid xs = (x : Session) × ((find_key sid_key sid xs ≡ some x) × (x.revoked ≡ true))

module _ (r : Redis) (v : AuthServices) (j a : ℕ) where
  open r use {Db}
  open v use {
    Token, generate_access_token, generate_refresh_token, verify_refresh_token, hash_token,
  }

  pub refresh-missing :
      (s : AuthState Db) → refresh_session r v j a none s ≡ (err Error.unauthorized, s)
  unfolding refresh_session
  refresh-missing s = refl

  module _ (s : AuthState Db) (token : Token) where
    pub refresh-unread :
        verify_refresh_token token s.now ≡ none
        → refresh_session r v j a (some token) s ≡ (err Error.invalid_token, s)
    unfolding refresh_session
    refresh-unread e = ground arith

    module _ (p : RefreshTokenPayload) (read : verify_refresh_token token s.now ≡ some p) where
      pub refresh-unknown :
          find_session p.sid s ≡ none
          → refresh_session r v j a (some token) s ≡ (err Error.unauthorized, s)
      unfolding refresh_session
      refresh-unknown e = ground arith

      module _ (x : Session) (found : find_session p.sid s ≡ some x) where
        pub refresh-revoked :
            x.revoked ≡ true → refresh_session r v j a (some token) s ≡ (err Error.unauthorized, s)
        unfolding refresh_session
        refresh-revoked h = ground arith

        pub refresh-last :
            x.revoked ≡ false
            → (x.refresh_token_hash == hash_token token) ≡ true
            → refresh_session r v j a (some token) s ≡ rotate r v j a x s
        unfolding refresh_session
        refresh-last live last = ground arith

        -- A token that is not the session's last revokes it.
        pub refresh-old :
            x.revoked ≡ false
            → (x.refresh_token_hash == hash_token token) ≡ false
            → refresh_session r v j a (some token) s ≡ (
              err Error.unauthorized,
              record s { sessions = update_key sid_key p.sid revoked_session s.sessions },
            )
        unfolding refresh_session revoke update_by_sid
        refresh-old live old = ground arith

  -- The guards of new tokens pass.
  abbrev pub may_rotate : Session → User → AuthState Db → Bool
  may_rotate x u s = not (ltb x.expires_at s.now) && (not u.is_blocked && u.is_verified)

  abbrev pub new_refresh_token : Session → User → AuthState Db → Token
  new_refresh_token x u s = generate_refresh_token (refresh_payload u.id j x.sid) s.now

  abbrev pub new_tokens : Session → User → AuthState Db → RefreshSessionOutput Token
  new_tokens x u s = record {
    access_token = generate_access_token (access_payload u.id a x.sid) s.now;
    refresh_token = new_refresh_token x u s;
  }

  -- New tokens are refused and nothing changes, or they are given and the session has the new hash.
  pub rotate_cases :
      (x : Session) (s : AuthState Db)
      → ((is_err (rotate r v j a x s).0 ≡ true) × ((rotate r v j a x s).1 ≡ s))
        ⊎ ((u : User) × ((find_user_by_id x.user_id s ≡ some u)
              × ((may_rotate x u s ≡ true)
                  × (rotate r v j a x s ≡ (
                    ok (new_tokens x u s),
                    record s {
                      sessions =
                          update_key sid_key x.sid
                            (rotated (hash_token (new_refresh_token x u s)) s.now)
                            s.sessions;
                    },
                  )))))
  unfolding rotate assert_user_can_authenticate assert_authentication_allowed update_by_sid
  rotate_cases x s = elim (Option-cases (find_user_by_id x.user_id s)) [
    | inl e ↦ inl (ground arith, ground arith)
    | inr (u, e) ↦ elim (Bool-cases (may_rotate x u s)) [
      | inl may ↦ inr (u, (e, (may, ground arith)))
      | inr may_not ↦ inl (ground arith, ground arith)
    ]
  ]

  -- A refreshing that returns: its token was the last of a session that is not revoked and has not ended,
  -- of a user who may log in; the session keeps the hash of the new token.
  pub refresh_session_lem :
      (s : AuthState Db) (token : Token) (p : RefreshTokenPayload)
      → verify_refresh_token token s.now ≡ some p
      → is_err (refresh_session r v j a (some token) s).0 ≡ false
      → (x : Session) × ((find_session p.sid s ≡ some x)
          × ((x.revoked ≡ false)
              × ((x.refresh_token_hash ≡ hash_token token)
                  × ((u : User) × ((find_user_by_id x.user_id s ≡ some u)
                        × ((may_rotate x u s ≡ true)
                            × (refresh_session r v j a (some token) s ≡ (
                              ok (new_tokens x u s),
                              record s {
                                sessions =
                                    update_key sid_key x.sid
                                      (rotated (hash_token (new_refresh_token x u s)) s.now)
                                      s.sessions;
                              },
                            ))))))))
  refresh_session_lem s token p read h = elim (Option-cases (find_session p.sid s)) [
    | inl n ↦ absurd (ground (arith, refresh-unknown s token p read n))
    | inr (x, n) ↦ elim (Bool-cases x.revoked) [
      | inl revoked ↦ absurd (ground (arith, refresh-revoked s token p read x n revoked))
      | inr live ↦ elim (Bool-cases (x.refresh_token_hash == hash_token token)) [
        | inr old ↦ absurd (ground (arith, refresh-old s token p read x n live old))
        | inl last ↦ elim (rotate_cases x s) [
          | inl (refused, _) ↦ absurd (ground (arith, refresh-last s token p read x n live last))
          | inr (u, (e, (may, done))) ↦ (
            x,
            (
              n,
              (
                live,
                (
                  (==_iff x.refresh_token_hash (hash_token token)).0 last,
                  (u, (e, (may, refresh-last s token p read x n live last ∙ done))),
                ),
              ),
            ),
          )
        ]
      ]
    ]
  ]
