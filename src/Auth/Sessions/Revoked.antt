-- ===== src/Auth/Sessions/Revoked.antt =====
-- A session that is revoked stays so.
use upstride_api.Base.{
  ℕ, ◌++◌, [], ◌∷◌, ◌≡◌, refl, ◌⊎◌, inl, inr, Bool, true, not, ◌&&◌, Option, none, some, List, map,
  arith, filter, Bool-cases, Option-cases, ◌==◌, ap,
}
use upstride_api.Auth.Users.{find_user_by_email, is_local, assert_authentication_allowed}
use upstride_api.Store.{User, Session, update_key}
use upstride_api.Auth.Redis.{Redis}
use upstride_api.Auth.State.{AuthState}
use upstride_api.Auth.Services.{AuthServices}
use upstride_api.Auth.Sessions.{
  find_session, sid_key, revoked_session, revoke_one_of, rotated, revoke_token, revoke_tokens,
  create_session, update_by_sid, revoke, revoke_multiple, set_revoked, is_other,
}
use upstride_api.Auth.Sessions.Logins.{
  NewIds, login_with_email, refresh_session, rotate, create_login_response, new_session,
  refresh_payload,
}
use upstride_api.Auth.Sessions.Rotation.{
  IsRevoked, rotate_cases, new_refresh_token, refresh-missing, refresh-unread, refresh-unknown,
  refresh-revoked, refresh-last, refresh-old,
}
use upstride_api.Auth.Sessions.Logouts.{logout, revoke_session, revoke_all_other_sessions, with_ttl}

-- Whatever was revoked is.
abbrev pub KeepsRevoked : List Session → List Session → Type 0
KeepsRevoked xs ys = (sid : ℕ) → IsRevoked sid xs → IsRevoked sid ys

-- The change of one session keeps its identifier, and does not undo a revocation.
abbrev pub IsSafe : (Session → Session) → Type 0
IsSafe f = (x : Session) → ((f x).sid ≡ x.sid) × (x.revoked ≡ true → (f x).revoked ≡ true)

update_key-KeepsRevoked :
    (i : ℕ) (f : Session → Session) (xs : List Session)
    → IsSafe f
    → KeepsRevoked xs (update_key sid_key i f xs)
unfolding update_key
update_key-KeepsRevoked i f [] h sid p = p
update_key-KeepsRevoked i f (x ∷ xs) h sid (y, (e, v)) = elim (Bool-cases (x.sid == i)) [
  | inl at ↦ elim (Bool-cases (x.sid == sid)) [
    | inl here ↦ (f x, (ground (arith, h x), ground (arith, h x)))
    | inr there ↦ (y, (ground (arith, h x), v))
  ]
  | inr off ↦ elim (Bool-cases (x.sid == sid)) [
    | inl here ↦ (y, (ground arith, v))
    | inr there ↦
        let (z, (e', v')) = update_key-KeepsRevoked i f xs h sid (y, (ground arith, v)) in
        (z, (ground arith, v'))
  ]
]

map-KeepsRevoked :
    (f : Session → Session) (xs : List Session) → IsSafe f → KeepsRevoked xs (map f xs)
map-KeepsRevoked f [] h sid p = p
map-KeepsRevoked f (x ∷ xs) h sid (y, (e, v)) = elim (Bool-cases (x.sid == sid)) [
  | inl here ↦ (f x, (ground (arith, h x), ground (arith, h x)))
  | inr there ↦
      let (z, (e', v')) = map-KeepsRevoked f xs h sid (y, (ground arith, v)) in
      (z, (ground (arith, h x), v'))
]

append-KeepsRevoked : (xs ys : List Session) → KeepsRevoked xs (xs ++ ys)
append-KeepsRevoked [] ys sid (y, (e, v)) = ground arith
append-KeepsRevoked (x ∷ xs) ys sid (y, (e, v)) = elim (Bool-cases (x.sid == sid)) [
  | inl here ↦ (y, (ground arith, v))
  | inr there ↦
      let (z, (e', v')) = append-KeepsRevoked xs ys sid (y, (ground arith, v)) in
      (z, (ground arith, v'))
]

rotated-IsSafe : (hash now : ℕ) → IsSafe (rotated hash now)
rotated-IsSafe hash now x = (refl, λ h. h)

revoked_session-IsSafe : IsSafe revoked_session
revoked_session-IsSafe x = (refl, λ h. refl)

revoke_one_of-IsSafe : (sids : List ℕ) → IsSafe (revoke_one_of sids)
revoke_one_of-IsSafe sids x = (ground arith, λ h. ground arith)

-- How the list of sessions comes from another: as it was, with one session changed, or with one more.
abbrev pub Follows : List Session → List Session → Type 0
Follows xs ys =
    (ys ≡ xs)
    ⊎ (((i : ℕ) × ((f : Session → Session) × (IsSafe f × (ys ≡ update_key sid_key i f xs))))
        ⊎ ((x : Session) × (ys ≡ xs ++ x ∷ [])))

pub Follows-KeepsRevoked : (xs ys : List Session) → Follows xs ys → KeepsRevoked xs ys
Follows-KeepsRevoked xs ys (inl e) = rw e (λ sid p. p)
Follows-KeepsRevoked xs ys (inr (inl (i, (f, (h, e))))) = rw e (update_key-KeepsRevoked i f xs h)
Follows-KeepsRevoked xs ys (inr (inr (x, e))) = rw e (append-KeepsRevoked xs (x ∷ []))

module _ (r : Redis) (v : AuthServices) where
  open r use {Db}
  open v use {Token, verify_refresh_token, hash_token}

  -- All guards of a login pass.
  abbrev may_log_in : (password : ℕ) → User → Bool
  may_log_in password u =
      is_local u.auth_type
      && (not u.is_blocked && (u.is_verified && v.verify_password password u.password_hash))

  pub login-Follows :
      (ids : NewIds) (email password : ℕ) (s : AuthState Db)
      → Follows s.sessions (login_with_email r v ids email password s).1.sessions
  unfolding login_with_email create_login_response create_session assert_authentication_allowed
  login-Follows ids email password s = elim (Option-cases (find_user_by_email email s)) [
    | inl e ↦ inl (ground arith)
    | inr (u, e) ↦ elim (Bool-cases (may_log_in password u)) [
      | inl may ↦ inr (
          inr (
            new_session ids.session_id u.id
                (hash_token (
                  v.generate_refresh_token
                    (refresh_payload u.id ids.refresh_token_id ids.session_id) s.now))
                s.now,
            ground arith,
          ))
      | inr may_not ↦ inl (ground arith)
    ]
  ]

  rotate-Follows :
      (j a : ℕ) (x : Session) (s : AuthState Db)
      → Follows s.sessions (rotate r v j a x s).1.sessions
  rotate-Follows j a x s = elim (rotate_cases r v j a x s) [
    | inl (_, same) ↦ inl (ap (λ (w : AuthState Db). w.sessions) same)
    | inr (u, (_, (_, done))) ↦ inr (
        inl (
          x.sid,
          (
            rotated (hash_token (new_refresh_token r v j a x u s)) s.now,
            (
              rotated-IsSafe (hash_token (new_refresh_token r v j a x u s)) s.now,
              ap (λ w. w.1.sessions) done,
            ),
          ),
        ))
  ]

  pub refresh-Follows :
      (j a : ℕ) (input : Option Token) (s : AuthState Db)
      → Follows s.sessions (refresh_session r v j a input s).1.sessions
  refresh-Follows j a none s = rw (refresh-missing r v j a s) (inl refl)
  refresh-Follows j a (some token) s = elim (Option-cases (verify_refresh_token token s.now)) [
    | inl e ↦ rw (refresh-unread r v j a s token e) (inl refl)
    | inr (p, e) ↦ elim (Option-cases (find_session p.sid s)) [
      | inl n ↦ rw (refresh-unknown r v j a s token p e n) (inl refl)
      | inr (x, n) ↦ elim (Bool-cases x.revoked) [
        | inl revoked ↦ rw (refresh-revoked r v j a s token p e x n revoked) (inl refl)
        | inr live ↦ elim (Bool-cases (x.refresh_token_hash == hash_token token)) [
          | inl last ↦ rw (refresh-last r v j a s token p e x n live last) (rotate-Follows j a x s)
          | inr old ↦
              rw (refresh-old r v j a s token p e x n live old)
                (inr (inl (p.sid, (revoked_session, (revoked_session-IsSafe, refl)))))
        ]
      ]
    ]
  ]

  revoke_tokens-sessions :
      (xs : List (ℕ × ℕ)) (s : AuthState Db) → (revoke_tokens r xs s).1.sessions ≡ s.sessions
  unfolding revoke_tokens
  revoke_tokens-sessions [] s = refl
  revoke_tokens-sessions (x ∷ xs) s = elim (Bool-cases (x.1 == 0)) [
    | inl none_left ↦ rw none_left (revoke_tokens-sessions xs s)
    | inr some_left ↦ rw some_left (revoke_tokens-sessions xs (set_revoked r x.0 x.1 s))
  ]

  pub logout-Follows : (sid : ℕ) (s : AuthState Db) → Follows s.sessions (logout r sid s).1.sessions
  unfolding logout revoke update_by_sid revoke_token
  logout-Follows sid s = elim (Option-cases (find_session sid s)) [
    | inl n ↦ inl (ground arith)
    | inr (x, n) ↦ elim (Bool-cases x.revoked) [
      | inl revoked ↦ inl (ground arith)
      | inr live ↦ inr (inl (sid, (revoked_session, (revoked_session-IsSafe, ground arith))))
    ]
  ]

  pub revoke_session-Follows :
      (user sid : ℕ) (s : AuthState Db)
      → Follows s.sessions (revoke_session r user sid s).1.sessions
  unfolding revoke_session revoke update_by_sid revoke_token
  revoke_session-Follows user sid s = elim (Option-cases (find_session sid s)) [
    | inl n ↦ inl (ground arith)
    | inr (x, n) ↦ elim (Bool-cases (user == x.user_id)) [
      | inl own ↦ inr (inl (sid, (revoked_session, (revoked_session-IsSafe, ground arith))))
      | inr foreign ↦ inl (ground arith)
    ]
  ]

  pub revoke_others-KeepsRevoked :
      (user sid : ℕ) (s : AuthState Db)
      → KeepsRevoked s.sessions (revoke_all_other_sessions r user sid s).1.sessions
  unfolding revoke_all_other_sessions revoke_multiple
  revoke_others-KeepsRevoked user sid s =
      let others = filter (is_other user sid) s.sessions in
      let sids = map (λ (x : Session). x.sid) others in
      rw
        (revoke_tokens-sessions (map (with_ttl r s.now) others)
          (record s { sessions = map (revoke_one_of sids) s.sessions }))
        (map-KeepsRevoked (revoke_one_of sids) s.sessions (revoke_one_of-IsSafe sids))
