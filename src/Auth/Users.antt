-- ===== src/Auth/Users.antt =====
-- The users: src/infrastructure/database/mongodb/repositories/user.repository.ts, and who may log in
-- (application/modules/authentication/use-cases/helpers/assert-user-can-authenticate.ts).
use upstride_api.Base.{
  ℕ, ◌++◌, [], ◌∷◌, Bool, true, false, not, Option, ◌==◌, filter, if◌then◌else◌,
}
use upstride_api.Store.{User, AuthType, Error, find_key, update_key, user_key}
use upstride_api.Auth.State.{AuthState, Call, pure, raise, modify}

abbrev pub email_key : User → ℕ
email_key u = u.email

abbrev pub is_local : AuthType → Bool
is_local AuthType.local = true
is_local _ = false

pub data AuthenticationStatus : Type 0 where
  allowed blocked unverified : AuthenticationStatus

-- `resolveAuthenticationStatus`
abbrev pub resolve_authentication_status : User → AuthenticationStatus
resolve_authentication_status u =
    if u.is_blocked
    then AuthenticationStatus.blocked
    else if not u.is_verified
    then AuthenticationStatus.unverified
    else AuthenticationStatus.allowed

module _ {D : Type 0} where
  -- `UserRepository.findByEmail` and `findById`
  abbrev pub find_user_by_email : ℕ → AuthState D → Option User
  find_user_by_email e s = find_key email_key e s.users

  abbrev pub find_user_by_id : ℕ → AuthState D → Option User
  find_user_by_id i s = find_key user_key i s.users

  unfoldable pub update_user : ℕ → (User → User) → Call D (Unit {0})
  update_user i f = modify (λ s. record s { users = update_key user_key i f s.users })

  unfoldable pub create_user : User → Call D (Unit {0})
  create_user u = modify (λ s. record s { users = s.users ++ u ∷ [] })

  unfoldable pub delete_user : ℕ → Call D (Unit {0})
  delete_user i = modify (λ s. record s { users = filter (λ u. not (u.id == i)) s.users })

  -- `assertAuthenticationAllowed`
  unfoldable pub assert_authentication_allowed : AuthenticationStatus → Call D (Unit {0})
  assert_authentication_allowed AuthenticationStatus.blocked = raise Error.user_blocked
  assert_authentication_allowed AuthenticationStatus.unverified = raise Error.authentication
  assert_authentication_allowed AuthenticationStatus.allowed = pure tt

  -- `assertUserCanAuthenticate`
  unfoldable pub assert_user_can_authenticate : User → Call D (Unit {0})
  assert_user_can_authenticate u = assert_authentication_allowed (resolve_authentication_status u)
