-- ===== src/Auth/Services.antt =====
-- The tokens (`ITokenService`, by jose) and the passwords (`IPasswordService`, by argon2): libraries, so
-- parameters. The laws are what their manuals say. A user's role is left out of the tokens.
use upstride_api.Base.{ℕ, ◌+◌, ◌≤◌, ◌≡◌, Bool, true, Option, some}

-- `RefreshTokenPayload`
pub record RefreshTokenPayload : Type 0 where
  pub sub : ℕ
  pub jti : ℕ
  pub sid : ℕ

-- `AccessTokenPayload`
pub record AccessTokenPayload : Type 0 where
  pub sub : ℕ
  pub jti : ℕ
  pub sid : ℕ

-- `REFRESH_TOKEN_EXPIRES_IN`, `RESET_TOKEN_EXPIRES_IN` and `ACCESS_TOKEN_EXPIRES_IN`, in milliseconds.
abbrev pub refresh_token_ms : ℕ
refresh_token_ms = 604800000

abbrev pub reset_token_ms : ℕ
reset_token_ms = 900000

abbrev pub access_token_ms : ℕ
access_token_ms = 900000

pub record AuthServices : Type 1 where
  pub Token : Type 0
  pub generate_access_token : AccessTokenPayload → (now : ℕ) → Token
  pub generate_refresh_token : RefreshTokenPayload → (now : ℕ) → Token
  pub generate_setup_token : (sub now : ℕ) → Token
  pub generate_reset_token : (sub now : ℕ) → Token
  pub verify_refresh_token : Token → (at : ℕ) → Option RefreshTokenPayload
  pub verify_access_token : Token → (at : ℕ) → Option AccessTokenPayload
  pub verify_reset_token : Token → (at : ℕ) → Option ℕ
  pub hash_token : Token → ℕ
  pub hash_password : ℕ → ℕ
  pub verify_password : (password hash : ℕ) → Bool
  -- A token that has not expired is read back. Its times are kept in seconds.
  pub verify-refresh_token :
      (p : RefreshTokenPayload) (now at : ℕ)
      → now ≤ at
      → at + 1000 ≤ now + refresh_token_ms
      → verify_refresh_token (generate_refresh_token p now) at ≡ some p
  pub verify-access_token :
      (p : AccessTokenPayload) (now at : ℕ)
      → now ≤ at
      → at + 1000 ≤ now + access_token_ms
      → verify_access_token (generate_access_token p now) at ≡ some p
  pub verify-reset_token :
      (sub now at : ℕ)
      → now ≤ at
      → at + 1000 ≤ now + reset_token_ms
      → verify_reset_token (generate_reset_token sub now) at ≡ some sub
  -- No two refresh tokens with different identifiers have one hash.
  pub hash_token-jti :
      (p q : RefreshTokenPayload) (now now' : ℕ)
      → hash_token (generate_refresh_token p now) ≡ hash_token (generate_refresh_token q now')
      → p.jti ≡ q.jti
  -- A password is right for its hash.
  pub verify-hash_password :
      (password : ℕ) → verify_password password (hash_password password) ≡ true
