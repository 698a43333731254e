-- ===== src/Auth/Otp/Once.antt =====
-- A one-time password is good once.
use upstride_api.Base.{ℕ, ◌+◌, ◌≡◌, true, false, inl, inr, arith, leb, eq_option, Bool-cases}
use upstride_api.Store.{is_err}
use upstride_api.Auth.Redis.{Redis}
use upstride_api.Auth.State.{AuthState}
use upstride_api.Auth.Otp.{OtpPolicy, take_otp, delete_all}
use upstride_api.Auth.Otp.Counts.{
  counted, stored, take_otp-late, take_otp-right, take_otp-wrong, refuse_otp-last, refuse_otp-more,
  code-delete_all,
}
use upstride_api.Auth.Otp.Guesses.{refuse_gone}

module _ (r : Redis) (policy : OtpPolicy) (id : ℕ) where
  open r use {Db}

  -- After a password was taken, no password is, the same one neither, at whichever time, as long as no
  -- other code is saved.
  pub take_otp-take_otp :
      (otp otp' t : ℕ) (s : AuthState Db)
      → is_err (take_otp r policy id otp s).0 ≡ false
      → let s' = (take_otp r policy id otp s).1 in
        is_err (take_otp r policy id otp' (record s' { now = t })).0 ≡ true
  take_otp-take_otp otp otp' t s h =
      elim (Bool-cases (leb policy.max_attempts (counted r policy id otp s))) [
        | inl late ↦ absurd (ground (arith, take_otp-late r policy id otp s late))
        | inr early ↦ elim (Bool-cases (eq_option (stored r policy id otp s) otp)) [
          | inl right ↦ rw (take_otp-right r policy id otp s early right) (
              refuse_gone r policy id otp' t (delete_all r id policy.purpose s).1
                (code-delete_all r id policy.purpose t s))
          | inr wrong ↦
              absurd (elim (Bool-cases (leb policy.max_attempts (counted r policy id otp s + 1))) [
                | inl last ↦ ground (
                  arith,
                  take_otp-wrong r policy id otp s early wrong,
                  refuse_otp-last r policy id otp s last,
                )
                | inr more ↦ ground (
                  arith,
                  take_otp-wrong r policy id otp s early wrong,
                  refuse_otp-more r policy id otp s more,
                )
              ])
        ]
      ]
