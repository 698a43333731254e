-- ===== src/Auth/Otp/Counts.antt =====
-- What the methods of the repository of one-time passwords do to a code and to the count of guesses at it.
use upstride_api.Base.{
  ℕ, ◌+◌, ◌*◌, ◌≤◌, ◌<◌, ◌≡◌, ◌≢◌, true, false, Option, none, arith, leb, eq_option, get_or, ◌∙◌,
}
use upstride_api.Store.{Error, ok, err}
use upstride_api.Auth.Redis.{Redis, Key, OtpPurpose}
use upstride_api.Auth.State.{AuthState}
use upstride_api.Auth.Otp.{
  OtpPolicy, take_otp, refuse_otp, get_attempts, get_code, increment_attempts, delete_all,
}

module _ (r : Redis) where
  open r use {Db, get, set_ex, del, incr, expire}

  module _ (id : ℕ) (p : OtpPurpose) where
    abbrev pub code_at : ℕ → Db → Option ℕ
    code_at t d = get (Key.otp id p) t d

    abbrev pub attempts_at : ℕ → Db → ℕ
    attempts_at t d = get_or (get (Key.otp_attempts id p) t d) 0

    pub apart : Key.otp_attempts id p ≢ Key.otp id p
    apart = λ e. cc

    pub apart_resends : Key.otp_resends id p ≢ Key.otp id p
    apart_resends = λ e. cc

    pub code-delete_all :
        (t : ℕ) (s : AuthState Db) → code_at t (delete_all r id p s).1.redis ≡ none
    unfolding delete_all
    code-delete_all t s =
        let d = del (Key.otp id p) s.redis in
        r.get-del_other (Key.otp_resends id p) (Key.otp id p) t (del (Key.otp_attempts id p) d)
          apart_resends
        ∙ r.get-del_other (Key.otp_attempts id p) (Key.otp id p) t d apart
        ∙ r.get-del (Key.otp id p) t s.redis

    module _ (ttl : ℕ) (s : AuthState Db) where
      pub increment_attempts_ok :
          (increment_attempts r id p ttl s).0 ≡ ok (attempts_at s.now s.redis + 1)
      unfolding increment_attempts
      increment_attempts_ok = ground (arith, r.count-incr (Key.otp_attempts id p) s.now s.redis)

      pub code-increment_attempts :
          (t : ℕ) → code_at t (increment_attempts r id p ttl s).1.redis ≡ code_at t s.redis
      unfolding increment_attempts
      code-increment_attempts t =
          let d = (incr (Key.otp_attempts id p) s.now s.redis).1 in
          ground (
            arith,
            r.get-incr_other (Key.otp_attempts id p) (Key.otp id p) s.now t s.redis apart,
            r.get-expire_other (Key.otp_attempts id p) (Key.otp id p) ttl s.now t d apart,
          )

      -- The count stays for as long as the time to live, and as the old count would have.
      pub attempts-increment_attempts :
          (t : ℕ)
          → s.now ≤ t
          → t < s.now + ttl * 1000
          → attempts_at t s.redis ≡ attempts_at s.now s.redis
          → attempts_at t (increment_attempts r id p ttl s).1.redis ≡ attempts_at s.now s.redis + 1
      unfolding increment_attempts
      attempts-increment_attempts t le lt kept =
          let d = (incr (Key.otp_attempts id p) s.now s.redis).1 in
          ground (
            arith,
            r.count-incr (Key.otp_attempts id p) s.now s.redis,
            r.get-incr (Key.otp_attempts id p) s.now t s.redis le,
            r.get-incr (Key.otp_attempts id p) s.now s.now s.redis,
            r.get-expire (Key.otp_attempts id p) ttl s.now t d le,
          )

  -- The ways of a check.
  module _ (policy : OtpPolicy) (id otp : ℕ) (s : AuthState Db) where
    abbrev pub counted : ℕ
    counted = attempts_at id policy.purpose s.now s.redis

    abbrev pub stored : Option ℕ
    stored = code_at id policy.purpose s.now s.redis

    -- The state after one more is counted.
    abbrev pub bumped : AuthState Db
    bumped = (increment_attempts r id policy.purpose policy.ttl s).1

    pub take_otp-late :
        leb policy.max_attempts counted ≡ true
        → take_otp r policy id otp s ≡ (err Error.max_attempts_exceeded, s)
    unfolding take_otp get_attempts
    take_otp-late late = ground arith

    pub take_otp-right :
        leb policy.max_attempts counted ≡ false
        → eq_option stored otp ≡ true
        → take_otp r policy id otp s ≡ delete_all r id policy.purpose s
    unfolding take_otp get_attempts get_code
    take_otp-right early right = ground arith

    pub take_otp-wrong :
        leb policy.max_attempts counted ≡ false
        → eq_option stored otp ≡ false
        → take_otp r policy id otp s ≡ refuse_otp r policy id s
    unfolding take_otp get_attempts get_code
    take_otp-wrong early wrong = ground arith

    pub refuse_otp-last :
        leb policy.max_attempts (counted + 1) ≡ true
        → refuse_otp r policy id s
          ≡ (err Error.max_attempts_exceeded, (delete_all r id policy.purpose bumped).1)
    unfolding refuse_otp delete_all
    refuse_otp-last last = ground (arith, increment_attempts_ok id policy.purpose policy.ttl s)

    pub refuse_otp-more :
        leb policy.max_attempts (counted + 1) ≡ false
        → refuse_otp r policy id s ≡ (err Error.invalid_otp, bumped)
    unfolding refuse_otp
    refuse_otp-more more = ground (arith, increment_attempts_ok id policy.purpose policy.ttl s)
