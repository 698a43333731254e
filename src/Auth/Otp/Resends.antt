-- ===== src/Auth/Otp/Resends.antt =====
-- How often another one-time password is sent.
use upstride_api.Base.{
  ℕ, ◌+◌, ◌*◌, ◌≤◌, ◌<◌, ◌≡◌, ap, inl, inr, ◌∙◌, false, List, [], ◌∷◌, arith, ltb, get_or, none,
  Bool-cases, suc, leb, eq_option, refl,
}
use upstride_api.Store.{Error, ok, err}
use upstride_api.Auth.Redis.{Redis, Key}
use upstride_api.Auth.State.{AuthState}
use upstride_api.Auth.Otp.{
  OtpPolicy, increment_resends, resend_code, send_code, save_code, reset_attempts, take_otp,
  increment_attempts, delete_all,
}
use upstride_api.Auth.Otp.Counts.{
  counted, stored, take_otp-late, take_otp-right, take_otp-wrong, refuse_otp-last, refuse_otp-more,
}

module _ (r : Redis) (policy : OtpPolicy) (max id email : ℕ) where
  open r use {Db, get, set_ex, del, incr, expire}

  abbrev resends : Key
  resends = Key.otp_resends id policy.purpose

  abbrev pub resends_at : ℕ → Db → ℕ
  resends_at t d = get_or (get resends t d) 0

  abbrev bumped : AuthState Db → AuthState Db
  bumped s = (increment_resends r id policy.purpose policy.ttl s).1

  resends-increment_resends :
      (t : ℕ) (s : AuthState Db)
      → s.now ≤ t
      → t < s.now + policy.ttl * 1000
      → resends_at t s.redis ≡ resends_at s.now s.redis
      → resends_at t (bumped s).redis ≡ resends_at s.now s.redis + 1
  unfolding increment_resends
  resends-increment_resends t s le lt kept =
      let d = (incr resends s.now s.redis).1 in
      ground (
        arith,
        r.count-incr resends s.now s.redis,
        r.get-incr resends s.now t s.redis le,
        r.get-incr resends s.now s.now s.redis,
        r.get-expire resends policy.ttl s.now t d le,
      )

  increment_resends_ok :
      (s : AuthState Db)
      → (increment_resends r id policy.purpose policy.ttl s).0 ≡ ok (resends_at s.now s.redis + 1)
  unfolding increment_resends
  increment_resends_ok s = ground (arith, r.count-incr resends s.now s.redis)

  abbrev code_key : Key
  code_key = Key.otp id policy.purpose

  abbrev attempts_key : Key
  attempts_key = Key.otp_attempts id policy.purpose

  resend_code-few :
      (otp : ℕ) (s : AuthState Db)
      → ltb max (resends_at s.now s.redis + 1) ≡ false
      → (resend_code r policy max id email otp s).1.redis
        ≡ del attempts_key
            (set_ex code_key otp policy.ttl (bumped s).now (del attempts_key (bumped s).redis))
  unfolding resend_code reset_attempts send_code save_code
  resend_code-few otp s few = ground (arith, increment_resends_ok s)

  -- The count is all that is written on the way to an error, and no other key is the count's.
  resends-resend_code :
      (t otp : ℕ) (s : AuthState Db)
      → resends_at t (resend_code r policy max id email otp s).1.redis
        ≡ resends_at t (bumped s).redis
  unfolding resend_code
  resends-resend_code t otp s = elim (Bool-cases (ltb max (resends_at s.now s.redis + 1))) [
    | inl many ↦ ground (arith, increment_resends_ok s)
    | inr few ↦ rw (resend_code-few otp s few) (
        let b = bumped s in
        let d = del attempts_key b.redis in
        ap (λ o. get_or o 0)
          (r.get-del_other attempts_key resends t (set_ex code_key otp policy.ttl b.now d) (λ e. cc)
            ∙ r.get-set_ex_other code_key resends otp policy.ttl b.now t d (λ e. cc)
            ∙ r.get-del_other attempts_key resends t b.redis (λ e. cc)))
  ]

  resend_code-many :
      (otp : ℕ) (s : AuthState Db)
      → max ≤ resends_at s.now s.redis
      → (resend_code r policy max id email otp s).0 ≡ err Error.max_resends_exceeded
  unfolding resend_code
  resend_code-many otp s many = ground (arith, increment_resends_ok s)

  -- What is asked for at a time: another code, with the one that is drawn, or to take a password.
  pub data CodeRequest : Type 0 where
    resend guess : (at otp : ℕ) → CodeRequest

  abbrev pub time_of : CodeRequest → ℕ
  time_of (CodeRequest.resend at otp) = at
  time_of (CodeRequest.guess at otp) = at

  abbrev pub serve_request : CodeRequest → AuthState Db → AuthState Db
  serve_request (CodeRequest.resend at otp) s =
      (resend_code r policy max id email otp (record s { now = at })).1
  serve_request (CodeRequest.guess at otp) s = (take_otp r policy id otp (record s { now = at })).1

  abbrev pub serve_requests : List CodeRequest → AuthState Db → AuthState Db
  serve_requests [] s = s
  serve_requests (g ∷ gs) s = serve_requests gs (serve_request g s)

  abbrev pub count_resends : List CodeRequest → ℕ
  count_resends [] = 0
  count_resends (CodeRequest.resend at otp ∷ gs) = suc (count_resends gs)
  count_resends (CodeRequest.guess at otp ∷ gs) = count_resends gs

  -- A password is not taken, and is not the last that may be tried.
  abbrev pub IsOnlyWrong : CodeRequest → AuthState Db → Type 0
  IsOnlyWrong (CodeRequest.resend at otp) s = Unit
  IsOnlyWrong (CodeRequest.guess at otp) s =
      (take_otp r policy id otp (record s { now = at })).0 ≡ err Error.invalid_otp

  -- The requests come one after the other, from `t` until `end`, and no password among them is taken or is
  -- the last that may be tried.
  abbrev pub AreOnTheWay : (t end : ℕ) → List CodeRequest → AuthState Db → Type 0
  AreOnTheWay t end [] s = t ≤ end
  AreOnTheWay t end (g ∷ gs) s =
      (t ≤ time_of g) × (IsOnlyWrong g s × AreOnTheWay (time_of g) end gs (serve_request g s))

  AreOnTheWay-le :
      (t end : ℕ) (gs : List CodeRequest) (s : AuthState Db) → AreOnTheWay t end gs s → t ≤ end
  AreOnTheWay-le t end [] s o = o
  AreOnTheWay-le t end (g ∷ gs) s o =
      let rest = AreOnTheWay-le (time_of g) end gs (serve_request g s) o.1.1 in omega (arith, o.0)

  resends-increment_attempts :
      (t : ℕ) (s : AuthState Db)
      → resends_at t (increment_attempts r id policy.purpose policy.ttl s).1.redis
        ≡ resends_at t s.redis
  unfolding increment_attempts
  resends-increment_attempts t s =
      let d = (incr attempts_key s.now s.redis).1 in
      ground (
        arith,
        r.get-incr_other attempts_key resends s.now t s.redis (λ e. cc),
        r.get-expire_other attempts_key resends policy.ttl s.now t d (λ e. cc),
      )

  delete_all_ok : (s : AuthState Db) → (delete_all r id policy.purpose s).0 ≡ ok tt
  unfolding delete_all
  delete_all_ok s = refl

  -- A wrong password that is not the last leaves the count of the calls.
  resends-take_otp :
      (t otp : ℕ) (s : AuthState Db)
      → (take_otp r policy id otp s).0 ≡ err Error.invalid_otp
      → resends_at t (take_otp r policy id otp s).1.redis ≡ resends_at t s.redis
  resends-take_otp t otp s e =
      elim (Bool-cases (leb policy.max_attempts (counted r policy id otp s))) [
        | inl late ↦ absurd (let q = take_otp-late r policy id otp s late in ground arith)
        | inr early ↦ elim (Bool-cases (eq_option (stored r policy id otp s) otp)) [
          | inl right ↦ absurd (
              let q = take_otp-right r policy id otp s early right in
              let done = delete_all_ok s in ground arith)
          | inr wrong ↦
              elim (Bool-cases (leb policy.max_attempts (counted r policy id otp s + 1))) [
                | inl last ↦ absurd (
                    let q = take_otp-wrong r policy id otp s early wrong in
                    let q' = refuse_otp-last r policy id otp s last in ground arith)
                | inr more ↦
                    rw (take_otp-wrong r policy id otp s early wrong)
                      (rw (refuse_otp-more r policy id otp s more) (resends-increment_attempts t s))
              ]
        ]
      ]

  -- From `t` until the end, `n` calls are counted.
  abbrev IsCounted : (end t n : ℕ) → Db → Type 0
  IsCounted end t n d = (t' : ℕ) → t ≤ t' → t' < end → resends_at t' d ≡ n

  resend_code-IsCounted :
      (end t n otp : ℕ) (s : AuthState Db)
      → end ≤ t + policy.ttl * 1000
      → t < end
      → IsCounted end t n s.redis
      → IsCounted end t
          (n + 1)
          (resend_code r policy max id email otp (record s { now = t })).1.redis
  resend_code-IsCounted end t n otp s before inside c t' le lt =
      let s' : AuthState Db = record s { now = t } in
      resends-resend_code t' otp s'
      ∙ resends-increment_resends t' s' le (omega arith)
          (ground (arith, c t' le lt, c t (omega arith) inside))
      ∙ ap (λ k. k + 1) (c t (omega arith) inside)

  serve_request-IsCounted :
      (end t n : ℕ) (g : CodeRequest) (s : AuthState Db)
      → t ≤ time_of g
      → time_of g < end
      → end ≤ t + policy.ttl * 1000
      → IsOnlyWrong g s
      → IsCounted end t n s.redis
      → IsCounted end (time_of g) (n + count_resends (g ∷ [])) (serve_request g s).redis
  serve_request-IsCounted end t n (CodeRequest.resend at otp) s le lt before w c t' le' lt' =
      resend_code-IsCounted end at n otp s (omega arith) lt (λ u leu ltu. c u (omega arith) ltu) t'
        le' lt'
  serve_request-IsCounted end t n (CodeRequest.guess at otp) s le lt before w c t' le' lt' =
      resends-take_otp t' otp (record s { now = at }) w ∙ c t' (omega arith) lt' ∙ omega arith

  count_resends_cons :
      (g : CodeRequest) (gs : List CodeRequest)
      → count_resends (g ∷ gs) ≡ count_resends (g ∷ []) + count_resends gs
  count_resends_cons (CodeRequest.resend at otp) gs = omega arith
  count_resends_cons (CodeRequest.guess at otp) gs = omega arith

  serve_requests-IsCounted :
      (end t u n : ℕ) (gs : List CodeRequest) (s : AuthState Db)
      → AreOnTheWay t u gs s
      → u < end
      → end ≤ t + policy.ttl * 1000
      → IsCounted end t n s.redis
      → IsCounted end u (n + count_resends gs) (serve_requests gs s).redis
  serve_requests-IsCounted end t u n [] s o inside before c t' le lt =
      c t' (omega arith) lt ∙ omega arith
  serve_requests-IsCounted end t u n (g ∷ gs) s o inside before c t' le lt =
      let reached = AreOnTheWay-le (time_of g) u gs (serve_request g s) o.1.1 in
      let one = serve_request-IsCounted end t n g s o.0 (omega arith) before o.1.0 c in
      serve_requests-IsCounted end (time_of g) u (n + count_resends (g ∷ [])) gs (serve_request g s)
        o.1.1 inside (omega (arith, o.0)) one t' le lt
      ∙ (let e = count_resends_cons g gs in omega arith)

  -- From a time when no call for another code is counted, and for as long as the policy sets, the calls
  -- beyond the allowed number throw, whichever passwords are tried in between, unless one is taken or
  -- is the last that may be tried: these two take the count away.
  pub resend_code-serve_requests :
      (otp t : ℕ) (gs : List CodeRequest) (s : AuthState Db)
      → get resends s.now s.redis ≡ none
      → AreOnTheWay s.now t gs s
      → t < s.now + policy.ttl * 1000
      → max ≤ count_resends gs
      → (resend_code r policy max id email otp (record (serve_requests gs s) { now = t })).0
        ≡ err Error.max_resends_exceeded
  resend_code-serve_requests otp t gs s fresh o lt many =
      resend_code-many otp (record (serve_requests gs s) { now = t })
        (let fresh_count : IsCounted (s.now + policy.ttl * 1000) s.now 0 s.redis =
            λ t' le lt. ground (arith, r.get-later resends s.now t' s.redis le) in
          let counted =
            serve_requests-IsCounted (s.now + policy.ttl * 1000) s.now t 0 gs s o lt (omega arith)
              fresh_count in
          omega (arith, counted t (omega arith) lt))
