-- ===== src/Auth/Otp/Guesses.antt =====
-- How many guesses at a one-time password there are.
use upstride_api.Base.{
  ℕ, ◌+◌, ◌*◌, ◌≤◌, ◌<◌, ◌≡◌, ◌≢◌, ◌⊎◌, refl, inl, inr, true, false, none, some, List, [], ◌∷◌,
  arith, leb, eq_option, get_or, Bool-cases, length, All, subst, ◌∙◌, ==_iff,
}
use upstride_api.Store.{is_err}
use upstride_api.Auth.Redis.{Redis, Key, OtpPurpose}
use upstride_api.Auth.State.{AuthState}
use upstride_api.Auth.Otp.Counts.{
  counted, stored, take_otp-late, take_otp-right, take_otp-wrong, refuse_otp-last, refuse_otp-more,
  code_at, apart, code-delete_all, code-increment_attempts, attempts-increment_attempts,
}
use upstride_api.Auth.Otp.{OtpPolicy, save_code, take_otp}

-- The times of the guesses do not go back, from `t` on.
abbrev pub AreInOrder : ℕ → List (ℕ × ℕ) → Type 0
AreInOrder t [] = Unit
AreInOrder t (g ∷ gs) = (t ≤ g.0) × AreInOrder g.0 gs

abbrev pub last_at : ℕ → List (ℕ × ℕ) → ℕ
last_at t [] = t
last_at t (g ∷ gs) = last_at g.0 gs

pub last_at_le : (t : ℕ) (gs : List (ℕ × ℕ)) → AreInOrder t gs → t ≤ last_at t gs
last_at_le t [] o = omega arith
last_at_le t (g ∷ gs) o = omega (arith, o.0, last_at_le g.0 gs o.1)

module _ (r : Redis) where
  open r use {Db, get, set_ex, del, incr, expire}

  -- The code is gone at any time from `t` on.
  abbrev pub IsGone : (id : ℕ) → OtpPurpose → (t : ℕ) → Db → Type 0
  IsGone id p t d = (t' : ℕ) → t ≤ t' → get (Key.otp id p) t' d ≡ none

  -- At any time from `t` on the code is gone, or it is `c`, it is before the end, and `n` guesses have been
  -- counted.
  abbrev pub IsGuarded : (id : ℕ) → OtpPurpose → (c n end t : ℕ) → Db → Type 0
  IsGuarded id p c n end t d =
      (t' : ℕ)
      → t ≤ t'
      → (get (Key.otp id p) t' d ≡ none)
        ⊎ ((get (Key.otp id p) t' d ≡ some c)
            × ((get_or (get (Key.otp_attempts id p) t' d) 0 ≡ n) × (t' < end)))

  -- A guess at a time.
  abbrev pub guess : OtpPolicy → (id : ℕ) → (at otp : ℕ) → AuthState Db → AuthState Db
  guess policy id at otp s = (take_otp r policy id otp (record s { now = at })).1

  module _ (id : ℕ) (p : OtpPurpose) where
    -- Saving a code starts a new count.
    save_code-IsGuarded :
        (c ttl : ℕ) (s : AuthState Db)
        → IsGuarded id p c 0 (s.now + ttl * 1000) s.now (save_code r id p c ttl s).1.redis
    unfolding save_code
    save_code-IsGuarded c ttl s t' le =
        let d = set_ex (Key.otp id p) c ttl s.now s.redis in
        ground (
          arith,
          r.get-set_ex (Key.otp id p) c ttl s.now t' s.redis le,
          r.get-del_other (Key.otp_attempts id p) (Key.otp id p) t' d (apart r id p),
          r.get-del (Key.otp_attempts id p) t' d,
        )

  module _ (policy : OtpPolicy) (id : ℕ) where
    abbrev p : OtpPurpose
    p = policy.purpose

    -- No guess brings a code back.
    code-take_otp :
        (t otp : ℕ) (s : AuthState Db)
        → (code_at r id p t (take_otp r policy id otp s).1.redis ≡ none)
          ⊎ (code_at r id p t (take_otp r policy id otp s).1.redis ≡ code_at r id p t s.redis)
    code-take_otp t otp s =
        elim (Bool-cases (leb policy.max_attempts (counted r policy id otp s))) [
          | inl late ↦ rw (take_otp-late r policy id otp s late) (inr refl)
          | inr early ↦ elim (Bool-cases (eq_option (stored r policy id otp s) otp)) [
            | inl right ↦
                rw (take_otp-right r policy id otp s early right) (inl (code-delete_all r id p t s))
            | inr wrong ↦
                rw (take_otp-wrong r policy id otp s early wrong)
                  (elim (Bool-cases (leb policy.max_attempts (counted r policy id otp s + 1))) [
                    | inl last ↦
                        rw (refuse_otp-last r policy id otp s last)
                          (inl (code-delete_all r id p t _))
                    | inr more ↦
                        rw (refuse_otp-more r policy id otp s more)
                          (inr (code-increment_attempts r id p policy.ttl s t))
                  ])
          ]
        ]

    take_otp-IsGone :
        (t otp : ℕ) (s : AuthState Db)
        → IsGone id p t s.redis
        → IsGone id p t (take_otp r policy id otp s).1.redis
    take_otp-IsGone t otp s gone t' le = ground (arith, code-take_otp t' otp s, gone t' le)

    -- A wrong guess is counted, and the last one takes the code away.
    take_otp-IsGuarded :
        (c n end otp : ℕ) (s : AuthState Db)
        → eq_option (some c) otp ≡ false
        → n < policy.max_attempts
        → end ≤ s.now + policy.ttl * 1000
        → IsGuarded id p c n end s.now s.redis
        → (IsGone id p s.now (take_otp r policy id otp s).1.redis)
          ⊎ ((n + 1 < policy.max_attempts)
              × IsGuarded id p c (n + 1) end s.now (take_otp r policy id otp s).1.redis)
    take_otp-IsGuarded c n end otp s wrong room before g = elim (g s.now (omega arith)) [
      | inl gone ↦ inl (
          take_otp-IsGone s.now otp s
            (λ t le. ground (arith, r.get-later (Key.otp id p) s.now t s.redis le)))
      | inr (alive, (count, in_time)) ↦
          let early : leb policy.max_attempts (counted r policy id otp s) ≡ false = ground arith in
          let off : eq_option (stored r policy id otp s) otp ≡ false = ground arith in
          rw (take_otp-wrong r policy id otp s early off)
            (elim (Bool-cases (leb policy.max_attempts (counted r policy id otp s + 1))) [
              | inl last ↦
                  rw (refuse_otp-last r policy id otp s last)
                    (inl (λ t le. code-delete_all r id p t _))
              | inr more ↦ rw (refuse_otp-more r policy id otp s more) (
                  inr (
                    ground arith,
                    λ t le. elim (g t le) [
                      | inl gone ↦ inl (code-increment_attempts r id p policy.ttl s t ∙ gone)
                      | inr (there, (same, lt)) ↦ inr (
                        code-increment_attempts r id p policy.ttl s t ∙ there,
                        (
                          ground (
                            arith,
                            attempts-increment_attempts r id p policy.ttl s t le (omega arith),
                          ),
                          lt,
                        ),
                      )
                    ],
                  ))
            ])
    ]

    -- Guesses at their times, one after the other.
    abbrev pub guess_all : List (ℕ × ℕ) → AuthState Db → AuthState Db
    guess_all [] s = s
    guess_all (g ∷ gs) s = guess_all gs (guess policy id g.0 g.1 s)

    -- The state of a code that was saved: it is gone, or the next guess is one of the first few.
    abbrev IsLimited : (c end t n : ℕ) → Db → Type 0
    IsLimited c end t n d =
        IsGone id p t d ⊎ ((n < policy.max_attempts) × IsGuarded id p c n end t d)

    IsLimited-later :
        (c end t t' n : ℕ) (d : Db) → t ≤ t' → IsLimited c end t n d → IsLimited c end t' n d
    IsLimited-later c end t t' n d le (inl gone) = inl (λ u lu. gone u (omega arith))
    IsLimited-later c end t t' n d le (inr (room, g)) = inr (room, λ u lu. g u (omega arith))

    guess-IsLimited :
        (c end n t otp : ℕ) (s : AuthState Db)
        → otp ≢ c
        → end ≤ t + policy.ttl * 1000
        → IsLimited c end t n s.redis
        → IsLimited c end t (n + 1) (guess policy id t otp s).redis
    guess-IsLimited c end n t otp s wrong before (inl gone) =
        inl (take_otp-IsGone t otp (record s { now = t }) gone)
    guess-IsLimited c end n t otp s wrong before (inr (room, g)) =
        take_otp-IsGuarded c n end otp (record s { now = t }) (ground (arith, ==_iff c otp)) room
          before g

    guess_all-IsLimited :
        (c end n t : ℕ) (gs : List (ℕ × ℕ)) (s : AuthState Db)
        → AreInOrder t gs
        → All (λ g. g.1 ≢ c) gs
        → end ≤ t + policy.ttl * 1000
        → IsLimited c end t n s.redis
        → IsLimited c end (last_at t gs) (n + length gs) (guess_all gs s).redis
    guess_all-IsLimited c end n t [] s o w before l =
        subst (λ k. IsLimited c end t k s.redis) (omega arith) l
    guess_all-IsLimited c end n t (g ∷ gs) s o w before l =
        let s' = guess policy id g.0 g.1 s in
        subst (λ k. IsLimited c end (last_at g.0 gs) k (guess_all gs s').redis) (omega arith)
          (guess_all-IsLimited c end (n + 1) g.0 gs s' o.1 w.1 (omega (arith, o.0, before)) (
            guess-IsLimited c end n g.0 g.1 s w.0 (omega (arith, o.0, before))
              (IsLimited-later c end t g.0 n s.redis o.0 l)))

    pub refuse_gone :
        (otp t : ℕ) (s : AuthState Db)
        → code_at r id p t s.redis ≡ none
        → is_err (take_otp r policy id otp (record s { now = t })).0 ≡ true
    refuse_gone otp t s gone =
        let s' : AuthState Db = record s { now = t } in
        elim (Bool-cases (leb policy.max_attempts (counted r policy id otp s'))) [
          | inl late ↦ rw (take_otp-late r policy id otp s' late) refl
          | inr early ↦
              rw (take_otp-wrong r policy id otp s' early (rw gone refl))
                (elim (Bool-cases (leb policy.max_attempts (counted r policy id otp s' + 1))) [
                  | inl last ↦ rw (refuse_otp-last r policy id otp s' last) refl
                  | inr more ↦ rw (refuse_otp-more r policy id otp s' more) refl
                ])
        ]

    -- Guessing does not get through: once as many wrong passwords as the policy has attempts were tried on
    -- a code that was saved, at whichever times, every password is refused, the right one too, as long as
    -- no other code is saved.
    pub take_otp-guess_all :
        (code otp t : ℕ) (gs : List (ℕ × ℕ)) (s : AuthState Db)
        → 0 < policy.max_attempts
        → AreInOrder s.now gs
        → All (λ g. g.1 ≢ code) gs
        → policy.max_attempts ≤ length gs
        → last_at s.now gs ≤ t
        → let s' = guess_all gs (save_code r id p code policy.ttl s).1 in
          is_err (take_otp r policy id otp (record s' { now = t })).0 ≡ true
    take_otp-guess_all code otp t gs s some_attempts o w many le =
        let s1 = (save_code r id p code policy.ttl s).1 in
        elim (guess_all-IsLimited code (s.now + policy.ttl * 1000) 0 s.now gs s1 o w (omega arith)
          (inr (some_attempts, save_code-IsGuarded id p code policy.ttl s))) [
            | inl gone ↦ refuse_gone otp t (guess_all gs s1) (gone t le)
            | inr (room, _) ↦ absurd (omega arith)
          ]
