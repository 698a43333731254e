-- ===== src/Auth/Redis.antt =====
-- Redis, as src/infrastructure/database/redis/repositories uses it: a server that is not part of the
-- program. The laws are what its manual says of the commands.
use upstride_api.Base.{
  ℕ, ◌+◌, ◌*◌, ◌≤◌, ◌≡◌, ◌≢◌, ◌⊎◌, Option, none, some, ltb, is_some, get_or, if◌then◌else◌,
}

-- src/domain/policies/otp-purposes.ts
pub data OtpPurpose : Type 0 where
  register reset_password change_password : OtpPurpose

-- The keys that the repositories build, `otp:<id>:<purpose>` and the like.
pub data Key : Type 0 where
  otp otp_attempts otp_resends : (id : ℕ) → OtpPurpose → Key
  revoked_session : (sid : ℕ) → Key

-- A key's value is read at a time in milliseconds, and a time to live is in seconds. Texts are only
-- compared or counted in, so they are numbers.
pub record Redis : Type 1 where
  pub Db : Type 0
  pub get : Key → (at : ℕ) → Db → Option ℕ
  pub set_ex : Key → (value ttl now : ℕ) → Db → Db
  pub del : Key → Db → Db
  pub incr : Key → (now : ℕ) → Db → ℕ × Db
  pub expire : Key → (ttl now : ℕ) → Db → Db
  -- A value stays as it is, or it expires for good.
  pub get-later :
      (k : Key) (now t : ℕ) (d : Db) → now ≤ t → (get k t d ≡ none) ⊎ (get k t d ≡ get k now d)
  -- SET with EX
  pub get-set_ex :
      (k : Key) (v ttl now t : ℕ) (d : Db)
      → now ≤ t
      → get k t (set_ex k v ttl now d) ≡ (if ltb t (now + ttl * 1000) then some v else none)
  pub get-set_ex_other :
      (k k' : Key) (v ttl now t : ℕ) (d : Db)
      → k ≢ k'
      → get k' t (set_ex k v ttl now d) ≡ get k' t d
  -- DEL
  pub get-del : (k : Key) (t : ℕ) (d : Db) → get k t (del k d) ≡ none
  pub get-del_other : (k k' : Key) (t : ℕ) (d : Db) → k ≢ k' → get k' t (del k d) ≡ get k' t d
  -- INCR counts from 0 where the key is not there, and keeps the time to live of one that is.
  pub count-incr : (k : Key) (now : ℕ) (d : Db) → (incr k now d).0 ≡ get_or (get k now d) 0 + 1
  pub get-incr :
      (k : Key) (now t : ℕ) (d : Db)
      → now ≤ t
      → get k t (incr k now d).1 ≡ (
          if is_some (get k now d)
          then (if is_some (get k t d) then some (get_or (get k now d) 0 + 1) else none)
          else some 1)
  pub get-incr_other :
      (k k' : Key) (now t : ℕ) (d : Db) → k ≢ k' → get k' t (incr k now d).1 ≡ get k' t d
  -- EXPIRE sets the time to live anew.
  pub get-expire :
      (k : Key) (ttl now t : ℕ) (d : Db)
      → now ≤ t
      → get k t (expire k ttl now d) ≡ (if ltb t (now + ttl * 1000) then get k now d else none)
  pub get-expire_other :
      (k k' : Key) (ttl now t : ℕ) (d : Db) → k ≢ k' → get k' t (expire k ttl now d) ≡ get k' t d
