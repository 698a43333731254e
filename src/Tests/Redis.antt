-- ===== src/Tests/Redis.antt =====
-- A database and services that keep the laws: keys with the time when they expire, and tokens that are
-- what they say.
use upstride_api.Base.{
  ℕ, ◌+◌, ◌*◌, ◌≤◌, ◌≡◌, ◌≢◌, ◌⊎◌, refl, Bool, true, false, ◌&&◌, Option, none, some, arith, ◌∙◌,
  ltb, leb, ◌==◌, ==_iff, is_some, get_or, if◌then◌else◌,
}
use upstride_api.Auth.Redis.{Redis, Key, OtpPurpose}
use upstride_api.Auth.Services.{
  AuthServices, RefreshTokenPayload, AccessTokenPayload, refresh_token_ms, reset_token_ms,
  access_token_ms,
}

abbrev pub purpose_number : OtpPurpose → ℕ
purpose_number OtpPurpose.register = 0
purpose_number OtpPurpose.reset_password = 1
purpose_number OtpPurpose.change_password = 2

purpose_number_inj : (p q : OtpPurpose) → purpose_number p ≡ purpose_number q → p ≡ q
purpose_number_inj p q e = ground arith

abbrev pub key_eq : Key → Key → Bool
key_eq (Key.otp i p) (Key.otp j q) = i == j && purpose_number p == purpose_number q
key_eq (Key.otp_attempts i p) (Key.otp_attempts j q) =
    i == j && purpose_number p == purpose_number q
key_eq (Key.otp_resends i p) (Key.otp_resends j q) = i == j && purpose_number p == purpose_number q
key_eq (Key.revoked_session i) (Key.revoked_session j) = i == j
key_eq _ _ = false

key_eq_self : (k : Key) → key_eq k k ≡ true
key_eq_self (Key.otp i p) = ground arith
key_eq_self (Key.otp_attempts i p) = ground arith
key_eq_self (Key.otp_resends i p) = ground arith
key_eq_self (Key.revoked_session i) = ground arith

key_eq_ne : (k l : Key) → k ≢ l → key_eq k l ≡ false
key_eq_ne (Key.otp i p) (Key.otp j q) n =
    ground (arith, ==_iff i j, ==_iff (purpose_number p) (purpose_number q), purpose_number_inj p q)
key_eq_ne (Key.otp_attempts i p) (Key.otp_attempts j q) n =
    ground (arith, ==_iff i j, ==_iff (purpose_number p) (purpose_number q), purpose_number_inj p q)
key_eq_ne (Key.otp_resends i p) (Key.otp_resends j q) n =
    ground (arith, ==_iff i j, ==_iff (purpose_number p) (purpose_number q), purpose_number_inj p q)
key_eq_ne (Key.revoked_session i) (Key.revoked_session j) n = ground (arith, ==_iff i j)
key_eq_ne k l n = ground arith

-- A value, and when it expires.
pub record Entry : Type 0 where
  pub value : ℕ
  pub until : Option ℕ

abbrev pub Table : Type 0
Table = Key → Option Entry

abbrev pub read_entry : (at : ℕ) → Option Entry → Option ℕ
read_entry at none = none
read_entry at (some e) = elim e.until [
  | none ↦ some e.value
  | some t ↦ if ltb at t then some e.value else none
]

abbrev pub read_key : Key → (at : ℕ) → Table → Option ℕ
read_key k at d = read_entry at (d k)

abbrev pub put : Key → Option Entry → Table → Table
put k e d l = if key_eq k l then e else d l

abbrev pub entry_for : (value ttl now : ℕ) → Option Entry
entry_for value ttl now = some (record { value = value; until = some (now + ttl * 1000) })

-- The next count, in the time that the key has.
abbrev pub next_count : (now : ℕ) → Option Entry → Option Entry
next_count now none = some (record { value = 1; until = none })
next_count now (some e) =
    if is_some (read_entry now (some e))
    then some (record { value = e.value + 1; until = e.until })
    else some (record { value = 1; until = none })

abbrev pub expiring : (ttl now : ℕ) → Option ℕ → Option Entry
expiring ttl now none = none
expiring ttl now (some value) = entry_for value ttl now

pub read_entry-later :
    (now t : ℕ) (e : Option Entry)
    → now ≤ t
    → (read_entry t e ≡ none) ⊎ (read_entry t e ≡ read_entry now e)
read_entry-later now t e le = ground arith

pub read_entry-next_count :
    (now t : ℕ) (e : Option Entry)
    → now ≤ t
    → read_entry t (next_count now e) ≡ (
        if is_some (read_entry now e)
        then (if is_some (read_entry t e) then some (get_or (read_entry now e) 0 + 1) else none)
        else some 1)
read_entry-next_count now t e le = ground arith

pub read_entry-expiring :
    (ttl now t : ℕ) (o : Option ℕ)
    → read_entry t (expiring ttl now o) ≡ (if ltb t (now + ttl * 1000) then o else none)
read_entry-expiring ttl now t o = ground arith

pub read_key-put :
    (k : Key) (t : ℕ) (e : Option Entry) (d : Table) → read_key k t (put k e d) ≡ read_entry t e
read_key-put k t e d = rw (key_eq_self k) refl

pub read_key-put_other :
    (k l : Key) (t : ℕ) (e : Option Entry) (d : Table)
    → k ≢ l
    → read_key l t (put k e d) ≡ read_key l t d
read_key-put_other k l t e d n = rw (key_eq_ne k l n) refl

abbrev pub table : Redis
table = record {
  Db = Table;
  get = read_key;
  set_ex = λ k v ttl now d. put k (entry_for v ttl now) d;
  del = λ k d. put k none d;
  incr = λ k now d. (get_or (read_key k now d) 0 + 1, put k (next_count now (d k)) d);
  expire = λ k ttl now d. put k (expiring ttl now (read_key k now d)) d;
  get-later = λ k now t d le. read_entry-later now t (d k) le;
  get-set_ex = λ k v ttl now t d le. read_key-put k t (entry_for v ttl now) d;
  get-set_ex_other = λ k l v ttl now t d n. read_key-put_other k l t (entry_for v ttl now) d n;
  get-del = λ k t d. read_key-put k t none d;
  get-del_other = λ k l t d n. read_key-put_other k l t none d n;
  count-incr = λ k now d. refl;
  get-incr = λ k now t d le.
      read_key-put k t (next_count now (d k)) d ∙ read_entry-next_count now t (d k) le;
  get-incr_other = λ k l now t d n. read_key-put_other k l t (next_count now (d k)) d n;
  get-expire = λ k ttl now t d le.
      read_key-put k t (expiring ttl now (read_key k now d)) d
      ∙ read_entry-expiring ttl now t (read_key k now d);
  get-expire_other =
      λ k l ttl now t d n. read_key-put_other k l t (expiring ttl now (read_key k now d)) d n;
}

-- Tokens that carry what they are made of, in the clear.
pub data Token : Type 0 where
  access : AccessTokenPayload → ℕ → Token
  refresh : RefreshTokenPayload → ℕ → Token
  setup reset : ℕ → ℕ → Token

abbrev pub if_lives : {A : Type 0} → (at until : ℕ) → A → Option A
if_lives at until a = if leb (at + 1000) until then some a else none

abbrev pub read_access : Token → ℕ → Option AccessTokenPayload
read_access (Token.access p now) at = if_lives at (now + access_token_ms) p
read_access _ at = none

abbrev pub read_refresh : Token → ℕ → Option RefreshTokenPayload
read_refresh (Token.refresh p now) at = if_lives at (now + refresh_token_ms) p
read_refresh _ at = none

abbrev pub read_reset : Token → ℕ → Option ℕ
read_reset (Token.reset i now) at = if_lives at (now + reset_token_ms) i
read_reset _ at = none

abbrev pub identifier : Token → ℕ
identifier (Token.refresh p now) = p.jti
identifier _ = 0

pub read_refresh-lives :
    (p : RefreshTokenPayload) (now at : ℕ)
    → at + 1000 ≤ now + refresh_token_ms
    → read_refresh (Token.refresh p now) at ≡ some p
read_refresh-lives p now at lives = ground arith

pub read_access-lives :
    (p : AccessTokenPayload) (now at : ℕ)
    → at + 1000 ≤ now + access_token_ms
    → read_access (Token.access p now) at ≡ some p
read_access-lives p now at lives = ground arith

pub read_reset-lives :
    (i now at : ℕ) → at + 1000 ≤ now + reset_token_ms → read_reset (Token.reset i now) at ≡ some i
read_reset-lives i now at lives = ground arith

pub same_password : (p : ℕ) → (p == p) ≡ true
same_password p = (==_iff p p).1 refl

abbrev pub services : AuthServices
services = record {
  Token = Token;
  generate_access_token = Token.access;
  generate_refresh_token = Token.refresh;
  generate_setup_token = Token.setup;
  generate_reset_token = Token.reset;
  verify_refresh_token = read_refresh;
  verify_access_token = read_access;
  verify_reset_token = read_reset;
  hash_token = identifier;
  hash_password = λ p. p;
  verify_password = λ p h. p == h;
  verify-refresh_token = λ p now at le lives. read_refresh-lives p now at lives;
  verify-access_token = λ p now at le lives. read_access-lives p now at lives;
  verify-reset_token = λ i now at le lives. read_reset-lives i now at lives;
  hash_token-jti = λ p q now now' e. e;
  verify-hash_password = same_password;
}
