-- ===== src/Auth/Redis.antt =====
-- The commands of Redis that apps/api/src/auth uses, as a parameter (the server is not part of the
-- repository): what a key holds after each command, and what an expired key answers. Instants and
-- expiries are in milliseconds, as the server keeps them; EX and EXPIRE take seconds, and TTL answers
-- the time that is left rounded to the nearest second, which is 0 for a key that lives for less than
-- half a second more. TTL's answers -1 and -2 (no expiry, no key) are 0 here: the code only asks
-- whether the answer is positive.
use Prim.Native.Nat.{◌/◌}
use appforfixiyi.Common.{
  ℕ, suc, ◌+◌, ◌-◌, ◌*◌, ◌≡◌, refl, Bool, true, false, ◌&&◌, Option, none, some, ◌==◌, ltb,
  if◌then◌else◌, get_or, arith,
}

-- The keys that the services write: `ratelimit:…`, `otp:code:…` and `otp:cooldown:…`. A name or
-- namespace holds no colon of its own, so that different keys are different texts.
pub data Key : Type 0 where
  rate_limit_issue code cooldown : (namespace subject : ℕ) → Key
  rate_limit_route : (name : ℕ) → Key

abbrev pub same_key : Key → Key → Bool
same_key (rate_limit_issue a b) (rate_limit_issue c d) = a == c && b == d
same_key (code a b) (code c d) = a == c && b == d
same_key (cooldown a b) (cooldown c d) = a == c && b == d
same_key (rate_limit_route a) (rate_limit_route b) = a == b
same_key _ _ = false

-- `StoredCode`.
pub record StoredCode : Type 0 where
  pub hash : ℕ
  pub attempts : ℕ

pub data Value : Type 0 where
  counter : ℕ → Value
  stored : StoredCode → Value
  mark : Value

pub record Entry : Type 0 where
  pub value : Value
  pub expires_at : Option ℕ

abbrev pub Contents : Type 0
Contents = Key → Option Entry

abbrev pub is_alive : (now : ℕ) → Option ℕ → Bool
is_alive now none = true
is_alive now (some t) = ltb now t

-- What a command sees of a key.
abbrev pub visible : (now : ℕ) → Option Entry → Option Entry
visible now none = none
visible now (some e) = if is_alive now e.expires_at then some e else none

abbrev pub value_of : Option Entry → Option Value
value_of none = none
value_of (some e) = some e.value

abbrev pub count_of : Value → ℕ
count_of (counter n) = n
count_of _ = 0

abbrev pub counter_of : Option Entry → ℕ
counter_of none = 0
counter_of (some e) = count_of e.value

abbrev pub expiry_of : Option Entry → Option ℕ
expiry_of none = none
expiry_of (some e) = e.expires_at

-- TTL's rounding.
abbrev pub to_seconds : (milliseconds : ℕ) → ℕ
to_seconds m = (m + 500) / 1000

abbrev pub remaining : (now : ℕ) → Option Entry → ℕ
remaining now o = to_seconds (get_or (expiry_of o) now - now)

abbrev pub expiring : ℕ → Option Entry → Option Entry
expiring t none = none
expiring t (some e) = some (record e { expires_at = some t })

pub same_key_refl : (k : Key) → same_key k k ≡ true
same_key_refl (rate_limit_issue a b) = ground arith
same_key_refl (code a b) = ground arith
same_key_refl (cooldown a b) = ground arith
same_key_refl (rate_limit_route a) = ground arith

-- A command that writes one key leaves the others.
abbrev pub written : Key → Option Entry → Contents → Contents
written k e s x = if same_key k x then e else s x

pub record Redis : Type 1 where
  pub get : (now : ℕ) → Key → Contents → Option Value
  pub ttl : (now : ℕ) → Key → Contents → ℕ
  pub incr : (now : ℕ) → Key → Contents → ℕ × Contents
  pub expire : (now : ℕ) → Key → (seconds : ℕ) → Contents → Contents
  pub set_ex : (now : ℕ) → Key → Value → (seconds : ℕ) → Contents → Contents
  pub del : Key → Contents → Contents
  pub get_lem : (now : ℕ) (k : Key) (s : Contents) → get now k s ≡ value_of (visible now (s k))
  pub ttl_lem : (now : ℕ) (k : Key) (s : Contents) → ttl now k s ≡ remaining now (visible now (s k))
  -- INCR counts from 0 where there is no live key, and keeps the expiry where there is one.
  pub incr_lem :
      (now : ℕ) (k : Key) (s : Contents)
      → incr now k s ≡ (
        suc (counter_of (visible now (s k))),
        written k
            (some (record {
              value = counter (suc (counter_of (visible now (s k))));
              expires_at = expiry_of (visible now (s k));
            }))
            s,
      )
  pub expire_lem :
      (now : ℕ) (k : Key) (seconds : ℕ) (s : Contents)
      → expire now k seconds s ≡ written k (expiring (now + seconds * 1000) (visible now (s k))) s
  pub set_ex_lem :
      (now : ℕ) (k : Key) (v : Value) (seconds : ℕ) (s : Contents)
      → set_ex now k v seconds s
        ≡ written k (some (record { value = v; expires_at = some (now + seconds * 1000) })) s
  pub del_lem : (k : Key) (s : Contents) → del k s ≡ written k none s

-- The laws can be met.
abbrev pub test_redis : Redis
test_redis = record {
  get = λ now k s. value_of (visible now (s k));
  ttl = λ now k s. remaining now (visible now (s k));
  incr = λ now k s. (
    suc (counter_of (visible now (s k))),
    written k
        (some (record {
          value = counter (suc (counter_of (visible now (s k))));
          expires_at = expiry_of (visible now (s k));
        }))
        s,
  );
  expire = λ now k seconds s. written k (expiring (now + seconds * 1000) (visible now (s k))) s;
  set_ex = λ now k v seconds s.
      written k (some (record { value = v; expires_at = some (now + seconds * 1000) })) s;
  del = λ k s. written k none s;
  get_lem = λ now k s. refl;
  ttl_lem = λ now k s. refl;
  incr_lem = λ now k s. refl;
  expire_lem = λ now k seconds s. refl;
  set_ex_lem = λ now k v seconds s. refl;
  del_lem = λ k s. refl;
}
