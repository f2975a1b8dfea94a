-- ===== src/Client/Cache.antt =====
-- client/src/fs/cache.rs: the attribute cache under each strategy.
pub mod Laws
pub mod History
use rust_remote_fs.Prelude.{
  ℕ, zero, suc, ◌+◌, ◌*◌, ◌^◌, Bool, false, Option, none, some, [], leb, ltb, nat_eq, if◌then◌else◌,
}
use rust_remote_fs.HashMap
use rust_remote_fs.HashMap.{HashMap}
use rust_remote_fs.Client.Attributes.{FileAttr, nanos_per_sec}
use rust_remote_fs.Client.Config.{Config, CacheStrategy}
use rust_remote_fs.Client.Platform.{Platform}

pub record TtlEntry : Type 0 where
  pub attr : FileAttr
  pub expiry : ℕ

-- `disabled` is the source's `None`.
pub data AttributeCache (P : Platform) : Type 0 where
  ttl : HashMap ℕ TtlEntry → AttributeCache P
  lru : P.LruCache → AttributeCache P
  disabled : AttributeCache P

-- `NonZeroUsize::new(capacity)`, or 1
abbrev non_zero : ℕ → ℕ
non_zero zero = 1
non_zero (suc n) = suc n

module _ (P : Platform) where
  abbrev new_for : CacheStrategy → ℕ → AttributeCache P
  new_for CacheStrategy.ttl capacity = ttl []
  new_for CacheStrategy.lru capacity = lru (P.lru_new (non_zero capacity))
  new_for CacheStrategy.disabled capacity = disabled

  unfoldable pub new : Config → AttributeCache P
  new config = new_for config.cache_strategy config.cache_lru_capacity

  abbrev check_expiry :
      ℕ → ℕ → HashMap ℕ TtlEntry → Option TtlEntry → Option FileAttr × AttributeCache P
  check_expiry ino now cache none = (none, ttl cache)
  check_expiry ino now cache (some entry) =
      if ltb now entry.expiry
      then (some entry.attr, ttl cache)
      else (none, ttl (HashMap.remove ino cache))

  -- `now` is what `Instant::now()` returns in this call, here and in `put`.
  unfoldable pub get : ℕ → ℕ → AttributeCache P → Option FileAttr × AttributeCache P
  get ino now (ttl cache) = check_expiry ino now cache (HashMap.get ino cache)
  get ino now (lru cache) = let found = P.lru_get ino cache in (found.0, lru found.1)
  get ino now disabled = (none, disabled)

  -- Whether `Instant::now() + ttl_duration` panics: an `Instant` counts its seconds in an `i64`.
  unfoldable pub overflows : ℕ → ℕ → AttributeCache P → Bool
  overflows ttl_duration now (ttl cache) =
      leb (2 ^ 63 * nanos_per_sec) (now + ttl_duration * nanos_per_sec)
  overflows ttl_duration now (lru cache) = false
  overflows ttl_duration now disabled = false

  -- The duration is in seconds, and the sum does not overflow.
  unfoldable pub put : ℕ → FileAttr → ℕ → ℕ → AttributeCache P → AttributeCache P
  put ino attr ttl_duration now (ttl cache) = ttl (
      HashMap.insert ino (record { attr = attr; expiry = now + ttl_duration * nanos_per_sec })
        cache)
  put ino attr ttl_duration now (lru cache) = lru (P.lru_put ino attr cache)
  put ino attr ttl_duration now disabled = disabled

  unfoldable pub remove : ℕ → AttributeCache P → AttributeCache P
  remove ino (ttl cache) = ttl (HashMap.remove ino cache)
  remove ino (lru cache) = lru (P.lru_pop ino cache)
  remove ino disabled = disabled
