-- ===== src/Client/Platform.antt =====
-- What the client calls and does not implement: the network (reqwest), the clocks, serde_json, the
-- `lru` crate, and the order in which a `HashMap` is iterated.
use rust_remote_fs.Prelude.{ℕ, ◌≡◌, ◌≢◌, ◌⊎◌, Option, none, some, List, Text}
use mathlib.Core.List.{Perm}
use rust_remote_fs.Wire.{Bytes, RemoteEntry, Request, Response}
use rust_remote_fs.Client.Attributes.{FileAttr}

pub record Platform : Type 1 where
  -- everything outside of the client
  pub World : Type 0
  -- `none` when the exchange fails, or the body breaks off that the caller reads
  pub send : Request → World → Option Response × World
  -- `Instant::now` and `SystemTime::now`, in nanoseconds
  pub instant_now : World → ℕ
  pub system_now : World → ℕ
  pub decode_entries : Bytes → Option (List RemoteEntry)
  -- the JSON object `{"perm": …}`
  pub encode_perm : Text → Bytes
  pub LruCache : Type 0
  pub lru_new : ℕ → LruCache
  pub lru_get : ℕ → LruCache → Option FileAttr × LruCache
  pub lru_put : ℕ → FileAttr → LruCache → LruCache
  pub lru_pop : ℕ → LruCache → LruCache
  -- the order in which a map of written blocks is iterated
  pub hash_order : World → List (ℕ × Bytes) → List (ℕ × Bytes)

-- What the `lru` crate documents, told by its `peek`, which changes nothing. A `put` may evict.
pub record IsLru (P : Platform) : Type 0 where
  pub peek : ℕ → P.LruCache → Option FileAttr
  pub get-peek : (k : ℕ) (c : P.LruCache) → (P.lru_get k c).0 ≡ peek k c
  pub peek-get : (k j : ℕ) (c : P.LruCache) → peek j (P.lru_get k c).1 ≡ peek j c
  pub peek-put_self : (k : ℕ) (a : FileAttr) (c : P.LruCache) → peek k (P.lru_put k a c) ≡ some a
  pub peek-put_ne :
      (k j : ℕ) (a : FileAttr) (c : P.LruCache)
      → k ≢ j
      → (peek j (P.lru_put k a c) ≡ none) ⊎ (peek j (P.lru_put k a c) ≡ peek j c)
  pub peek-pop_self : (k : ℕ) (c : P.LruCache) → peek k (P.lru_pop k c) ≡ none
  pub peek-pop_ne : (k j : ℕ) (c : P.LruCache) → k ≢ j → peek j (P.lru_pop k c) ≡ peek j c
  pub peek-new : (k n : ℕ) → peek k (P.lru_new n) ≡ none

-- A `HashMap` gives each of its blocks once.
abbrev pub IsHashOrder : Platform → Type 0
IsHashOrder P = (w : P.World) (m : List (ℕ × Bytes)) → Perm (P.hash_order w m) m
