-- ===== src/Client/Cache/Laws.antt =====
-- What the cache answers after each change, for every strategy and at every later time.
use rust_remote_fs.Prelude.{
  ℕ, ◌+◌, ◌*◌, ◌≡◌, refl, sym, ◌∙◌, ◌≢◌, inl, inr, Option, none, some, arith, ltb, nat_eq,
  Option-cases, Bool-cases, if◌then◌else◌,
}
use rust_remote_fs.HashMap
use rust_remote_fs.Client.Attributes.{FileAttr, nanos_per_sec}
use rust_remote_fs.Client.Platform.{Platform, IsLru}
use rust_remote_fs.Client.Cache.{AttributeCache, ttl, lru, disabled, get, put, remove, overflows}

-- What a `get` at `now` returns.
abbrev pub answer : (P : Platform) → ℕ → ℕ → AttributeCache P → Option FileAttr
answer P ino now c = (get P ino now c).0

-- Whether a time to live overflows the clock depends on the strategy alone.
module _ (P : Platform) where
  pub get-overflows :
      (ino before duration now : ℕ) (c : AttributeCache P)
      → overflows P duration now (get P ino before c).1 ≡ overflows P duration now c
  unfolding get overflows
  get-overflows ino before duration now (ttl cache) = elim (Option-cases (HashMap.get ino cache)) [
    | inl missing ↦ rw missing
    | inr ((entry, found)) ↦ elim (Bool-cases (ltb before entry.expiry)) [
      | inl fresh ↦ rw (found, fresh)
      | inr late ↦ rw (found, late)
    ]
  ]
  get-overflows ino before duration now (lru cache) = refl
  get-overflows ino before duration now disabled = refl

module _ (P : Platform) (L : IsLru P) where
  -- After a removal the inode is not answered for, and every other inode is as before.
  pub get-remove :
      (ino j now : ℕ) (c : AttributeCache P)
      → (answer P ino now (remove P ino c) ≡ none)
        × (ino ≢ j → answer P j now (remove P ino c) ≡ answer P j now c)
  unfolding get remove
  get-remove ino j now (ttl cache) = (
    ground (arith, HashMap.get-remove ino ino cache),
    λ ne. ground (arith, HashMap.get-remove ino j cache),
  )
  get-remove ino j now (lru cache) = (
    L.get-peek ino _ ∙ L.peek-pop_self ino cache,
    λ ne. L.get-peek j _ ∙ L.peek-pop_ne ino j cache ne ∙ sym (L.get-peek j cache),
  )
  get-remove ino j now disabled = (refl, λ ne. refl)

  -- An inode that is not answered for stays so when any other is removed.
  pub get-remove_silent :
      (inode j now : ℕ) (c : AttributeCache P)
      → answer P inode now c ≡ none
      → answer P inode now (remove P j c) ≡ none
  get-remove_silent inode j now c silent = elim (nat_eq.dec j inode) [
    | yes same ↦ rw same (get-remove inode inode now c).0
    | no other ↦ (get-remove j inode now c).1 other ∙ silent
  ]

  -- What an answer can be after a `put` at `then` and a `get` at `now`: the attributes that were
  -- put, while they last, under `Ttl`; those, under `Lru`; nothing if caching is disabled.
  abbrev pub lives : AttributeCache P → ℕ → ℕ → ℕ → FileAttr → Option FileAttr
  lives (ttl cache) duration before now attr =
      if ltb now (before + duration * nanos_per_sec) then some attr else none
  lives (lru cache) duration before now attr = some attr
  lives disabled duration before now attr = none

  -- Asked for the inode that was put last, a `Ttl` cache answers until the time to live is over and
  -- then no more, an `Lru` cache that behaves as its crate documents answers, and a disabled one
  -- never does.
  pub get-put_self :
      (ino duration before now : ℕ) (attr : FileAttr) (c : AttributeCache P)
      → answer P ino now (put P ino attr duration before c) ≡ lives c duration before now attr
  unfolding get put
  get-put_self ino duration before now attr (ttl cache) = ground (
    arith,
    HashMap.get-insert ino ino (record { attr = attr; expiry = before + duration * nanos_per_sec })
        cache,
  )
  get-put_self ino duration before now attr (lru cache) =
      L.get-peek ino _ ∙ L.peek-put_self ino attr cache
  get-put_self ino duration before now attr disabled = refl

  -- Under every strategy an answer after a `put` is what was put.
  pub get-put_same :
      (ino duration before now : ℕ) (attr : FileAttr) (c : AttributeCache P) {a : FileAttr}
      → answer P ino now (put P ino attr duration before c) ≡ some a
      → some attr ≡ some a
  get-put_same ino duration before now attr (ttl cache) h =
      ground (arith, get-put_self ino duration before now attr (ttl cache))
  get-put_same ino duration before now attr (lru cache) h =
      cc (get-put_self ino duration before now attr (lru cache))
  get-put_same ino duration before now attr disabled h =
      cc (get-put_self ino duration before now attr disabled)

  -- A `put` shows in no other inode, but for an eviction.
  pub get-put_ne :
      (ino j duration before now : ℕ) (attr : FileAttr) (c : AttributeCache P) {a : FileAttr}
      → ino ≢ j
      → answer P j now (put P ino attr duration before c) ≡ some a
      → answer P j now c ≡ some a
  unfolding get put
  get-put_ne ino j duration before now attr (ttl cache) ne h = ground (
    arith,
    HashMap.get-insert ino j (record { attr = attr; expiry = before + duration * nanos_per_sec })
        cache,
  )
  get-put_ne ino j duration before now attr (lru cache) ne h =
      elim (L.peek-put_ne ino j attr cache ne) [
        | inl gone ↦ cc (L.get-peek j (P.lru_put ino attr cache), gone)
        | inr kept ↦ cc (L.get-peek j (P.lru_put ino attr cache), kept, L.get-peek j cache)
      ]
  get-put_ne ino j duration before now attr disabled ne h = h

  -- Neither does a `get`, which may drop an expired entry or reorder an `Lru` cache.
  pub get-get :
      (ino j before now : ℕ) (c : AttributeCache P) {a : FileAttr}
      → answer P j now (get P ino before c).1 ≡ some a
      → answer P j now c ≡ some a
  unfolding get
  get-get ino j before now (ttl cache) h = ground (arith, HashMap.get-remove ino j cache)
  get-get ino j before now (lru cache) h =
      cc (L.get-peek j (P.lru_get ino cache).1, L.peek-get ino j cache, L.get-peek j cache)
  get-get ino j before now disabled h = h
