-- ===== src/Client/Cache/History.antt =====
-- The cache against the history of its calls: it never answers with anything but what was put last.
use rust_remote_fs.Prelude.{ℕ, ◌≡◌, Option, none, some, List, [], ◌∷◌, nat_eq, ite, sym, ◌∙◌}
use mathlib.Core.Logic.{if_pos, if_neg}
use rust_remote_fs.HashMap
use rust_remote_fs.Client.Attributes.{FileAttr}
use rust_remote_fs.Client.Config.{Config, CacheStrategy}
use rust_remote_fs.Client.Platform.{Platform, IsLru}
use rust_remote_fs.Client.Cache
use rust_remote_fs.Client.Cache.{AttributeCache, new, new_for, non_zero}
use rust_remote_fs.Client.Cache.Laws.{answer, get-remove, get-put_same, get-put_ne, get-get}

-- A call with its arguments and the time at which it is made.
pub data Call : Type 0 where
  get : (ino now : ℕ) → Call
  put : (ino : ℕ) (attr : FileAttr) (ttl_duration now : ℕ) → Call
  remove : (ino : ℕ) → Call

-- The attributes that a cache without limits would hold after the calls, `before` them.
unfoldable pub last_put : ℕ → Option FileAttr → List Call → Option FileAttr
last_put j before [] = before
last_put j before (get ino now ∷ calls) = last_put j before calls
last_put j before (put ino attr ttl_duration now ∷ calls) =
    last_put j (ite (nat_eq.dec ino j) (some attr) before) calls
last_put j before (remove ino ∷ calls) = last_put j (ite (nat_eq.dec ino j) none before) calls

module _ (P : Platform) where
  abbrev perform : Call → AttributeCache P → AttributeCache P
  perform (get ino now) c = (Cache.get P ino now c).1
  perform (put ino attr ttl_duration now) c = Cache.put P ino attr ttl_duration now c
  perform (remove ino) c = Cache.remove P ino c

  unfoldable pub run : List Call → AttributeCache P → AttributeCache P
  run [] c = c
  run (call ∷ calls) c = run calls (perform call c)

module _ (P : Platform) (L : IsLru P) (j : ℕ) where
  -- At no time does the cache answer for `j` with anything but `known`.
  abbrev Agrees : AttributeCache P → Option FileAttr → Type 0
  Agrees c known = (now : ℕ) (a : FileAttr) → answer P j now c ≡ some a → known ≡ some a

  abbrev after : Call → Option FileAttr → Option FileAttr
  after call known = last_put j known (call ∷ [])

  Agrees-perform :
      (call : Call) (c : AttributeCache P) (known : Option FileAttr)
      → Agrees c known
      → Agrees (perform P call c) (after call known)
  unfolding last_put
  Agrees-perform (get ino before) c known h now a e = h now a (get-get P L ino j before now c e)
  Agrees-perform (put ino attr duration before) c known h now a e = elim (nat_eq.dec ino j) [
    | yes p ↦
        rw (if_pos (nat_eq.dec ino j) p) (get-put_same P L j duration before now attr c (rw p at e))
    | no p ↦
        rw (if_neg (nat_eq.dec ino j) p)
          (h now a (get-put_ne P L ino j duration before now attr c p e))
  ]
  Agrees-perform (remove ino) c known h now a e = elim (nat_eq.dec ino j) [
    | yes p ↦ rw (if_pos (nat_eq.dec ino j) p) (cc ((get-remove P L j j now c).0, (rw p at e)))
    | no p ↦ rw (if_neg (nat_eq.dec ino j) p) (h now a (sym ((get-remove P L ino j now c).1 p) ∙ e))
  ]

  Agrees-run :
      (calls : List Call) (c : AttributeCache P) (known : Option FileAttr)
      → Agrees c known
      → Agrees (run P calls c) (last_put j known calls)
  unfolding run last_put
  Agrees-run [] c known h = h
  Agrees-run (get ino now ∷ calls) c known h =
      Agrees-run calls _ known (Agrees-perform (get ino now) c known h)
  Agrees-run (put ino attr duration now ∷ calls) c known h =
      Agrees-run calls _ _ (Agrees-perform (put ino attr duration now) c known h)
  Agrees-run (remove ino ∷ calls) c known h =
      Agrees-run calls _ _ (Agrees-perform (remove ino) c known h)

  Agrees-new_for :
      (strategy : CacheStrategy) (capacity : ℕ) → Agrees (new_for P strategy capacity) none
  unfolding Cache.get HashMap.get
  Agrees-new_for CacheStrategy.ttl capacity now a e = e
  Agrees-new_for CacheStrategy.lru capacity now a e =
      cc (L.get-peek j (P.lru_new (non_zero capacity)), L.peek-new j (non_zero capacity), e)
  Agrees-new_for CacheStrategy.disabled capacity now a e = e

  -- Whatever is put, removed and asked for, at whatever times, and whatever an `Lru` cache evicts:
  -- if a cache that began empty answers with attributes, they are the last that were put for the
  -- inode, and no removal of the inode came after. An `Lru` cache behaves as its crate documents.
  pub get-run :
      (config : Config) (calls : List Call) (now : ℕ) (a : FileAttr)
      → (Cache.get P j now (run P calls (new P config))).0 ≡ some a
      → last_put j none calls ≡ some a
  unfolding new
  get-run config calls now a e = Agrees-run calls _ none (Agrees-new_for _ _) now a e
