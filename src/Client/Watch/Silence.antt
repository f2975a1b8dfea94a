-- ===== src/Client/Watch/Silence.antt =====
-- The watcher of client/src/main.rs takes entries out of the cache and changes nothing else.
use rust_remote_fs.Prelude.{
  ℕ, ◌≡◌, ◌≢◌, refl, ap, sym, ◌∙◌, Bool, true, false, Option, none, some, List, [], ◌∷◌, Text,
  text_eq, nat_eq,
}
use rust_remote_fs.HashMap
use rust_remote_fs.Client.Cache.Laws
use rust_remote_fs.Client.Cache.Laws.{answer}
use rust_remote_fs.Client.Platform.{Platform, IsLru}
use rust_remote_fs.Client.Rename.{uncache}
use rust_remote_fs.Client.State.{RemoteFs}
use rust_remote_fs.Client.Watch.{parent, Incoming, on_path, on_unsigned, invalidate, on_text, watch}

module _ (P : Platform) (I : RemoteFs P → Type 0)
    (keep : (j : ℕ) (fs : RemoteFs P) → I fs → I (uncache P (some j) fs)) where
  uncache_keeps : (o : Option ℕ) (fs : RemoteFs P) → I fs → I (uncache P o fs)
  uncache_keeps none fs h = h
  uncache_keeps (some j) fs h = keep j fs h

  invalidate_keeps : (path : Text) (fs : RemoteFs P) → I fs → I (invalidate P path fs)
  unfolding invalidate
  invalidate_keeps path fs h = uncache_keeps _ _ (uncache_keeps _ _ h)

  on_path_keeps : (o : Option Text) (fs : RemoteFs P) → I fs → I (on_path P o fs)
  on_path_keeps none fs h = h
  on_path_keeps (some path) fs h = invalidate_keeps path fs h

  on_unsigned_keeps :
      (mine : Bool) (t : Text) (fs : RemoteFs P) → I fs → I (on_unsigned P mine t fs)
  on_unsigned_keeps true t fs h = h
  on_unsigned_keeps false t fs h = on_path_keeps _ fs h

  -- What every removal from the cache keeps, each message keeps, and so does the whole loop.
  pub on_text_keeps : (me t : Text) (fs : RemoteFs P) → I fs → I (on_text P me t fs)
  unfolding on_text
  on_text_keeps me t fs h = on_unsigned_keeps _ _ fs h

  pub watch_keeps :
      (me : Text) (messages : List Incoming) (fs : RemoteFs P) → I fs → I (watch P me messages fs)
  unfolding watch
  watch_keeps me [] fs h = h
  watch_keeps me (Incoming.text t ∷ messages) fs h =
      watch_keeps me messages _ (on_text_keeps me t fs h)
  watch_keeps me (Incoming.close ∷ messages) fs h = h
  watch_keeps me (Incoming.failed ∷ messages) fs h = h
  watch_keeps me (Incoming.other ∷ messages) fs h = watch_keeps me messages fs h

module _ (P : Platform) (L : IsLru P) where
  -- The cache answers for the path's inode and for its directory's at no time, and for every other
  -- inode as before.
  abbrev pub Forgets : Text → RemoteFs P → RemoteFs P → Type 0
  Forgets path fs after =
      ((inode : ℕ)
        → HashMap.get path fs.path_to_inode ≡ some inode
        → (now : ℕ) → answer P inode now after.attribute_cache ≡ none)
      × ((inode : ℕ)
          → HashMap.get (parent path) fs.path_to_inode ≡ some inode
          → (now : ℕ) → answer P inode now after.attribute_cache ≡ none)
      × ((inode : ℕ)
          → HashMap.get path fs.path_to_inode ≢ some inode
          → HashMap.get (parent path) fs.path_to_inode ≢ some inode
          → (now : ℕ)
          → answer P inode now after.attribute_cache ≡ answer P inode now fs.attribute_cache)

  uncache_other :
      (o : Option ℕ) (inode now : ℕ) (fs : RemoteFs P)
      → o ≢ some inode
      → answer P inode now (uncache P o fs).attribute_cache ≡ answer P inode now fs.attribute_cache
  uncache_other none inode now fs ne = refl
  uncache_other (some j) inode now fs ne =
      (Laws.get-remove P L j inode now fs.attribute_cache).1 (λ e. ne (ap (λ i. some i) e))

  uncache_self :
      (o : Option ℕ) (inode now : ℕ) (fs : RemoteFs P)
      → o ≡ some inode
      → answer P inode now (uncache P o fs).attribute_cache ≡ none
  uncache_self o inode now fs e = rw e (Laws.get-remove P L inode inode now fs.attribute_cache).0

  uncache_silent :
      (o : Option ℕ) (inode now : ℕ) (fs : RemoteFs P)
      → answer P inode now fs.attribute_cache ≡ none
      → answer P inode now (uncache P o fs).attribute_cache ≡ none
  uncache_silent none inode now fs silent = silent
  uncache_silent (some j) inode now fs silent =
      Laws.get-remove_silent P L inode j now fs.attribute_cache silent

  uncache_map : (o : Option ℕ) (fs : RemoteFs P) → (uncache P o fs).path_to_inode ≡ fs.path_to_inode
  uncache_map none fs = refl
  uncache_map (some j) fs = refl

  pub invalidate-Forgets : (path : Text) (fs : RemoteFs P) → Forgets path fs (invalidate P path fs)
  unfolding invalidate
  invalidate-Forgets path fs =
      let own = HashMap.get path fs.path_to_inode in
      let first = uncache P own fs in
      let dir = HashMap.get (parent path) first.path_to_inode in
      let same : dir ≡ HashMap.get (parent path) fs.path_to_inode =
        ap (λ m. HashMap.get (parent path) m) (uncache_map own fs) in
      (
        λ inode e now. uncache_silent dir inode now first (uncache_self own inode now fs e),
        λ inode e now. uncache_self dir inode now first (same ∙ e),
        λ inode ne ne_dir now.
            uncache_other dir inode now first (λ e. ne_dir (sym same ∙ e))
            ∙ uncache_other own inode now fs ne,
      )

  -- The cache answers for the inode at no time.
  abbrev pub Silent : ℕ → RemoteFs P → Type 0
  Silent inode fs = (now : ℕ) → answer P inode now fs.attribute_cache ≡ none

  pub watch-Silent :
      (inode : ℕ) (me : Text) (messages : List Incoming) (fs : RemoteFs P)
      → Silent inode fs
      → Silent inode (watch P me messages fs)
  watch-Silent inode me messages fs h =
      watch_keeps P (Silent inode)
        (λ j fs silent now. Laws.get-remove_silent P L inode j now fs.attribute_cache (silent now))
        me messages fs h

  -- After a path is invalidated, the cache is silent for its inode.
  pub invalidate-Silent :
      (path : Text) (inode : ℕ) (fs : RemoteFs P)
      → HashMap.get path fs.path_to_inode ≡ some inode
      → Silent inode (invalidate P path fs)
  unfolding invalidate
  invalidate-Silent path inode fs known = rw known (
      uncache_keeps P (Silent inode)
        (λ j fs silent now. Laws.get-remove_silent P L inode j now fs.attribute_cache (silent now))
        _ _ (λ now. (Laws.get-remove P L inode inode now fs.attribute_cache).0))
