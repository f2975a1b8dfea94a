-- ===== src/Client/Lively/Steps.antt =====
-- The steps of which the handlers are made: none of them panics.
use mathlib.Core.List.{Mem, not-mem-nil}
use mathlib.Core.Option.{some-injective}
use rust_remote_fs.Prelude.{
  ℕ, ◌+◌, ◌^◌, ◌<◌, ◌≡◌, refl, Option, none, some, inl, inr, Option-cases, List, [], Text, nat_eq,
  ◌⊎◌, subst, sym, text_eq, arith, ltb, true, false,
}
use rust_remote_fs.HashMap
use rust_remote_fs.HashMap.{HashMap, get-insert, get-remove}
use rust_remote_fs.Radix.{u64_mod}
use rust_remote_fs.Wire.{Bytes, Method, RemoteEntry, Response}
use rust_remote_fs.Outcome.{◌>>=◌}
use rust_remote_fs.Outcome.Calm.{Calm, Gives, Spends, Calm-modify, calm_rules}
use rust_remote_fs.Client.Attr.{isize_mod}
use rust_remote_fs.Client.Attributes.{FileType, FileAttr}
use rust_remote_fs.Client.Cache
use rust_remote_fs.Client.Cache.{AttributeCache, ttl, lru, disabled}
use rust_remote_fs.Client.Platform.{Platform}
use rust_remote_fs.Client.State.{
  Sys, Fuse, OpenWriteFile, path_of, cache_put, cache_remove, cache_get,
}
use rust_remote_fs.Client.Api.{
  request, list_url, decoded, exchange, get_files_from_server, get_file_content_from_server,
  put_file_content_to_server, delete_resource, create_directory, update_permissions,
  get_file_chunk_from_server,
}
use rust_remote_fs.Client.Read.{new_inode, new_handle, set_type}
use rust_remote_fs.Client.Create.{new_file, new_directory}
use rust_remote_fs.Client.Write.Merge.{Block, end_of}
use rust_remote_fs.Client.Lively.{IsUsual, AreSane, Fits, FitsSys}

-- What an inserted key leads to, or what stood there.
pub get-inserted :
    (fh k : ℕ) (new f : OpenWriteFile) (files : HashMap ℕ OpenWriteFile)
    → HashMap.get k (HashMap.insert fh new files) ≡ some f
    → (new ≡ f) ⊎ (HashMap.get k files ≡ some f)
get-inserted fh k new f files found = elim (nat_eq.dec fh k) [
  | yes same ↦ inl (some-injective new f (ground (arith, get-insert fh k new files)))
  | no other ↦ inr (ground (arith, get-insert fh k new files))
]

module _ {c inode fh duration : ℕ} {files : HashMap ℕ OpenWriteFile}
    (h : Fits c inode fh files duration) where
  inode_taken : Fits (c + 1) (inode + 1) fh files duration
  inode_taken = record {
    inodes = omega (arith, h.inodes);
    handles = omega (arith, h.handles);
    blocks = h.blocks;
    time_to_live = h.time_to_live;
  }

  -- A new buffer has no block yet.
  new_buffer :
      (path : Text) (k : ℕ) (f : OpenWriteFile)
      → HashMap.get k (HashMap.insert fh (record { path = path; buffer = [] }) files) ≡ some f
      → (b : Block) → Mem b f.buffer
      → end_of b < isize_mod
  new_buffer path k f found b m = elim (get-inserted fh k _ f files found) [
    | inl same ↦ absurd (not-mem-nil (subst (λ g. Mem b g.buffer) (sym same) m))
    | inr older ↦ h.blocks k f older b m
  ]

  handle_taken :
      (path : Text)
      → Fits
          (c + 1)
          inode
          (fh + 1)
          (HashMap.insert fh (record { path = path; buffer = [] }) files)
          duration
  handle_taken path = record {
    inodes = omega (arith, h.inodes);
    handles = omega (arith, h.handles);
    blocks = new_buffer path;
    time_to_live = h.time_to_live;
  }

  file_taken :
      (path : Text)
      → Fits
          (c + 1)
          (inode + 1)
          (fh + 1)
          (HashMap.insert fh (record { path = path; buffer = [] }) files)
          duration
  file_taken path = record {
    inodes = omega (arith, h.inodes);
    handles = omega (arith, h.handles);
    blocks = new_buffer path;
    time_to_live = h.time_to_live;
  }

module _ {P : Platform} where
  abbrev pub Lives : {A : Type 0} → Fuse P A → Type 0
  Lives m = Calm FitsSys m

  abbrev pub Takes : {A : Type 0} → ℕ → Fuse P A → Type 0
  Takes k m = Spends FitsSys u64_mod k m

  pub grow : (c n : ℕ) (s : Sys P) → FitsSys c s → FitsSys (c + n) s
  grow c n s h = record {
    inodes = omega (arith, h.inodes);
    handles = omega (arith, h.handles);
    blocks = h.blocks;
    time_to_live = h.time_to_live;
  }

  exchange-Lives :
      (method : Method) (url : Text → Text) (range : Option Text) (body : Bytes)
      → Lives (exchange P method url range body)
  unfolding exchange
  exchange-Lives method url range body = record { at = λ c s h. (h, tt) }

  pub get_content-Lives : (path : Text) → Lives (get_file_content_from_server P path)
  unfolding get_file_content_from_server
  get_content-Lives path = search (calm_rules, exchange-Lives)

  pub put_content-Lives :
      (path : Text) (content : Bytes) → Lives (put_file_content_to_server P path content)
  unfolding put_file_content_to_server
  put_content-Lives path content = search (calm_rules, exchange-Lives)

  pub delete_resource-Lives : (path : Text) → Lives (delete_resource P path)
  unfolding delete_resource
  delete_resource-Lives path = search (calm_rules, exchange-Lives)

  pub create_directory-Lives : (path : Text) → Lives (create_directory P path)
  unfolding create_directory
  create_directory-Lives path = search (calm_rules, exchange-Lives)

  pub update_permissions-Lives : (path : Text) (mode : ℕ) → Lives (update_permissions P path mode)
  unfolding update_permissions
  update_permissions-Lives path mode = search (calm_rules, exchange-Lives)

  pub path_of-Lives : (ino : ℕ) → Lives (path_of P ino)
  unfolding path_of
  path_of-Lives ino = search calm_rules

  pub get_files-Lives : (path : Text) → Lives (get_files_from_server P path)
  unfolding get_files_from_server
  get_files-Lives path = search (calm_rules, exchange-Lives)

  -- A range of at least one byte that ends below 2^64.
  pub get_chunk-Lives :
      (path : Text) (offset size : ℕ)
      → 0 < size
      → offset + size < u64_mod
      → Lives (get_file_chunk_from_server P path offset size)
  unfolding get_file_chunk_from_server exchange ◌>>=◌
  get_chunk-Lives path offset size some_bytes fits =
      let below : ltb (offset + size) u64_mod ≡ true = ground arith in
      let above : ltb (offset + size) 1 ≡ false = ground arith in
      record { at = λ c s h. rw (below, above) (h, tt) }

  pub cache_remove-Lives : (ino : ℕ) → Lives (cache_remove P ino)
  unfolding cache_remove
  cache_remove-Lives ino = Calm-modify _ (λ c s h. h)

  pub cache_get-Lives : (ino : ℕ) → Lives (cache_get P ino)
  unfolding cache_get
  cache_get-Lives ino = record { at = λ c s h. (h, tt) }

  pub set_type-Lives : (ino : ℕ) (kind : FileType) → Lives (set_type P ino kind)
  unfolding set_type
  set_type-Lives ino kind = Calm-modify _ (λ c s h. h)

  pub new_inode-Takes : (path : Text) → Takes 1 (new_inode P path)
  unfolding new_inode ◌>>=◌
  new_inode-Takes path = record {
    at = λ c s room h.
        let fits : ltb (s.fs.next_inode + 1) u64_mod ≡ true = ground (arith, h.inodes) in
        rw fits (inode_taken h, tt);
  }

  pub new_directory-Takes : (path : Text) → Takes 1 (new_directory P path)
  unfolding new_directory ◌>>=◌
  new_directory-Takes path = record {
    at = λ c s room h.
        let fits : ltb (s.fs.next_inode + 1) u64_mod ≡ true = ground (arith, h.inodes) in
        rw fits (inode_taken h, tt);
  }

  pub new_handle-Takes : (path : Text) → Takes 1 (new_handle P path)
  unfolding new_handle ◌>>=◌
  new_handle-Takes path = record {
    at = λ c s room h.
        let fits : ltb (s.fs.next_fh + 1) u64_mod ≡ true = ground (arith, h.handles) in
        rw fits (handle_taken h path, tt);
  }

  pub new_file-Takes : (path : Text) → Takes 1 (new_file P path)
  unfolding new_file ◌>>=◌
  new_file-Takes path = record {
    at = λ c s room h.
        let fits : ltb (s.fs.next_inode + 1) u64_mod ≡ true = ground (arith, h.inodes) in
        let fits_fh : ltb (s.fs.next_fh + 1) u64_mod ≡ true = ground (arith, h.handles) in
        rw (fits, fits_fh) (file_taken h path, tt);
  }

module _ {P : Platform} (U : IsUsual P) where
  overflows-usual :
      (duration : ℕ) (w : P.World) (c : AttributeCache P)
      → duration < 2 ^ 62
      → Cache.overflows P duration (P.instant_now w) c ≡ false
  unfolding Cache.overflows
  overflows-usual duration w (ttl cache) short = ground (arith, U.clock w)
  overflows-usual duration w (lru cache) short = refl
  overflows-usual duration w disabled short = refl

  pub cache_put-Lives : (ino : ℕ) (attr : FileAttr) → Lives (cache_put P ino attr)
  unfolding cache_put
  cache_put-Lives ino attr = record {
    at = λ c s h.
        rw
          (overflows-usual s.fs.config.cache_ttl_seconds s.world s.fs.attribute_cache
            h.time_to_live)
          (h, tt);
  }

  -- A listing that comes has entries as there are.
  abbrev pub Usual : Option (List RemoteEntry) → Type 0
  Usual none = Unit
  Usual (some entries) = AreSane entries

  decoded-Usual :
      (path : Text) (s : Sys P) (response : Option Response)
      → (P.send
          (request Method.get (list_url s.fs.config.server_url path) none [] s.fs.client_id)
          s.world).0
        ≡ response
      → Usual (decoded P response)
  decoded-Usual path s none sent = tt
  decoded-Usual path s (some r) sent = elim (Option-cases (P.decode_entries r.body)) [
    | inl nothing ↦ rw nothing tt
    | inr ((entries, found)) ↦ rw found (U.listings _ s.world r entries sent found)
  ]

  pub get_files-Gives : (path : Text) → Gives FitsSys Usual (get_files_from_server P path)
  unfolding get_files_from_server exchange ◌>>=◌
  get_files-Gives path = record { at = λ c s h. (h, decoded-Usual path s _ refl) }
