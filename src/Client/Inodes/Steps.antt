-- ===== src/Client/Inodes/Steps.antt =====
-- The steps of which the handlers are made, on the maps and the handles.
use rust_remote_fs.Prelude.{
  ℕ, ◌+◌, ◌≡◌, refl, Option, none, some, inl, inr, Bool-cases, Option-cases, Text, nat_eq, text_eq,
  ltb,
}
use rust_remote_fs.HashMap
use rust_remote_fs.Radix.{u64_mod}
use rust_remote_fs.Wire.{Bytes, Method}
use rust_remote_fs.Outcome.{◌>>=◌}
use rust_remote_fs.Outcome.Keeps.{Keeps, Leads, Keeps-modify, keeps_rules}
use rust_remote_fs.Client.Attributes.{FileType, FileAttr}
use rust_remote_fs.Client.Cache
use rust_remote_fs.Client.Platform.{Platform}
use rust_remote_fs.Client.State.{RemoteFs, Sys, Fuse, path_of, cache_put, cache_remove, cache_get}
use rust_remote_fs.Client.Api.{
  exchange, get_files_from_server, get_file_content_from_server, put_file_content_to_server,
  delete_resource, create_directory, update_permissions, get_file_chunk_from_server,
}
use rust_remote_fs.Client.Read.{new_inode, new_handle, set_type}
use rust_remote_fs.Client.Create.{new_file, new_directory}
use rust_remote_fs.Client.Delete.{forget}
use rust_remote_fs.Client.Rename.{update_maps, uncache_path, repath}
use rust_remote_fs.Client.Inodes.{
  IsConsistent, MapsAgree-new, MapsAgree-skip, MapsAgree-forget, MapsAgree-move, HandlesFresh-new,
}

-- A request changes nothing of the file system's state.
module _ {P : Platform} (I : RemoteFs P → Type 0) where
  abbrev pub OnFs : Sys P → Type 0
  OnFs s = I s.fs

  pub exchange-Keeps :
      (method : Method) (url : Text → Text) (range : Option Text) (body : Bytes)
      → Keeps OnFs (exchange P method url range body)
  unfolding exchange
  exchange-Keeps method url range body = record { at = λ s h. h }

  pub get_files-Keeps : (path : Text) → Keeps OnFs (get_files_from_server P path)
  unfolding get_files_from_server
  get_files-Keeps path = search (keeps_rules, exchange-Keeps)

  pub get_content-Keeps : (path : Text) → Keeps OnFs (get_file_content_from_server P path)
  unfolding get_file_content_from_server
  get_content-Keeps path = search (keeps_rules, exchange-Keeps)

  pub put_content-Keeps :
      (path : Text) (content : Bytes) → Keeps OnFs (put_file_content_to_server P path content)
  unfolding put_file_content_to_server
  put_content-Keeps path content = search (keeps_rules, exchange-Keeps)

  pub delete_resource-Keeps : (path : Text) → Keeps OnFs (delete_resource P path)
  unfolding delete_resource
  delete_resource-Keeps path = search (keeps_rules, exchange-Keeps)

  pub create_directory-Keeps : (path : Text) → Keeps OnFs (create_directory P path)
  unfolding create_directory
  create_directory-Keeps path = search (keeps_rules, exchange-Keeps)

  pub update_permissions-Keeps :
      (path : Text) (mode : ℕ) → Keeps OnFs (update_permissions P path mode)
  unfolding update_permissions
  update_permissions-Keeps path mode = search (keeps_rules, exchange-Keeps)

  pub get_chunk-Keeps :
      (path : Text) (offset size : ℕ) → Keeps OnFs (get_file_chunk_from_server P path offset size)
  unfolding get_file_chunk_from_server
  get_chunk-Keeps path offset size = search (keeps_rules, exchange-Keeps)

  pub path_of-Keeps : (ino : ℕ) → Keeps OnFs (path_of P ino)
  unfolding path_of
  path_of-Keeps ino = search keeps_rules

module _ {P : Platform} where
  abbrev pub Safe : {A : Type 0} → Fuse P A → Type 0
  Safe m = Keeps (OnFs IsConsistent) m

  pub get_files-Safe : (path : Text) → Safe (get_files_from_server P path)
  get_files-Safe = get_files-Keeps IsConsistent

  pub get_content-Safe : (path : Text) → Safe (get_file_content_from_server P path)
  get_content-Safe = get_content-Keeps IsConsistent

  pub put_content-Safe :
      (path : Text) (content : Bytes) → Safe (put_file_content_to_server P path content)
  put_content-Safe = put_content-Keeps IsConsistent

  pub delete_resource-Safe : (path : Text) → Safe (delete_resource P path)
  delete_resource-Safe = delete_resource-Keeps IsConsistent

  pub create_directory-Safe : (path : Text) → Safe (create_directory P path)
  create_directory-Safe = create_directory-Keeps IsConsistent

  pub update_permissions-Safe : (path : Text) (mode : ℕ) → Safe (update_permissions P path mode)
  update_permissions-Safe = update_permissions-Keeps IsConsistent

  pub get_chunk-Safe :
      (path : Text) (offset size : ℕ) → Safe (get_file_chunk_from_server P path offset size)
  get_chunk-Safe = get_chunk-Keeps IsConsistent

  pub path_of-Safe : (ino : ℕ) → Safe (path_of P ino)
  path_of-Safe = path_of-Keeps IsConsistent

  pub cache_put-Safe : (ino : ℕ) (attr : FileAttr) → Safe (cache_put P ino attr)
  unfolding cache_put
  cache_put-Safe ino attr = record {
    at = λ s h.
        elim (Bool-cases (
          Cache.overflows P s.fs.config.cache_ttl_seconds (P.instant_now s.world)
            s.fs.attribute_cache)) [ inl late ↦ rw late h | inr fits ↦ rw fits h ];
  }

  pub cache_remove-Safe : (ino : ℕ) → Safe (cache_remove P ino)
  unfolding cache_remove
  cache_remove-Safe ino = Keeps-modify _ (λ s h. h)

  pub cache_get-Safe : (ino : ℕ) → Safe (cache_get P ino)
  unfolding cache_get
  cache_get-Safe ino = record { at = λ s h. h }

  pub set_type-Safe : (ino : ℕ) (kind : FileType) → Safe (set_type P ino kind)
  unfolding set_type
  set_type-Safe ino kind = Keeps-modify _ (λ s h. h)

  pub new_inode-Safe : (path : Text) → Safe (new_inode P path)
  unfolding new_inode ◌>>=◌
  new_inode-Safe path = record {
    at = λ s h. elim (Bool-cases (ltb (s.fs.next_inode + 1) u64_mod)) [
      | inl p ↦ rw p (MapsAgree-new h.0 path, h.1)
      | inr p ↦ rw p h
    ];
  }

  pub new_directory-Safe : (path : Text) → Safe (new_directory P path)
  unfolding new_directory ◌>>=◌
  new_directory-Safe path = record {
    at = λ s h. elim (Bool-cases (ltb (s.fs.next_inode + 1) u64_mod)) [
      | inl p ↦ rw p (MapsAgree-new h.0 path, h.1)
      | inr p ↦ rw p h
    ];
  }

  pub new_handle-Safe : (path : Text) → Safe (new_handle P path)
  unfolding new_handle ◌>>=◌
  new_handle-Safe path = record {
    at = λ s h. elim (Bool-cases (ltb (s.fs.next_fh + 1) u64_mod)) [
      | inl p ↦ rw p (h.0, HandlesFresh-new h.1 _)
      | inr p ↦ rw p h
    ];
  }

  -- The handle's number may run out after the inode's was taken.
  pub new_file-Safe : (path : Text) → Safe (new_file P path)
  unfolding new_file ◌>>=◌
  new_file-Safe path = record {
    at = λ s h. elim (Bool-cases (ltb (s.fs.next_inode + 1) u64_mod)) [
      | inl p ↦ elim (Bool-cases (ltb (s.fs.next_fh + 1) u64_mod)) [
        | inl q ↦ rw (p, q) (MapsAgree-new h.0 path, HandlesFresh-new h.1 _)
        | inr q ↦ rw (p, q) (MapsAgree-skip h.0, h.1)
      ]
      | inr p ↦ rw p h
    ];
  }

  pub forget-Leads :
      (inode : ℕ) (path : Text)
      → Leads
          (OnFs (λ fs. IsConsistent fs × (HashMap.get path fs.path_to_inode ≡ some inode)))
          (OnFs IsConsistent)
          (forget P inode path)
  unfolding forget ◌>>=◌
  forget-Leads inode path = record { to = λ s h. (MapsAgree-forget h.0.0 path inode h.1, h.0.1) }

  uncache_path-IsConsistent :
      (path : Text) (fs : RemoteFs P) → IsConsistent fs → IsConsistent (uncache_path P path fs)
  uncache_path-IsConsistent path fs h = elim (Option-cases (HashMap.get path fs.path_to_inode)) [
    | inl p ↦ rw p h
    | inr ((i, p)) ↦ rw p h
  ]

  repath-IsConsistent :
      (p q : Text) (fs : RemoteFs P) (o : Option ℕ)
      → HashMap.get p fs.path_to_inode ≡ o
      → IsConsistent fs
      → IsConsistent (repath P p q o fs)
  repath-IsConsistent p q fs none e h = h
  repath-IsConsistent p q fs (some i) e h = (MapsAgree-move h.0 p q i e, h.1)

  pub update_maps-IsConsistent :
      (p q op np : Text) (fs : RemoteFs P)
      → IsConsistent fs
      → IsConsistent (update_maps P p q op np fs)
  unfolding update_maps
  update_maps-IsConsistent p q op np fs h =
      uncache_path-IsConsistent np _
        (uncache_path-IsConsistent op _ (repath-IsConsistent p q fs _ refl h))

pub ruleset safe_rules = (
  keeps_rules, get_files-Safe, get_content-Safe, put_content-Safe, delete_resource-Safe,
  create_directory-Safe, update_permissions-Safe, get_chunk-Safe, path_of-Safe, cache_put-Safe,
  cache_remove-Safe, cache_get-Safe, set_type-Safe, new_inode-Safe, new_directory-Safe,
  new_handle-Safe, new_file-Safe,
)
