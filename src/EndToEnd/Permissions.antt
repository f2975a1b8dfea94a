-- ===== src/EndToEnd/Permissions.antt =====
-- Permissions on their way: `chmod` from client/src/fs/attr.rs to `patch_file` of
-- server/src/handlers.rs, and back through its listing to the client's attributes.
use rust_remote_fs.Prelude.{
  ℕ, ◌+◌, ◌*◌, ◌/◌, ◌%◌, ◌^◌, ◌<◌, ◌≤◌, ◌≡◌, refl, Bool, Bool-cases, inl, inr, none, some, Text,
  arith, if◌then◌else◌, eq_ignore_ascii_case,
}
use rust_remote_fs.Radix.{print, from_str_radix, u64_mod, u32_mod, u16_mod}
use rust_remote_fs.Radix.RoundTrip.{from_str_radix-print}
use rust_remote_fs.Wire.{Bytes, Method, Request, status_only}
use rust_remote_fs.Outcome.{ok, ◌>>=◌}
use rust_remote_fs.Server.Disk.{Disk, Metadata}
use rust_remote_fs.Server.Handlers.{
  ServerState, file_path, status_of, recorded, entry_of, patch_file,
}
use rust_remote_fs.Client.Attributes.{directory, regular_file, FileAttr, nanos_per_sec, unix_epoch}
use rust_remote_fs.Client.Platform.{Platform}
use rust_remote_fs.Client.State.{Sys}
use rust_remote_fs.Client.Api.{request, files_url, update_permissions}
use rust_remote_fs.Client.Attr.{kind_of, nlink_of, attributes_of}

perm_read :
    (mode limit : ℕ)
    → 512 ≤ limit
    → from_str_radix 8 limit (print 8 (mode % 0o1000)) ≡ some (mode % 0o1000)
perm_read mode limit le =
    from_str_radix-print 8 limit (omega arith) (omega arith) (mode % 0o1000) (omega arith)

kind_of-entry_of :
    (name : Text) (metadata : Metadata)
    → kind_of (entry_of name metadata) ≡ (if metadata.is_dir then directory else regular_file)
unfolding kind_of entry_of eq_ignore_ascii_case
kind_of-entry_of name metadata = elim (Bool-cases metadata.is_dir) [
  | inl dir ↦ rw dir refl
  | inr file ↦ rw file refl
]

abbrev pub seconds : Metadata → ℕ
seconds metadata = elim metadata.modified [ none ↦ 0 | some secs ↦ secs ]

module _ (P : Platform) where
  -- What the server lists of a file whose size has room for 511 more below 2^64 and whose time in
  -- seconds lies below 2^63 gives the client these attributes without a panic: the kind, the lower
  -- nine bits of the mode, the size and the time.
  pub attributes_of-entry_of :
      (ino : ℕ) (name : Text) (metadata : Metadata) (s : Sys P)
      → metadata.len + 511 < u64_mod
      → seconds metadata < 2 ^ 63
      → (a : FileAttr) × (attributes_of P ino (entry_of name metadata) s ≡ (ok a, s))
        × (a.kind ≡ (if metadata.is_dir then directory else regular_file))
        × (a.perm ≡ metadata.mode % 0o1000)
        × (a.size ≡ metadata.len)
        × (a.mtime ≡ seconds metadata * nanos_per_sec)
  unfolding attributes_of ◌>>=◌ entry_of
  attributes_of-entry_of ino name metadata s fits in_time =
      let kind = kind_of (entry_of name metadata) in
      let time = seconds metadata * nanos_per_sec in
      let a : FileAttr = record {
        ino = ino;
        size = metadata.len;
        blocks = (metadata.len + 511) / 512;
        atime = time;
        mtime = time;
        ctime = time;
        crtime = unix_epoch;
        kind = kind;
        perm = metadata.mode % 0o1000;
        nlink = nlink_of kind;
        uid = 501;
        gid = 20;
        rdev = 0;
        flags = 0;
        blksize = 5120;
      } in
      let parsed = perm_read metadata.mode u16_mod (omega arith) in
      (a, ground (arith, parsed), kind_of-entry_of name metadata, refl, refl, refl)

module _ (P : Platform) (s : Sys P) (D : Disk) (data_dir path : Text) (now mode : ℕ)
    (server : ServerState D) (decode_perm : Bytes → Text) where
  abbrev pub chmod_request : Request
  chmod_request =
      request Method.patch (files_url s.fs.config.server_url path) none
        (P.encode_perm (print 8 (mode % 0o1000))) s.fs.client_id

  -- The server's handler on this request, decoded.
  abbrev pub patched : ℕ × ServerState D
  patched =
      patch_file D data_dir path chmod_request.headers now (decode_perm chmod_request.body) server

  abbrev pub mode_set : Bool × D.State
  mode_set = D.set_permissions (file_path data_dir path) (mode % 0o1000) server.disk

  -- A chmod of a path that the server knows, when JSON is decoded to what was encoded and the
  -- network delivers what `patch_file` answers: the server sets the lower nine bits of the mode,
  -- and the client's call succeeds exactly if that succeeds.
  pub update_permissions-patch_file :
      {metadata : Metadata}
      → ((t : Text) → decode_perm (P.encode_perm t) ≡ t)
      → (P.send chmod_request s.world).0 ≡ some (status_only patched.0)
      → D.metadata (file_path data_dir path) server.disk ≡ some metadata
      → (patched ≡ (
        status_of mode_set.0,
        record (recorded D data_dir path chmod_request.headers now server) { disk = mode_set.1 },
      ))
        × ((update_permissions P path mode s).0 ≡ ok (if mode_set.0 then some tt else none))
  unfolding update_permissions patch_file ◌>>=◌
  update_permissions-patch_file decoded delivered there =
      let read = decoded (print 8 (mode % 0o1000)) in
      let parsed = perm_read mode u32_mod (omega arith) in
      (ground (arith, read, parsed), ground (arith, read, parsed))
