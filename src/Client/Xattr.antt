-- ===== src/Client/Xattr.antt =====
-- client/src/fs/xattr.rs: no extended attribute is kept. The error of Linux is modelled.
use rust_remote_fs.Prelude.{ℕ, [], ◌==◌, if◌then◌else◌}
use rust_remote_fs.Wire.{Bytes}
use rust_remote_fs.Outcome.{reply, reply_error, enodata}
use rust_remote_fs.Client.Platform.{Platform}
use rust_remote_fs.Client.State.{Fuse}

pub data ReplyXattr : Type 0 where
  size : ℕ → ReplyXattr
  content : Bytes → ReplyXattr

module _ (P : Platform) where
  unfoldable pub getxattr : ℕ → Fuse P ReplyXattr
  getxattr ino = reply_error enodata

  unfoldable pub setxattr : ℕ → Bytes → Fuse P Unit
  setxattr ino value = reply tt

  unfoldable pub listxattr : ℕ → ℕ → Fuse P ReplyXattr
  listxattr ino buffer_size = if buffer_size == 0 then reply (size 0) else reply (content [])

  unfoldable pub removexattr : ℕ → Fuse P Unit
  removexattr ino = reply tt
