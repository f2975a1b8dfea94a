-- ===== src/Client/Attributes.antt =====
-- `FileType` and `FileAttr` of fuser, and the root's attributes of client/src/fs/mod.rs. A
-- `SystemTime` is a number of nanoseconds since `UNIX_EPOCH`.
use rust_remote_fs.Prelude.{ℕ}

pub data FileType : Type 0 where
  directory regular_file : FileType

pub record FileAttr : Type 0 where
  pub ino : ℕ
  pub size : ℕ
  pub blocks : ℕ
  pub atime : ℕ
  pub mtime : ℕ
  pub ctime : ℕ
  pub crtime : ℕ
  pub kind : FileType
  pub perm : ℕ
  pub nlink : ℕ
  pub uid : ℕ
  pub gid : ℕ
  pub rdev : ℕ
  pub flags : ℕ
  pub blksize : ℕ

abbrev pub unix_epoch : ℕ
unix_epoch = 0

abbrev pub nanos_per_sec : ℕ
nanos_per_sec = 1_000_000_000

abbrev pub root_dir_attr : FileAttr
root_dir_attr = record {
  ino = 1;
  size = 0;
  blocks = 0;
  atime = unix_epoch;
  mtime = unix_epoch;
  ctime = unix_epoch;
  crtime = unix_epoch;
  kind = directory;
  perm = 0o755;
  nlink = 2;
  uid = 501;
  gid = 20;
  rdev = 0;
  flags = 0;
  blksize = 5120;
}
