-- ===== src/Client/Write/Release.antt =====
-- What `write` and `release` do to the handle, and what is uploaded.
use mathlib.Core.List.{Pairwise, Mem}
use mathlib.Core.List.Perm
use rust_remote_fs.Prelude.{ℕ, ◌<◌, ◌≡◌, refl, Option, some, false, [], ◌∷◌, is_empty, nat_eq, ◌≢◌}
use rust_remote_fs.HashMap
use rust_remote_fs.HashMap.{HashMap}
use rust_remote_fs.Wire.{Bytes}
use rust_remote_fs.Outcome.{ok, eio, some_or, ◌>>=◌, ◌>>◌}
use rust_remote_fs.Client.Attr.{isize_mod}
use rust_remote_fs.Client.Platform.{Platform, IsHashOrder}
use rust_remote_fs.Client.Attr.{or_empty}
use rust_remote_fs.Client.Api.{get_file_content_from_server, put_file_content_to_server}
use rust_remote_fs.Client.State.{Sys, OpenWriteFile, Fuse, cache_remove}
use rust_remote_fs.Client.Write.{release, upload}
use rust_remote_fs.Client.Write.Merge.{Block, end_of}
use rust_remote_fs.Client.Write.Order.{merge, IsApart, merge-perm, apply_blocks-merge}

is_empty_ne : (m : HashMap ℕ Bytes) → m ≢ [] → is_empty m ≡ false
is_empty_ne [] ne = absurd (ne refl)
is_empty_ne (x ∷ m) ne = refl

module _ (P : Platform) where
  -- The state without the handle.
  abbrev pub closed : ℕ → Sys P → Sys P
  closed fh s = record s { fs = record s.fs { open_files = HashMap.remove fh s.fs.open_files } }

  -- `release` after the file's content has come: the upload of `content`.
  abbrev pub finish : ℕ → OpenWriteFile → Bytes → Fuse P Unit
  finish ino open_file content = do
    put_result ← put_file_content_to_server P open_file.path content
    some_or eio put_result
    cache_remove P ino

  upload-merge :
      IsHashOrder P
      → (ino : ℕ) (s t : Sys P) (f : OpenWriteFile) (old : Option Bytes) → Pairwise IsApart f.buffer
      → ((b : Block) → Mem b f.buffer → end_of b < isize_mod)
      → get_file_content_from_server P f.path s ≡ (ok old, t)
      → upload P ino f s ≡ finish ino f (merge f.buffer (or_empty old)) t
  unfolding upload ◌>>=◌
  upload-merge order ino s t f old apart fits fetched =
      let shuffled = order t.world f.buffer in
      let same = merge-perm (Perm.symm shuffled) (or_empty old) apart in
      let applied =
        apply_blocks-merge P (P.hash_order t.world f.buffer) (or_empty old) t
          (λ b m. fits b ((Perm.mem_iff shuffled).0 m)) in
      rw (fetched, applied, ← same)

  -- A handle with written blocks that share no position and end below 2^63, under a network that
  -- answers the GET with content or with an error status: in whatever order the map gives the
  -- blocks, what is uploaded is their merge into the content, or into an empty file after an error.
  -- The handle is closed before the upload.
  pub release_uploads :
      IsHashOrder P
      → (ino fh : ℕ) (s t : Sys P) (f : OpenWriteFile) (old : Option Bytes)
      → HashMap.get fh s.fs.open_files ≡ some f
      → f.buffer ≢ []
      → Pairwise IsApart f.buffer
      → ((b : Block) → Mem b f.buffer → end_of b < isize_mod)
      → get_file_content_from_server P f.path (closed fh s) ≡ (ok old, t)
      → release P ino fh s ≡ finish ino f (merge f.buffer (or_empty old)) t
  unfolding release ◌>>=◌
  release_uploads order ino fh s t f old is_open written apart fits fetched =
      rw (is_open, is_empty_ne f.buffer written)
        (upload-merge order ino (closed fh s) t f old apart fits fetched)
