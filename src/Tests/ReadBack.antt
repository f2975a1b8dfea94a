-- ===== src/Tests/ReadBack.antt =====
-- Two blocks that stand apart, written to a file on the disk of a wired server, and read back.
use mathlib.Core.List.{append-nil}
use mathlib.Core.List.Perm
use rust_remote_fs.Prelude.{
  ◌≡◌, ◌≢◌, refl, ap, arith, true, Option, none, some, [], ◌∷◌, bytes, length, nat_eq, text_eq,
}
use rust_remote_fs.HashMap
use rust_remote_fs.Wire.{Bytes}
use rust_remote_fs.Outcome.{ok, ◌>>=◌}
use rust_remote_fs.Client.Platform.{IsHashOrder}
use rust_remote_fs.Client.State.{Sys, cache_remove}
use rust_remote_fs.Client.Read.{read}
use rust_remote_fs.Client.Write.{release}
use rust_remote_fs.Client.Write.Order.{merge}
use rust_remote_fs.Client.Write.Release.{closed, finish, release_uploads}
use rust_remote_fs.Server.GetFile.{OpenFile}
use rust_remote_fs.Server.Handlers.{put_file, put_frames, write_frames}
use rust_remote_fs.Server.Handlers.PutFile.{body_bytes}
use rust_remote_fs.EndToEnd.Reading.{slice}
use rust_remote_fs.EndToEnd.Network.{IsServed, api-Does}
use rust_remote_fs.EndToEnd.ReadBack.{IsWhole, fetched-stored, read-release}
use rust_remote_fs.Tests.Storing.{on_floppy, floppy, floppy-IsDisk}
use rust_remote_fs.Tests.Network.{Opener, web, wired, wired_fs, wired-IsServed}
use rust_remote_fs.Tests.World.{blocks, written}
use rust_remote_fs.Tests.Writing.{blocks-IsApart, blocks-fit}

abbrev pub opened : Option Bytes → Option OpenFile
opened none = none
opened (some content) =
    some (record { metadata_len = some (length content); seek = λ n. true; content = content })

abbrev pub reader : Opener floppy
reader p d = opened (HashMap.get p d)

pub reader-IsWhole : IsWhole floppy-IsDisk (web floppy reader)
unfolding body_bytes floppy-IsDisk
reader-IsWhole = record {
  open_file_lem = λ p d content settled there. (
    record { metadata_len = some (length content); seek = λ n. true; content = content },
    ap opened there,
    refl,
    λ n. refl,
    refl,
  );
  frames_of_lem = λ content. append-nil content;
}

abbrev file_sys : Sys (wired floppy reader)
file_sys = record {
  fs = record (wired_fs floppy reader) {
    inode_to_path = (2, bytes "a") ∷ [];
    open_files = (1, written) ∷ [];
  };
  world = record { recent_mods = []; disk = (bytes "/data/a", bytes "abcdef") ∷ [] };
}

abbrev file_wired :
    IsServed
      (wired floppy reader)
      floppy
      (web floppy reader)
      (bytes "/data")
      file_sys.fs.config.server_url
file_wired = wired-IsServed floppy reader

pub a_named : bytes "a" ≢ []
a_named e = cc

handle_known : HashMap.get 1 file_sys.fs.open_files ≡ some written
unfolding HashMap.get
handle_known = ground arith

inode_known : HashMap.get 2 file_sys.fs.inode_to_path ≡ some (bytes "a")
unfolding HashMap.get
inode_known = ground arith

there : floppy-IsDisk.content (bytes "/data/a") file_sys.world.disk ≡ some (bytes "abcdef")
unfolding HashMap.get floppy-IsDisk text_eq
there = refl

order : IsHashOrder (wired floppy reader)
order w m = Perm.refl m

-- Every PUT to this disk succeeds.
accepted :
    (t : Sys (wired floppy reader)) (content : Bytes)
    → (N : IsServed
        (wired floppy reader)
        floppy
        (web floppy reader)
        (bytes "/data")
        t.fs.config.server_url)
    → N.urls.Plain (bytes "a")
    → (finish (wired floppy reader) 2 written content t).0 ≡ ok tt
unfolding put_file put_frames write_frames cache_remove ◌>>=◌
accepted t content N plain = rw ((api-Does t N (bytes "a") plain a_named content 0).0.0) refl

released : (release (wired floppy reader) 2 1 file_sys).0 ≡ ok tt
released =
    let (w, fetched, same) =
      fetched-stored floppy-IsDisk reader-IsWhole (closed (wired floppy reader) 1 file_sys)
        file_wired (bytes "a") tt a_named (bytes "abcdef")
        (on_floppy (bytes "/data/a") file_sys.world.disk).1 there in
    let t : Sys (wired floppy reader) = record (closed (wired floppy reader) 1 file_sys) {
      world = w;
    } in
    rw
      (release_uploads (wired floppy reader) order 2 1 file_sys t written (some (bytes "abcdef"))
        handle_known (λ e. cc) blocks-IsApart blocks-fit fetched)
      (accepted t (merge blocks (bytes "abcdef")) file_wired tt)

read-release_example :
    (read (wired floppy reader) 2 1 4 (release (wired floppy reader) 2 1 file_sys).1).0
    ≡ ok (slice 1 4 (merge blocks (bytes "abcdef")))
read-release_example =
    read-release floppy-IsDisk reader-IsWhole order file_sys file_wired written tt a_named 2 1
      (bytes "abcdef") 1 4 handle_known (λ e. cc) blocks-IsApart blocks-fit
      (on_floppy (bytes "/data/a") file_sys.world.disk).1 there released
      (on_floppy (bytes "/data/a") (release (wired floppy reader) 2 1 file_sys).1.world.disk).1
      inode_known (omega arith) (omega arith)
