-- ===== src/Tests/Moving.antt =====
-- The file "a" of a wired server is renamed to "ab".
use rust_remote_fs.Prelude.{◌≡◌, ◌≢◌, refl, ap, arith, false, some, [], ◌∷◌, bytes, nat_eq, text_eq}
use rust_remote_fs.HashMap
use rust_remote_fs.HashMap.{get-remove}
use rust_remote_fs.Outcome.{ok, ◌>>=◌}
use rust_remote_fs.Server.Handlers.{put_file, put_frames, write_frames, delete_file, file_path}
use rust_remote_fs.Client.Platform.{Platform}
use rust_remote_fs.Client.State.{Sys, path_of}
use rust_remote_fs.Client.Api.{put_file_content_to_server, delete_resource}
use rust_remote_fs.Client.Delete.{is_dir}
use rust_remote_fs.Client.Rename.{rename, move_on_server}
use rust_remote_fs.EndToEnd.Network.{api-Does}
use rust_remote_fs.EndToEnd.ReadBack.{fetched-stored}
use rust_remote_fs.EndToEnd.Moving.{IsRemoval, Moved, move_file-done, rename-Moved}
use rust_remote_fs.Tests.Storing.{on_floppy, floppy, floppy-IsDisk, small_file}
use rust_remote_fs.Tests.Network.{wired, wired_fs, wired-IsServed}
use rust_remote_fs.Tests.ReadBack.{reader, reader-IsWhole, a_named}

floppy-IsRemoval : IsRemoval floppy-IsDisk
unfolding floppy-IsDisk
floppy-IsRemoval = record {
  file_metadata = λ p d content there. (small_file, refl, refl);
  remove_file-content = λ p d removed. ground (arith, get-remove p p d);
  remove_file-other = λ p q d cp cq ne. ground (arith, get-remove p q d);
}

abbrev net : Platform
net = wired floppy reader

abbrev file_sys : Sys net
file_sys = record {
  fs = record (wired_fs floppy reader) {
    inode_to_path = (1, []) ∷ (2, bytes "a") ∷ [];
    path_to_inode = ([], 1) ∷ (bytes "a", 2) ∷ [];
  };
  world = record { recent_mods = []; disk = (bytes "/data/a", bytes "abcdef") ∷ [] };
}

root_known : HashMap.get 1 file_sys.fs.inode_to_path ≡ some []
unfolding HashMap.get
root_known = ground arith

path_known : HashMap.get (bytes "a") file_sys.fs.path_to_inode ≡ some 2
unfolding HashMap.get text_eq
path_known = refl

no_directory : is_dir (HashMap.get 2 file_sys.fs.inode_to_type) ≡ false
unfolding HashMap.get is_dir
no_directory = refl

there : floppy-IsDisk.content (bytes "/data/a") file_sys.world.disk ≡ some (bytes "abcdef")
unfolding HashMap.get floppy-IsDisk text_eq
there = refl

b_named : bytes "ab" ≢ []
b_named e = cc

different : file_path (bytes "/data") (bytes "a") ≢ file_path (bytes "/data") (bytes "ab")
different e = cc

renamed : (rename net 3 1 (some (bytes "a")) 1 (some (bytes "ab")) file_sys).0 ≡ ok tt
unfolding rename move_on_server path_of put_file put_frames write_frames delete_file
    put_file_content_to_server ◌>>=◌
renamed =
    let N = wired-IsServed floppy reader in
    let (w, got, same) =
      fetched-stored floppy-IsDisk reader-IsWhole file_sys N (bytes "a") tt a_named (bytes "abcdef")
        (on_floppy (bytes "/data/a") file_sys.world.disk).1 there in
    let t : Sys net = record { fs = file_sys.fs; world = w } in
    let put = put_file_content_to_server net (bytes "ab") (bytes "abcdef") t in
    let deleted = delete_resource net (bytes "a") put.1 in
    let moved =
      move_file-done (bytes "a") (bytes "ab") (bytes "abcdef") file_sys t put.1 deleted.1 got
        (ap (λ o. (o, put.1)) (api-Does t N (bytes "ab") tt b_named (bytes "abcdef") 0).0.0)
        (ap (λ o. (o, deleted.1)) (api-Does put.1 N (bytes "a") tt a_named [] 0).1.0) in
    rw root_known (rw root_known (rw (path_known, no_directory, moved) refl))

rename-Moved_example :
    Moved floppy-IsDisk
      (bytes "/data/a")
      (bytes "/data/ab")
      (bytes "abcdef")
      file_sys.world.disk
      (rename net 3 1 (some (bytes "a")) 1 (some (bytes "ab")) file_sys).1.world.disk
rename-Moved_example =
    rename-Moved floppy-IsDisk reader-IsWhole floppy-IsRemoval file_sys
      (wired-IsServed floppy reader) 3 1 2 1 [] (bytes "a") [] (bytes "ab") (bytes "abcdef") tt tt
      a_named b_named root_known root_known path_known no_directory
      (on_floppy (bytes "/data/a") file_sys.world.disk).0
      (on_floppy (bytes "/data/ab") file_sys.world.disk).0
      (on_floppy (bytes "/data/a") file_sys.world.disk).1 there different renamed
