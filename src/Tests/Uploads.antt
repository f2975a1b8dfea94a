-- ===== src/Tests/Uploads.antt =====
-- Two uploads at a time, to a disk that takes everything.
use rust_remote_fs.Prelude.{ℕ, ◌≡◌, refl, none, some, List, [], ◌∷◌, bytes, get_elem?, text_eq}
use rust_remote_fs.HashMap
use rust_remote_fs.Server.Handlers.{file_path}
use rust_remote_fs.Server.Handlers.PutFile.{body_bytes}
use rust_remote_fs.Server.Uploads.{PutRequest, answered, start, advance, advance_at, interleave}
use rust_remote_fs.Server.Uploads.Interleaving.{interleave-content, DistinctFiles}
use rust_remote_fs.Tests.Storing.{on_floppy, floppy, floppy-IsDisk, server}

abbrev first_put : PutRequest
first_put = record {
  path = bytes "x";
  headers = record { range = none; client_id = none };
  now = 5;
  frames = some (some (bytes "ab")) ∷ some none ∷ some (some (bytes "c")) ∷ [];
}

abbrev second_put : PutRequest
second_put = record first_put { path = bytes "dir"; frames = some (some (bytes "d")) ∷ [] }

abbrev puts : List PutRequest
puts = first_put ∷ second_put ∷ []

abbrev turns : List ℕ
turns = 0 ∷ 1 ∷ 0 ∷ 1 ∷ 0 ∷ 0 ∷ 1 ∷ 0 ∷ 0 ∷ 0 ∷ []

distinct : DistinctFiles (λ path. floppy-IsDisk.Clean (file_path (bytes "/data") path)) puts
distinct = (
  (((on_floppy (bytes "/data/x") []).0, (on_floppy (bytes "/data/dir") []).0, λ e. cc), tt),
  (tt, tt),
)

first_done :
    get_elem? (interleave floppy (bytes "/data") turns (start puts) server).0 0
    ≡ some (first_put, answered 200)
unfolding interleave advance_at advance HashMap.insert HashMap.get
first_done = refl

interleave-content_example :
    floppy-IsDisk.stored
      (bytes "/data/x")
      (interleave floppy (bytes "/data") turns (start puts) server).1.disk
    ≡ some (body_bytes first_put.frames)
interleave-content_example =
    interleave-content floppy floppy-IsDisk (bytes "/data") puts turns server distinct 0 first_put
      first_done
      (on_floppy (bytes "/data/x")
        (interleave floppy (bytes "/data") turns (start puts) server).1.disk).1
