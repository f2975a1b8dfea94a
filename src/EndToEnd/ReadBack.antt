-- ===== src/EndToEnd/ReadBack.antt =====
-- The `release` of client/src/fs/write.rs and a `read` of client/src/fs/read.rs after it, both
-- through the routes of the server.
use mathlib.Core.List.{Pairwise, Mem}
use rust_remote_fs.Prelude.{
  ℕ, ◌+◌, ◌<◌, ◌≡◌, refl, ◌≢◌, ap, sym, ◌∙◌, subst, inl, inr, true, Option, none, some, [], Text,
  length, nat_eq,
}
use rust_remote_fs.HashMap
use rust_remote_fs.Radix.{u64_mod}
use rust_remote_fs.Wire.{Bytes}
use rust_remote_fs.Outcome.{Outcome, ok, ◌>>=◌}
use rust_remote_fs.Client.Attr.{isize_mod}
use rust_remote_fs.Client.Platform.{Platform, IsHashOrder}
use rust_remote_fs.Client.State.{Sys, OpenWriteFile, cache_remove}
use rust_remote_fs.Client.Api.{
  get_file_content_from_server, put_file_content_to_server, body_of, error_for_status,
}
use rust_remote_fs.Client.Cache
use rust_remote_fs.Client.Read.{read}
use rust_remote_fs.Client.Write.{release}
use rust_remote_fs.Client.Write.Merge.{Block, end_of}
use rust_remote_fs.Client.Write.Order.{merge, IsApart}
use rust_remote_fs.Client.Write.Release.{closed, finish, release_uploads}
use rust_remote_fs.Server.Disk.{Disk, IsDisk}
use rust_remote_fs.Server.GetFile.{OpenFile, get_file}
use rust_remote_fs.Server.Handlers.{file_path, put_file}
use rust_remote_fs.Server.Handlers.PutFile.{body_bytes, put_file-content, put_file-status}
use rust_remote_fs.Server.Routes.{Web, handle}
use rust_remote_fs.Server.Routes.Calls.{serve-files}
use rust_remote_fs.EndToEnd.Reading.{slice, read_request, read-get_file}
use rust_remote_fs.EndToEnd.Network.{IsServed, headers, succeeded, api-Does}

-- A file that no write is under way for opens with its content, and a body's frames carry the body.
pub record IsWhole {D : Disk} (L : IsDisk D) (web : Web D) : Type 0 where
  pub open_file_lem :
      (p : Text) (d : D.State) (content : Bytes)
      → L.Settled p d
      → L.content p d ≡ some content
      → (file : OpenFile) × (web.open_file p d ≡ some file)
        × (file.metadata_len ≡ some (length file.content))
        × ((n : ℕ) → file.seek n ≡ true)
        × (file.content ≡ content)
  pub frames_of_lem : (content : Bytes) → body_bytes (web.frames_of content) ≡ content

-- Without a range the whole file comes.
get_file_all :
    (file : OpenFile) (client_id : Option Text)
    → file.metadata_len ≡ some (length file.content)
    → body_of (
        error_for_status
          (some (get_file (some file) (record { range = none; client_id = client_id }))))
      ≡ some file.content
unfolding get_file
get_file_all file client_id known = rw known refl

module _ {P : Platform} {D : Disk} {web : Web D} {data_dir : Text} (L : IsDisk D)
    (whole : IsWhole L web) (s : Sys P) (N : IsServed P D web data_dir s.fs.config.server_url)
    (path : Text) (plain : N.urls.Plain path) (ne : path ≢ []) where
  abbrev pub taken : P.World → Option Bytes
  taken w = L.content (file_path data_dir path) (N.state w).disk

  -- No write is under way for the file.
  abbrev pub Quiet : P.World → Type 0
  Quiet w = L.Settled (file_path data_dir path) (N.state w).disk

  -- What a client gets of a file that is there and has no write under way.
  pub fetched-stored :
      (old : Bytes)
      → Quiet s.world
      → taken s.world ≡ some old
      → (w : P.World) × (get_file_content_from_server P path s
          ≡ (ok (some old), record s { world = w }))
        × (N.state w ≡ N.state s.world)
  unfolding get_file_content_from_server ◌>>=◌
  fetched-stored old quiet there =
      let (file, opened, known, seeks, same) =
        whole.open_file_lem (file_path data_dir path) (N.state s.world).disk old quiet there in
      let call = (api-Does s N path plain ne [] 0).4 in
      let got = get_file_content_from_server P path s in
      let found : body_of (
            error_for_status (
              some (
                get_file (web.open_file (file_path data_dir path) (N.state s.world).disk)
                  (headers s N))))
          ≡ some old =
        rw opened (get_file_all file (some s.fs.client_id) known ∙ ap some same) in
      (got.1.world, ap (λ o. (o, got.1)) (call.0 ∙ ap (λ o. ok o) found), call.1)

  -- What has been taken for the file after a PUT that succeeds.
  pub put-stored :
      (content : Bytes)
      → (put_file_content_to_server P path content s).0 ≡ ok (some tt)
      → taken (put_file_content_to_server P path content s).1.world ≡ some content
  put-stored content done =
      let call = (api-Does s N path plain ne content 0).0 in
      let now = N.clock s.world in
      let frames = web.frames_of content in
      let stays =
        subst (λ z. L.content (file_path data_dir path) z.disk ≡ some content) (sym call.1) in
      elim (put_file-status D L data_dir path (headers s N) now frames (N.state s.world)) [
        | inl accepted ↦ stays (
            put_file-content D L data_dir path (headers s N) now frames (N.state s.world) accepted
            ∙ ap some (whole.frames_of_lem content))
        | inr error ↦
            let failed : ok (
                  succeeded s N
                    (put_file D data_dir path (headers s N) now frames (N.state s.world)).0)
                ≡ ok none =
              rw error refl in
            let impossible = sym done ∙ call.0 ∙ failed in cc
      ]

  read-stored :
      (ino offset size : ℕ) (content : Bytes)
      → Quiet s.world
      → taken s.world ≡ some content
      → HashMap.get ino s.fs.inode_to_path ≡ some path
      → 0 < size
      → offset + size < u64_mod
      → (read P ino offset size s).0 ≡ ok (slice offset size content)
  unfolding handle
  read-stored ino offset size content quiet there mapped pos fits =
      let (file, opened, known, seeks, same) =
        whole.open_file_lem (file_path data_dir path) (N.state s.world).disk content quiet there in
      let req = read_request P s ino offset size path file in
      let reached =
        serve-files N.urls data_dir (N.clock s.world) (N.state s.world) req path ne
          (N.urls.path_of_files path plain) in
      let delivered : (P.send req s.world).0 ≡ some (get_file (some file) req.headers) =
        N.send_answer req s.world ∙ ap (λ r. some r.0) reached ∙ rw opened refl in
      ap (λ r. r.0)
        (read-get_file P s ino offset size path file mapped delivered known seeks pos fits)
      ∙ ap (λ c. ok (slice offset size c)) same

module _ {P : Platform} (ino : ℕ) (f : OpenWriteFile) (content : Bytes) (t : Sys P) where
  abbrev put : Outcome (Option Unit) × Sys P
  put = put_file_content_to_server P f.path content t

  abbrev uncached : Sys P → Sys P
  uncached u = record u {
    fs = record u.fs { attribute_cache = Cache.remove P ino u.fs.attribute_cache };
  }

  -- A `release` that succeeds has had its PUT accepted.
  finish-put :
      (o : Option Unit)
      → put.0 ≡ ok o
      → (finish P ino f content t).0 ≡ ok tt
      → (put.0 ≡ ok (some tt)) × ((finish P ino f content t).1 ≡ uncached put.1)
  unfolding ◌>>=◌ cache_remove
  finish-put none e done = let impossible = rw e at done in cc
  finish-put (some tt) e done = (e, rw e refl)

module _ {P : Platform} {D : Disk} {web : Web D} {data_dir : Text} (L : IsDisk D)
    (whole : IsWhole L web) (t : Sys P) (N : IsServed P D web data_dir t.fs.config.server_url)
    (f : OpenWriteFile) (plain : N.urls.Plain f.path) (ne : f.path ≢ []) where
  read-finish :
      (ino offset size : ℕ) (content : Bytes)
      → (finish P ino f content t).0 ≡ ok tt
      → L.Settled (file_path data_dir f.path) (N.state (finish P ino f content t).1.world).disk
      → HashMap.get ino t.fs.inode_to_path ≡ some f.path
      → 0 < size
      → offset + size < u64_mod
      → (read P ino offset size (finish P ino f content t).1).0 ≡ ok (slice offset size content)
  unfolding ◌>>=◌ put_file_content_to_server
  read-finish ino offset size content done settled mapped pos fits =
      let call = (api-Does t N f.path plain ne content 0).0 in
      let (accepted, same) = finish-put ino f content t _ call.0 done in
      rw same (
        read-stored L whole (uncached ino f content t (put ino f content t).1) N f.path plain ne ino
          offset size content (rw same at settled)
          (put-stored L whole t N f.path plain ne content accepted) mapped pos fits)

module _ {P : Platform} {D : Disk} {web : Web D} {data_dir : Text} (L : IsDisk D)
    (whole : IsWhole L web) (order : IsHashOrder P) (s : Sys P)
    (N : IsServed P D web data_dir s.fs.config.server_url) (f : OpenWriteFile)
    (plain : N.urls.Plain f.path) (ne : f.path ≢ []) where
  -- A handle with written blocks that share no position and end below 2^63, on a path that is not
  -- empty and that a URL carries as it is, of a file on the server's disk for which no write is
  -- under way, when the network brings each request to the server's routes and the answer back, the
  -- routes match as axum documents, JSON is read as it was written, such files open with their
  -- content, bodies come whole, the disk takes what it reports to take and a `HashMap` is iterated
  -- in some order of its entries: if `release` replies with success, and the writes that its PUT
  -- has given to tokio are done without an error, a `read` after it at the released inode, if that
  -- leads to the path, of at least one byte and with an end below 2^64, replies with the bytes from
  -- the offset, at most `size` of them, of the old content with the blocks merged into it.
  pub read-release :
      (ino fh : ℕ) (old : Bytes) (offset size : ℕ)
      → HashMap.get fh s.fs.open_files ≡ some f
      → f.buffer ≢ []
      → Pairwise IsApart f.buffer
      → ((b : Block) → Mem b f.buffer → end_of b < isize_mod)
      → L.Settled (file_path data_dir f.path) (N.state s.world).disk
      → L.content (file_path data_dir f.path) (N.state s.world).disk ≡ some old
      → (release P ino fh s).0 ≡ ok tt
      → L.Settled (file_path data_dir f.path) (N.state (release P ino fh s).1.world).disk
      → HashMap.get ino s.fs.inode_to_path ≡ some f.path
      → 0 < size
      → offset + size < u64_mod
      → (read P ino offset size (release P ino fh s).1).0
        ≡ ok (slice offset size (merge f.buffer old))
  read-release ino fh old offset size is_open written apart fits quiet there done settled mapped pos
        fits_u64 =
      let (w, fetched, unchanged) =
        fetched-stored L whole (closed P fh s) N f.path plain ne old quiet there in
      let t : Sys P = record (closed P fh s) { world = w } in
      let content = merge f.buffer old in
      let uploads =
        release_uploads P order ino fh s t f (some old) is_open written apart fits fetched in
      rw uploads (
        read-finish L whole t N f plain ne ino offset size content (rw uploads at done)
          (rw uploads at settled) mapped pos fits_u64)
