-- ===== src/EndToEnd/Storing.antt =====
-- The `release` of client/src/fs/write.rs, with its PUT served by `put_file` of
-- server/src/handlers.rs.
use mathlib.Core.List.{Pairwise, Mem}
use rust_remote_fs.Prelude.{
  ℕ, ◌<◌, ◌≡◌, ◌≢◌, inl, inr, Option, none, some, List, [], Text, arith, nat_eq, false, ◌∙◌, ap,
}
use rust_remote_fs.HashMap
use rust_remote_fs.Wire.{Bytes, Method, Request, status_only, is_error_status}
use rust_remote_fs.Outcome.{ok, ◌>>=◌}
use rust_remote_fs.Client.Attr.{isize_mod}
use rust_remote_fs.Client.Platform.{Platform, IsHashOrder}
use rust_remote_fs.Client.State.{Sys, OpenWriteFile}
use rust_remote_fs.Client.Api.{
  request, files_url, get_file_content_from_server, put_file_content_to_server,
}
use rust_remote_fs.Client.Attr.{or_empty}
use rust_remote_fs.Client.Write.{release}
use rust_remote_fs.Client.Write.Merge.{Block, end_of}
use rust_remote_fs.Client.Write.Order.{merge, IsApart}
use rust_remote_fs.Client.Write.Release.{closed, finish, release_uploads}
use rust_remote_fs.Server.Disk.{Disk, IsDisk}
use rust_remote_fs.Server.Handlers.{ServerState, Frame, file_path, put_file}
use rust_remote_fs.Server.Handlers.PutFile.{body_bytes, put_file-content, put_file-status}

-- A PUT of this content, from this state of the client.
abbrev pub put_request : (P : Platform) → Sys P → Text → Bytes → Request
put_request P t path content =
    request Method.put (files_url t.fs.config.server_url path) none content t.fs.client_id

-- What `put_file` makes of it, when the body comes in these frames.
abbrev pub served :
    (P : Platform) (D : Disk)
    → Text
    → ℕ
    → List Frame
    → ServerState D
    → Sys P
    → Text
    → Bytes
    → ℕ × ServerState D
served P D data_dir now frames server t path content =
    put_file D data_dir path (put_request P t path content).headers now frames server

finish-ok :
    (P : Platform) (ino : ℕ) (t : Sys P) (f : OpenWriteFile) (content : Bytes) (status : ℕ)
    → (P.send (put_request P t f.path content) t.world).0 ≡ some (status_only status)
    → (finish P ino f content t).0 ≡ ok tt
    → is_error_status status ≡ false
unfolding put_file_content_to_server ◌>>=◌
finish-ok P ino t f content status delivered done = ground (arith, delivered, done)

module _ (P : Platform) (order : IsHashOrder P) (D : Disk) (L : IsDisk D) (data_dir : Text)
    (now ino fh : ℕ) (frames : List Frame) (server : ServerState D) (s t : Sys P)
    (f : OpenWriteFile) (old : Option Bytes) where
  -- A handle with written blocks that share no position and end below 2^63, under a network that
  -- answers the GET with content or an error status, and the PUT with what `put_file` answers for
  -- frames that carry the body, on a disk that takes what it reports to take: if `release` replies
  -- with success, and the writes that tokio has taken for the file are done without an error, the
  -- file on the server's disk is the merge of the blocks into the content.
  pub release-put_file :
      HashMap.get fh s.fs.open_files ≡ some f
      → f.buffer ≢ []
      → Pairwise IsApart f.buffer
      → ((b : Block) → Mem b f.buffer → end_of b < isize_mod)
      → get_file_content_from_server P f.path (closed P fh s) ≡ (ok old, t)
      → body_bytes frames ≡ merge f.buffer (or_empty old)
      → (P.send (put_request P t f.path (merge f.buffer (or_empty old))) t.world).0
        ≡ some (
            status_only
              (served P D data_dir now frames server t f.path (merge f.buffer (or_empty old))).0)
      → (release P ino fh s).0 ≡ ok tt
      → L.Settled
          (file_path data_dir f.path)
          (served P D data_dir now frames server t f.path (merge f.buffer (or_empty old))).1.disk
      → L.stored
          (file_path data_dir f.path)
          (served P D data_dir now frames server t f.path (merge f.buffer (or_empty old))).1.disk
        ≡ some (merge f.buffer (or_empty old))
  release-put_file is_open written apart fits fetched carried delivered done settled =
      let content = merge f.buffer (or_empty old) in
      let uploads = release_uploads P order ino fh s t f old is_open written apart fits fetched in
      let no_error =
        finish-ok P ino t f content (served P D data_dir now frames server t f.path content).0
          delivered (rw uploads at done) in
      let headers = (put_request P t f.path content).headers in
      elim (put_file-status D L data_dir f.path headers now frames server) [
        | inl accepted ↦
            L.settled_lem (file_path data_dir f.path)
              (served P D data_dir now frames server t f.path content).1.disk settled
            ∙ put_file-content D L data_dir f.path headers now frames server accepted
            ∙ ap some carried
        | inr error ↦ cc (no_error, error)
      ]
