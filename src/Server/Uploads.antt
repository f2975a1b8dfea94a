-- ===== src/Server/Uploads.antt =====
-- Uploads that the server of server/src/main.rs answers at the same time: `put_file` of
-- server/src/handlers.rs, cut at its `await`s, where another request may go on.
pub mod Interleaving
use rust_remote_fs.Prelude.{ℕ, zero, suc, none, some, List, [], ◌∷◌, Text, if◌then◌else◌, map}
use rust_remote_fs.Wire.{Bytes, Headers}
use rust_remote_fs.Server.Disk.{Disk}
use rust_remote_fs.Server.Handlers.{ServerState, Frame, file_path, recorded}

-- What `put_file` is given, and when it looks at the clock.
pub record PutRequest : Type 0 where
  pub path : Text
  pub headers : Headers
  pub now : ℕ
  pub frames : List Frame

-- Where one call of `put_file` stands: before `File::create`, before `body.frame()` with the frames
-- that are left, before `write_all` with the data of a frame, or behind its `return`.
pub data Stage : Type 0 where
  arrived : Stage
  reading : List Frame → Stage
  writing : (chunk : Bytes) → List Frame → Stage
  answered : (status : ℕ) → Stage

abbrev pub Upload : Type 0
Upload = PutRequest × Stage

abbrev pub start : List PutRequest → List Upload
start requests = map (λ r. (r, arrived)) requests

module _ (D : Disk) (data_dir : Text) where
  -- What one call does until it waits again.
  unfoldable pub advance : PutRequest → Stage → ServerState D → Stage × ServerState D
  advance r arrived s =
      let opened = D.create (file_path data_dir r.path) s.disk in
      let next = record (recorded D data_dir r.path r.headers r.now s) { disk = opened.1 } in
      if opened.0 then (reading r.frames, next) else (answered 500, next)
  advance r (reading []) s = (answered 200, s)
  advance r (reading (none ∷ frames)) s = (answered 400, s)
  advance r (reading (some none ∷ frames)) s = (reading frames, s)
  advance r (reading (some (some chunk) ∷ frames)) s = (writing chunk frames, s)
  advance r (writing chunk frames) s =
      let written = D.write_all (file_path data_dir r.path) chunk s.disk in
      let next = record s { disk = written.1 } in
      if written.0 then (reading frames, next) else (answered 500, next)
  advance r (answered status) s = (answered status, s)

  -- The scheduler picks a call by its place.
  unfoldable pub advance_at : ℕ → List Upload → ServerState D → List Upload × ServerState D
  unfolding advance
  advance_at i [] s = ([], s)
  advance_at zero ((r, stage) ∷ uploads) s =
      let moved = advance r stage s in ((r, moved.0) ∷ uploads, moved.1)
  advance_at (suc i) (upload ∷ uploads) s =
      let moved = advance_at i uploads s in (upload ∷ moved.0, moved.1)

  -- Any order in which a scheduler may let them go on.
  unfoldable pub interleave : List ℕ → List Upload → ServerState D → List Upload × ServerState D
  unfolding advance_at
  interleave [] uploads s = (uploads, s)
  interleave (i ∷ turns) uploads s =
      let moved = advance_at i uploads s in interleave turns moved.0 moved.1
