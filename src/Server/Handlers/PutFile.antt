-- ===== src/Server/Handlers/PutFile.antt =====
-- What `put_file` of server/src/handlers.rs leaves on the disk.
use rust_remote_fs.Prelude.{
  ℕ, ◌≡◌, ◌≢◌, refl, Bool-cases, inl, inr, none, some, List, [], ◌∷◌, ◌++◌, Text, arith, true,
}
use mathlib.Core.Logic.{◌⊎◌}
use mathlib.Core.List.{append-nil, append_assoc}
use rust_remote_fs.Wire.{Bytes, Headers, is_error_status}
use rust_remote_fs.Server.Disk.{Disk, IsDisk}
use rust_remote_fs.Server.Handlers.{
  ServerState, Frame, file_path, write_frames, put_frames, put_file,
}

-- The bytes of a body, up to where its stream breaks.
unfoldable pub body_bytes : List Frame → Bytes
body_bytes [] = []
body_bytes (none ∷ frames) = []
body_bytes (some none ∷ frames) = body_bytes frames
body_bytes (some (some chunk) ∷ frames) = chunk ++ body_bytes frames

module _ (D : Disk) (L : IsDisk D) (file : Text) where
  write_frames-content :
      (frames : List Frame) (old : Bytes) (d : D.State)
      → L.content file d ≡ some old
      → (write_frames D file frames d).0 ≡ 200
      → L.content file (write_frames D file frames d).1 ≡ some (old ++ body_bytes frames)
  unfolding write_frames body_bytes
  write_frames-content [] old d h ok = rw append-nil h
  write_frames-content (none ∷ frames) old d h ok = ground arith
  write_frames-content (some none ∷ frames) old d h ok = write_frames-content frames old d h ok
  write_frames-content (some (some chunk) ∷ frames) old d h ok =
      elim (Bool-cases (D.write_all file chunk d).0) [
        | inl written ↦
            let stored = L.write_all-content file chunk old d written h in
            rw (written, ← append_assoc old chunk (body_bytes frames))
              (write_frames-content frames (old ++ chunk) (D.write_all file chunk d).1 stored
                (rw written at ok))
        | inr failed ↦ ground arith
      ]

  write_frames-status :
      (frames : List Frame) (d : D.State)
      → ((write_frames D file frames d).0 ≡ 200)
        ⊎ (is_error_status (write_frames D file frames d).0 ≡ true)
  unfolding write_frames
  write_frames-status [] d = inl refl
  write_frames-status (none ∷ frames) d = inr refl
  write_frames-status (some none ∷ frames) d = write_frames-status frames d
  write_frames-status (some (some chunk) ∷ frames) d =
      elim (Bool-cases (D.write_all file chunk d).0) [
        | inl written ↦ rw written (write_frames-status frames (D.write_all file chunk d).1)
        | inr failed ↦ rw failed (inr refl)
      ]

  write_frames-other :
      (frames : List Frame) (other : Text) (d : D.State)
      → L.Clean file
      → L.Clean other
      → file ≢ other
      → L.content other (write_frames D file frames d).1 ≡ L.content other d
  unfolding write_frames
  write_frames-other [] other d cf co ne = refl
  write_frames-other (none ∷ frames) other d cf co ne = refl
  write_frames-other (some none ∷ frames) other d cf co ne =
      write_frames-other frames other d cf co ne
  write_frames-other (some (some chunk) ∷ frames) other d cf co ne = ground (
    arith,
    L.write_all-other file other chunk d cf co ne,
    write_frames-other frames other (D.write_all file chunk d).1 cf co ne,
  )

module _ (D : Disk) (L : IsDisk D) (data_dir path : Text) (headers : Headers) (now : ℕ)
    (frames : List Frame) (s : ServerState D) where
  -- After `put_file` has answered 200, what has been taken for the file are the bytes of the body,
  -- in whatever frames they came.
  pub put_file-content :
      (put_file D data_dir path headers now frames s).0 ≡ 200
      → L.content (file_path data_dir path) (put_file D data_dir path headers now frames s).1.disk
        ≡ some (body_bytes frames)
  unfolding put_file put_frames
  put_file-content ok = elim (Bool-cases (D.create (file_path data_dir path) s.disk).0) [
    | inl opened ↦ rw opened (
        write_frames-content D L (file_path data_dir path) frames []
          (D.create (file_path data_dir path) s.disk).1
          (L.create-content (file_path data_dir path) s.disk opened) (rw opened at ok))
    | inr failed ↦ ground arith
  ]

  -- Every other status than 200 is an error.
  pub put_file-status :
      ((put_file D data_dir path headers now frames s).0 ≡ 200)
      ⊎ (is_error_status (put_file D data_dir path headers now frames s).0 ≡ true)
  unfolding put_file put_frames
  put_file-status = elim (Bool-cases (D.create (file_path data_dir path) s.disk).0) [
    | inl opened ↦ rw opened (
        write_frames-status D L (file_path data_dir path) frames
          (D.create (file_path data_dir path) s.disk).1)
    | inr failed ↦ rw failed (inr refl)
  ]

  -- Whatever `put_file` answers, what has been taken for the file of another clean path is as before.
  pub put_file-other :
      (other : Text)
      → L.Clean (file_path data_dir path)
      → L.Clean other
      → file_path data_dir path ≢ other
      → L.content other (put_file D data_dir path headers now frames s).1.disk
        ≡ L.content other s.disk
  unfolding put_file put_frames
  put_file-other other cf co ne = ground (
    arith,
    L.create-other (file_path data_dir path) other s.disk cf co ne,
    write_frames-other D L (file_path data_dir path) frames other
        (D.create (file_path data_dir path) s.disk).1 cf co ne,
  )
