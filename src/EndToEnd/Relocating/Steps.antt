-- ===== src/EndToEnd/Relocating/Steps.antt =====
-- What the handlers that a move calls may change on the server's disk.
use rust_remote_fs.Prelude.{
  ℕ, ◌≡◌, refl, ◌∙◌, Bool-cases, Option-cases, inl, inr, false, none, some, List, [], ◌∷◌, Text,
}
use rust_remote_fs.Prelude.Paths.{Under}
use rust_remote_fs.Wire.{Headers, is_error_status}
use rust_remote_fs.Server.Disk.{Disk, IsDisk}
use rust_remote_fs.Server.Disk.Store.{Changes, IsStore}
use rust_remote_fs.Server.Handlers.{
  ServerState, Frame, file_path, write_frames, put_frames, put_file, delete_file, mkdir,
}

module _ {D : Disk} {L : IsDisk D} where
  pub Changes-refl : (p : Text) (d : D.State) → Changes L p d d
  Changes-refl p d = record {
    contents = λ q c h. refl;
    settled = λ q c h k. k;
    lists = λ q c h. refl;
  }

  pub Changes-trans :
      {p : Text} {d e f : D.State} → Changes L p d e → Changes L p e f → Changes L p d f
  Changes-trans a b = record {
    contents = λ q c h. b.contents q c h ∙ a.contents q c h;
    settled = λ q c h k. b.settled q c h (a.settled q c h k);
    lists = λ q c h. b.lists q c h ∙ a.lists q c h;
  }

module _ {D : Disk} {L : IsDisk D} (S : IsStore L) where
  write_frames-Changes :
      (p : Text) (frames : List Frame) (d : D.State)
      → L.Clean p
      → Changes L p d (write_frames D p frames d).1
  unfolding write_frames
  write_frames-Changes p [] d clean = Changes-refl p d
  write_frames-Changes p (none ∷ frames) d clean = Changes-refl p d
  write_frames-Changes p (some none ∷ frames) d clean = write_frames-Changes p frames d clean
  write_frames-Changes p (some (some chunk) ∷ frames) d clean =
      let first = S.write_all-Changes p chunk d clean in
      elim (Bool-cases (D.write_all p chunk d).0) [
        | inl written ↦
            rw written
              (Changes-trans first (write_frames-Changes p frames (D.write_all p chunk d).1 clean))
        | inr failed ↦ rw failed first
      ]

  module _ (data_dir path : Text) (clean : L.Clean (file_path data_dir path)) (h : Headers)
      (now : ℕ) (s : ServerState D) where
    pub put_file-Changes :
        (frames : List Frame)
        → Changes L
            (file_path data_dir path)
            s.disk
            (put_file D data_dir path h now frames s).1.disk
    unfolding put_file put_frames
    put_file-Changes frames =
        let p = file_path data_dir path in
        let first = S.create-Changes p s.disk clean in
        elim (Bool-cases (D.create p s.disk).0) [
          | inl opened ↦
              rw opened
                (Changes-trans first (write_frames-Changes p frames (D.create p s.disk).1 clean))
          | inr failed ↦ rw failed first
        ]

    pub mkdir-Changes :
        Changes L (file_path data_dir path) s.disk (mkdir D data_dir path h now s).1.disk
    unfolding mkdir
    mkdir-Changes = S.create_dir_all-Changes (file_path data_dir path) s.disk clean

    pub delete_file-Changes :
        Changes L (file_path data_dir path) s.disk (delete_file D data_dir path h now s).1.disk
    unfolding delete_file
    delete_file-Changes =
        let p = file_path data_dir path in
        elim (Option-cases (D.metadata p s.disk)) [
          | inl missing ↦ rw missing (Changes-refl p s.disk)
          | inr ((metadata, found)) ↦ elim (Bool-cases metadata.is_dir) [
            | inl dir ↦ rw (found, dir) (S.remove_dir_all-Changes p s.disk clean)
            | inr file ↦ rw (found, file) (S.remove_file-Changes p s.disk clean)
          ]
        ]

    -- What a deletion that succeeds leaves.
    pub delete_file-gone :
        is_error_status (delete_file D data_dir path h now s).0 ≡ false
        → (q : Text) → Under (file_path data_dir path) q
        → L.content q (delete_file D data_dir path h now s).1.disk ≡ none
    unfolding delete_file
    delete_file-gone fine q under =
        let p = file_path data_dir path in
        elim (Option-cases (D.metadata p s.disk)) [
          | inl missing ↦ cc (missing, fine)
          | inr ((metadata, found)) ↦ elim (Bool-cases metadata.is_dir) [
            | inl dir ↦ elim (Bool-cases (D.remove_dir_all p s.disk).0) [
              | inl removed ↦ rw (found, dir) (S.remove_dir_all-gone p q s.disk removed under)
              | inr kept ↦ cc (found, dir, kept, fine)
            ]
            | inr file ↦ elim (Bool-cases (D.remove_file p s.disk).0) [
              | inl removed ↦ rw (found, file) (S.remove_file-gone p q s.disk removed under)
              | inr kept ↦ cc (found, file, kept, fine)
            ]
          ]
        ]
