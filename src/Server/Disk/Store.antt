-- ===== src/Server/Disk/Store.antt =====
-- A disk as a store of contents at paths, as std::fs documents what each of its operations touches.
use rust_remote_fs.Prelude.{◌≡◌, true, none, Text}
use rust_remote_fs.Prelude.Paths.{Under, Disjoint}
use rust_remote_fs.Wire.{Bytes}
use rust_remote_fs.Server.Disk.{Disk, IsDisk}

-- Nothing has changed but at the path and below it, as clean paths tell. A directory that has no part in it is listed
-- as before.
pub record Changes {D : Disk} (L : IsDisk D) (p : Text) (d after : D.State) : Type 0 where
  pub contents : (q : Text) → L.Clean q → ¬ (Under p q) → L.content q after ≡ L.content q d
  pub settled : (q : Text) → L.Clean q → ¬ (Under p q) → L.Settled q d → L.Settled q after
  pub lists : (q : Text) → L.Clean q → Disjoint p q → D.read_dir q after ≡ D.read_dir q d

-- Whether it succeeds or not, an operation changes nothing elsewhere. A removal that succeeds leaves
-- no content at the path and below it.
pub record IsStore {D : Disk} (L : IsDisk D) : Type 0 where
  pub create-Changes : (p : Text) (d : D.State) → L.Clean p → Changes L p d (D.create p d).1
  pub write_all-Changes :
      (p : Text) (chunk : Bytes) (d : D.State) → L.Clean p → Changes L p d (D.write_all p chunk d).1
  pub create_dir_all-Changes :
      (p : Text) (d : D.State) → L.Clean p → Changes L p d (D.create_dir_all p d).1
  pub remove_file-Changes :
      (p : Text) (d : D.State) → L.Clean p → Changes L p d (D.remove_file p d).1
  pub remove_dir_all-Changes :
      (p : Text) (d : D.State) → L.Clean p → Changes L p d (D.remove_dir_all p d).1
  pub remove_file-gone :
      (p q : Text) (d : D.State)
      → (D.remove_file p d).0 ≡ true
      → Under p q
      → L.content q (D.remove_file p d).1 ≡ none
  pub remove_dir_all-gone :
      (p q : Text) (d : D.State)
      → (D.remove_dir_all p d).0 ≡ true
      → Under p q
      → L.content q (D.remove_dir_all p d).1 ≡ none
