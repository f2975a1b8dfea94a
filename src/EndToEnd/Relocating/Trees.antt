-- ===== src/EndToEnd/Relocating/Trees.antt =====
-- Trees of files and directories, and where they stand on the server's disk.
use rust_remote_fs.Prelude.{
  ℕ, zero, suc, ◌≡◌, ◌≢◌, ◌∙◌, ◌⊎◌, inl, inr, Bool, true, false, Option, some, List, [], ◌∷◌, Text,
}
use rust_remote_fs.Prelude.Paths.{joined, Simple}
use rust_remote_fs.Wire.{Bytes, RemoteEntry}
use rust_remote_fs.Server.Disk.{Disk, IsDisk}
use rust_remote_fs.Server.Handlers.{file_path, list_directory_contents}
use rust_remote_fs.Client.Delete.{is_directory}

mutual
  pub data Tree : Type 0 where
    file : Bytes → Tree
    directory : Branches → Tree

  pub data Branches : Type 0 where
    bare : Branches
    branch : Text → Tree → Branches → Branches

abbrev pub is_dir_tree : Tree → Bool
is_dir_tree (file bytes) = false
is_dir_tree (directory branches) = true

abbrev pub Fresh : Text → Branches → Type 0
Fresh name bare = Unit
Fresh name (branch other t branches) = (name ≢ other) × Fresh name branches

abbrev mutual
  -- Names have no slash, and differ in each directory.
  pub Proper : Tree → Type 0
  Proper (file bytes) = Unit
  Proper (directory branches) = ProperIn branches

  pub ProperIn : Branches → Type 0
  ProperIn bare = Unit
  ProperIn (branch name t branches) =
      Simple name × Fresh name branches × Proper t × ProperIn branches

abbrev mutual
  -- The directories of the tree are no deeper than this.
  pub Room : ℕ → Tree → Type 0
  Room depth (file bytes) = Unit
  Room zero (directory branches) = ⊥
  Room (suc depth) (directory branches) = RoomIn depth branches

  pub RoomIn : ℕ → Branches → Type 0
  RoomIn depth bare = Unit
  RoomIn depth (branch name t branches) = Room depth t × RoomIn depth branches

module _ (Plain : Text → Type 0) where
  abbrev mutual
    -- The tree's paths below this one go into URLs as they are.
    pub AllPlain : Tree → Text → Type 0
    AllPlain (file bytes) p = Plain p
    AllPlain (directory branches) p = Plain p × AllPlainIn branches p

    pub AllPlainIn : Branches → Text → Type 0
    AllPlainIn bare p = Unit
    AllPlainIn (branch name t branches) p = AllPlain t (joined p name) × AllPlainIn branches p

module _ {D : Disk} (L : IsDisk D) (data_dir : Text) where
  abbrev pub content : Text → D.State → Option Bytes
  content p d = L.content (file_path data_dir p) d

  abbrev mutual
    -- The server lists the tree at the path, and its files hold what the tree says, with no write
    -- under way.
    pub Stands : Tree → Text → D.State → Type 0
    Stands (file bytes) p d =
        L.Clean (file_path data_dir p)
        × L.Settled (file_path data_dir p) d
        × (content p d ≡ some bytes)
    Stands (directory branches) p d =
        L.Clean (file_path data_dir p)
        × (entries : List RemoteEntry) × (list_directory_contents D data_dir p d ≡ some entries)
        × StandsIn branches entries p d

    pub StandsIn : Branches → List RemoteEntry → Text → D.State → Type 0
    StandsIn bare [] p d = Unit
    StandsIn bare (entry ∷ entries) p d = ⊥
    StandsIn (branch name t branches) [] p d = ⊥
    StandsIn (branch name t branches) (entry ∷ entries) p d =
        (entry.name ≡ name)
        × (is_directory entry ≡ is_dir_tree t)
        × Stands t (joined p name) d
        × StandsIn branches entries p d

  abbrev mutual
    -- The tree's files are below the path, and their content has been taken for them.
    pub Arrived : Tree → Text → D.State → Type 0
    Arrived (file bytes) q d = L.Clean (file_path data_dir q) × (content q d ≡ some bytes)
    Arrived (directory branches) q d = ArrivedIn branches q d

    pub ArrivedIn : Branches → Text → D.State → Type 0
    ArrivedIn bare q d = Unit
    ArrivedIn (branch name t branches) q d = Arrived t (joined q name) d × ArrivedIn branches q d

  abbrev mutual
    -- Each of the tree's files is stored below the first path, or below the other one as soon as
    -- the writes there are done.
    pub Kept : Tree → Text → Text → D.State → Type 0
    Kept (file bytes) p q d =
        (L.stored (file_path data_dir p) d ≡ some bytes)
        ⊎ (L.Settled (file_path data_dir q) d → L.stored (file_path data_dir q) d ≡ some bytes)
    Kept (directory branches) p q d = KeptIn branches p q d

    pub KeptIn : Branches → Text → Text → D.State → Type 0
    KeptIn bare p q d = Unit
    KeptIn (branch name t branches) p q d =
        Kept t (joined p name) (joined q name) d × KeptIn branches p q d

  mutual
    pub Kept-Stands : (t : Tree) (p q : Text) (d : D.State) → Stands t p d → Kept t p q d
    Kept-Stands (file bytes) p q d (clean, settled, there) =
        inl (L.settled_lem (file_path data_dir p) d settled ∙ there)
    Kept-Stands (directory branches) p q d (clean, entries, listed, h) =
        KeptIn-StandsIn branches entries p q d h

    pub KeptIn-StandsIn :
        (branches : Branches) (entries : List RemoteEntry) (p q : Text) (d : D.State)
        → StandsIn branches entries p d
        → KeptIn branches p q d
    KeptIn-StandsIn bare entries p q d h = tt
    KeptIn-StandsIn (branch name t branches) [] p q d h = absurd h
    KeptIn-StandsIn (branch name t branches) (entry ∷ entries) p q d (same, kind, h, hs) = (
      Kept-Stands t (joined p name) (joined q name) d h,
      KeptIn-StandsIn branches entries p q d hs,
    )

  abbrev mutual
    -- The tree's files are stored below the path, each as soon as its writes are done.
    pub Delivered : Tree → Text → D.State → Type 0
    Delivered (file bytes) q d =
        L.Settled (file_path data_dir q) d → L.stored (file_path data_dir q) d ≡ some bytes
    Delivered (directory branches) q d = DeliveredIn branches q d

    pub DeliveredIn : Branches → Text → D.State → Type 0
    DeliveredIn bare q d = Unit
    DeliveredIn (branch name t branches) q d =
        Delivered t (joined q name) d × DeliveredIn branches q d

  mutual
    pub Delivered-Arrived : (t : Tree) (q : Text) (d : D.State) → Arrived t q d → Delivered t q d
    Delivered-Arrived (file bytes) q d (clean, taken) =
        λ settled. L.settled_lem (file_path data_dir q) d settled ∙ taken
    Delivered-Arrived (directory branches) q d h = DeliveredIn-ArrivedIn branches q d h

    pub DeliveredIn-ArrivedIn :
        (branches : Branches) (q : Text) (d : D.State)
        → ArrivedIn branches q d
        → DeliveredIn branches q d
    DeliveredIn-ArrivedIn bare q d h = tt
    DeliveredIn-ArrivedIn (branch name t branches) q d (h, hs) =
        (Delivered-Arrived t (joined q name) d h, DeliveredIn-ArrivedIn branches q d hs)

  mutual
    pub Kept-Arrived : (t : Tree) (p q : Text) (d : D.State) → Arrived t q d → Kept t p q d
    Kept-Arrived (file bytes) p q d h = inr (Delivered-Arrived (file bytes) q d h)
    Kept-Arrived (directory branches) p q d h = KeptIn-ArrivedIn branches p q d h

    pub KeptIn-ArrivedIn :
        (branches : Branches) (p q : Text) (d : D.State)
        → ArrivedIn branches q d
        → KeptIn branches p q d
    KeptIn-ArrivedIn bare p q d h = tt
    KeptIn-ArrivedIn (branch name t branches) p q d (h, hs) =
        (Kept-Arrived t (joined p name) (joined q name) d h, KeptIn-ArrivedIn branches p q d hs)
