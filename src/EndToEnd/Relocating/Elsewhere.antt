-- ===== src/EndToEnd/Relocating/Elsewhere.antt =====
-- What a change elsewhere on the server's disk leaves of a tree.
use rust_remote_fs.Prelude.{◌≡◌, refl, ◌∙◌, ◌≢◌, List, [], ◌∷◌, Text}
use rust_remote_fs.Prelude.Paths.{
  joined, joined_assoc, Under, Disjoint, Simple, Disjoint-child, Disjoint-comm, Disjoint-siblings,
  Under-parent,
}
use rust_remote_fs.Wire.{RemoteEntry}
use rust_remote_fs.Server.Disk.{Disk, IsDisk}
use rust_remote_fs.Server.Disk.Store.{Changes}
use rust_remote_fs.Server.Handlers.{file_path, list_directory_contents}
use rust_remote_fs.EndToEnd.Relocating.Trees.{
  Tree, file, directory, Branches, bare, branch, Proper, ProperIn, Stands, StandsIn, Arrived,
  ArrivedIn,
}

module _ {D : Disk} (L : IsDisk D) (data_dir : Text) where
  -- Nothing has changed but at two paths and below them.
  pub record Only (p q : Text) (d after : D.State) : Type 0 where
    pub contents :
        (r : Text)
        → L.Clean r
        → ¬ (Under (file_path data_dir p) r)
        → ¬ (Under (file_path data_dir q) r)
        → L.content r after ≡ L.content r d
    pub settled :
        (r : Text)
        → L.Clean r
        → ¬ (Under (file_path data_dir p) r)
        → ¬ (Under (file_path data_dir q) r)
        → L.Settled r d
        → L.Settled r after
    pub lists :
        (r : Text)
        → L.Clean r
        → Disjoint (file_path data_dir p) r
        → Disjoint (file_path data_dir q) r
        → D.read_dir r after ≡ D.read_dir r d

  abbrev pub Apart : Text → Text → Type 0
  Apart p q = Disjoint (file_path data_dir p) (file_path data_dir q)

  pub Apart-comm : (p q : Text) → Apart p q → Apart q p
  Apart-comm p q apart = Disjoint-comm (file_path data_dir p) (file_path data_dir q) apart

  pub Apart-below : (p q name : Text) → Simple name → Apart p q → Apart p (joined q name)
  Apart-below p q name simple apart =
      rw joined_assoc at
        (Disjoint-child (file_path data_dir p) (file_path data_dir q) name simple apart)

  pub Apart-siblings :
      (p name other : Text)
      → Simple name
      → Simple other
      → name ≢ other
      → Apart (joined p name) (joined p other)
  Apart-siblings p name other simple_name simple_other ne =
      rw (joined_assoc data_dir p name, joined_assoc data_dir p other) at
        (Disjoint-siblings (file_path data_dir p) name other simple_name simple_other ne)

  pub Only-left :
      (p q : Text) (d after : D.State) → Changes L (file_path data_dir p) d after → Only p q d after
  Only-left p q d after c = record {
    contents = λ r x h k. c.contents r x h;
    settled = λ r x h k. c.settled r x h;
    lists = λ r x h k. c.lists r x h;
  }

  pub Only-right :
      (p q : Text) (d after : D.State) → Changes L (file_path data_dir q) d after → Only p q d after
  Only-right p q d after c = record {
    contents = λ r x h k. c.contents r x k;
    settled = λ r x h k. c.settled r x k;
    lists = λ r x h k. c.lists r x k;
  }

  pub Only-refl : (p q : Text) (d : D.State) → Only p q d d
  Only-refl p q d = record {
    contents = λ r x h k. refl;
    settled = λ r x h k y. y;
    lists = λ r x h k. refl;
  }

  pub Only-trans : (p q : Text) (d e f : D.State) → Only p q d e → Only p q e f → Only p q d f
  Only-trans p q d e f a b = record {
    contents = λ r x h k. b.contents r x h k ∙ a.contents r x h k;
    settled = λ r x h k y. b.settled r x h k (a.settled r x h k y);
    lists = λ r x h k. b.lists r x h k ∙ a.lists r x h k;
  }

  not-Under-entry :
      (p name r : Text)
      → ¬ (Under (file_path data_dir p) r)
      → ¬ (Under (file_path data_dir (joined p name)) r)
  not-Under-entry p name r h =
      rw joined_assoc at (λ (u : Under (joined (file_path data_dir p) name) r).
        h (Under-parent (file_path data_dir p) r name u))

  Disjoint-entry :
      (p name r : Text)
      → Simple name
      → Disjoint (file_path data_dir p) r
      → Disjoint (file_path data_dir (joined p name)) r
  Disjoint-entry p name r simple h = rw joined_assoc at (
      Disjoint-comm r (joined (file_path data_dir p) name) (
        Disjoint-child r (file_path data_dir p) name simple
          (Disjoint-comm (file_path data_dir p) r h)))

  -- A change at two entries of the same name is one at their directories.
  pub Only-parents :
      (p q name : Text) (d after : D.State)
      → Simple name
      → Only (joined p name) (joined q name) d after
      → Only p q d after
  Only-parents p q name d after simple o = record {
    contents = λ r x h k. o.contents r x (not-Under-entry p name r h) (not-Under-entry q name r k);
    settled = λ r x h k. o.settled r x (not-Under-entry p name r h) (not-Under-entry q name r k);
    lists = λ r x h k.
        o.lists r x (Disjoint-entry p name r simple h) (Disjoint-entry q name r simple k);
  }

  module _ (p q : Text) (d after : D.State) (o : Only p q d after) where
    mutual
      unfolding list_directory_contents

      pub Stands-other :
          (t : Tree) (r : Text)
          → Proper t
          → Apart p r
          → Apart q r
          → Stands L data_dir t r d
          → Stands L data_dir t r after
      Stands-other (file bytes) r proper h k (clean, settled, there) = (
        clean,
        o.settled (file_path data_dir r) clean h.0 k.0 settled,
        o.contents (file_path data_dir r) clean h.0 k.0 ∙ there,
      )
      Stands-other (directory branches) r proper h k (clean, entries, listed, there) = (
        clean,
        entries,
        rw (o.lists (file_path data_dir r) clean h k) listed,
        StandsIn-other branches entries r proper h k there,
      )

      pub StandsIn-other :
          (branches : Branches) (entries : List RemoteEntry) (r : Text)
          → ProperIn branches
          → Apart p r
          → Apart q r
          → StandsIn L data_dir branches entries r d
          → StandsIn L data_dir branches entries r after
      StandsIn-other bare [] r proper h k there = tt
      StandsIn-other bare (entry ∷ entries) r proper h k there = absurd there
      StandsIn-other (branch name t branches) [] r proper h k there = absurd there
      StandsIn-other (branch name t branches) (entry ∷ entries) r (simple, fresh, proper, more) h k
            (same, kind, there, rest) =
          (
            same,
            kind,
            Stands-other t (joined r name) proper (Apart-below p r name simple h)
                (Apart-below q r name simple k) there,
            StandsIn-other branches entries r more h k rest,
          )

    mutual
      pub Arrived-other :
          (t : Tree) (r : Text)
          → Proper t
          → Apart p r
          → Apart q r
          → Arrived L data_dir t r d
          → Arrived L data_dir t r after
      Arrived-other (file bytes) r proper h k (clean, there) =
          (clean, o.contents (file_path data_dir r) clean h.0 k.0 ∙ there)
      Arrived-other (directory branches) r proper h k there =
          ArrivedIn-other branches r proper h k there

      pub ArrivedIn-other :
          (branches : Branches) (r : Text)
          → ProperIn branches
          → Apart p r
          → Apart q r
          → ArrivedIn L data_dir branches r d
          → ArrivedIn L data_dir branches r after
      ArrivedIn-other bare r proper h k there = tt
      ArrivedIn-other (branch name t branches) r (simple, fresh, proper, more) h k (there, rest) = (
        Arrived-other t (joined r name) proper (Apart-below p r name simple h)
            (Apart-below q r name simple k) there,
        ArrivedIn-other branches r more h k rest,
      )
