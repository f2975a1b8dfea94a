-- ===== src/EndToEnd/Relocating/Directories.antt =====
-- The loop of `recursive_move_client_side` of client/src/fs/rename.rs over a directory's entries.
use rust_remote_fs.Prelude.{
  ℕ, ◌≡◌, refl, ◌≢◌, sym, ◌∙◌, inl, inr, Bool, true, false, List, [], ◌∷◌, Text, if◌then◌else◌,
}
use rust_remote_fs.Prelude.Paths.{joined, Simple}
use rust_remote_fs.Wire.{RemoteEntry}
use rust_remote_fs.Outcome.{Errno, Outcome, ok, err, ◌>>=◌}
use rust_remote_fs.Server.Disk.{Disk, IsDisk}
use rust_remote_fs.Server.Disk.Store.{IsStore}
use rust_remote_fs.Server.Routes.{Web}
use rust_remote_fs.Client.Platform.{Platform}
use rust_remote_fs.Client.State.{RemoteFs, Sys}
use rust_remote_fs.Client.Delete.{is_directory}
use rust_remote_fs.Client.Rename.{
  move_file, move_entries, recursive_move_client_side, move_on_server,
}
use rust_remote_fs.EndToEnd.Network.{IsServed}
use rust_remote_fs.EndToEnd.ReadBack.{IsWhole}
use rust_remote_fs.EndToEnd.Relocating.Trees.{
  Tree, Branches, bare, branch, is_dir_tree, Fresh, Proper, ProperIn, StandsIn, Arrived,
  KeptIn-StandsIn, Kept-Arrived,
}
use rust_remote_fs.EndToEnd.Relocating.Elsewhere.{
  Only, Apart, Apart-comm, Apart-below, Apart-siblings, Only-trans, Only-parents, Stands-other,
  Arrived-other,
}
use rust_remote_fs.EndToEnd.Relocating.{at_world, disk, Moves, MovesIn}

module _ {P : Platform} {D : Disk} {web : Web D} {data_dir : Text} (L : IsDisk D)
    (whole : IsWhole L web) (S : IsStore L) (fs : RemoteFs P)
    (N : IsServed P D web data_dir fs.config.server_url) where
  abbrev at : P.World → Sys P
  at w = at_world L whole S fs N w

  abbrev on : P.World → D.State
  on w = disk L whole S fs N w

  entry_call :
      (n : ℕ) (b : Bool) (p q : Text) (s : Sys P)
      → (if b then recursive_move_client_side P n p q else move_file P p q) s
        ≡ move_on_server P n b p q s
  unfolding move_on_server
  entry_call n true p q s = refl
  entry_call n false p q s = refl

  -- Entries of the new place and of the old one.
  Apart-children :
      (p q name other : Text)
      → Simple name
      → Simple other
      → Apart L data_dir p q
      → Apart L data_dir (joined q name) (joined p other)
  Apart-children p q name other simple simple_other apart =
      Apart-below L data_dir (joined q name) p other simple_other
        (Apart-comm L data_dir p (joined q name) (Apart-below L data_dir p q name simple apart))

  -- The siblings of what has moved stand as they did.
  StandsIn-sibling :
      (p q name : Text) (d after : D.State) (branches : Branches) (entries : List RemoteEntry)
      → Simple name
      → Fresh name branches
      → ProperIn branches
      → Apart L data_dir p q
      → Only L data_dir (joined p name) (joined q name) d after
      → StandsIn L data_dir branches entries p d
      → StandsIn L data_dir branches entries p after
  StandsIn-sibling p q name d after bare [] simple fresh proper apart o there = tt
  StandsIn-sibling p q name d after bare (entry ∷ entries) simple fresh proper apart o there =
      absurd there
  StandsIn-sibling p q name d after (branch other t branches) [] simple fresh proper apart o there =
      absurd there
  StandsIn-sibling p q name d after (branch other t branches) (entry ∷ entries) simple (ne, fresh)
        (simple_other, fresh_other, proper, more) apart o (same, kind, there, rest) =
      (
        same,
        kind,
        Stands-other L data_dir (joined p name) (joined q name) d after o t (joined p other) proper
            (Apart-siblings L data_dir p name other simple simple_other ne)
            (Apart-children p q name other simple simple_other apart) there,
        StandsIn-sibling p q name d after branches entries simple fresh more apart o rest,
      )

  module _ (n : ℕ) (p q : Text) where
    -- The loop of `recursive_move_client_side`.
    abbrev pub loop : List RemoteEntry → Sys P → Outcome (Unit {0}) × Sys P
    loop entries = move_entries P (recursive_move_client_side P n) p q entries

    abbrev pub Loops : Branches → List RemoteEntry → P.World → Type 0
    Loops branches entries w = MovesIn L whole S fs N branches p q (loop entries) w

    loop-one :
        (entry : RemoteEntry) (entries : List RemoteEntry) (name : Text) (b : Bool) (s u : Sys P)
        → entry.name ≡ name
        → is_directory entry ≡ b
        → move_on_server P n b (joined p name) (joined q name) s ≡ (ok tt, u)
        → loop (entry ∷ entries) s ≡ loop entries u
    unfolding move_entries ◌>>=◌
    loop-one entry entries name b s u same kind moved =
        rw (entry_call n (is_directory entry) (joined p entry.name) (joined q entry.name) s)
          (rw (kind, same, moved) refl)

    loop-fails :
        (entry : RemoteEntry) (entries : List RemoteEntry) (name : Text) (b : Bool) (s u : Sys P)
        (e : Errno)
        → entry.name ≡ name
        → is_directory entry ≡ b
        → move_on_server P n b (joined p name) (joined q name) s ≡ (err e, u)
        → loop (entry ∷ entries) s ≡ (err e, u)
    unfolding move_entries ◌>>=◌
    loop-fails entry entries name b s u e same kind failed =
        rw (entry_call n (is_directory entry) (joined p entry.name) (joined q entry.name) s)
          (rw (kind, same, failed) refl)

    -- A move of one entry keeps what has arrived of the others.
    keeps-one :
        (name other : Text) (t : Tree) (w w1 : P.World)
        → Simple name
        → Simple other
        → other ≢ name
        → Apart L data_dir p q
        → Proper t
        → Only L data_dir (joined p name) (joined q name) (on w) (on w1)
        → Arrived L data_dir t (joined q other) (on w)
        → Arrived L data_dir t (joined q other) (on w1)
    keeps-one name other t w w1 simple simple_other ne apart proper only =
        Arrived-other L data_dir (joined p name) (joined q name) (on w) (on w1) only t
          (joined q other) proper
          (Apart-children q p name other simple simple_other (Apart-comm L data_dir p q apart))
          (Apart-siblings L data_dir q name other simple simple_other (λ e. ne (sym e)))

    -- One entry, then the others.
    pub branch-Moves :
        (name : Text) (t : Tree) (branches : Branches) (entry : RemoteEntry)
        (entries : List RemoteEntry) (w : P.World)
        → ProperIn (branch name t branches)
        → Apart L data_dir p q
        → StandsIn L data_dir (branch name t branches) (entry ∷ entries) p (on w)
        → Moves L whole S fs N t
            (joined p name)
            (joined q name)
            (move_on_server P n (is_dir_tree t) (joined p name) (joined q name))
            w
        → ((w1 : P.World)
            → StandsIn L data_dir branches entries p (on w1)
            → Loops branches entries w1)
        → Loops (branch name t branches) (entry ∷ entries) w
    branch-Moves name t branches entry entries w (simple, fresh, proper, more) apart
          (same, kind, there, rest) (w1, only, inl (e, failed, kept)) next =
        (
          w1,
          Only-parents L data_dir p q name (on w) (on w1) simple only,
          λ other u simple_other ne proper_u.
              keeps-one name other u w w1 simple simple_other ne.0 apart proper_u only,
          inl (
            e,
            loop-fails entry entries name (is_dir_tree t) (at w) (at w1) e same kind failed,
            (
              kept,
              KeptIn-StandsIn L data_dir branches entries p q (on w1) (
                  StandsIn-sibling p q name (on w) (on w1) branches entries simple fresh more apart
                    only rest),
            ),
          ),
        )
    branch-Moves name t branches entry entries w (simple, fresh, proper, more) apart
          (same, kind, there, rest) (w1, only, inr (done, arrived, gone)) next =
        let begun = loop-one entry entries name (is_dir_tree t) (at w) (at w1) same kind done in
        let (w2, only_rest, keeps, result) = next w1 (
          StandsIn-sibling p q name (on w) (on w1) branches entries simple fresh more apart only
            rest) in
        let still = keeps name t simple fresh proper arrived in
        (
          w2,
          Only-trans L data_dir p q (on w) (on w1) (on w2)
              (Only-parents L data_dir p q name (on w) (on w1) simple only) only_rest,
          λ other u simple_other ne proper_u before.
              keeps other u simple_other ne.1 proper_u
                (keeps-one name other u w w1 simple simple_other ne.0 apart proper_u only before),
          elim result [
            | inl ((e, failed, kept)) ↦ inl (
              e,
              begun ∙ failed,
              (Kept-Arrived L data_dir t (joined p name) (joined q name) (on w2) still, kept),
            )
            | inr ((ended, all)) ↦ inr (begun ∙ ended, (still, all))
          ],
        )
