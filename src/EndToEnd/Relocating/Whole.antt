-- ===== src/EndToEnd/Relocating/Whole.antt =====
-- `recursive_move_client_side` of client/src/fs/rename.rs at a whole tree.
use rust_remote_fs.Prelude.{
  ℕ, zero, suc, ◌≡◌, refl, ◌≢◌, ap, sym, subst, ◌∙◌, inl, inr, Option-cases, some, List, [], ◌∷◌,
  Text,
}
use rust_remote_fs.Prelude.Paths.{joined, joined_ne}
use rust_remote_fs.Wire.{RemoteEntry}
use rust_remote_fs.Outcome.{ok, eio, ◌>>=◌}
use rust_remote_fs.Server.Disk.{Disk, IsDisk}
use rust_remote_fs.Server.Disk.Store.{IsStore}
use rust_remote_fs.Server.Handlers.{list_directory_contents}
use rust_remote_fs.Server.Routes.{Web}
use rust_remote_fs.Client.Platform.{Platform}
use rust_remote_fs.Client.State.{RemoteFs, Sys}
use rust_remote_fs.Client.Api.{get_files_from_server}
use rust_remote_fs.Client.Rename.{move_entries, recursive_move_client_side, move_on_server}
use rust_remote_fs.EndToEnd.Network.{IsServed, listing-Reads}
use rust_remote_fs.EndToEnd.ReadBack.{IsWhole}
use rust_remote_fs.EndToEnd.Relocating.Trees.{
  Tree, file, directory, Branches, bare, branch, is_dir_tree, Proper, ProperIn, Room, RoomIn,
  AllPlain, AllPlainIn, Stands, StandsIn, Kept-Stands,
}
use rust_remote_fs.EndToEnd.Relocating.Elsewhere.{
  Only, Apart, Apart-comm, Apart-below, Only-left, Only-right, Only-refl, Only-trans, Stands-other,
}
use rust_remote_fs.EndToEnd.Relocating.{
  at_world, disk, PlainPath, Moves, mkdir-Touches, drop_old, drop_old-Moves, Moves-later,
  file-Moves,
}
use rust_remote_fs.EndToEnd.Relocating.Directories.{Loops, branch-Moves}

module _ {P : Platform} {D : Disk} {web : Web D} {data_dir : Text} (L : IsDisk D)
    (whole : IsWhole L web) (S : IsStore L) (fs : RemoteFs P)
    (N : IsServed P D web data_dir fs.config.server_url) where
  abbrev at : P.World → Sys P
  at w = at_world L whole S fs N w

  abbrev on : P.World → D.State
  on w = disk L whole S fs N w

  listing_at :
      (p : Text) (w : P.World) (entries : List RemoteEntry)
      → N.urls.Plain p
      → list_directory_contents D data_dir p (on w) ≡ some entries
      → (w' : P.World) × (get_files_from_server P p (at w) ≡ (ok (some entries), at w'))
        × (on w' ≡ on w)
  unfolding get_files_from_server ◌>>=◌
  listing_at p w entries plain listed =
      let r = get_files_from_server P p (at w) in
      let call = listing-Reads (at w) N p plain in
      (r.1.world, ap (λ o. (o, r.1)) (call.0 ∙ ap (λ o. ok o) listed), ap (λ z. z.disk) call.1)

  -- A directory is made, its entries move, and the old one is deleted.
  directory-Moves :
      (branches : Branches) (n : ℕ) (p q : Text) (w : P.World)
      → ProperIn branches
      → PlainPath L whole S fs N p
      → PlainPath L whole S fs N q
      → p ≢ []
      → q ≢ []
      → Apart L data_dir p q
      → Stands L data_dir (directory branches) p (on w)
      → ((entries : List RemoteEntry) (w1 : P.World)
          → StandsIn L data_dir branches entries p (on w1)
          → Loops L whole S fs N n p q branches entries w1)
      → Moves L whole S fs N (directory branches) p q (recursive_move_client_side P (suc n) p q) w
  unfolding recursive_move_client_side drop_old ◌>>=◌
  directory-Moves branches n p q w proper plain_p plain_q ne_p ne_q apart stands inner =
      let (o, w1, (made, changed)) = mkdir-Touches L whole S fs N q w plain_q ne_q in
      let only = Only-right L data_dir p q (on w) (on w1) changed in
      let before =
        Stands-other L data_dir q q (on w) (on w1) (Only-left L data_dir q q (on w) (on w1) changed)
          (directory branches) p proper (Apart-comm L data_dir p q apart)
          (Apart-comm L data_dir p q apart) stands in
      elim (Option-cases o) [
        | inl refused ↦ (
          w1,
          only,
          inl (
            eio,
            rw (made, refused) refl,
            Kept-Stands L data_dir (directory branches) p q (on w1) before,
          ),
        )
        | inr ((u, accepted)) ↦
            let (clean, entries, listed, there) = before in
            let (w2, got, same) = listing_at p w1 entries plain_p.0 listed in
            let (w3, only_in, keeps, result) =
              inner entries w2
                (subst (λ d. StandsIn L data_dir branches entries p d) (sym same) there) in
            let only3 =
              Only-trans L data_dir p q (on w) (on w1) (on w3) only
                (subst (λ d. Only L data_dir p q d (on w3)) same only_in) in
            elim result [
              | inl ((e, failed, kept)) ↦
                  (w3, only3, inl (e, rw (made, accepted, got, failed) refl, kept))
              | inr ((ended, arrived)) ↦
                  Moves-later L whole S fs N (directory branches) p q
                    (recursive_move_client_side P (suc n) p q) (drop_old L whole S fs N p) w w3
                    (rw (made, accepted, got, ended) refl) only3
                    (drop_old-Moves L whole S fs N (directory branches) p q w3 plain_p ne_p proper
                      apart arrived)
            ]
      ]

  mutual
    unfolding move_on_server move_entries ◌>>=◌

    pub tree-Moves :
        (t : Tree) (n : ℕ) (p q : Text) (w : P.World)
        → Room n t
        → Proper t
        → AllPlain (PlainPath L whole S fs N) t p
        → AllPlain (PlainPath L whole S fs N) t q
        → p ≢ []
        → q ≢ []
        → Apart L data_dir p q
        → Stands L data_dir t p (on w)
        → Moves L whole S fs N t p q (move_on_server P n (is_dir_tree t) p q) w
    tree-Moves (file bytes) n p q w room proper plain_p plain_q ne_p ne_q apart there =
        file-Moves L whole S fs N bytes p q w plain_p plain_q ne_p ne_q apart there
    tree-Moves (directory branches) zero p q w room proper plain_p plain_q ne_p ne_q apart there =
        absurd room
    tree-Moves (directory branches) (suc n) p q w room proper (plain_p, below_p) (plain_q, below_q)
          ne_p ne_q apart there =
        directory-Moves branches n p q w proper plain_p plain_q ne_p ne_q apart there
          (λ entries w1 stands.
            branches-Moves branches entries n p q w1 room proper below_p below_q apart stands)

    branches-Moves :
        (branches : Branches) (entries : List RemoteEntry) (n : ℕ) (p q : Text) (w : P.World)
        → RoomIn n branches
        → ProperIn branches
        → AllPlainIn (PlainPath L whole S fs N) branches p
        → AllPlainIn (PlainPath L whole S fs N) branches q
        → Apart L data_dir p q
        → StandsIn L data_dir branches entries p (on w)
        → Loops L whole S fs N n p q branches entries w
    branches-Moves bare [] n p q w room proper plain_p plain_q apart there =
        (w, Only-refl L data_dir p q (on w), λ name t simple fresh proper_t h. h, inr (refl, tt))
    branches-Moves bare (entry ∷ entries) n p q w room proper plain_p plain_q apart there =
        absurd there
    branches-Moves (branch name t branches) [] n p q w room proper plain_p plain_q apart there =
        absurd there
    branches-Moves (branch name t branches) (entry ∷ entries) n p q w room proper plain_p plain_q
          apart there =
        branch-Moves L whole S fs N n p q name t branches entry entries w proper apart there
          (tree-Moves t n (joined p name) (joined q name) w room.0 proper.2 plain_p.0 plain_q.0
            (joined_ne p name) (joined_ne q name)
            (Apart-below L data_dir (joined p name) q name proper.0 (
              Apart-comm L data_dir q (joined p name)
                (Apart-below L data_dir q p name proper.0 (Apart-comm L data_dir p q apart))))
            there.2)
          (λ w1 stands.
            branches-Moves branches entries n p q w1 room.1 proper.3 plain_p.1 plain_q.1 apart
              stands)
