-- ===== src/EndToEnd/Relocating.antt =====
-- `recursive_move_client_side` and `move_file` of client/src/fs/rename.rs at a tree of the server's
-- files and directories.
pub mod Trees
pub mod Elsewhere
pub mod Steps
pub mod Directories
pub mod Whole
pub mod Renaming
use rust_remote_fs.Prelude.{
  ℕ, zero, suc, ◌≡◌, refl, ◌≢◌, ap, sym, subst, ◌∙◌, ◌⊎◌, inl, inr, Bool, Bool-cases, Option-cases,
  true, false, Option, none, some, List, [], ◌∷◌, Text, if◌then◌else◌,
}
use rust_remote_fs.Prelude.Paths.{joined, Under, Disjoint, Simple}
use rust_remote_fs.Wire.{Bytes, RemoteEntry, is_error_status}
use rust_remote_fs.Outcome.{Errno, Outcome, ok, err, eio, some_or, ◌>>=◌}
use rust_remote_fs.Server.Disk.{Disk, IsDisk}
use rust_remote_fs.Server.Disk.Store.{Changes, IsStore}
use rust_remote_fs.Server.Handlers.{
  file_path, list_directory_contents, put_file, delete_file, mkdir,
}
use rust_remote_fs.Server.Routes.{Web}
use rust_remote_fs.Client.Platform.{Platform}
use rust_remote_fs.Client.State.{RemoteFs, Sys}
use rust_remote_fs.Client.Api.{
  get_file_content_from_server, put_file_content_to_server, delete_resource, create_directory,
  get_files_from_server,
}
use rust_remote_fs.Client.Delete.{is_directory}
use rust_remote_fs.Client.Rename.{
  move_file, move_entries, recursive_move_client_side, move_on_server,
}
use rust_remote_fs.EndToEnd.Network.{IsServed, headers, succeeded, api-Does, listing-Reads}
use rust_remote_fs.EndToEnd.ReadBack.{IsWhole, fetched-stored, put-stored}
use rust_remote_fs.EndToEnd.Relocating.Steps.{
  put_file-Changes, mkdir-Changes, delete_file-Changes, delete_file-gone,
}
use rust_remote_fs.EndToEnd.Relocating.Trees.{
  Tree, file, directory, Branches, bare, branch, is_dir_tree, Fresh, Proper, ProperIn, Room, RoomIn,
  AllPlain, AllPlainIn, content, Stands, StandsIn, Arrived, ArrivedIn, Kept, KeptIn, Kept-Stands,
  KeptIn-StandsIn, Kept-Arrived, KeptIn-ArrivedIn,
}
use rust_remote_fs.EndToEnd.Relocating.Elsewhere.{
  Only, Apart, Apart-comm, Apart-below, Apart-siblings, Only-left, Only-right, Only-refl,
  Only-trans, Only-parents, Stands-other, StandsIn-other, Arrived-other, ArrivedIn-other,
}

module _ {P : Platform} {D : Disk} {web : Web D} {data_dir : Text} (L : IsDisk D)
    (whole : IsWhole L web) (S : IsStore L) (fs : RemoteFs P)
    (N : IsServed P D web data_dir fs.config.server_url) where
  abbrev pub at_world : P.World → Sys P
  at_world w = record { fs = fs; world = w }

  abbrev pub disk : P.World → D.State
  disk w = (N.state w).disk

  -- A call of the API ends with a value or none, and may change the server at one path only.
  abbrev pub Touches :
      Text → Outcome (Option (Unit {0})) × Sys P → P.World → Option (Unit {0}) → P.World → Type 0
  Touches p result w o w' =
      (result ≡ (ok o, at_world w')) × Changes L (file_path data_dir p) (disk w) (disk w')

  fine_status :
      (w : P.World) (n : ℕ) → succeeded (at_world w) N n ≡ some tt → is_error_status n ≡ false
  fine_status w n e = elim (Bool-cases (is_error_status n)) [
    | inl bad ↦ cc (bad, e)
    | inr fine ↦ fine
  ]

  -- A path that a URL carries as it is, to one file.
  abbrev pub PlainPath : Text → Type 0
  PlainPath p = N.urls.Plain p × L.Clean (file_path data_dir p)

  module _ (p : Text) (w : P.World) (fine : PlainPath p) (ne : p ≢ []) where
    pub put-Touches :
        (bytes : Bytes)
        → (o : Option (Unit {0})) × (w' : P.World) × Touches p
            (put_file_content_to_server P p bytes (at_world w))
            w
            o
            w'
          × (o ≡ some tt → content L data_dir p (disk w') ≡ some bytes)
    unfolding put_file_content_to_server ◌>>=◌
    put-Touches bytes =
        let s = at_world w in
        let r = put_file_content_to_server P p bytes s in
        let call = (api-Does s N p fine.0 ne bytes 0).0 in
        (
          _,
          r.1.world,
          (
            ap (λ o. (o, r.1)) call.0,
            subst (λ z. Changes L (file_path data_dir p) (disk w) z.disk) (sym call.1)
                (put_file-Changes S data_dir p fine.1 (headers s N) (N.clock w) (N.state w)
                  (web.frames_of bytes)),
          ),
          λ e. put-stored L whole s N p fine.0 ne bytes (call.0 ∙ ap (λ o. ok o) e),
        )

    pub mkdir-Touches :
        (o : Option (Unit {0})) × (w' : P.World) × Touches p
          (create_directory P p (at_world w))
          w
          o
          w'
    unfolding create_directory ◌>>=◌
    mkdir-Touches =
        let s = at_world w in
        let r = create_directory P p s in
        let call = (api-Does s N p fine.0 ne [] 0).2 in
        (
          _,
          r.1.world,
          (
            ap (λ o. (o, r.1)) call.0,
            subst (λ z. Changes L (file_path data_dir p) (disk w) z.disk) (sym call.1)
                (mkdir-Changes S data_dir p fine.1 (headers s N) (N.clock w) (N.state w)),
          ),
        )

    pub delete-Touches :
        (o : Option (Unit {0})) × (w' : P.World) × Touches p
          (delete_resource P p (at_world w))
          w
          o
          w'
        × (o ≡ some tt → (q : Text) → Under (file_path data_dir p) q → L.content q (disk w') ≡ none)
    unfolding delete_resource ◌>>=◌
    delete-Touches =
        let s = at_world w in
        let r = delete_resource P p s in
        let call = (api-Does s N p fine.0 ne [] 0).1 in
        let done = delete_file D data_dir p (headers s N) (N.clock w) (N.state w) in
        (
          _,
          r.1.world,
          (
            ap (λ o. (o, r.1)) call.0,
            subst (λ z. Changes L (file_path data_dir p) (disk w) z.disk) (sym call.1)
                (delete_file-Changes S data_dir p fine.1 (headers s N) (N.clock w) (N.state w)),
          ),
          λ e q under.
              ap (λ z. L.content q z.disk) call.1
              ∙ delete_file-gone S data_dir p fine.1 (headers s N) (N.clock w) (N.state w)
                  (fine_status w done.0 e) q under,
        )

  -- A move leaves all else alone, whichever way it ends. If it fails, each file of the tree is in
  -- the old place or in the new one; if it succeeds, all are in the new place and nothing is in the
  -- old one.
  abbrev pub Moves : Tree → Text → Text → (Sys P → Outcome (Unit {0}) × Sys P) → P.World → Type 0
  Moves t p q call w =
      (w' : P.World) × Only L data_dir p q (disk w) (disk w')
      × (((e : Errno) × (call (at_world w) ≡ (err e, at_world w'))
            × Kept L data_dir t p q (disk w'))
          ⊎ ((call (at_world w) ≡ (ok tt, at_world w'))
              × Arrived L data_dir t q (disk w')
              × ((r : Text) → Under (file_path data_dir p) r → L.content r (disk w') ≡ none)))

  -- The last step of a move: the old path is deleted once all is in the new place.
  unfoldable pub drop_old : Text → Sys P → Outcome (Unit {0}) × Sys P
  drop_old p = do deleted ← delete_resource P p; some_or eio deleted

  pub drop_old-Moves :
      (t : Tree) (p q : Text) (w : P.World)
      → PlainPath p
      → p ≢ []
      → Proper t
      → Apart L data_dir p q
      → Arrived L data_dir t q (disk w)
      → Moves t p q (drop_old p) w
  unfolding drop_old ◌>>=◌
  drop_old-Moves t p q w plain ne proper apart arrived =
      let (o, w', (deleted, changed), gone) = delete-Touches p w plain ne in
      let still =
        Arrived-other L data_dir p p (disk w) (disk w')
          (Only-left L data_dir p p (disk w) (disk w') changed) t q proper apart apart arrived in
      let only = Only-left L data_dir p q (disk w) (disk w') changed in
      elim (Option-cases o) [
        | inl refused ↦ (
          w',
          only,
          inl (eio, rw (deleted, refused) refl, Kept-Arrived L data_dir t p q (disk w') still),
        )
        | inr ((u, accepted)) ↦ (w', only, inr (rw (deleted, accepted) refl, still, gone accepted))
      ]

  -- A move that ends as one from a later state does.
  pub Moves-later :
      (t : Tree) (p q : Text) (call later : Sys P → Outcome (Unit {0}) × Sys P) (w w1 : P.World)
      → call (at_world w) ≡ later (at_world w1)
      → Only L data_dir p q (disk w) (disk w1)
      → Moves t p q later w1
      → Moves t p q call w
  Moves-later t p q call later w w1 same only (w2, more, inl (e, failed, kept)) = (
    w2,
    Only-trans L data_dir p q (disk w) (disk w1) (disk w2) only more,
    inl (e, same ∙ failed, kept),
  )
  Moves-later t p q call later w w1 same only (w2, more, inr (done, arrived, gone)) = (
    w2,
    Only-trans L data_dir p q (disk w) (disk w1) (disk w2) only more,
    inr (same ∙ done, arrived, gone),
  )

  pub file-Moves :
      (bytes : Bytes) (p q : Text) (w : P.World)
      → PlainPath p
      → PlainPath q
      → p ≢ []
      → q ≢ []
      → Apart L data_dir p q
      → Stands L data_dir (file bytes) p (disk w)
      → Moves (file bytes) p q (move_file P p q) w
  unfolding move_file drop_old ◌>>=◌
  file-Moves bytes p q w plain_p plain_q ne_p ne_q apart (clean, settled, there) =
      let (w1, got, same) =
        fetched-stored L whole (at_world w) N p plain_p.0 ne_p bytes settled there in
      let d1 : disk w1 ≡ disk w = ap (λ z. z.disk) same in
      let (o2, w2, (put, changed), stored) = put-Touches q w1 plain_q ne_q bytes in
      let only : Only L data_dir p q (disk w) (disk w2) =
        subst (λ d. Only L data_dir p q d (disk w2)) d1
          (Only-right L data_dir p q (disk w1) (disk w2) changed) in
      elim (Option-cases o2) [
        | inl refused ↦ (
          w2,
          only,
          inl (
            eio,
            rw (got, put, refused) refl,
            inl (
                L.settled_lem (file_path data_dir p) (disk w2) (
                  changed.settled (file_path data_dir p) clean apart.1
                    (subst (λ d. L.Settled (file_path data_dir p) d) (sym d1) settled))
                ∙ changed.contents (file_path data_dir p) clean apart.1
                ∙ ap (λ d. content L data_dir p d) d1
                ∙ there),
          ),
        )
        | inr ((u, accepted)) ↦
            Moves-later (file bytes) p q (move_file P p q) (drop_old p) w w2
              (rw (got, put, accepted) refl) only
              (drop_old-Moves (file bytes) p q w2 plain_p ne_p tt apart
                (plain_q.1, stored accepted))
      ]

  -- What the loop over a directory's entries does. No other entry of the new place is touched.
  abbrev pub MovesIn :
      Branches → Text → Text → (Sys P → Outcome (Unit {0}) × Sys P) → P.World → Type 0
  MovesIn branches p q call w =
      (w' : P.World) × Only L data_dir p q (disk w) (disk w')
      × ((name : Text) (t : Tree)
          → Simple name
          → Fresh name branches
          → Proper t
          → Arrived L data_dir t (joined q name) (disk w)
          → Arrived L data_dir t (joined q name) (disk w'))
      × (((e : Errno) × (call (at_world w) ≡ (err e, at_world w'))
            × KeptIn L data_dir branches p q (disk w'))
          ⊎ ((call (at_world w) ≡ (ok tt, at_world w'))
              × ArrivedIn L data_dir branches q (disk w')))
