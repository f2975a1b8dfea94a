-- ===== src/EndToEnd/Replaying/Content.antt =====
-- What the server's disk holds after any requests of any clients that store, delete and make
-- directories, told by a ledger of their answers.
use rust_remote_fs.Prelude.{
  ◌≡◌, refl, ◌≢◌, ap, sym, ◌∙◌, Option, none, some, List, [], ◌∷◌, Text, subst, text_eq,
}
use mathlib.Core.Option.{some-injective}
use mathlib.Core.Logic.{if_pos, if_neg}
use rust_remote_fs.Prelude.Paths.{Under, under}
use rust_remote_fs.Wire.{Bytes}
use rust_remote_fs.Outcome.{ok}
use rust_remote_fs.Server.Disk.{Disk, IsDisk}
use rust_remote_fs.Server.Disk.Store.{Changes, IsStore}
use rust_remote_fs.Server.Handlers.{file_path}
use rust_remote_fs.Server.Routes.{Web}
use rust_remote_fs.Client.Platform.{Platform}
use rust_remote_fs.Client.State.{RemoteFs, Sys}
use rust_remote_fs.Client.Api.{get_file_content_from_server}
use rust_remote_fs.EndToEnd.Network.{IsServed}
use rust_remote_fs.EndToEnd.ReadBack.{IsWhole, fetched-stored}
use rust_remote_fs.EndToEnd.Relocating.{PlainPath, put-Touches, mkdir-Touches, delete-Touches}
use rust_remote_fs.EndToEnd.Relocating.Trees.{content}
use rust_remote_fs.EndToEnd.Replaying.{
  Change, put, delete, make_dir, path_of_change, is_done, Ledger, touched, known_if, learn, perform,
  replay, as_client,
}

module _ {P : Platform} {D : Disk} {web : Web D} {data_dir : Text} (L : IsDisk D)
    (whole : IsWhole L web) (S : IsStore L) (fs : RemoteFs P)
    (N : IsServed P D web data_dir fs.config.server_url) where
  -- What is known is so.
  abbrev Agrees : Ledger → P.World → Type 0
  Agrees k w =
      (q : Text) (v : Option Bytes)
      → L.Clean (file_path data_dir q)
      → k q ≡ some v
      → content L data_dir q (N.state w).disk ≡ v

  -- Whatever is touched at one path, what is known elsewhere stays so.
  touched-Agrees :
      (p : Text) (v : Option (Option Bytes)) (k : Ledger) (w w' : P.World)
      → Changes L (file_path data_dir p) (N.state w).disk (N.state w').disk
      → ((q : Text) (x : Option Bytes)
          → Under (file_path data_dir p) (file_path data_dir q)
          → v ≡ some x
          → content L data_dir q (N.state w').disk ≡ x)
      → Agrees k w
      → Agrees (touched data_dir p v k) w'
  touched-Agrees p v k w w' changed here agrees q x clean known =
      elim (under (file_path data_dir p) (file_path data_dir q)) [
        | yes below ↦
            here q x below
              (sym (if_pos (under (file_path data_dir p) (file_path data_dir q)) below _ _) ∙ known)
        | no apart ↦
            changed.contents (file_path data_dir q) clean apart
            ∙ agrees q x clean (
                sym (if_neg (under (file_path data_dir p) (file_path data_dir q)) apart _ _)
                ∙ known)
      ]

  put_known :
      (path : Text) (w : P.World) (bytes : Bytes) (o : Option (Unit {0})) (x : Option Bytes)
      → (o ≡ some tt → content L data_dir path (N.state w).disk ≡ some bytes)
      → known_if data_dir (is_done (ok o)) (some bytes) ≡ some x
      → content L data_dir path (N.state w).disk ≡ x
  put_known path w bytes none x stored e = cc e
  put_known path w bytes (some u) x stored e = stored refl ∙ some-injective (some bytes) x e

  delete_known :
      (q : Text) (w : P.World) (o : Option (Unit {0})) (x : Option Bytes)
      → (o ≡ some tt → content L data_dir q (N.state w).disk ≡ none)
      → known_if data_dir (is_done (ok o)) none ≡ some x
      → content L data_dir q (N.state w).disk ≡ x
  delete_known q w none x gone e = cc e
  delete_known q w (some u) x gone e = gone refl ∙ some-injective none x e

  deleted-Agrees :
      (path : Text) (k : Ledger) (w w' : P.World) (client_id : Text) (o : Option (Unit {0}))
      → Changes L (file_path data_dir path) (N.state w).disk (N.state w').disk
      → (o ≡ some tt
          → (q : Text) → Under (file_path data_dir path) q
          → L.content q (N.state w').disk ≡ none)
      → Agrees k w
      → Agrees (learn data_dir (delete client_id path) (is_done (ok o)) k) w'
  unfolding learn
  deleted-Agrees path k w w' client_id o changed gone agrees =
      touched-Agrees path _ k w w' changed
        (λ q x below e. delete_known q w' o x (λ done. gone done (file_path data_dir q) below) e)
        agrees

  made-Agrees :
      (path : Text) (k : Ledger) (w w' : P.World) (client_id : Text) (o : Option (Unit {0}))
      → Changes L (file_path data_dir path) (N.state w).disk (N.state w').disk
      → Agrees k w
      → Agrees (learn data_dir (make_dir client_id path) (is_done (ok o)) k) w'
  unfolding learn
  made-Agrees path k w w' client_id o changed agrees =
      touched-Agrees path none k w w' changed (λ q x below e. cc e) agrees

  stored-Agrees :
      (path : Text) (bytes : Bytes) (k : Ledger) (w w' : P.World) (client_id : Text)
      (o : Option (Unit {0}))
      → Changes L (file_path data_dir path) (N.state w).disk (N.state w').disk
      → (o ≡ some tt → content L data_dir path (N.state w').disk ≡ some bytes)
      → Agrees k w
      → Agrees (learn data_dir (put client_id path bytes) (is_done (ok o)) k) w'
  unfolding learn
  stored-Agrees path bytes k w w' client_id o changed stored agrees q x clean known =
      elim (text_eq.dec path q) [
        | yes same ↦
            subst (λ r. content L data_dir r (N.state w').disk ≡ x) same
              (put_known path w' bytes o x stored
                (sym (if_pos (text_eq.dec path q) same _ _) ∙ known))
        | no other ↦
            touched-Agrees path none k w w' changed (λ r y below e. cc e) agrees q x clean
              (sym (if_neg (text_eq.dec path q) other _ _) ∙ known)
      ]

  change-Agrees :
      (change : Change) (k : Ledger) (w : P.World)
      → PlainPath L whole S fs N (path_of_change change)
      → path_of_change change ≢ []
      → Agrees k w
      → let r = perform P fs data_dir change w in
        Agrees (learn data_dir change (is_done r.0) k) r.1.world
  change-Agrees (put client_id path bytes) k w plain ne agrees =
      let (o, w', (e, changed), stored) =
        put-Touches L whole S (record fs { client_id = client_id }) N path w plain ne bytes in
      rw e (stored-Agrees path bytes k w w' client_id o changed stored agrees)
  change-Agrees (delete client_id path) k w plain ne agrees =
      let (o, w', (e, changed), gone) =
        delete-Touches L whole S (record fs { client_id = client_id }) N path w plain ne in
      rw e (deleted-Agrees path k w w' client_id o changed gone agrees)
  change-Agrees (make_dir client_id path) k w plain ne agrees =
      let (o, w', (e, changed)) =
        mkdir-Touches L whole S (record fs { client_id = client_id }) N path w plain ne in
      rw e (made-Agrees path k w w' client_id o changed agrees)

  -- Every call names a file below the data directory, by a path that the address carries.
  abbrev pub Names : List Change → Type 0
  Names [] = Unit
  Names (change ∷ changes) =
      PlainPath L whole S fs N (path_of_change change) × path_of_change change ≢ [] × Names changes

  replay-Agrees :
      (changes : List Change) (k : Ledger) (w : P.World)
      → Names changes
      → Agrees k w
      → let r = replay P fs data_dir changes k w in Agrees r.0 r.1
  unfolding replay
  replay-Agrees [] k w named agrees = agrees
  replay-Agrees (change ∷ changes) k w (plain, ne, named) agrees =
      let r = perform P fs data_dir change w in
      replay-Agrees changes (learn data_dir change (is_done r.0) k) r.1.world named
        (change-Agrees change k w plain ne agrees)

  pub replay-content :
      (changes : List Change) (client_id path : Text) (bytes : Bytes) (w : P.World)
      → Names changes
      → PlainPath L whole S fs N path
      → path ≢ []
      → let r = replay P fs data_dir changes (λ q. none) w in
        r.0 path ≡ some (some bytes)
        → L.Settled (file_path data_dir path) (N.state r.1).disk
        → (get_file_content_from_server P path (as_client P fs data_dir client_id r.1)).0
          ≡ ok (some bytes)
  replay-content changes client_id path bytes w named plain ne known settled =
      let w' = (replay P fs data_dir changes (λ q. none) w).1 in
      let s : Sys P = as_client P fs data_dir client_id w' in
      let stored =
        replay-Agrees changes (λ q. none) w named (λ q v clean e. cc e) path (some bytes) plain.1
          known in
      let (t, got, same) = fetched-stored L whole s N path plain.0 ne bytes settled stored in
      ap (λ a. a.0) got
