-- ===== src/EndToEnd/Moving.antt =====
-- `rename` of client/src/fs/rename.rs at a file of the server.
use rust_remote_fs.Prelude.{
  ℕ, ◌≡◌, refl, ◌≢◌, ap, sym, ◌∙◌, Bool-cases, inl, inr, true, false, Option, none, some, [], Text,
  nat_eq, text_eq,
}
use rust_remote_fs.HashMap
use rust_remote_fs.Wire.{Bytes, Headers, is_error_status}
use rust_remote_fs.Outcome.{Outcome, ok, err, panic, resume, ◌>>=◌}
use rust_remote_fs.Server.Disk.{Disk, IsDisk, Metadata}
use rust_remote_fs.Server.Handlers.{ServerState, file_path, delete_file}
use rust_remote_fs.Server.Handlers.PutFile.{put_file-other}
use rust_remote_fs.Server.Routes.{Web}
use rust_remote_fs.Client.Platform.{Platform}
use rust_remote_fs.Client.State.{RemoteFs, Sys, update, path_of, child_path}
use rust_remote_fs.Client.Api.{
  get_file_content_from_server, put_file_content_to_server, delete_resource,
}
use rust_remote_fs.Client.Delete.{is_dir}
use rust_remote_fs.Client.Rename.{update_maps, move_file, move_on_server, rename}
use rust_remote_fs.EndToEnd.Network.{IsServed, headers, succeeded, api-Does}
use rust_remote_fs.EndToEnd.ReadBack.{IsWhole, fetched-stored, put-stored}

-- What std::fs documents of the removal of a file.
pub record IsRemoval {D : Disk} (L : IsDisk D) : Type 0 where
  pub file_metadata :
      (p : Text) (d : D.State) (content : Bytes)
      → L.content p d ≡ some content
      → (metadata : Metadata) × (D.metadata p d ≡ some metadata) × (metadata.is_dir ≡ false)
  pub remove_file-content :
      (p : Text) (d : D.State)
      → (D.remove_file p d).0 ≡ true
      → L.content p (D.remove_file p d).1 ≡ none
  pub remove_file-other :
      (p q : Text) (d : D.State)
      → L.Clean p
      → L.Clean q
      → p ≢ q
      → L.content q (D.remove_file p d).1 ≡ L.content q d

-- The content is in the new file once its writes are done, and no more in the old one, and what has
-- been taken for other files is the same.
pub record Moved {D : Disk} (L : IsDisk D) (old_file new_file : Text) (content : Bytes)
    (d after : D.State) : Type 0 where
  pub arrived : L.Settled new_file after → L.stored new_file after ≡ some content
  pub left : L.content old_file after ≡ none
  pub others :
      (q : Text) → L.Clean q → old_file ≢ q → new_file ≢ q → L.content q after ≡ L.content q d

module _ {P : Platform} (old_path new_path : Text) (content : Bytes) (s t u v : Sys P) where
  pub move_file-done :
      get_file_content_from_server P old_path s ≡ (ok (some content), t)
      → put_file_content_to_server P new_path content t ≡ (ok (some tt), u)
      → delete_resource P old_path u ≡ (ok (some tt), v)
      → move_file P old_path new_path s ≡ (ok tt, v)
  unfolding move_file ◌>>=◌
  move_file-done got put deleted = rw (got, put, deleted) refl

  -- A move that succeeds has had its PUT and its DELETE accepted.
  move_file-ok :
      (o2 o3 : Option Unit)
      → get_file_content_from_server P old_path s ≡ (ok (some content), t)
      → put_file_content_to_server P new_path content t ≡ (ok o2, u)
      → delete_resource P old_path u ≡ (ok o3, v)
      → (move_file P old_path new_path s).0 ≡ ok tt
      → (o2 ≡ some tt) × (o3 ≡ some tt) × ((move_file P old_path new_path s).1 ≡ v)
  unfolding move_file ◌>>=◌
  move_file-ok none o3 got put deleted done = let impossible = rw (got, put) at done in cc
  move_file-ok (some a) none got put deleted done =
      let impossible = rw (got, put, deleted) at done in cc
  move_file-ok (some a) (some b) got put deleted done =
      (refl, refl, ap (λ r. r.1) (move_file-done got put deleted))

-- What `delete_file` does at a file.
delete_file-content :
    (D : Disk) (L : IsDisk D) (R : IsRemoval L) (data_dir path : Text) (h : Headers) (now : ℕ)
    (s : ServerState D) (content : Bytes)
    → L.Clean (file_path data_dir path)
    → L.content (file_path data_dir path) s.disk ≡ some content
    → let r = delete_file D data_dir path h now s in
      ((is_error_status r.0 ≡ false → L.content (file_path data_dir path) r.1.disk ≡ none)
        × ((q : Text)
            → L.Clean q
            → file_path data_dir path ≢ q
            → L.content q r.1.disk ≡ L.content q s.disk))
unfolding delete_file
delete_file-content D L R data_dir path h now s content clean there =
    let p = file_path data_dir path in
    let (metadata, found, file) = R.file_metadata p s.disk content there in
    elim (Bool-cases (D.remove_file p s.disk).0) [
      | inl removed ↦
          rw (found, file, removed)
            (
              λ e. R.remove_file-content p s.disk removed,
              λ q c ne. R.remove_file-other p q s.disk clean c ne,
            )
      | inr kept ↦
          rw (found, file, kept) (λ e. cc, λ q c ne. R.remove_file-other p q s.disk clean c ne)
    ]

module _ {P : Platform} {D : Disk} {web : Web D} {data_dir : Text} (L : IsDisk D)
    (whole : IsWhole L web) (R : IsRemoval L) (s : Sys P)
    (N : IsServed P D web data_dir s.fs.config.server_url) (old_path new_path : Text)
    (plain : N.urls.Plain old_path) (new_plain : N.urls.Plain new_path) (ne : old_path ≢ [])
    (new_ne : new_path ≢ []) where
  -- What a file holds on the server.
  abbrev holds : Text → P.World → Option Bytes
  holds q w = L.content q (N.state w).disk

  fine_status : (n : ℕ) → succeeded s N n ≡ some tt → is_error_status n ≡ false
  fine_status n e = elim (Bool-cases (is_error_status n)) [
    | inl bad ↦ cc (bad, e)
    | inr fine ↦ fine
  ]

  move_file-Moved :
      (content : Bytes)
      → L.Clean (file_path data_dir old_path)
      → L.Clean (file_path data_dir new_path)
      → L.Settled (file_path data_dir old_path) (N.state s.world).disk
      → holds (file_path data_dir old_path) s.world ≡ some content
      → file_path data_dir old_path ≢ file_path data_dir new_path
      → (move_file P old_path new_path s).0 ≡ ok tt
      → Moved L
          (file_path data_dir old_path)
          (file_path data_dir new_path)
          content
          (N.state s.world).disk
          (N.state (move_file P old_path new_path s).1.world).disk
  unfolding put_file_content_to_server ◌>>=◌
  move_file-Moved content clean new_clean settled there apart done =
      let (w1, got, same) = fetched-stored L whole s N old_path plain ne content settled there in
      let t : Sys P = record s { world = w1 } in
      let put = put_file_content_to_server P new_path content t in
      let put_call = (api-Does t N new_path new_plain new_ne content 0).0 in
      let deleted = delete_resource P old_path put.1 in
      let delete_call = (api-Does put.1 N old_path plain ne [] 0).1 in
      let (put_ok, delete_ok, ends) =
        move_file-ok old_path new_path content s t put.1 deleted.1 _ _ got
          (ap (λ o. (o, put.1)) put_call.0) (ap (λ o. (o, deleted.1)) delete_call.0) done in
      let put_others : (q : Text)
          → L.Clean q
          → file_path data_dir new_path ≢ q
          → holds q put.1.world ≡ holds q s.world =
        λ q c ne_q.
          ap (λ z. L.content q z.disk) put_call.1
          ∙ put_file-other D L data_dir new_path (headers t N) (N.clock w1) (web.frames_of content)
              (N.state w1) q new_clean c ne_q
          ∙ ap (λ z. L.content q z.disk) same in
      let stays = put_others (file_path data_dir old_path) clean (λ e. apart (sym e)) ∙ there in
      let removal =
        delete_file D data_dir old_path (headers put.1 N) (N.clock put.1.world)
          (N.state put.1.world) in
      let (gone, kept) =
        delete_file-content D L R data_dir old_path (headers put.1 N) (N.clock put.1.world)
          (N.state put.1.world) content clean stays in
      let arrived =
        put-stored L whole t N new_path new_plain new_ne content
          (put_call.0 ∙ ap (λ o. ok o) put_ok) in
      let after : (q : Text)
          → L.Clean q
          → file_path data_dir old_path ≢ q
          → holds q deleted.1.world ≡ holds q put.1.world =
        λ q c ne_q. ap (λ z. L.content q z.disk) delete_call.1 ∙ kept q c ne_q in
      rw ends (record {
        arrived = λ quiet.
            L.settled_lem (file_path data_dir new_path) (N.state deleted.1.world).disk quiet
            ∙ after (file_path data_dir new_path) new_clean apart
            ∙ arrived;
        left =
            ap (λ z. L.content (file_path data_dir old_path) z.disk) delete_call.1
            ∙ gone (fine_status removal.0 delete_ok);
        others = λ q c ne_old ne_new. after q c ne_old ∙ put_others q c ne_new;
      })

-- The maps are changed after a move that succeeds, and the world is not.
updated :
    {P : Platform} (g : RemoteFs P → RemoteFs P) (o : Outcome Unit) (u : Sys P)
    → (resume o (λ a. update P g) u).0 ≡ ok tt
    → (o ≡ ok tt) × ((resume o (λ a. update P g) u).1.world ≡ u.world)
unfolding ◌>>=◌
updated g (ok a) u done = (refl, refl)
updated g (err e) u done = cc
updated g panic u done = cc

module _ {P : Platform} {D : Disk} {web : Web D} {data_dir : Text} (L : IsDisk D)
    (whole : IsWhole L web) (R : IsRemoval L) (s : Sys P)
    (N : IsServed P D web data_dir s.fs.config.server_url) where
  -- A `rename` of a known path of no known directory, from a known parent to a known parent, to
  -- another file of the disk, of a file that holds content and for which no write is under way,
  -- with paths that are clean and not empty and that URLs carry as they are, when the network
  -- brings each request to the server's routes and the answer back, such files open with their
  -- content, bodies come whole and the disk takes what it reports to take: if it replies with
  -- success, the content is in the new file once the writes that tokio has taken for it are done
  -- without an error, there is none in the old one, and at every other clean path what has been
  -- taken is as before.
  pub rename-Moved :
      (depth parent inode newparent : ℕ) (old_parent name new_parent newname : Text)
      (content : Bytes)
      → N.urls.Plain (child_path old_parent name)
      → N.urls.Plain (child_path new_parent newname)
      → child_path old_parent name ≢ []
      → child_path new_parent newname ≢ []
      → HashMap.get parent s.fs.inode_to_path ≡ some old_parent
      → HashMap.get newparent s.fs.inode_to_path ≡ some new_parent
      → HashMap.get (child_path old_parent name) s.fs.path_to_inode ≡ some inode
      → is_dir (HashMap.get inode s.fs.inode_to_type) ≡ false
      → L.Clean (file_path data_dir (child_path old_parent name))
      → L.Clean (file_path data_dir (child_path new_parent newname))
      → L.Settled (file_path data_dir (child_path old_parent name)) (N.state s.world).disk
      → L.content (file_path data_dir (child_path old_parent name)) (N.state s.world).disk
        ≡ some content
      → file_path data_dir (child_path old_parent name)
        ≢ file_path data_dir (child_path new_parent newname)
      → (rename P depth parent (some name) newparent (some newname) s).0 ≡ ok tt
      → Moved L
          (file_path data_dir (child_path old_parent name))
          (file_path data_dir (child_path new_parent newname))
          content
          (N.state s.world).disk
          (N.state (rename P depth parent (some name) newparent (some newname) s).1.world).disk
  unfolding rename move_on_server path_of ◌>>=◌
  rename-Moved depth parent inode newparent old_parent name new_parent newname content plain
        new_plain ne new_ne mapped new_mapped known file clean new_clean settled there apart done =
      let old_path = child_path old_parent name in
      let new_path = child_path new_parent newname in
      let g = update_maps P old_path new_path old_parent new_parent in
      let move = move_file P old_path new_path s in
      let reached : rename P depth parent (some name) newparent (some newname) s
          ≡ resume move.0 (λ a. update P g) move.1 =
        rw (mapped, new_mapped, known, file) refl in
      let (moved_ok, same) = updated g move.0 move.1 (rw reached at done) in
      rw (reached, same)
        (move_file-Moved L whole R s N old_path new_path plain new_plain ne new_ne content clean
          new_clean settled there apart moved_ok)
