-- ===== src/EndToEnd/Network.antt =====
-- The calls of client/src/api_client.rs, when the network brings each request to the routes of
-- server/src/main.rs: a remote call does what its handler does.
use rust_remote_fs.Prelude.{
  ℕ, ◌%◌, ◌≡◌, refl, ◌≢◌, ap, ◌∙◌, Bool-cases, Option, none, some, inl, inr, List, [], ◌∷◌, Text,
  if◌then◌else◌,
}
use rust_remote_fs.Radix.{print}
use rust_remote_fs.Wire.{Bytes, Method, Headers, Request, RemoteEntry, status_only, is_error_status}
use rust_remote_fs.Outcome.{Outcome, ok, ◌>>=◌}
use rust_remote_fs.Server.Disk.{Disk}
use rust_remote_fs.Server.GetFile.{get_file}
use rust_remote_fs.Server.Handlers.{
  ServerState, file_path, put_file, delete_file, mkdir, patch_file, list_directory_contents,
}
use rust_remote_fs.Server.Routes.{Web, serve, handle, listed}
use rust_remote_fs.Server.Routes.Calls.{IsWeb, serve-files, serve-mkdir, serve-list, serve-root}
use rust_remote_fs.Client.Platform.{Platform}
use rust_remote_fs.Client.State.{Sys}
use rust_remote_fs.Client.Api.{
  request, files_url, mkdir_url, list_url, error_for_status, body_of, unit_of,
  put_file_content_to_server, delete_resource, create_directory, update_permissions,
  get_files_from_server, get_file_content_from_server,
}

-- The world holds the server's state, and serves one request after the other.
pub record IsServed (P : Platform) (D : Disk) (web : Web D) (data_dir base_url : Text)
    : Type 1 where
  pub urls : IsWeb web base_url
  pub state : P.World → ServerState D
  pub clock : P.World → ℕ
  pub send_answer :
      (req : Request) (w : P.World)
      → (P.send req w).0 ≡ some (serve D web data_dir req (clock w) (state w)).0
  pub send_state :
      (req : Request) (w : P.World)
      → state (P.send req w).1 ≡ (serve D web data_dir req (clock w) (state w)).1
  -- What serde_json writes it reads back, and an empty body is no JSON.
  pub json_entries :
      (entries : List RemoteEntry) → P.decode_entries (web.json_entries entries) ≡ some entries
  pub json_empty : P.decode_entries [] ≡ none
  pub json_perm : (perm : Text) → web.json_perm (P.encode_perm perm) ≡ inr perm

module _ {P : Platform} {D : Disk} {web : Web D} {data_dir : Text} (s : Sys P)
    (N : IsServed P D web data_dir s.fs.config.server_url) where
  abbrev pub headers : Headers
  headers = record { range = none; client_id = some s.fs.client_id }

  abbrev pub served_at : ServerState D
  served_at = N.state s.world

  -- A status that is no error is a success.
  abbrev pub succeeded : ℕ → Option (Unit {0})
  succeeded status = if is_error_status status then none else some tt

  -- The call has done what the handler does, tells whether that has succeeded, and leaves the
  -- client's own state alone.
  abbrev pub Does : Outcome (Option Unit) × Sys P → ℕ × ServerState D → Type 0
  Does result done =
      (result.0 ≡ ok (succeeded done.0)) × (N.state result.1.world ≡ done.1) × (result.1.fs ≡ s.fs)

  -- The call has read what the handler reads, and nothing has changed.
  abbrev pub Reads : {A : Type 0} → Outcome A × Sys P → A → Type 0
  Reads result found =
      (result.0 ≡ ok found) × (N.state result.1.world ≡ served_at) × (result.1.fs ≡ s.fs)

  unit_of_status : (n : ℕ) → unit_of (error_for_status (some (status_only n))) ≡ succeeded n
  unit_of_status n = elim (Bool-cases (is_error_status n)) [
    | inl bad ↦ rw bad refl
    | inr fine ↦ rw fine refl
  ]

  now : ℕ
  now = N.clock s.world

  base_url : Text
  base_url = s.fs.config.server_url

  -- What a response of the server's leaves of a call.
  module _ (path : Text) (plain : N.urls.Plain path) (ne : path ≢ []) where
    put-Does :
        (content : Bytes)
        → Does
            (put_file_content_to_server P path content s)
            (put_file D data_dir path headers now (web.frames_of content) served_at)
    unfolding put_file_content_to_server handle ◌>>=◌ now base_url
    put-Does content =
        let req = request Method.put (files_url base_url path) none content s.fs.client_id in
        let reached =
          serve-files N.urls data_dir now served_at req path ne (N.urls.path_of_files path plain) in
        (
          rw (N.send_answer req s.world, reached)
              (ap ok (
                unit_of_status
                  (put_file D data_dir path headers now (web.frames_of content) served_at).0)),
          N.send_state req s.world ∙ ap (λ r. r.1) reached,
          refl,
        )

    delete-Does :
        Does (delete_resource P path s) (delete_file D data_dir path headers now served_at)
    unfolding delete_resource handle ◌>>=◌ now base_url
    delete-Does =
        let req = request Method.delete (files_url base_url path) none [] s.fs.client_id in
        let reached =
          serve-files N.urls data_dir now served_at req path ne (N.urls.path_of_files path plain) in
        (
          rw (N.send_answer req s.world, reached)
              (ap ok (unit_of_status (delete_file D data_dir path headers now served_at).0)),
          N.send_state req s.world ∙ ap (λ r. r.1) reached,
          refl,
        )

    mkdir-Does : Does (create_directory P path s) (mkdir D data_dir path headers now served_at)
    unfolding create_directory handle ◌>>=◌ now base_url
    mkdir-Does =
        let req = request Method.post (mkdir_url base_url path) none [] s.fs.client_id in
        let reached =
          serve-mkdir N.urls data_dir now served_at req path ne (N.urls.path_of_mkdir path plain) in
        (
          rw (N.send_answer req s.world, reached)
              (ap ok (unit_of_status (mkdir D data_dir path headers now served_at).0)),
          N.send_state req s.world ∙ ap (λ r. r.1) reached,
          refl,
        )

    chmod-Does :
        (mode : ℕ)
        → Does
            (update_permissions P path mode s)
            (patch_file D data_dir path headers now (print 8 (mode % 0o1000)) served_at)
    unfolding update_permissions handle ◌>>=◌ now base_url
    chmod-Does mode =
        let perm = print 8 (mode % 0o1000) in
        let req =
          request Method.patch (files_url base_url path) none (P.encode_perm perm) s.fs.client_id in
        let reached =
          serve-files N.urls data_dir now served_at req path ne (N.urls.path_of_files path plain) in
        (
          rw (N.send_answer req s.world, reached, N.json_perm perm)
              (ap ok (
                unit_of_status
                  (patch_file D data_dir path headers now (print 8 (mode % 0o1000)) served_at).0)),
          rw (N.send_state req s.world, reached, N.json_perm perm) refl,
          refl,
        )

    content-Reads : Reads (get_file_content_from_server P path s) (
        body_of (
          error_for_status
            (some (get_file (web.open_file (file_path data_dir path) served_at.disk) headers))))
    unfolding get_file_content_from_server handle ◌>>=◌ now base_url
    content-Reads =
        let req = request Method.get (files_url base_url path) none [] s.fs.client_id in
        let reached =
          serve-files N.urls data_dir now served_at req path ne (N.urls.path_of_files path plain) in
        (
          rw (N.send_answer req s.world, reached) refl,
          N.send_state req s.world ∙ ap (λ r. r.1) reached,
          refl,
        )

    -- A path that is not empty and that a URL carries as it is, when the network brings each
    -- request to the server's routes and the answer back, the routes match as axum documents, and
    -- JSON is read as it was written: the client's calls to put content, to delete, to make a
    -- directory and to set permissions leave the server as the handler of that name does, succeed
    -- exactly if its status is no error, and its call for a file's content gets what `get_file`
    -- gives. The client's own state is as before, and the last call leaves the server's too.
    pub api-Does :
        (content : Bytes) (mode : ℕ)
        → Does
            (put_file_content_to_server P path content s)
            (put_file D data_dir path headers (N.clock s.world) (web.frames_of content) served_at)
          × Does
              (delete_resource P path s)
              (delete_file D data_dir path headers (N.clock s.world) served_at)
          × Does
              (create_directory P path s)
              (mkdir D data_dir path headers (N.clock s.world) served_at)
          × Does (update_permissions P path mode s) (
              patch_file D data_dir path headers
                (N.clock s.world)
                (print 8 (mode % 0o1000))
                served_at)
          × Reads (get_file_content_from_server P path s) (
              body_of (
                error_for_status (
                  some
                    (get_file (web.open_file (file_path data_dir path) served_at.disk) headers))))
    unfolding now
    api-Does content mode =
        (put-Does content, delete-Does, mkdir-Does, chmod-Does mode, content-Reads)

  listed-decoded :
      (entries : Option (List RemoteEntry))
      → P.decode_entries (listed D web data_dir entries).body ≡ entries
  listed-decoded none = N.json_empty
  listed-decoded (some entries) = N.json_entries entries

  -- Over such a network, for the root or for a path that a URL carries as it is: the client's call
  -- for a listing gives the entries that `list_directory_contents` finds, and an error if it finds
  -- no directory, though the call looks at no status. Nothing changes on either side.
  pub listing-Reads :
      (path : Text)
      → N.urls.Plain path
      → Reads
          (get_files_from_server P path s)
          (list_directory_contents D data_dir path served_at.disk)
  unfolding get_files_from_server handle ◌>>=◌ now base_url
  listing-Reads [] plain =
      let req = request Method.get (list_url base_url []) none [] s.fs.client_id in
      let reached = serve-root N.urls data_dir now served_at req N.urls.path_of_root in
      (
        rw (N.send_answer req s.world, reached)
            (ap ok (listed-decoded (list_directory_contents D data_dir [] served_at.disk))),
        N.send_state req s.world ∙ ap (λ r. r.1) reached,
        refl,
      )
  listing-Reads (c ∷ path) plain =
      let req = request Method.get (list_url base_url (c ∷ path)) none [] s.fs.client_id in
      let ne : (c ∷ path) ≢ [] = λ e. cc in
      let reached =
        serve-list N.urls data_dir now served_at req (c ∷ path) ne
          (N.urls.path_of_list (c ∷ path) plain ne) in
      (
        rw (N.send_answer req s.world, reached)
            (ap ok (listed-decoded (list_directory_contents D data_dir (c ∷ path) served_at.disk))),
        N.send_state req s.world ∙ ap (λ r. r.1) reached,
        refl,
      )
