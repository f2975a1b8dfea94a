-- ===== src/Server/Routes/Calls.antt =====
-- The requests of the client reach the handlers that they are meant for.
use rust_remote_fs.Prelude.{
  ℕ, ◌≡◌, refl, ◌≢◌, Option, none, some, [], ◌∷◌, ◌++◌, Text, bytes, strip_prefix, fun_ext,
}
use rust_remote_fs.Wire.{Request}
use rust_remote_fs.Server.Disk.{Disk}
use rust_remote_fs.Server.Handlers.{ServerState}
use rust_remote_fs.Server.Routes.{
  Pattern, exact, before_rest, Web, routed, serve, route, file_methods, post_only, get_only,
  make_dir, list_path, list_root,
}
use rust_remote_fs.Client.Api.{files_url, list_url, mkdir_url}

-- All of a text, or a part behind a prefix that is not empty.
abbrev pub whole : Option Text → Option Text
whole (some []) = some []
whole _ = none

abbrev pub rest : Option Text → Option Text
rest none = none
rest (some []) = none
rest (some (c ∷ path)) = some (c ∷ path)

abbrev pub captured : Pattern → Text → Option Text
captured (exact p) path = whole (strip_prefix p path)
captured (before_rest p) path = rest (strip_prefix p path)

-- What axum documents of its patterns, and which paths a URL of the client's brings to the server
-- as they are: those without the signs that have a meaning in a URL.
pub record IsWeb {D : Disk} (web : Web D) (base_url : Text) : Type 1 where
  pub Plain : Text → Type 0
  pub capture_lem :
      (pattern : Pattern) (path : Text) → web.capture pattern path ≡ captured pattern path
  pub path_of_files :
      (path : Text)
      → Plain path
      → web.path_of_url (files_url base_url path) ≡ bytes "/files/" ++ path
  pub path_of_mkdir :
      (path : Text)
      → Plain path
      → web.path_of_url (mkdir_url base_url path) ≡ bytes "/mkdir/" ++ path
  pub path_of_list :
      (path : Text)
      → Plain path
      → path ≢ []
      → web.path_of_url (list_url base_url path) ≡ bytes "/list/" ++ path
  pub path_of_root : web.path_of_url (list_url base_url []) ≡ bytes "/list"

module _ {D : Disk} {web : Web D} {base_url : Text} (W : IsWeb web base_url) (data_dir : Text)
    (now : ℕ) (s : ServerState D) where
  same_capture : web.capture ≡ captured
  same_capture = fun_ext (λ pattern. fun_ext (λ path. W.capture_lem pattern path))

  -- A URL of each kind, with whatever method.
  pub serve-files :
      (req : Request) (path : Text)
      → path ≢ []
      → web.path_of_url req.url ≡ bytes "/files/" ++ path
      → serve D web data_dir req now s
        ≡ routed D web data_dir (file_methods req.method) path req now s
  unfolding serve route strip_prefix
  serve-files req [] ne e = absurd (ne refl)
  serve-files req (c ∷ path) ne e = rw (e, same_capture) refl

  pub serve-mkdir :
      (req : Request) (path : Text)
      → path ≢ []
      → web.path_of_url req.url ≡ bytes "/mkdir/" ++ path
      → serve D web data_dir req now s
        ≡ routed D web data_dir (post_only make_dir req.method) path req now s
  unfolding serve route strip_prefix
  serve-mkdir req [] ne e = absurd (ne refl)
  serve-mkdir req (c ∷ path) ne e = rw (e, same_capture) refl

  pub serve-list :
      (req : Request) (path : Text)
      → path ≢ []
      → web.path_of_url req.url ≡ bytes "/list/" ++ path
      → serve D web data_dir req now s
        ≡ routed D web data_dir (get_only list_path req.method) path req now s
  unfolding serve route strip_prefix
  serve-list req [] ne e = absurd (ne refl)
  serve-list req (c ∷ path) ne e = rw (e, same_capture) refl

  pub serve-root :
      (req : Request)
      → web.path_of_url req.url ≡ bytes "/list"
      → serve D web data_dir req now s
        ≡ routed D web data_dir (get_only list_root req.method) [] req now s
  unfolding serve route strip_prefix
  serve-root req e = rw (e, same_capture) refl
