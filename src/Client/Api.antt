-- ===== src/Client/Api.antt =====
-- client/src/api_client.rs. A call acts on the world outside; `none` is an `Err` of its result.
use rust_remote_fs.Prelude.{
  ℕ, ◌-◌, ◌%◌, Option, none, some, List, [], ◌++◌, Text, bytes, is_empty, length, take, drop, leb,
  ◌==◌, if◌then◌else◌,
}
use Prim.Native.Nat.{min}
use rust_remote_fs.Radix.{print}
use rust_remote_fs.Wire.{Bytes, RemoteEntry, Method, Request, Response, is_error_status}
use rust_remote_fs.Outcome.{reply, ok, ◌>>=◌, add_u64, sub_u64}
use rust_remote_fs.Client.Platform.{Platform}
use rust_remote_fs.Client.State.{Fuse}

abbrev pub files_url : Text → Text → Text
files_url base_url path = base_url ++ (bytes "/files/" ++ path)

abbrev pub list_url : Text → Text → Text
list_url base_url path =
    if is_empty path then base_url ++ bytes "/list" else base_url ++ (bytes "/list/" ++ path)

abbrev pub mkdir_url : Text → Text → Text
mkdir_url base_url path = base_url ++ (bytes "/mkdir/" ++ path)

-- A status that is no error.
abbrev pub error_for_status : Option Response → Option Response
error_for_status none = none
error_for_status (some response) = if is_error_status response.status then none else some response

abbrev pub body_of : Option Response → Option Bytes
body_of none = none
body_of (some response) = some response.body

abbrev pub unit_of : Option Response → Option (Unit {0})
unit_of none = none
unit_of (some response) = some tt

-- What `get_file_chunk_from_server` makes of a response that is no error: the body of a 206, or
-- the part that was asked for of a whole file.
unfoldable pub chunk_of : ℕ → ℕ → Response → Bytes
chunk_of offset size response =
    if response.status == 206
    then response.body
    else if leb (length response.body) offset
    then []
    else take (min size (length response.body - offset)) (drop offset response.body)

unfoldable pub range_header : ℕ → ℕ → Text
range_header offset end = bytes "bytes=" ++ (print 10 offset ++ (bytes "-" ++ print 10 end))

-- A request as the client of this file system sends it: its id is a default header.
abbrev pub request : Method → Text → Option Text → Bytes → Text → Request
request method url range body client_id = record {
  method = method;
  url = url;
  headers = record { range = range; client_id = some client_id };
  body = body;
}

module _ (P : Platform) where
  -- `fs.runtime.block_on` of one exchange, with the configured server.
  unfoldable pub exchange : Method → (Text → Text) → Option Text → Bytes → Fuse P (Option Response)
  exchange method url range body s =
      let sent =
        P.send (request method (url s.fs.config.server_url) range body s.fs.client_id) s.world in
      (ok sent.0, record s { world = sent.1 })

  abbrev pub decoded : Option Response → Option (List RemoteEntry)
  decoded none = none
  decoded (some response) = P.decode_entries response.body

  -- The status is not looked at.
  unfoldable pub get_files_from_server : Text → Fuse P (Option (List RemoteEntry))
  unfolding exchange
  get_files_from_server path = do
    response ← exchange Method.get (λ base_url. list_url base_url path) none []
    reply (decoded response)

  unfoldable pub get_file_content_from_server : Text → Fuse P (Option Bytes)
  unfolding exchange
  get_file_content_from_server path = do
    response ← exchange Method.get (λ base_url. files_url base_url path) none []
    reply (body_of (error_for_status response))

  unfoldable pub put_file_content_to_server : Text → Bytes → Fuse P (Option (Unit {0}))
  unfolding exchange
  put_file_content_to_server path content = do
    response ← exchange Method.put (λ base_url. files_url base_url path) none content
    reply (unit_of (error_for_status response))

  unfoldable pub delete_resource : Text → Fuse P (Option (Unit {0}))
  unfolding exchange
  delete_resource path = do
    response ← exchange Method.delete (λ base_url. files_url base_url path) none []
    reply (unit_of (error_for_status response))

  unfoldable pub create_directory : Text → Fuse P (Option (Unit {0}))
  unfolding exchange
  create_directory path = do
    response ← exchange Method.post (λ base_url. mkdir_url base_url path) none []
    reply (unit_of (error_for_status response))

  -- `mode & 0o777`, in octal.
  unfoldable pub update_permissions : Text → ℕ → Fuse P (Option (Unit {0}))
  unfolding exchange
  update_permissions path mode = do
    let payload = P.encode_perm (print 8 (mode % 0o1000))
    response ← exchange Method.patch (λ base_url. files_url base_url path) none payload
    reply (unit_of (error_for_status response))

  abbrev chunk_result : ℕ → ℕ → Option Response → Option Bytes
  chunk_result offset size none = none
  chunk_result offset size (some response) = some (chunk_of offset size response)

  -- The last byte's position is computed on `u64`.
  unfoldable pub get_file_chunk_from_server : Text → ℕ → ℕ → Fuse P (Option Bytes)
  unfolding exchange
  get_file_chunk_from_server path offset size = do
    past ← add_u64 offset size
    end ← sub_u64 past 1
    response ←
        exchange Method.get (λ base_url. files_url base_url path) (some (range_header offset end))
          []
    reply (chunk_result offset size (error_for_status response))
