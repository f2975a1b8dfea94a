-- ===== src/EndToEnd/Reading.antt =====
-- A `read` of the client, served by the server's `get_file`: client/src/fs/read.rs,
-- client/src/api_client.rs and server/src/handlers.rs together.
use rust_remote_fs.Prelude.{
  ℕ, ◌+◌, ◌-◌, ◌≤◌, ◌<◌, ◌≡◌, ap, ◌∙◌, Option, some, [], arith, Text, inl, inr, true, false, length,
  take, drop, drop-eq_nil, take-min, take-eq_self, length-drop, leb, Bool-cases, nat_eq,
}
use native.Mathlib.Decide.{dec_le}
use rust_remote_fs.HashMap
use rust_remote_fs.Radix.{u64_mod}
use rust_remote_fs.Wire.{Bytes, Method, Request, Response, is_error_status}
use rust_remote_fs.Outcome.{ok, ◌>>=◌}
use rust_remote_fs.Server.GetFile.{OpenFile, get_file}
use rust_remote_fs.Server.GetFile.Range.{
  ask, get_file_range, get_file_whole, parse_range-range_header,
}
use rust_remote_fs.Client.Platform.{Platform}
use rust_remote_fs.Client.State.{Sys, path_of}
use rust_remote_fs.Client.Api.{
  range_header, chunk_of, files_url, request, get_file_chunk_from_server,
}
use rust_remote_fs.Client.Read.{read}

-- `size` bytes from `offset`, or as many as there are.
abbrev pub slice : ℕ → ℕ → Bytes → Bytes
slice offset size content = take size (drop offset content)

chunk_of_partial :
    (offset size : ℕ) (r : Response) → r.status ≡ 206 → chunk_of offset size r ≡ r.body
unfolding chunk_of
chunk_of_partial offset size r h = ground arith

chunk_of_whole :
    (offset size : ℕ) (r : Response)
    → r.status ≡ 200
    → chunk_of offset size r ≡ slice offset size r.body
unfolding chunk_of
chunk_of_whole offset size r h = elim (Bool-cases (leb (length r.body) offset)) [
  | inl past ↦
      let empty : drop offset r.body ≡ [] = drop-eq_nil offset r.body (ground arith) in
      let rest : Bytes = [] in ground (arith, ap (take size) empty, take-eq_self size rest)
  | inr within ↦ ground (arith, take-min size (drop offset r.body), length-drop offset r.body)
]

module _ (file : OpenFile) (known : file.metadata_len ≡ some (length file.content))
    (seeks : (n : ℕ) → file.seek n ≡ true) (client_id : Option Text) (offset size : ℕ)
    (pos : 0 < size) (fits : offset + size < u64_mod) where
  last : ℕ
  last = offset + size - 1

  abbrev Served : Response → Type 0
  Served response =
      (is_error_status response.status ≡ false)
      × (chunk_of offset size response ≡ slice offset size file.content)

  Served-partial :
      last < length file.content → Served (ask file client_id (range_header offset last))
  unfolding last
  Served-partial lt =
      let parsed = parse_range-range_header offset last (omega arith) (omega arith) in
      let (status, body, _) =
        get_file_range file known seeks client_id (range_header offset last) parsed (omega arith)
          lt in
      let count : last - offset + 1 ≡ size = omega arith in
      (rw status, chunk_of_partial offset size _ status ∙ body ∙ rw count)

  Served-whole : length file.content ≤ last → Served (ask file client_id (range_header offset last))
  unfolding last
  Served-whole le =
      let parsed = parse_range-range_header offset last (omega arith) (omega arith) in
      let (status, body, _) =
        get_file_whole file known seeks client_id (range_header offset last)
          (λ a b p _. ground (arith, parsed)) in
      (rw status, chunk_of_whole offset size _ status ∙ ap (slice offset size) body)

  -- For an open file whose metadata tells its length and whose seeks succeed, and for any offset
  -- and positive size with an end below 2^64: the server's answer to the client's `Range` header is
  -- no error, and what the client takes from it is the slice of the file, whether the answer is 206
  -- or 200.
  chunk_of-ask : Served (ask file client_id (range_header offset (offset + size - 1)))
  unfolding last
  chunk_of-ask = elim (dec_le (length file.content) last) [
    | yes le ↦ Served-whole le
    | no more ↦ Served-partial (omega arith)
  ]

-- A `read` of the FUSE client at an inode that it knows, when the network delivers what `get_file`
-- answers for the file: the reply is the slice, and nothing of the client's state has changed.
module _ (P : Platform) (s : Sys P) (ino offset size : ℕ) (path : Text) (file : OpenFile) where
  abbrev pub read_request : Request
  read_request =
      request Method.get (files_url s.fs.config.server_url path)
        (some (range_header offset (offset + size - 1))) [] s.fs.client_id

  -- A `read` at a known inode, of at least one byte and with an end below 2^64, when the network
  -- delivers what `get_file` answers for an open file whose metadata tells its length and whose
  -- seeks succeed: the reply is the file's bytes from the offset, at most `size` of them, and the
  -- client's state is as before.
  pub read-get_file :
      HashMap.get ino s.fs.inode_to_path ≡ some path
      → (P.send read_request s.world).0 ≡ some (get_file (some file) read_request.headers)
      → file.metadata_len ≡ some (length file.content)
      → ((n : ℕ) → file.seek n ≡ true)
      → 0 < size
      → offset + size < u64_mod
      → read P ino offset size s ≡ (
        ok (slice offset size file.content),
        record s { world = (P.send read_request s.world).1 },
      )
  unfolding read get_file_chunk_from_server path_of ◌>>=◌
  read-get_file mapped delivered known seeks pos fits =
      let served = chunk_of-ask file known seeks (some s.fs.client_id) offset size pos fits in
      ground (arith, served)
