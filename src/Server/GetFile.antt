-- ===== src/Server/GetFile.antt =====
-- `get_file` of server/src/handlers.rs: a whole file, or the range that the header asks for.
pub mod Range
use rust_remote_fs.Prelude.{
  ℕ, ◌+◌, ◌-◌, Bool, ◌&&◌, Option, none, some, List, [], ◌∷◌, ◌++◌, Text, bytes, strip_prefix,
  split, take, drop, ltb, leb, if◌then◌else◌,
}
use rust_remote_fs.Radix.{print, from_str_radix, u64_mod}
use rust_remote_fs.Wire.{Bytes, Headers, Response, status_only}

-- A file that `File::open` has opened: what its metadata, its seek and its stream will give.
pub record OpenFile : Type 0 where
  pub metadata_len : Option ℕ
  pub seek : ℕ → Bool
  pub content : Bytes

-- The two numbers of "bytes=start-end".
parse_parts : List Text → Option (ℕ × ℕ)
parse_parts (first ∷ last ∷ []) = elim (from_str_radix 10 u64_mod first) [
  | none ↦ none
  | some start ↦ elim (from_str_radix 10 u64_mod last) [
    | none ↦ none
    | some end ↦ some (start, end)
  ]
]
parse_parts _ = none

unfoldable pub parse_range : Text → Option (ℕ × ℕ)
unfolding parse_parts
parse_range header = elim (strip_prefix (bytes "bytes=") header) [
  | none ↦ none
  | some range_str ↦ parse_parts (split b'-' range_str)
]

abbrev range_of : Headers → Option (ℕ × ℕ)
range_of headers = elim headers.range [ none ↦ none | some header ↦ parse_range header ]

-- 206 with the bytes from `start` to `end`, both included.
partial_content : OpenFile → ℕ → ℕ → ℕ → Response
partial_content file file_size start end =
    let content_length = (end - start) + 1 in
    if file.seek start
    then record {
      status = 206;
      content_range = some (
          bytes "bytes "
          ++ print 10 start
          ++ bytes "-"
          ++ print 10 end
          ++ bytes "/"
          ++ print 10 file_size);
      content_length = some (print 10 content_length);
      body = take content_length (drop start file.content);
    }
    else status_only 500

full_content : OpenFile → ℕ → Response
full_content file file_size = record {
  status = 200;
  content_range = none;
  content_length = some (print 10 file_size);
  body = file.content;
}

abbrev in_file : ℕ → ℕ → ℕ → Bool
in_file file_size start end = ltb start file_size && ltb end file_size && leb start end

-- An unreadable or unsatisfiable range falls back to the whole file.
send_file : OpenFile → ℕ → Option (ℕ × ℕ) → Response
send_file file file_size none = full_content file file_size
send_file file file_size (some (start, end)) =
    if in_file file_size start end
    then partial_content file file_size start end
    else full_content file file_size

send_opened : OpenFile → Headers → Response
send_opened file headers = elim file.metadata_len [
  | none ↦ status_only 500
  | some file_size ↦ send_file file file_size (range_of headers)
]

-- The handler, from what `File::open` returned.
unfoldable pub get_file : Option OpenFile → Headers → Response
unfolding send_opened send_file partial_content full_content
get_file none headers = status_only 404
get_file (some file) headers = send_opened file headers
