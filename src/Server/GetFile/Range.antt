-- ===== src/Server/GetFile/Range.antt =====
-- The `Range` header, and the responses that it leads to.
use rust_remote_fs.Prelude.{
  ℕ, ◌+◌, ◌-◌, ◌≤◌, ◌<◌, ◌≡◌, Option, some, [], ◌∷◌, ◌++◌, arith, Text, bytes, split,
  strip_prefix-append, split-append, split_of_Lacks, Lacks, Option-cases, inl, inr, length, take,
  drop, length-take, length-drop, ◌∙◌, true,
}
use rust_remote_fs.Radix.{print, u64_mod}
use rust_remote_fs.Radix.RoundTrip.{from_str_radix-print, Lacks-print, below_digits}
use rust_remote_fs.Wire.{Response}
use rust_remote_fs.Server.GetFile.{OpenFile, parse_range, get_file}
use rust_remote_fs.Client.Api.{range_header}

no_dash : (n : ℕ) → Lacks b'-' (print 10 n)
no_dash n = Lacks-print b'-' (below_digits b'-' (omega arith)) 10 (omega arith) (omega arith) n

split_numbers :
    (a b : ℕ) → split b'-' (print 10 a ++ b'-' ∷ print 10 b) ≡ print 10 a ∷ print 10 b ∷ []
split_numbers a b =
    split-append b'-' (print 10 a) (print 10 b) (no_dash a)
    ∙ rw (split_of_Lacks b'-' (print 10 b) (no_dash b))

-- The server reads back the two positions that the client prints, if both are below 2^64.
pub parse_range-range_header :
    (a b : ℕ) → a < u64_mod → b < u64_mod → parse_range (range_header a b) ≡ some (a, b)
unfolding parse_range range_header
parse_range-range_header a b ha hb = ground (
  arith,
  strip_prefix-append (bytes "bytes=") (print 10 a ++ b'-' ∷ print 10 b),
  split_numbers a b,
  from_str_radix-print 10 u64_mod (omega arith) (omega arith) a ha,
  from_str_radix-print 10 u64_mod (omega arith) (omega arith) b hb,
)

-- The response to a request with this `Range` header.
abbrev pub ask : OpenFile → Option Text → Text → Response
ask file client_id header =
    get_file (some file) (record { range = some header; client_id = client_id })

-- The handler on a file whose metadata and seek succeed.
module _ (file : OpenFile) (known : file.metadata_len ≡ some (length file.content))
    (seeks : (n : ℕ) → file.seek n ≡ true) (client_id : Option Text) where
  content_length-range :
      (a b : ℕ)
      → a ≤ b
      → b < length file.content
      → length (take (b - a + 1) (drop a file.content)) ≡ b - a + 1
  content_length-range a b le lt =
      omega (arith, length-take (b - a + 1) (drop a file.content), length-drop a file.content)

  -- On an open file whose metadata tells its length and whose seeks succeed, a header that names a
  -- range in the file gives 206, the bytes of the range with both ends, and their number as the
  -- length.
  pub get_file_range :
      (header : Text) {a b : ℕ}
      → parse_range header ≡ some (a, b)
      → a ≤ b
      → b < length file.content
      → ((ask file client_id header).status ≡ 206)
        × ((ask file client_id header).body ≡ take (b - a + 1) (drop a file.content))
        × ((ask file client_id header).content_length
            ≡ some (print 10 (length (ask file client_id header).body)))
  unfolding get_file
  get_file_range header {a} {b} parsed le lt =
      ground (arith, seeks a, content_length-range a b le lt)

  -- On such a file, a header that cannot be read, or whose range is reversed or ends past the file,
  -- gives 200, the whole file and its size.
  pub get_file_whole :
      (header : Text)
      → ((a b : ℕ) → parse_range header ≡ some (a, b) → a ≤ b → length file.content ≤ b)
      → ((ask file client_id header).status ≡ 200)
        × ((ask file client_id header).body ≡ file.content)
        × ((ask file client_id header).content_length
            ≡ some (print 10 (length (ask file client_id header).body)))
  unfolding get_file
  get_file_whole header out = elim (Option-cases (parse_range header)) [
    | inl nothing ↦ ground arith
    | inr (((a, b), parsed)) ↦ ground (arith, out a b)
  ]
