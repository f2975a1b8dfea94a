-- ===== src/Client/Write/Merge.antt =====
-- The file that `release` uploads, byte by byte.
use Prim.Native.Nat.{max}
use rust_remote_fs.Prelude.{
  ℕ, ◌+◌, ◌-◌, ◌≤◌, ◌≡◌, Option, none, some, Bool, ◌&&◌, ◌++◌, arith, length, get_elem?, take, drop,
  replicate, length-append, length-take, length-drop, length-replicate, ltb, leb, if◌then◌else◌,
}
use rust_remote_fs.Prelude.Positions.{
  get_elem?-append, get_elem?-take, get_elem?-drop, get_elem?-replicate, get_elem?-eq_none,
}
use rust_remote_fs.Wire.{Bytes}
use rust_remote_fs.Client.Attr.{resized}
use rust_remote_fs.Client.Write.{grow, apply_block}

abbrev pub Block : Type 0
Block = ℕ × Bytes

abbrev pub end_of : Block → ℕ
end_of b = b.0 + length b.1

abbrev pub covers : Block → ℕ → Bool
covers b i = leb b.0 i && ltb i (end_of b)

-- What is read at a position past the old end is a zero, up to the new end.
abbrev pub padded : Bytes → ℕ → ℕ → Option ℕ
padded v end i = if ltb i (length v) then get_elem? v i else if ltb i end then some 0 else none

length-resize : (n : ℕ) (v : Bytes) → length v ≤ n → length (resized n v) ≡ n
unfolding resized
length-resize n v h = omega (
  arith,
  length-append (take n v) (replicate (n - length v) 0),
  length-take n v,
  length-replicate {A = ℕ} (n - length v) 0,
)

get_elem?-resize :
    (n : ℕ) (v : Bytes) (i : ℕ) → length v ≤ n → get_elem? (resized n v) i ≡ padded v n i
unfolding resized
get_elem?-resize n v i h = ground (
  arith,
  get_elem?-append (take n v) (replicate (n - length v) 0) i,
  length-take n v,
  get_elem?-take n v i,
  get_elem?-replicate {A = ℕ} (n - length v) 0 (i - length (take n v)),
)

length-grow : (end : ℕ) (v : Bytes) → length (grow end v) ≡ max (length v) end
length-grow end v = ground (arith, length-resize end v)

get_elem?-grow : (end : ℕ) (v : Bytes) (i : ℕ) → get_elem? (grow end v) i ≡ padded v end i
get_elem?-grow end v i = ground (arith, get_elem?-resize end v i, get_elem?-eq_none v i)

-- A block makes the file as long as its own end, or leaves the length.
pub length-apply_block :
    (b : Block) (v : Bytes) → length (apply_block b v) ≡ max (length v) (end_of b)
unfolding apply_block
length-apply_block (start, block) v =
    let grown = grow (start + length block) v in
    omega (
      arith,
      length-append (take start grown) (block ++ drop (start + length block) grown),
      length-append block (drop (start + length block) grown),
      length-take start grown,
      length-drop (start + length block) grown,
      length-grow (start + length block) v,
    )

-- After a block is written, each position that it covers holds its byte, and every other one the
-- old byte, or a zero between the old end and the block's end.
pub get_elem?-apply_block :
    (b : Block) (v : Bytes) (i : ℕ)
    → get_elem? (apply_block b v) i
      ≡ (if covers b i then get_elem? b.1 (i - b.0) else padded v (end_of b) i)
unfolding apply_block
get_elem?-apply_block (start, block) v i =
    let end = start + length block in
    let grown = grow end v in
    ground (
      arith,
      get_elem?-append (take start grown) (block ++ drop end grown) i,
      get_elem?-append block (drop end grown) (i - length (take start grown)),
      length-take start grown,
      length-grow end v,
      get_elem?-take start grown i,
      get_elem?-drop end grown (i - length (take start grown) - length block),
      get_elem?-grow end v i,
    )
