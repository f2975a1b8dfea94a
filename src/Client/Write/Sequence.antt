-- ===== src/Client/Write/Sequence.antt =====
-- The `write` calls on one handle, in order, and the `release` after them.
use mathlib.Core.List.{
  Pairwise, append-nil, Perm, Mem, perm_middle, mem-cons_self, mem-cons_of_mem, Pairwise-cons,
}
use mathlib.Core.List.Perm
use rust_remote_fs.Prelude.{
  ℕ, ◌<◌, ◌≡◌, refl, ◌≢◌, ap, sym, ◌∙◌, Option, none, some, List, [], ◌∷◌, ◌++◌, arith, length,
  nat_eq,
}
use rust_remote_fs.HashMap
use rust_remote_fs.HashMap.{HashMap, get-insert, remove-absent, get-nil}
use rust_remote_fs.Wire.{Bytes}
use rust_remote_fs.Outcome.{ok, ◌>>=◌}
use rust_remote_fs.Client.Attr.{isize_mod}
use rust_remote_fs.Client.Platform.{Platform, IsHashOrder}
use rust_remote_fs.Client.State.{Sys, OpenWriteFile}
use rust_remote_fs.Client.Api.{get_file_content_from_server}
use rust_remote_fs.Client.Attr.{or_empty}
use rust_remote_fs.Client.Write.{write, release}
use rust_remote_fs.Client.Write.Merge.{Block, end_of}
use rust_remote_fs.Client.Write.Order.{merge, IsApart, merge-perm}
use rust_remote_fs.Client.Write.Release.{closed, finish, release_uploads}

-- The buffer after these writes.
buffered : List Block → HashMap ℕ Bytes → HashMap ℕ Bytes
buffered [] m = m
buffered (b ∷ blocks) m = buffered blocks (HashMap.insert b.0 b.1 m)

abbrev Differ : Block → Block → Type 0
Differ b c = b.0 ≢ c.0

-- At a key that is not in use, an entry is put in front.
insert_new :
    (k : ℕ) (v : Bytes) (m : HashMap ℕ Bytes)
    → HashMap.get k m ≡ none
    → HashMap.insert k v m ≡ (k, v) ∷ m
unfolding HashMap.insert
insert_new k v m h = ap (λ r. (k, v) ∷ r) (remove-absent k m h)

buffered-perm :
    (blocks : List Block) (m : HashMap ℕ Bytes)
    → Pairwise Differ blocks
    → ((b : Block) → Mem b blocks → HashMap.get b.0 m ≡ none)
    → Perm (buffered blocks m) (blocks ++ m)
unfolding buffered
buffered-perm [] m apart new = Perm.refl m
buffered-perm (b ∷ blocks) m apart new =
    let fresh = insert_new b.0 b.1 m (new b mem-cons_self) in
    let rest = Pairwise-cons.0 apart in
    Perm.trans
      (buffered-perm blocks (HashMap.insert b.0 b.1 m) rest.1 (λ c among.
        ground (arith, get-insert b.0 c.0 b.1 m, rest.0 c among, new c (mem-cons_of_mem b among))))
      (rw fresh (perm_middle blocks m))

-- Two blocks that share no position and are not empty begin at different positions.
length_pos : (v : Bytes) → v ≢ [] → 0 < length v
length_pos [] ne = absurd (ne refl)
length_pos (x ∷ v) ne = omega arith

Differ-of_apart : (b c : Block) → b.1 ≢ [] → c.1 ≢ [] → IsApart b c → Differ b c
Differ-of_apart b c nb nc apart same = ground (arith, length_pos b.1 nb, length_pos c.1 nc)

Pairwise-Differ :
    (blocks : List Block)
    → ((b : Block) → Mem b blocks → b.1 ≢ [])
    → Pairwise IsApart blocks
    → Pairwise Differ blocks
Pairwise-Differ [] full apart = Pairwise.nil
Pairwise-Differ (b ∷ blocks) full apart =
    let rest = Pairwise-cons.0 apart in
    Pairwise.cons
      (λ c m.
        Differ-of_apart b c (full b mem-cons_self) (full c (mem-cons_of_mem b m)) (rest.0 c m))
      (Pairwise-Differ blocks (λ c m. full c (mem-cons_of_mem b m)) rest.1)

-- A buffer that began empty holds what was written.
buffered_new :
    (blocks : List Block) (f : OpenWriteFile)
    → f.buffer ≡ []
    → Pairwise IsApart blocks
    → ((b : Block) → Mem b blocks → b.1 ≢ [])
    → Perm (buffered blocks f.buffer) blocks
buffered_new blocks f empty apart full = rw empty (
    rw append-nil at
      (buffered-perm blocks [] (Pairwise-Differ blocks full apart) (λ b m. get-nil b.0)))

IsApart-comm : (b c : Block) → IsApart b c → IsApart c b
IsApart-comm b c h = ground arith

module _ (P : Platform) where
  -- The calls, each from where the one before has left the client.
  pub write_each : ℕ → List Block → Sys P → Sys P
  write_each fh [] s = s
  write_each fh (b ∷ blocks) s = write_each fh blocks (write P fh b.0 b.1 s).1

  write-buffer :
      (b : Block) (fh : ℕ) (s : Sys P) (f : OpenWriteFile)
      → HashMap.get fh s.fs.open_files ≡ some f
      → HashMap.get fh (write P fh b.0 b.1 s).1.fs.open_files
        ≡ some (record f { buffer = HashMap.insert b.0 b.1 f.buffer })
  unfolding write ◌>>=◌
  write-buffer b fh s f is_open = rw is_open (
      ground (
        arith,
        get-insert fh fh (record f { buffer = HashMap.insert b.0 b.1 f.buffer }) s.fs.open_files,
      ))

  write_each-buffered :
      (fh : ℕ) (blocks : List Block) (s : Sys P) (f : OpenWriteFile)
      → HashMap.get fh s.fs.open_files ≡ some f
      → HashMap.get fh (write_each fh blocks s).fs.open_files
        ≡ some (record f { buffer = buffered blocks f.buffer })
  unfolding write_each buffered
  write_each-buffered fh [] s f is_open = is_open
  write_each-buffered fh (b ∷ blocks) s f is_open =
      write_each-buffered fh blocks (write P fh b.0 b.1 s).1
        (record f { buffer = HashMap.insert b.0 b.1 f.buffer }) (write-buffer b fh s f is_open)

  -- At least one block, each with at least one byte and an end below 2^63, no two of which share a
  -- position, written one after the other to an open handle with an empty buffer, and a network
  -- that then answers the GET with content or with an error status: the `release` that follows
  -- uploads the merge of the blocks, in the order in which they were written, into the content, or
  -- into an empty file after an error.
  pub write_each-release :
      IsHashOrder P
      → (ino fh : ℕ) (blocks : List Block) (s t : Sys P) (f : OpenWriteFile) (old : Option Bytes)
      → HashMap.get fh s.fs.open_files ≡ some f
      → f.buffer ≡ []
      → blocks ≢ []
      → ((b : Block) → Mem b blocks → (b.1 ≢ []) × (end_of b < isize_mod))
      → Pairwise IsApart blocks
      → get_file_content_from_server P f.path (closed P fh (write_each fh blocks s)) ≡ (ok old, t)
      → release P ino fh (write_each fh blocks s) ≡ finish P ino f (merge blocks (or_empty old)) t
  write_each-release order ino fh blocks s t f old is_open empty some_block fits apart fetched =
      let perm : Perm (buffered blocks f.buffer) blocks =
        buffered_new blocks f empty apart (λ b m. (fits b m).0) in
      let back = Perm.symm perm in
      let file : OpenWriteFile = record f { buffer = buffered blocks f.buffer } in
      release_uploads P order ino fh (write_each fh blocks s) t file old
        (write_each-buffered fh blocks s f is_open)
        (λ none_left. some_block (Perm.eq-nil (rw none_left at back)))
        (Perm.pairwise (λ b c. hlevel) (λ b c h. IsApart-comm b c h) back apart)
        (λ b m. (fits b ((Perm.mem_iff perm).0 m)).1) fetched
      ∙ ap (λ v. finish P ino f v t) (sym (merge-perm back (or_empty old) apart))
