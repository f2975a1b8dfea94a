-- ===== src/Tests/Writing.antt =====
-- Two blocks that stand apart, written to "abcdef".
use mathlib.Core.List.{Pairwise, Perm, Mem, forall_mem-cons, not-mem-nil, perm_append_comm}
use rust_remote_fs.Prelude.{
  ℕ, List, ◌≡◌, ◌<◌, refl, arith, some, false, [], ◌∷◌, bytes, length, get_elem?, nat_eq,
}
use native.Mathlib.Bridge.{le_prop}
use rust_remote_fs.HashMap
use rust_remote_fs.Outcome.{ok, reply, ◌>>=◌}
use rust_remote_fs.Client.Attr.{isize_mod}
use rust_remote_fs.Client.State.{Sys, cache_remove}
use rust_remote_fs.Client.Api.{get_file_content_from_server}
use rust_remote_fs.Server.GetFile.{get_file}
use rust_remote_fs.Client.Write.{apply_block, release}
use rust_remote_fs.Client.Write.Merge.{Block, covers, end_of, padded}
use rust_remote_fs.Client.Write.Order.{merge, IsApart, merge-perm, merge-covered, merge-uncovered}
use rust_remote_fs.Client.Write.Release.{closed, finish, release_uploads}
use rust_remote_fs.Wire.{status_only}
use rust_remote_fs.Client.Api.{put_file_content_to_server}
use rust_remote_fs.Server.Handlers.{ServerState, Frame, put_file, put_frames}
use rust_remote_fs.Server.Handlers.PutFile.{body_bytes}
use rust_remote_fs.EndToEnd.Storing.{put_request, served, release-put_file}
use rust_remote_fs.Tests.Storing.{on_floppy, floppy, floppy-IsDisk, server}
use rust_remote_fs.Tests.World.{here, here-IsHashOrder, open_sys, blocks, written}

-- What holds of the second block, and of both.
in_tail :
    (p : Block → Type 0)
    → ((b : Block) → IsProp (p b))
    → p (7, bytes "Z")
    → (b : Block) → Mem b ((7, bytes "Z") ∷ [])
    → p b
in_tail p pP second = (forall_mem-cons pP).1 (second, λ b m. absurd (not-mem-nil m))

pub in_blocks :
    (p : Block → Type 0)
    → ((b : Block) → IsProp (p b))
    → p (0, bytes "XY")
    → p (7, bytes "Z")
    → (b : Block) → Mem b blocks
    → p b
in_blocks p pP first second = (forall_mem-cons pP).1 (first, in_tail p pP second)

pub blocks-IsApart : Pairwise IsApart blocks
blocks-IsApart =
    Pairwise.cons (in_tail (IsApart (0, bytes "XY")) (λ b. hlevel) refl)
      (Pairwise.cons (λ b m. absurd (not-mem-nil m)) Pairwise.nil)

swapped : Perm blocks ((7, bytes "Z") ∷ (0, bytes "XY") ∷ [])
swapped = perm_append_comm ((0, bytes "XY") ∷ []) ((7, bytes "Z") ∷ [])

merge-perm_example :
    merge blocks (bytes "abcdef") ≡ merge ((7, bytes "Z") ∷ (0, bytes "XY") ∷ []) (bytes "abcdef")
merge-perm_example = merge-perm swapped (bytes "abcdef") blocks-IsApart

merge-covered_example : get_elem? (merge blocks (bytes "abcdef")) 1 ≡ some b'Y'
merge-covered_example =
    merge-covered [] ((7, bytes "Z") ∷ []) (0, bytes "XY") (bytes "abcdef") 1 blocks-IsApart refl

six_uncovered : (b : Block) → Mem b blocks → covers b 6 ≡ false
six_uncovered = in_blocks (λ b. covers b 6 ≡ false) (λ b. hlevel) refl refl

merge-uncovered_example :
    get_elem? (merge blocks (bytes "abcdef")) 6
    ≡ padded (bytes "abcdef") (length (merge blocks (bytes "abcdef"))) 6
merge-uncovered_example = merge-uncovered blocks (bytes "abcdef") 6 six_uncovered

pub blocks-fit : (b : Block) → Mem b blocks → end_of b < isize_mod
blocks-fit = in_blocks (λ b. end_of b < isize_mod) (λ b. le_prop) (omega arith) (omega arith)

handle_known : HashMap.get 1 open_sys.fs.open_files ≡ some written
unfolding HashMap.get
handle_known = ground arith

-- The file comes whole from the server, and one request later the blocks are merged into it.
abbrev fetched_sys : Sys here
fetched_sys = record (closed here 1 open_sys) { world = 6 }

fetched :
    get_file_content_from_server here (bytes "a") (closed here 1 open_sys)
    ≡ (ok (some (bytes "abcdef")), fetched_sys)
unfolding get_file_content_from_server ◌>>=◌ get_file reply
fetched = refl

release_uploads_example :
    release here 2 1 open_sys ≡ finish here 2 written (merge blocks (bytes "abcdef")) fetched_sys
release_uploads_example =
    release_uploads here here-IsHashOrder 2 1 open_sys fetched_sys written (some (bytes "abcdef"))
      handle_known (λ e. cc) blocks-IsApart blocks-fit fetched

-- The file as it is uploaded, in two frames.
abbrev uploaded : List Frame
uploaded = some (some (bytes "XYcdef")) ∷ some (some (0 ∷ bytes "Z")) ∷ []

carried : body_bytes uploaded ≡ merge blocks (bytes "abcdef")
unfolding body_bytes merge apply_block
carried = refl

abbrev stored : ℕ × ServerState floppy
stored =
    served here floppy (bytes "/data") 7 uploaded server fetched_sys (bytes "a")
      (merge blocks (bytes "abcdef"))

delivered :
    (here.send (put_request here fetched_sys (bytes "a") (merge blocks (bytes "abcdef"))) 6).0
    ≡ some (status_only stored.0)
unfolding put_file put_frames
delivered = refl

released : (release here 2 1 open_sys).0 ≡ ok tt
unfolding put_file_content_to_server ◌>>=◌ cache_remove
released =
    rw
      (release_uploads here here-IsHashOrder 2 1 open_sys fetched_sys written
        (some (bytes "abcdef")) handle_known (λ e. cc) blocks-IsApart blocks-fit fetched)
      refl

release-put_file_example :
    floppy-IsDisk.stored (bytes "/data/a") stored.1.disk ≡ some (merge blocks (bytes "abcdef"))
release-put_file_example =
    release-put_file here here-IsHashOrder floppy floppy-IsDisk (bytes "/data") 7 2 1 uploaded
      server open_sys fetched_sys written (some (bytes "abcdef")) handle_known (λ e. cc)
      blocks-IsApart blocks-fit fetched carried delivered released
      (on_floppy (bytes "/data/a") stored.1.disk).1
