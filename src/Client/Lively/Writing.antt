-- ===== src/Client/Lively/Writing.antt =====
-- `write` and `release`, with blocks that end below 2^63: they do not panic.
use mathlib.Core.List.{Mem, mem-cons_self, mem-cons_of_mem, eq-or-mem_of_mem-cons}
use mathlib.Core.List.Perm
use mathlib.Core.Logic.Or
use native.Mathlib.Bridge.{le_prop}
use rust_remote_fs.Prelude.{
  ℕ, ◌+◌, ◌<◌, ◌≡◌, refl, inl, inr, Option, none, some, List, [], ◌∷◌, nat_eq, arith, length, ite,
  subst, sym,
}
use rust_remote_fs.HashMap
use rust_remote_fs.HashMap.{HashMap, get-remove}
use rust_remote_fs.Wire.{Bytes}
use rust_remote_fs.Outcome.{◌>>=◌}
use rust_remote_fs.Outcome.Calm.{
  Anything, calm_rules, Gives-bind, Gives-reads, Calm-reply, Calm-modify, Calm-bind, Calm-if, Ended,
}
use rust_remote_fs.Client.Attr.{isize_mod}
use rust_remote_fs.Client.Platform.{Platform}
use rust_remote_fs.Client.State.{Sys, OpenWriteFile, update}
use rust_remote_fs.Client.Write.{write_to, write, apply_blocks, upload, release_file, release}
use rust_remote_fs.Client.Write.Merge.{Block, end_of}
use rust_remote_fs.Client.Write.Order.{apply_blocks-merge}
use rust_remote_fs.Client.Lively.{IsUsual, Fits, FitsSys}
use rust_remote_fs.Client.Lively.Steps.{
  Lives, get_content-Lives, put_content-Lives, cache_remove-Lives, get-inserted,
}

-- Every block ends below 2^63.
abbrev AllEnd : List Block → Type 0
AllEnd blocks = (b : Block) → Mem b blocks → end_of b < isize_mod

AllEnd-cons :
    (a : Block) (blocks : List Block) → end_of a < isize_mod → AllEnd blocks → AllEnd (a ∷ blocks)
AllEnd-cons a blocks h hs b m =
    Or.elim le_prop (eq-or-mem_of_mem-cons m) (λ e. subst (λ x. end_of x < isize_mod) (sym e) h)
      (λ later. hs b later)

AllEnd-remove :
    (k : ℕ) (buffer : HashMap ℕ Bytes) → AllEnd buffer → AllEnd (HashMap.remove k buffer)
unfolding HashMap.remove
AllEnd-remove k [] h = h
AllEnd-remove k ((j, v) ∷ buffer) h =
    let rest = AllEnd-remove k buffer (λ b m. h b (mem-cons_of_mem (j, v) m)) in
    elim (nat_eq.dec j k)
      as (λ d. AllEnd (ite d (HashMap.remove k buffer) ((j, v) ∷ HashMap.remove k buffer))) [
        | yes same ↦ rest
        | no other ↦ AllEnd-cons (j, v) _ (h (j, v) mem-cons_self) rest
      ]

module _ {c inode next duration : ℕ} {files : HashMap ℕ OpenWriteFile}
    (h : Fits c inode next files duration) where
  buffer_written :
      (fh offset : ℕ) (block : Bytes) (f : OpenWriteFile)
      → HashMap.get fh files ≡ some f
      → offset + length block < isize_mod
      → Fits c inode next
          (HashMap.insert fh (record f { buffer = HashMap.insert offset block f.buffer }) files)
          duration
  unfolding HashMap.insert
  buffer_written fh offset block f found fits = record {
    inodes = h.inodes;
    handles = h.handles;
    blocks = λ k g e. elim (get-inserted fh k _ g _ e) [
      | inl same ↦
          subst (λ (x : OpenWriteFile). AllEnd x.buffer) same
            (AllEnd-cons (offset, block) _ fits
              (AllEnd-remove offset f.buffer (h.blocks fh f found)))
      | inr older ↦ h.blocks k g older
    ];
    time_to_live = h.time_to_live;
  }

  handle_closed : (fh : ℕ) → Fits c inode next (HashMap.remove fh files) duration
  handle_closed fh = record {
    inodes = h.inodes;
    handles = h.handles;
    blocks = λ k g e. h.blocks k g (ground (arith, get-remove fh k files));
    time_to_live = h.time_to_live;
  }

module _ {P : Platform} where
  write_to-Fits :
      (fh offset : ℕ) (block : Bytes) (c : ℕ) (s : Sys P) (o : Option OpenWriteFile)
      → HashMap.get fh s.fs.open_files ≡ o
      → offset + length block < isize_mod
      → FitsSys c s
      → FitsSys c (write_to P fh offset block o s).1
        × Ended Anything (write_to P fh offset block o s).0
  unfolding ◌>>=◌
  write_to-Fits fh offset block c s none found fits h = (h, tt)
  write_to-Fits fh offset block c s (some f) found fits h =
      (buffer_written h fh offset block f found fits, tt)

  pub write-Lives :
      (fh offset : ℕ) (block : Bytes)
      → offset + length block < isize_mod
      → Lives (write P fh offset block)
  unfolding write ◌>>=◌
  write-Lives fh offset block fits = record {
    at = λ c s h. write_to-Fits fh offset block c s _ refl fits h;
  }

  apply_blocks-Lives :
      (blocks : List Block) (v : Bytes) → AllEnd blocks → Lives (apply_blocks P blocks v)
  apply_blocks-Lives blocks v fits = record {
    at = λ c s h. rw (apply_blocks-merge P blocks v s fits) (h, tt);
  }

module _ {P : Platform} (U : IsUsual P) where
  upload-Lives : (ino : ℕ) (f : OpenWriteFile) → AllEnd f.buffer → Lives (upload P ino f)
  unfolding upload
  upload-Lives ino f fits = Calm-bind _ _ (get_content-Lives f.path) λ old_content.
      Gives-bind {Q = AllEnd} _ _
        (Gives-reads _ λ c s h b m. fits b ((Perm.mem_iff (U.order s.world f.buffer)).0 m))
        λ blocks all_end.
          Calm-bind _ _ (apply_blocks-Lives blocks _ all_end)
            λ new_data. search (calm_rules, put_content-Lives, cache_remove-Lives)

  release_file-Lives :
      (ino : ℕ) (o : Option OpenWriteFile)
      → ((f : OpenWriteFile) → o ≡ some f → AllEnd f.buffer)
      → Lives (release_file P ino o)
  release_file-Lives ino none fits = Calm-reply tt
  release_file-Lives ino (some f) fits =
      Calm-if _ _ _ (Calm-reply tt) (upload-Lives ino f (fits f refl))

  close-Lives :
      (fh : ℕ) → Lives (update P (λ fs. record fs { open_files = HashMap.remove fh fs.open_files }))
  close-Lives fh = Calm-modify _ (λ c s h. handle_closed h fh)

  pub release-Lives : (ino fh : ℕ) → Lives (release P ino fh)
  unfolding release
  release-Lives ino fh =
      Gives-bind {Q = λ o. (f : OpenWriteFile) → o ≡ some f → AllEnd f.buffer} _ _
        (Gives-reads _ λ c s h f found. h.blocks fh f found)
        λ found fits. Calm-bind _ _ (close-Lives fh) λ _. release_file-Lives ino found fits
