-- ===== src/Client/Write/Order.antt =====
-- A buffer's blocks in the order in which a `HashMap` happens to give them.
use mathlib.Core.List.{
  Pairwise, Perm, Permᴰ, Mem, perm_middle, perm_append_singleton, mem-cons_self, mem-cons_of_mem,
}
use mathlib.Core.List.Permᴰ
use mathlib.Core.List.Perm
use mathlib.Core.Path.{ap₂}
use mathlib.Core.Logic.{∥∥₁_elim}
use native.Mathlib.Nat.{ℕ_set}
use rust_remote_fs.Prelude.{
  ℕ, ◌-◌, ◌≤◌, ◌<◌, ◌≡◌, refl, ap, ◌∙◌, true, false, ◌||◌, List, [], ◌∷◌, ◌++◌, arith, length,
  get_elem?, leb,
}
use rust_remote_fs.Prelude.Positions.{list_ext, get_elem?-eq_none}
use rust_remote_fs.Wire.{Bytes}
use rust_remote_fs.Outcome.{ok, ◌>>=◌}
use rust_remote_fs.Client.Attr.{isize_mod}
use rust_remote_fs.Client.Platform.{Platform}
use rust_remote_fs.Client.State.{Sys}
use rust_remote_fs.Client.Write.{apply_block, apply_blocks}
use rust_remote_fs.Client.Write.Merge.{
  Block, end_of, covers, padded, length-apply_block, get_elem?-apply_block,
}

-- The blocks applied one after the other.
unfoldable pub merge : List Block → Bytes → Bytes
merge [] v = v
merge (b ∷ blocks) v = merge blocks (apply_block b v)

-- The blocks share no position.
abbrev pub IsApart : Block → Block → Type 0
IsApart b c = (leb (end_of b) c.0 || leb (end_of c) b.0) ≡ true

apply_block_comm :
    (b c : Block) (v : Bytes)
    → IsApart b c
    → apply_block b (apply_block c v) ≡ apply_block c (apply_block b v)
apply_block_comm b c v apart = list_ext _ _ λ i. ground (
  arith,
  get_elem?-apply_block b (apply_block c v) i,
  get_elem?-apply_block c v i,
  get_elem?-apply_block c (apply_block b v) i,
  get_elem?-apply_block b v i,
  length-apply_block b v,
  length-apply_block c v,
)

Bytes-set : IsSet Bytes
Bytes-set = hlevel ℕ_set

IsApart-prop : (b c : Block) → IsProp (IsApart b c)
IsApart-prop b c = hlevel

IsApart-symm : (b c : Block) → IsApart b c → IsApart c b
IsApart-symm b c h = ground arith

AllApart-perm : {l m : List Block} → Permᴰ l m → Pairwise IsApart l → Pairwise IsApart m
AllApart-perm = Permᴰ.pairwise {R = IsApart} IsApart-prop IsApart-symm

merge-permᴰ :
    {l m : List Block} → Permᴰ l m → (v : Bytes) → Pairwise IsApart l → merge l v ≡ merge m v
unfolding merge
merge-permᴰ Permᴰ.nil v apart = refl
merge-permᴰ (Permᴰ.cons {a = a} {l₂ = m} e p) v (Pairwise.cons h apart) =
    merge-permᴰ p (apply_block a v) apart ∙ ap (λ c. merge m (apply_block c v)) e
merge-permᴰ (Permᴰ.swap {a = a} {b = b} {l = l} e f) v (Pairwise.cons h apart) = ap (merge l) (
    apply_block_comm b a v (IsApart-symm a b (h b mem-cons_self))
    ∙ ap₂ (λ c d. apply_block c (apply_block d v)) e f)
merge-permᴰ (Permᴰ.trans p q) v apart =
    merge-permᴰ p v apart ∙ merge-permᴰ q v (AllApart-perm p apart)

-- Blocks that share no position give the same file in every order.
pub merge-perm :
    {l m : List Block} → Perm l m → (v : Bytes) → Pairwise IsApart l → merge l v ≡ merge m v
merge-perm p v apart = ∥∥₁_elim p (Bytes-set _ _) (λ d. merge-permᴰ d v apart)

merge-append_one :
    (l : List Block) (b : Block) (v : Bytes) → merge (l ++ b ∷ []) v ≡ apply_block b (merge l v)
unfolding merge
merge-append_one [] b v = refl
merge-append_one (c ∷ l) b v = merge-append_one l b (apply_block c v)

-- Blocks that share no position, merged into any content: at a position that one of them covers
-- stands that block's byte.
pub merge-covered :
    (l m : List Block) (b : Block) (v : Bytes) (i : ℕ)
    → Pairwise IsApart (l ++ b ∷ m)
    → covers b i ≡ true
    → get_elem? (merge (l ++ b ∷ m) v) i ≡ get_elem? b.1 (i - b.0)
merge-covered l m b v i apart inside =
    ap (λ w. get_elem? w i)
      (merge-perm (Perm.trans (perm_middle l m) (Perm.symm (perm_append_singleton b (l ++ m)))) v
          apart
        ∙ merge-append_one (l ++ m) b v)
    ∙ ground (arith, get_elem?-apply_block b (merge (l ++ m) v) i)

length-merge-le : (l : List Block) (v : Bytes) → length v ≤ length (merge l v)
unfolding merge
length-merge-le [] v = omega arith
length-merge-le (b ∷ l) v =
    omega (arith, length-merge-le l (apply_block b v), length-apply_block b v)

-- A position that no block covers holds the old byte, or a zero if the file has grown past it.
pub merge-uncovered :
    (l : List Block) (v : Bytes) (i : ℕ)
    → ((b : Block) → Mem b l → covers b i ≡ false)
    → get_elem? (merge l v) i ≡ padded v (length (merge l v)) i
unfolding merge
merge-uncovered [] v i outside = ground (arith, get_elem?-eq_none v i)
merge-uncovered (b ∷ l) v i outside = ground (
  arith,
  merge-uncovered l (apply_block b v) i (λ c m. outside c (mem-cons_of_mem b m)),
  outside b mem-cons_self,
  get_elem?-apply_block b v i,
  length-apply_block b v,
  length-merge-le l (apply_block b v),
)

-- The loop of `release` ends with the merged file and touches nothing else, if every block ends
-- below 2^63.
pub apply_blocks-merge :
    (P : Platform) (l : List Block) (v : Bytes) (s : Sys P)
    → ((b : Block) → Mem b l → end_of b < isize_mod)
    → apply_blocks P l v s ≡ (ok (merge l v), s)
unfolding merge apply_blocks ◌>>=◌
apply_blocks-merge P [] v s fits = refl
apply_blocks-merge P (b ∷ l) v s fits = ground (
  arith,
  fits b mem-cons_self,
  apply_blocks-merge P l (apply_block b v) s (λ c m. fits c (mem-cons_of_mem b m)),
)
