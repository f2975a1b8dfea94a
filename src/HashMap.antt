-- ===== src/HashMap.antt =====
-- `std::collections::HashMap` with the methods that the program calls. The order in which Rust
-- iterates over one is not specified: where the program iterates, the order is a parameter.
use mathlib.Core.Logic.{if_pos, if_neg}
use rust_remote_fs.Prelude.{◌≡◌, refl, Option, none, some, List, [], ◌∷◌, arith, Eq, ite}

abbrev pub HashMap {ℓ} : Type ℓ → Type ℓ → Type ℓ
HashMap K V = List (K × V)

module _ {ℓ} {K V : Type ℓ} ⦃e : Eq K⦄ where
  unfoldable pub get : K → HashMap K V → Option V
  get k [] = none
  get k ((j, v) ∷ m) = ite (e.dec j k) (some v) (get k m)

  unfoldable pub remove : K → HashMap K V → HashMap K V
  remove k [] = []
  remove k ((j, v) ∷ m) = ite (e.dec j k) (remove k m) ((j, v) ∷ remove k m)

  -- A key stands in a map at most once.
  unfoldable pub insert : K → V → HashMap K V → HashMap K V
  unfolding remove
  insert k v m = (k, v) ∷ remove k m

  pub get-remove : (k j : K) (m : HashMap K V) → get j (remove k m) ≡ ite (e.dec k j) none (get j m)
  unfolding get remove
  get-remove k j [] = ground arith
  get-remove k j ((i, v) ∷ m) = ground (arith, get-remove k j m)

  pub get-insert :
      (k j : K) (v : V) (m : HashMap K V)
      → get j (insert k v m) ≡ ite (e.dec k j) (some v) (get j m)
  unfolding get insert
  get-insert k j v m = ground (arith, get-remove k j m)

  pub remove-absent : (k : K) (m : HashMap K V) → get k m ≡ none → remove k m ≡ m
  unfolding get remove
  remove-absent k [] h = refl
  remove-absent k ((j, v) ∷ m) h = ground (arith, remove-absent k m)

  -- Each key stands in the list once.
  abbrev pub Unique : HashMap K V → Type ℓ
  Unique [] = Unit
  Unique ((k, v) ∷ m) = (get k m ≡ none) × Unique m

  pub remove-Unique : (k : K) (m : HashMap K V) → Unique m → Unique (remove k m)
  unfolding remove
  remove-Unique k [] h = h
  remove-Unique k ((j, v) ∷ m) h = elim (e.dec j k) [
    | yes same ↦ rw (if_pos (e.dec j k) same) (remove-Unique k m h.1)
    | no other ↦
        rw (if_neg (e.dec j k) other) (ground (arith, get-remove k j m, h.0), remove-Unique k m h.1)
  ]

  pub insert-Unique : (k : K) (v : V) (m : HashMap K V) → Unique m → Unique (insert k v m)
  unfolding insert
  insert-Unique k v m h = (ground (arith, get-remove k k m), remove-Unique k m h)

  pub get-nil : (k : K) → get k [] ≡ none
  unfolding get
  get-nil k = refl

pub ruleset map_laws = (get-insert, get-remove, get-nil)
