-- ===== src/Prelude/Paths.antt =====
-- Paths as texts whose components are parted by slashes.
use mathlib.Core.Path.{◌≡◌, refl, sym, ap, ◌∙◌}
use mathlib.Core.Option.{Option, none, some}
use mathlib.Core.Logic.{◌≢◌, ◌⊎◌, inl, inr}
use mathlib.Core.List.{[], ◌∷◌, ◌++◌, append_assoc, append_cancel_left}
use rust_remote_fs.Prelude.Texts.{
  Text, bytes, text_eq, strip_prefix, strip_prefix-append, strip_prefix-eq,
}

-- `format!("{}/{}", path, name)`
abbrev pub joined : Text → Text → Text
joined path name = path ++ (bytes "/" ++ name)

-- The path itself, and what stands below it.
abbrev pub Under : Text → Text → Type 0
Under p q = (q ≡ p) ⊎ ((rest : Text) × (q ≡ joined p rest))

abbrev pub Disjoint : Text → Text → Type 0
Disjoint p q = (¬ (Under p q)) × (¬ (Under q p))

-- A name without a slash.
abbrev pub Simple : Text → Type 0
Simple name = (before after : Text) → name ≢ joined before after

pub joined_assoc : (p q r : Text) → joined (joined p q) r ≡ joined p (joined q r)
joined_assoc p q r = append_assoc p (bytes "/" ++ q) (bytes "/" ++ r)

pub joined_ne : (p name : Text) → joined p name ≢ []
joined_ne [] name e = cc
joined_ne (c ∷ p) name e = cc

joined_cancel : (p q r : Text) → joined p q ≡ joined p r → q ≡ r
joined_cancel p q r e =
    append_cancel_left (bytes "/") q r (append_cancel_left p (joined [] q) (joined [] r) e)

-- The last component of a path, and a slash before it.
split_last :
    (p q r name : Text)
    → Simple name
    → joined q name ≡ joined p r
    → (q ≡ p) ⊎ ((rest : Text) × (q ≡ joined p rest))
split_last [] [] r name simple e = inl refl
split_last [] (c ∷ q) r name simple e = inr (q, cc)
split_last (c ∷ p) [] r name simple e = absurd (simple p r cc)
split_last (c ∷ p) (d ∷ q) r name simple e = elim (split_last p q r name simple cc) [
  | inl same ↦ inl cc
  | inr ((rest, below)) ↦ inr (rest, cc)
]

longer : (p name : Text) → p ≢ joined p name
longer [] name e = cc
longer (c ∷ p) name e = longer p name cc

-- Nothing of a path stands below its own entries.
pub not-Under-child : (p name : Text) → ¬ (Under (joined p name) p)
not-Under-child p name (inl same) = longer p name same
not-Under-child p name (inr (rest, below)) =
    longer p (joined name rest) (below ∙ joined_assoc p name rest)

pub Under-parent : (p q name : Text) → Under (joined p name) q → Under p q
Under-parent p q name (inl same) = inr (name, same)
Under-parent p q name (inr (rest, below)) = inr (joined name rest, below ∙ joined_assoc p name rest)

Under-child :
    (p q name : Text) → Simple name → Under p (joined q name) → (p ≡ joined q name) ⊎ Under p q
Under-child p q name simple (inl same) = inl (sym same)
Under-child p q name simple (inr (rest, below)) = inr (split_last p q rest name simple below)

-- A path that has nothing to do with another has nothing to do with its entries.
pub Disjoint-child : (p q name : Text) → Simple name → Disjoint p q → Disjoint p (joined q name)
Disjoint-child p q name simple apart = (
  λ under. elim (Under-child p q name simple under) [
    | inl same ↦ apart.1 (inr (name, same))
    | inr above ↦ apart.0 above
  ],
  λ under. apart.1 (Under-parent q p name under),
)

pub Disjoint-comm : (p q : Text) → Disjoint p q → Disjoint q p
Disjoint-comm p q apart = (apart.1, apart.0)

not-Under-sibling :
    (p name other : Text) → Simple other → name ≢ other → ¬ (Under (joined p name) (joined p other))
not-Under-sibling p name other simple ne (inl same) = ne (sym (joined_cancel p other name same))
not-Under-sibling p name other simple ne (inr (rest, below)) =
    simple name rest (joined_cancel p other (joined name rest) (below ∙ joined_assoc p name rest))

pub Disjoint-siblings :
    (p name other : Text)
    → Simple name
    → Simple other
    → name ≢ other
    → Disjoint (joined p name) (joined p other)
Disjoint-siblings p name other simple_name simple_other ne = (
  not-Under-sibling p name other simple_other ne,
  not-Under-sibling p other name simple_name (λ e. ne (sym e)),
)

not-Under : (p q : Text) → strip_prefix (p ++ bytes "/") q ≡ none → q ≢ p → ¬ (Under p q)
not-Under p q e ne (inl same) = ne same
not-Under p q e ne (inr (rest, below)) =
    let found : strip_prefix (p ++ bytes "/") q ≡ some rest =
      ap (λ x. strip_prefix (p ++ bytes "/") x) (below ∙ sym (append_assoc p (bytes "/") rest))
      ∙ strip_prefix-append (p ++ bytes "/") rest in
    cc (found, e)

-- Whether a path stands below another is decided.
under_by :
    (p q : Text) (o : Option Text) → strip_prefix (p ++ bytes "/") q ≡ o → q ≢ p → Dec (Under p q)
under_by p q none e ne = no (not-Under p q e ne)
under_by p q (some r) e ne =
    yes (inr (r, strip_prefix-eq (p ++ bytes "/") q e ∙ append_assoc p (bytes "/") r))

pub under : (p q : Text) → Dec (Under p q)
under p q = elim (text_eq.dec q p) [
  | yes same ↦ yes (inl same)
  | no other ↦ under_by p q _ refl other
]
