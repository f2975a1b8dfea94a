-- ===== src/Prelude/Texts.antt =====
-- Texts as lists of bytes (a Rust `str` is UTF-8), and the methods of `str` that the program calls.
use Prim.Native.Nat.{ℕ, zero, suc, ◌+◌}
use Prim.Native.Char.{code}
use Prim.Native.String.{String}
use mathlib.Core.Path.{◌≡◌, refl}
use mathlib.Core.Logic.{◌≢◌, dite}
use mathlib.Core.Bool.{Bool, true, false, ◌&&◌, Bool-discrete}
use mathlib.Core.Option.{Option, none, some}
use mathlib.Core.List.{List, [], ◌∷◌, ◌++◌, map}
use native.Mathlib.Omega.{arith}
use rust_remote_fs.Prelude.Tests.{◌==◌, leb, ltb, if◌then◌else◌, Eq}

abbrev pub Text : Type 0
Text = List ℕ

-- The bytes of an ASCII literal.
abbrev pub bytes : String → Text
bytes String.[] = []
bytes (String.◌∷◌ c s) = code c ∷ bytes s

abbrev pub is_empty {ℓ} : {A : Type ℓ} → List A → Bool
is_empty [] = true
is_empty (x ∷ xs) = false

pub same : Text → Text → Bool
same [] [] = true
same [] (d ∷ t) = false
same (c ∷ s) [] = false
same (c ∷ s) (d ∷ t) = c == d && same s t

same-eq : (s t : Text) → same s t ≡ true → s ≡ t
unfolding same
same-eq [] [] h = refl
same-eq [] (d ∷ t) h = cc
same-eq (c ∷ s) [] h = cc
same-eq (c ∷ s) (d ∷ t) h = ground (arith, same-eq s t)

same_self : (s : Text) → same s s ≡ true
unfolding same
same_self [] = refl
same_self (c ∷ s) = ground (arith, same_self s)

same-of_eq : (s t : Text) → s ≡ t → same s t ≡ true
same-of_eq s t p = rw p (same_self t)

-- Shut in proofs, as `nat_eq` is.
instance unfoldable pub text_eq : Eq Text
unfolding same same-eq same_self same-of_eq
text_eq = record {
  dec = λ s t.
      dite (Bool-discrete (same s t) true) (λ p. yes (same-eq s t p))
        (λ n. no (λ p. n (same-of_eq s t p)));
}

-- `s.strip_prefix(pre)`
unfoldable pub strip_prefix : Text → Text → Option Text
strip_prefix [] s = some s
strip_prefix (c ∷ pre) [] = none
strip_prefix (c ∷ pre) (d ∷ s) = if c == d then strip_prefix pre s else none

abbrev put_first : ℕ → List Text → List Text
put_first c [] = (c ∷ []) ∷ []
put_first c (w ∷ ws) = (c ∷ w) ∷ ws

-- `s.split(sep).collect()`: a text without the separator is one piece.
unfoldable pub split : ℕ → Text → List Text
split sep [] = [] ∷ []
split sep (c ∷ s) = let rest = split sep s in if c == sep then [] ∷ rest else put_first c rest

abbrev first_here : Option Text → Option (Text × Text)
first_here none = none
first_here (some after) = some ([], after)

-- The last match of a pattern that is not empty, with the text before it and the text behind it.
unfoldable pub rsplit_once : Text → Text → Option (Text × Text)
unfolding strip_prefix
rsplit_once pat [] = none
rsplit_once pat (c ∷ s) = elim (rsplit_once pat s) [
  | some (before, after) ↦ some (c ∷ before, after)
  | none ↦ first_here (strip_prefix pat (c ∷ s))
]

to_ascii_lowercase : ℕ → ℕ
to_ascii_lowercase c = if leb b'A' c && leb c b'Z' then c + 32 else c

unfoldable pub eq_ignore_ascii_case : Text → Text → Bool
unfolding to_ascii_lowercase same
eq_ignore_ascii_case s t = same (map to_ascii_lowercase s) (map to_ascii_lowercase t)

-- What may follow a first byte: the range of the second, and how many bytes follow in all.
abbrev lead : ℕ → ℕ × ℕ × ℕ
lead c =
    if ltb c 0x80
    then (0, 0, 0)
    else if ltb c 0xC2
    then (1, 0, 1)
    else if ltb c 0xE0
    then (0x80, 0xBF, 1)
    else if c == 0xE0
    then (0xA0, 0xBF, 2)
    else if c == 0xED
    then (0x80, 0x9F, 2)
    else if ltb c 0xF0
    then (0x80, 0xBF, 2)
    else if c == 0xF0
    then (0x90, 0xBF, 3)
    else if ltb c 0xF4
    then (0x80, 0xBF, 3)
    else if c == 0xF4
    then (0x80, 0x8F, 3)
    else (1, 0, 1)

utf8_rest : (lo hi more : ℕ) → Text → Bool
utf8_rest lo hi zero [] = true
utf8_rest lo hi (suc more) [] = false
utf8_rest lo hi zero (c ∷ s) = let (lo', hi', more') = lead c in utf8_rest lo' hi' more' s
utf8_rest lo hi (suc more) (c ∷ s) = leb lo c && leb c hi && utf8_rest 0x80 0xBF more s

-- Whether `String::from_utf8` succeeds: the well-formed byte sequences of the Unicode standard.
unfoldable pub is_utf8 : Text → Bool
unfolding utf8_rest
is_utf8 s = utf8_rest 0 0 0 s

abbrev pub Lacks : ℕ → Text → Type 0
Lacks c [] = Unit {0}
Lacks c (d ∷ s) = (d ≢ c) × Lacks c s

module _ (c : ℕ) where
  pub Lacks-append : (s t : Text) → Lacks c s → Lacks c t → Lacks c (s ++ t)
  Lacks-append [] t h k = k
  Lacks-append (d ∷ s) t h k = (h.0, Lacks-append s t h.1 k)

  pub split_of_Lacks : (s : Text) → Lacks c s → split c s ≡ s ∷ []
  unfolding split
  split_of_Lacks [] h = refl
  split_of_Lacks (d ∷ s) h = ground (arith, split_of_Lacks s h.1)

  pub split-append : (s t : Text) → Lacks c s → split c (s ++ c ∷ t) ≡ s ∷ split c t
  unfolding split
  split-append [] t h = ground arith
  split-append (d ∷ s) t h = ground (arith, split-append s t h.1)

pub strip_prefix-append : (pre s : Text) → strip_prefix pre (pre ++ s) ≡ some s
unfolding strip_prefix
strip_prefix-append [] s = refl
strip_prefix-append (c ∷ pre) s = ground (arith, strip_prefix-append pre s)

-- What a successful `strip_prefix` took off.
pub strip_prefix-eq : (pre s : Text) {t : Text} → strip_prefix pre s ≡ some t → s ≡ pre ++ t
unfolding strip_prefix
strip_prefix-eq [] s h = ground arith
strip_prefix-eq (c ∷ pre) [] h = cc
strip_prefix-eq (c ∷ pre) (d ∷ s) {t} h = ground (arith, strip_prefix-eq pre s {t = t})

-- A pattern whose first byte occurs in it once.
module _ (c : ℕ) (p : Text) (once : Lacks c p) where
  pub rsplit_once_past :
      (q s : Text) → Lacks c q → rsplit_once (c ∷ p) s ≡ none → rsplit_once (c ∷ p) (q ++ s) ≡ none
  unfolding rsplit_once
  rsplit_once_past [] s h none_in = none_in
  rsplit_once_past (d ∷ q) s h none_in = ground (arith, rsplit_once_past q s h.1 none_in)

  -- The last match is found at the pattern if no match lies behind it.
  pub rsplit_once-append :
      (a b : Text)
      → rsplit_once (c ∷ p) b ≡ none
      → rsplit_once (c ∷ p) (a ++ ((c ∷ p) ++ b)) ≡ some (a, b)
  unfolding rsplit_once
  rsplit_once-append [] b h = ground (arith, rsplit_once_past p b once h, strip_prefix-append p b)
  rsplit_once-append (d ∷ a) b h = ground (arith, rsplit_once-append a b h)

pub rsplit_once_of_Lacks : (c : ℕ) (p s : Text) → Lacks c s → rsplit_once (c ∷ p) s ≡ none
unfolding rsplit_once
rsplit_once_of_Lacks c p [] h = refl
rsplit_once_of_Lacks c p (d ∷ s) h = ground (arith, rsplit_once_of_Lacks c p s h.1)
