-- ===== src/Radix.antt =====
-- Numbers as text: `format!("{}")` and `format!("{:o}")`, `str::parse` and `from_str_radix`.
pub mod RoundTrip
use rust_remote_fs.Prelude.{
  ℕ, zero, suc, ◌+◌, ◌-◌, ◌*◌, ◌/◌, ◌%◌, ◌^◌, Bool, ◌&&◌, Option, none, some, List, [], ◌∷◌, Text,
  ltb, leb, ◌==◌, if◌then◌else◌,
}

abbrev digit : ℕ → ℕ
digit d = b'0' + d

-- The digits of a number before those in `out`. One round of fuel writes one digit.
print_loop : ℕ → ℕ → ℕ → Text → Text
print_loop radix zero n out = out
print_loop radix (suc fuel) n out =
    let rest = print_loop radix fuel (n / radix) (digit (n % radix) ∷ out) in
    if ltb n radix then digit n ∷ out else rest

-- A number has fewer digits than its successor says.
unfoldable pub print : ℕ → ℕ → Text
unfolding print_loop
print radix n = print_loop radix (n + 1) n []

abbrev is_digit : ℕ → ℕ → Bool
is_digit radix c = leb b'0' c && ltb c (digit radix)

-- The checked multiplication and addition of a type whose values are below `limit`.
parse_loop : ℕ → ℕ → ℕ → Text → Option ℕ
parse_loop radix limit n [] = some n
parse_loop radix limit n (c ∷ s) =
    let next = n * radix + (c - b'0') in
    let rest = parse_loop radix limit next s in
    if is_digit radix c && ltb next limit then rest else none

-- A leading `+` is accepted, but neither the empty text nor a sign alone.
unfoldable pub from_str_radix : ℕ → ℕ → Text → Option ℕ
unfolding parse_loop
from_str_radix radix limit [] = none
from_str_radix radix limit (c ∷ []) = parse_loop radix limit 0 (c ∷ [])
from_str_radix radix limit (c ∷ d ∷ s) =
    if c == b'+' then parse_loop radix limit 0 (d ∷ s) else parse_loop radix limit 0 (c ∷ d ∷ s)

abbrev pub u64_mod : ℕ
u64_mod = 2 ^ 64

abbrev pub u32_mod : ℕ
u32_mod = 2 ^ 32

abbrev pub u16_mod : ℕ
u16_mod = 2 ^ 16
