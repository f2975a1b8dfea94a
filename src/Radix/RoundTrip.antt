-- ===== src/Radix/RoundTrip.antt =====
-- What is printed is read back, and consists of digits.
use rust_remote_fs.Prelude.{
  ℕ, zero, suc, ◌+◌, ◌-◌, ◌*◌, ◌/◌, ◌%◌, ◌≤◌, ◌<◌, ◌≡◌, refl, ◌≢◌, inl, inr, some, [], ◌∷◌, arith,
  Text, Lacks, Bool-cases, ltb, ◌∙◌, ap,
}
use rust_remote_fs.Radix.{digit, print_loop, print, parse_loop, from_str_radix}

-- Only digits are printed: no sign, no dash, no bar.
module _ (c : ℕ) (foreign : (d : ℕ) → d < 10 → digit d ≢ c) (radix : ℕ) (pos : 0 < radix)
    (le_ten : radix ≤ 10) where
  Lacks-print_loop : (fuel n : ℕ) (out : Text) → Lacks c out → Lacks c (print_loop radix fuel n out)
  unfolding print_loop
  Lacks-print_loop zero n out h = h
  Lacks-print_loop (suc fuel) n out h = elim (Bool-cases (ltb n radix)) [
    | inl small ↦ rw small (foreign n (ground arith), h)
    | inr large ↦ rw large (
        Lacks-print_loop fuel (n / radix) (digit (n % radix) ∷ out)
          (foreign (n % radix) (omega arith), h))
  ]

  pub Lacks-print : (n : ℕ) → Lacks c (print radix n)
  unfolding print
  Lacks-print n = Lacks-print_loop (n + 1) n [] tt

-- A byte below the digits is none.
pub below_digits : (c : ℕ) → c < b'0' → (d : ℕ) → d < 10 → digit d ≢ c
below_digits c low d h e = omega arith

pub above_digits : (c : ℕ) → b'9' < c → (d : ℕ) → d < 10 → digit d ≢ c
above_digits c high d h e = omega arith

print_loop-ne-nil : (radix fuel n : ℕ) (d : ℕ) (out : Text) → print_loop radix fuel n (d ∷ out) ≢ []
unfolding print_loop
print_loop-ne-nil radix zero n d out e = cc
print_loop-ne-nil radix (suc fuel) n d out e =
    ground (arith, print_loop-ne-nil radix fuel (n / radix) (digit (n % radix)) (d ∷ out))

print-ne-nil : (radix n : ℕ) → print radix n ≢ []
unfolding print
print-ne-nil radix n =
    let e : n + 1 ≡ suc n = omega arith in
    rw e (λ p. ground (arith, print_loop-ne-nil radix n (n / radix) (digit (n % radix)) []))

from_str_radix_of_digits :
    (radix limit : ℕ) (s : Text)
    → s ≢ []
    → Lacks b'+' s
    → from_str_radix radix limit s ≡ parse_loop radix limit 0 s
unfolding from_str_radix
from_str_radix_of_digits radix limit [] ne h = absurd (ne refl)
from_str_radix_of_digits radix limit (c ∷ []) ne h = refl
from_str_radix_of_digits radix limit (c ∷ d ∷ s) ne h = ground arith

module _ (radix limit : ℕ) (two_le : 2 ≤ radix) (le_ten : radix ≤ 10) where
  parse_digit :
      (n d : ℕ) (s : Text)
      → d < radix
      → n * radix + d < limit
      → parse_loop radix limit n (digit d ∷ s) ≡ parse_loop radix limit (n * radix + d) s
  unfolding parse_loop
  parse_digit n d s small fits = let e : (b'0' + d) - b'0' ≡ d = omega arith in rw e (ground arith)

  rejoin : (n : ℕ) → n / radix * radix + n % radix ≡ n
  rejoin n = grind arith

  fuel_left : (n fuel : ℕ) → radix ≤ n → n < suc fuel → n / radix < fuel
  fuel_left n fuel le enough = grind (arith, rejoin n)

  quotient_fits : (n : ℕ) → n < limit → n / radix < limit
  quotient_fits n fits = grind (arith, rejoin n)

  parse-print_loop :
      (fuel n : ℕ) (out : Text)
      → n < fuel
      → n < limit
      → parse_loop radix limit 0 (print_loop radix fuel n out) ≡ parse_loop radix limit n out
  unfolding print_loop
  parse-print_loop zero n out enough fits = elim enough [ ]
  parse-print_loop (suc fuel) n out enough fits = elim (Bool-cases (ltb n radix)) [
    | inl small ↦ rw small (
        parse_digit 0 n out (ground arith) (omega arith)
        ∙ ap (λ k. parse_loop radix limit k out) (omega arith))
    | inr large ↦
        let le : radix ≤ n = ground arith in
        rw large (
          parse-print_loop fuel (n / radix) (digit (n % radix) ∷ out) (fuel_left n fuel le enough)
            (quotient_fits n fits)
          ∙ parse_digit (n / radix) (n % radix) out (omega arith) (rw (rejoin n) fits)
          ∙ ap (λ k. parse_loop radix limit k out) (rejoin n))
  ]

  -- A number below the limit of its type, printed and parsed in one radix, is itself again.
  pub from_str_radix-print :
      (n : ℕ) → n < limit → from_str_radix radix limit (print radix n) ≡ some n
  unfolding print parse_loop
  from_str_radix-print n fits =
      from_str_radix_of_digits radix limit (print radix n) (print-ne-nil radix n)
        (Lacks-print b'+' (below_digits b'+' (omega arith)) radix (omega arith) le_ten n)
      ∙ parse-print_loop (n + 1) n [] (omega arith) fits
