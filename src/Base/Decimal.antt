-- ===== src/Base/Decimal.antt =====
-- `Display` and `FromStr` of Rust's unsigned integers, in decimal and in base 16, over bytes.
use mathlib.Core.Logic.{inl, inr}
use rust_evm_indexer.Base.Lists.{All}
use rust_evm_indexer.Base.Tests.{Bool-cases, ltb, leb, ◌==◌, if◌then◌else◌}
use rust_evm_indexer.Base.Text.{Text}
use Prim.Native.Nat.{ℕ, zero, suc, ◌+◌, ◌-◌, ◌*◌, ◌/◌, ◌%◌, ◌≤◌, ◌<◌}
use mathlib.Core.Path.{◌≡◌}
use mathlib.Core.Bool.{◌&&◌}
use mathlib.Core.List.{[], ◌∷◌}
use mathlib.Core.Option.{Option, none, some}
use native.Mathlib.Omega.{arith}

decimal_loop : ℕ → ℕ → Text → Text
decimal_loop zero n acc = acc
decimal_loop (suc fuel) n acc =
    let rest = decimal_loop fuel (n / 10) ((48 + n % 10) ∷ acc) in
    if ltb n 10 then (48 + n) ∷ acc else rest

-- `n.to_string()`: a number has at most n + 1 digits.
unfoldable pub decimal : ℕ → Text
unfolding decimal_loop
decimal n = decimal_loop (suc n) n []

-- The value of a digit of the radix, `char::to_digit`.
unfoldable pub to_digit : ℕ → ℕ → Option ℕ
to_digit radix c =
    if leb b'0' c && ltb c (b'0' + 10) && ltb (c - b'0') radix
    then some (c - b'0')
    else if leb b'a' c && ltb (c - b'a' + 10) radix
    then some (c - b'a' + 10)
    else if leb b'A' c && ltb (c - b'A' + 10) radix
    then some (c - b'A' + 10)
    else none

-- The digits of a text, read behind an accumulator.
unfoldable pub parse_digits : ℕ → ℕ → Text → Option ℕ
parse_digits radix acc [] = some acc
parse_digits radix acc (c ∷ s) = elim (to_digit radix c) [
  | none ↦ none
  | some d ↦ parse_digits radix (acc * radix + d) s
]

-- An unsigned integer has at least one digit, and may have a `+` in front.
unfoldable pub parse_unsigned : ℕ → Text → Option ℕ
unfolding parse_digits
parse_unsigned radix [] = none
parse_unsigned radix (c ∷ []) = parse_digits radix 0 (c ∷ [])
parse_unsigned radix (c ∷ d ∷ s) =
    if c == b'+' then parse_digits radix 0 (d ∷ s) else parse_digits radix 0 (c ∷ d ∷ s)

-- `uN::from_str_radix`, with `limit` the type's largest value.
unfoldable pub from_str_radix : ℕ → ℕ → Text → Option ℕ
unfolding parse_unsigned
from_str_radix limit radix s = elim (parse_unsigned radix s) [
  | none ↦ none
  | some n ↦ if leb n limit then some n else none
]

to_digit_decimal : (d : ℕ) → d < 10 → to_digit 10 (48 + d) ≡ some d
unfolding to_digit
to_digit_decimal d h = ground arith

parse-decimal_loop :
    (fuel n : ℕ) (acc : Text)
    → n < fuel
    → parse_digits 10 0 (decimal_loop fuel n acc) ≡ parse_digits 10 n acc
unfolding decimal_loop parse_digits
parse-decimal_loop zero n acc h = elim h [ ]
parse-decimal_loop (suc fuel) n acc h = ground (
  arith,
  to_digit_decimal n,
  to_digit_decimal (n % 10),
  parse-decimal_loop fuel (n / 10) ((48 + n % 10) ∷ acc),
)

-- Reading the digits that were printed gives the number back.
pub parse-decimal : (n : ℕ) → parse_digits 10 0 (decimal n) ≡ some n
unfolding decimal parse_digits
parse-decimal n = parse-decimal_loop (suc n) n [] (omega arith)

-- What a printed number starts with.
abbrev pub StartsWithDigit : Text → Type 0
StartsWithDigit [] = ⊥
StartsWithDigit (c ∷ s) = (48 ≤ c) × (c ≤ 57)

decimal_loop-StartsWithDigit :
    (fuel n : ℕ) (acc : Text) → n < fuel → StartsWithDigit (decimal_loop fuel n acc)
unfolding decimal_loop
decimal_loop-StartsWithDigit zero n acc h = elim h [ ]
decimal_loop-StartsWithDigit (suc fuel) n acc h =
    ground (arith, decimal_loop-StartsWithDigit fuel (n / 10) ((48 + n % 10) ∷ acc))

pub decimal-StartsWithDigit : (n : ℕ) → StartsWithDigit (decimal n)
unfolding decimal
decimal-StartsWithDigit n = decimal_loop-StartsWithDigit (suc n) n [] (omega arith)

-- A sign is looked for only in front of a digit.
pub parse_unsigned-digits :
    (radix : ℕ) (s : Text) → StartsWithDigit s → parse_unsigned radix s ≡ parse_digits radix 0 s
unfolding parse_unsigned
parse_unsigned-digits radix [] h = elim h [ ]
parse_unsigned-digits radix (c ∷ []) h = λ _. parse_digits radix 0 (c ∷ [])
parse_unsigned-digits radix (c ∷ d ∷ s) h = ground arith

pub from_str_radix-decimal :
    (limit n : ℕ) → n ≤ limit → from_str_radix limit 10 (decimal n) ≡ some n
unfolding from_str_radix
from_str_radix-decimal limit n h =
    ground
      (arith, parse_unsigned-digits 10 (decimal n) (decimal-StartsWithDigit n), parse-decimal n)

-- A byte that a printed number holds.
abbrev pub IsDigit : ℕ → Type 0
IsDigit c = (48 ≤ c) × (c ≤ 57)

decimal_loop-IsDigit :
    (fuel n : ℕ) (acc : Text) → All IsDigit acc → All IsDigit (decimal_loop fuel n acc)
unfolding decimal_loop
decimal_loop-IsDigit zero n acc h = h
decimal_loop-IsDigit (suc fuel) n acc h = elim (Bool-cases (ltb n 10)) [
  | inl small ↦ rw small ((omega arith, ground arith), h)
  | inr large ↦
      rw large
        (decimal_loop-IsDigit fuel (n / 10) ((48 + n % 10) ∷ acc) ((omega arith, omega arith), h))
]

pub decimal-IsDigit : (n : ℕ) → All IsDigit (decimal n)
unfolding decimal
decimal-IsDigit n = decimal_loop-IsDigit (suc n) n [] tt
