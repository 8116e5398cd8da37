-- ===== src/Base/Signed.antt =====
-- `Display` and `FromStr` of Rust's signed integers in decimal, and `split` of a text.
use Prim.Native.Nat.{ℕ, suc, ◌-◌, ◌≤◌}
use mathlib.Core.Path.{◌≡◌, refl}
use mathlib.Core.Logic.{inl, inr}
use mathlib.Core.Bool.{false}
use mathlib.Core.List.{List, [], ◌∷◌, ◌++◌}
use mathlib.Core.Option.{Option, none, some}
use native.Mathlib.Omega.{arith}
use rust_evm_indexer.Base.Tests.{Bool-cases, leb, ◌==◌, if◌then◌else◌}
use rust_evm_indexer.Base.Lists.{All}
use rust_evm_indexer.Base.Text.{Text}
use rust_evm_indexer.Base.Int.{ℤ, pos, negsuc, ◌≤ℤ◌}
use rust_evm_indexer.Base.Decimal.{
  decimal, parse_digits, parse-decimal, StartsWithDigit, decimal-StartsWithDigit,
}

-- `to_string` of a signed integer.
unfoldable pub signed_decimal : ℤ → Text
signed_decimal (pos n) = decimal n
signed_decimal (negsuc n) = b'-' ∷ decimal (suc n)

abbrev positive : ℕ → Option ℕ → Option ℤ
positive limit none = none
positive limit (some n) = if leb n limit then some (pos n) else none

abbrev negative : ℕ → Option ℕ → Option ℤ
negative limit none = none
negative limit (some n) =
    if n == 0 then some (pos 0) else if leb n (suc limit) then some (negsuc (n - 1)) else none

-- `parse::<iN>()`, with `limit` the type's largest value.
unfoldable pub parse_signed : ℕ → Text → Option ℤ
parse_signed limit [] = none
parse_signed limit (c ∷ []) = positive limit (parse_digits 10 0 (c ∷ []))
parse_signed limit (c ∷ d ∷ s) =
    if c == b'-'
    then negative limit (parse_digits 10 0 (d ∷ s))
    else if c == b'+'
    then positive limit (parse_digits 10 0 (d ∷ s))
    else positive limit (parse_digits 10 0 (c ∷ d ∷ s))

parse_signed-digits :
    (limit : ℕ) (s : Text)
    → StartsWithDigit s
    → parse_signed limit s ≡ positive limit (parse_digits 10 0 s)
unfolding parse_signed
parse_signed-digits limit [] h = elim h [ ]
parse_signed-digits limit (c ∷ []) h = λ _. positive limit (parse_digits 10 0 (c ∷ []))
parse_signed-digits limit (c ∷ d ∷ s) h = ground arith

-- A number that fits is read back from its print.
pub parse-signed_decimal :
    (limit n : ℕ) → n ≤ limit → parse_signed limit (signed_decimal (pos n)) ≡ some (pos n)
unfolding signed_decimal
parse-signed_decimal limit n h =
    ground
      (arith, parse_signed-digits limit (decimal n) (decimal-StartsWithDigit n), parse-decimal n)

positive_le : (limit : ℕ) (read : Option ℕ) (n : ℤ) → positive limit read ≡ some n → n ≤ℤ pos limit
positive_le limit none n h = absurd (cc)
positive_le limit (some m) n h = ground arith

negative_le : (limit : ℕ) (read : Option ℕ) (n : ℤ) → negative limit read ≡ some n → n ≤ℤ pos limit
negative_le limit none n h = absurd (cc)
negative_le limit (some m) n h = ground arith

-- A number that is read is not above the limit.
pub parse_signed_le :
    (limit : ℕ) (s : Text) (n : ℤ) → parse_signed limit s ≡ some n → n ≤ℤ pos limit
unfolding parse_signed
parse_signed_le limit [] n h = absurd (cc)
parse_signed_le limit (c ∷ []) n h = positive_le limit (parse_digits 10 0 (c ∷ [])) n h
parse_signed_le limit (c ∷ d ∷ s) n h = elim (Bool-cases (c == b'-')) [
  | inl minus ↦ negative_le limit (parse_digits 10 0 (d ∷ s)) n (rw minus at h)
  | inr other ↦
      let h' : (if c == b'+'
            then positive limit (parse_digits 10 0 (d ∷ s))
            else positive limit (parse_digits 10 0 (c ∷ d ∷ s)))
          ≡ some n =
        rw other at h in
      elim (Bool-cases (c == b'+')) [
        | inl plus ↦ positive_le limit (parse_digits 10 0 (d ∷ s)) n (rw plus at h')
        | inr digit ↦ positive_le limit (parse_digits 10 0 (c ∷ d ∷ s)) n (rw digit at h')
      ]
]

abbrev push_byte : ℕ → List Text → List Text
push_byte c [] = (c ∷ []) ∷ []
push_byte c (part ∷ parts) = (c ∷ part) ∷ parts

-- `split`: a text without the separator is one part.
unfoldable pub split : Text → ℕ → List Text
split [] separator = [] ∷ []
split (c ∷ s) separator =
    let rest = split s separator in if c == separator then [] ∷ rest else push_byte c rest

abbrev pub Lacks : ℕ → Text → Type 0
Lacks separator s = All (λ c. (c == separator) ≡ false) s

-- A text without the separator is one part.
pub split_whole : (s : Text) (separator : ℕ) → Lacks separator s → split s separator ≡ s ∷ []
unfolding split
split_whole [] separator h = refl
split_whole (c ∷ s) separator (h, hs) = rw (h, split_whole s separator hs) refl

-- The part before the first separator.
pub split_part :
    (s : Text) (separator : ℕ) (rest : Text)
    → Lacks separator s
    → split (s ++ separator ∷ rest) separator ≡ s ∷ split rest separator
unfolding split
split_part [] separator rest h = ground arith
split_part (c ∷ s) separator rest (h, hs) = rw (h, split_part s separator rest hs) refl
