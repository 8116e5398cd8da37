-- ===== src/Base/Text.antt =====
-- A `String` as the list of its bytes, with the comparisons and the ASCII helpers of Rust's
-- standard library that the source calls.
use Prim.Native.Char.{code}
use Prim.Native.String.{String}
use Prim.Native.Nat.{ℕ, zero, suc, ◌+◌, ◌<◌}
use mathlib.Core.Path.{◌≡◌, refl}
use mathlib.Core.Logic.{◌↔◌}
use mathlib.Core.Bool.{Bool, true, false, ◌&&◌, ◌||◌}
use mathlib.Core.List.{List, [], ◌∷◌, ◌++◌}
use mathlib.Core.Option.{Option, none, some}
use native.Mathlib.Omega.{arith}
use rust_evm_indexer.Base.Tests.{ltb, leb, ◌==◌, if◌then◌else◌}
use rust_evm_indexer.Base.Lists.{length, take, All}

abbrev pub Text : Type 0
Text = List ℕ

-- The bytes of an ASCII literal.
abbrev pub codes : String → Text
codes String.[] = []
codes (String.◌∷◌ c s) = code c ∷ codes s

-- `==` on strings.
unfoldable pub text_eq : Text → Text → Bool
text_eq [] [] = true
text_eq [] (y ∷ ys) = false
text_eq (x ∷ xs) [] = false
text_eq (x ∷ xs) (y ∷ ys) = let rest = text_eq xs ys in if x == y then rest else false

-- `cmp` on strings, as "is less than or equal to".
unfoldable pub text_le : Text → Text → Bool
text_le [] ys = true
text_le (x ∷ xs) [] = false
text_le (x ∷ xs) (y ∷ ys) =
    let rest = text_le xs ys in if ltb x y then true else if x == y then rest else false

pub text_eq_iff : (xs ys : Text) → (text_eq xs ys ≡ true) ↔ (xs ≡ ys)
unfolding text_eq
text_eq_iff [] [] = ground arith
text_eq_iff [] (y ∷ ys) = ground arith
text_eq_iff (x ∷ xs) [] = ground arith
text_eq_iff (x ∷ xs) (y ∷ ys) = ground (arith, text_eq_iff xs ys)

pub text_eq_refl : (xs : Text) → text_eq xs xs ≡ true
text_eq_refl xs = (text_eq_iff xs xs).1 refl

-- `u8::to_ascii_lowercase`
unfoldable pub to_lower : ℕ → ℕ
to_lower c = if leb b'A' c && leb c b'Z' then c + 32 else c

-- `str::to_ascii_lowercase`
unfoldable pub to_ascii_lowercase : Text → Text
unfolding to_lower
to_ascii_lowercase [] = []
to_ascii_lowercase (c ∷ s) = to_lower c ∷ to_ascii_lowercase s

to_lower_idem : (c : ℕ) → to_lower (to_lower c) ≡ to_lower c
unfolding to_lower
to_lower_idem c = ground arith

pub lowercase_idem : (s : Text) → to_ascii_lowercase (to_ascii_lowercase s) ≡ to_ascii_lowercase s
unfolding to_ascii_lowercase
lowercase_idem [] = refl
lowercase_idem (c ∷ s) = cc (to_lower_idem c, lowercase_idem s)

pub length-lowercase : (s : Text) → length (to_ascii_lowercase s) ≡ length s
unfolding to_ascii_lowercase
length-lowercase [] = refl
length-lowercase (c ∷ s) = cc (length-lowercase s)

-- `strip_prefix`
unfoldable pub strip_prefix : Text → Text → Option Text
strip_prefix [] s = some s
strip_prefix (p ∷ ps) [] = none
strip_prefix (p ∷ ps) (c ∷ s) = let rest = strip_prefix ps s in if p == c then rest else none

pub lowercase-append :
    (s t : Text) → to_ascii_lowercase (s ++ t) ≡ to_ascii_lowercase s ++ to_ascii_lowercase t
unfolding to_ascii_lowercase
lowercase-append [] t = refl
lowercase-append (c ∷ s) t = cc (lowercase-append s t)

-- ASCII white space.
abbrev pub is_blank : ℕ → Bool
is_blank c = c == 32 || (leb 9 c && leb c 13)

abbrev pub trim_start : Text → Text
trim_start [] = []
trim_start (c ∷ s) = let rest = trim_start s in if is_blank c then rest else c ∷ s

-- A blank in front of nothing is dropped.
abbrev pub push_kept : ℕ → Text → Text
push_kept c [] = if is_blank c then [] else c ∷ []
push_kept c (d ∷ s) = c ∷ d ∷ s

abbrev pub trim_end : Text → Text
trim_end [] = []
trim_end (c ∷ s) = push_kept c (trim_end s)

-- `str::trim`
unfoldable pub trim : Text → Text
trim s = trim_end (trim_start s)

-- How many bytes follow the first byte of a character.
abbrev pub following : ℕ → Option ℕ
following c =
    if ltb c 128
    then some 0
    else if leb 192 c && ltb c 224
    then some 1
    else if leb 224 c && ltb c 240
    then some 2
    else if leb 240 c && ltb c 248
    then some 3
    else none

-- The bytes are whole characters, when so many bytes of one are still to come.
abbrev pub utf8_from : ℕ → Text → Bool
utf8_from zero [] = true
utf8_from (suc pending) [] = false
utf8_from zero (c ∷ s) = elim (following c) [ none ↦ false | some pending ↦ utf8_from pending s ]
utf8_from (suc pending) (c ∷ s) = (leb 128 c && ltb c 192) && utf8_from pending s

-- `str::from_utf8` accepts a piece of a `str` that holds whole characters. A `str` is UTF-8 as a
-- whole, so that a piece of it has to be looked at for nothing else.
unfoldable pub is_utf8 : Text → Bool
is_utf8 s = utf8_from 0 s

-- `str::is_char_boundary`
unfoldable pub is_char_boundary : Text → ℕ → Bool
is_char_boundary s index = index == length s || is_utf8 (take index s)

abbrev pub IsAscii : ℕ → Type 0
IsAscii c = c < 128

pub is_utf8-ascii : (s : Text) → All IsAscii s → is_utf8 s ≡ true
unfolding is_utf8
is_utf8-ascii [] h = refl
is_utf8-ascii (c ∷ s) (h, hs) = ground (arith, h, is_utf8-ascii s hs)
