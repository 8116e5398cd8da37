-- ===== src/Evm/Encoding.antt =====
-- The ABI's encoding of words, addresses and arrays, written for the theorems, and how the readers
-- of application/evm.rs undo it.
use rust_evm_indexer.Base.{
  ℕ, zero, suc, ◌+◌, ◌*◌, ◌/◌, ◌%◌, ◌^◌, ◌≤◌, ◌<◌, ◌≡◌, ◌≢◌, refl, true, ap, ◌∙◌, ltb,
  if◌then◌else◌, List, [], ◌∷◌, ◌++◌, some, ok, length, take, drop, All, length-append, arith,
}
use rust_evm_indexer.Base.Int.{u64_max}
use rust_evm_indexer.Base.Text.{
  Text, codes, to_lower, to_ascii_lowercase, strip_prefix, IsAscii, is_utf8, is_char_boundary,
  is_utf8-ascii,
}
use rust_evm_indexer.Base.Decimal.{decimal, to_digit, parse_digits, from_str_radix-decimal}
use rust_evm_indexer.Evm.{strip_0x, strip_optional_0x}
use rust_evm_indexer.Evm.Words.{
  IsHex, BigUints, slice, topic_address, chunks_loop, chunks, decode_word_as_decimal,
  word_decimal_as_usize,
}

-- The digit of a number below 16, in lower case.
abbrev pub hex_digit : ℕ → ℕ
hex_digit d = if ltb d 10 then 48 + d else 87 + d

hex_loop : ℕ → ℕ → Text → Text
hex_loop zero n acc = acc
hex_loop (suc places) n acc = hex_loop places (n / 16) (hex_digit (n % 16) ∷ acc)

-- A number as a word of 64 hex digits.
unfoldable pub hex_word : ℕ → Text
unfolding hex_loop
hex_word n = hex_loop 64 n []

to_digit-hex_digit : (d : ℕ) → d < 16 → to_digit 16 (hex_digit d) ≡ some d
unfolding to_digit
to_digit-hex_digit d h = ground arith

hex_digit-IsHex : (d : ℕ) → d < 16 → IsHex (hex_digit d)
hex_digit-IsHex d h = ground arith

length-hex_loop : (places n : ℕ) (acc : Text) → length (hex_loop places n acc) ≡ places + length acc
unfolding hex_loop
length-hex_loop zero n acc = omega arith
length-hex_loop (suc places) n acc =
    omega (arith, length-hex_loop places (n / 16) (hex_digit (n % 16) ∷ acc))

hex_loop-IsHex : (places n : ℕ) (acc : Text) → All IsHex acc → All IsHex (hex_loop places n acc)
unfolding hex_loop
hex_loop-IsHex zero n acc h = h
hex_loop-IsHex (suc places) n acc h =
    hex_loop-IsHex places (n / 16) (hex_digit (n % 16) ∷ acc)
      (hex_digit-IsHex (n % 16) (omega arith), h)

parse-hex_loop :
    (places n : ℕ) (acc : Text)
    → n < 16 ^ places
    → parse_digits 16 0 (hex_loop places n acc) ≡ parse_digits 16 n acc
unfolding hex_loop parse_digits
parse-hex_loop zero n acc h = ground arith
parse-hex_loop (suc places) n acc h =
    ground (
      arith,
      to_digit-hex_digit (n % 16),
      parse-hex_loop places (n / 16) (hex_digit (n % 16) ∷ acc),
    )

strip_optional_0x-hex : (s : Text) → All IsHex s → strip_optional_0x s ≡ s
unfolding strip_optional_0x strip_prefix
strip_optional_0x-hex [] h = refl
strip_optional_0x-hex (c ∷ []) h = ground arith
strip_optional_0x-hex (c ∷ d ∷ s) h = ground arith

non_empty : (s : Text) (n : ℕ) → length s ≡ suc n → s ≢ []
non_empty [] n h = λ _. absurd (omega arith)
non_empty (c ∷ s) n h = cc

hex_word-IsHex : (n : ℕ) → All IsHex (hex_word n)
unfolding hex_word
hex_word-IsHex n = hex_loop-IsHex 64 n [] tt

hex-IsAscii : (s : Text) → All IsHex s → All IsAscii s
hex-IsAscii [] h = tt
hex-IsAscii (c ∷ s) (h, hs) = (ground arith, hex-IsAscii s hs)

pub hex_word_utf8 : (n : ℕ) → is_utf8 (hex_word n) ≡ true
hex_word_utf8 n = is_utf8-ascii (hex_word n) (hex-IsAscii (hex_word n) (hex_word-IsHex n))

pub length-hex_word : (n : ℕ) → length (hex_word n) ≡ 64
unfolding hex_word
length-hex_word n = length-hex_loop 64 n []

parse-hex_word : (n : ℕ) → n < 16 ^ 64 → parse_digits 16 0 (hex_word n) ≡ some n
unfolding hex_word parse_digits
parse-hex_word n h = parse-hex_loop 64 n [] h

module _ (big : BigUints) where
  parse_bytes-hex_word : (n : ℕ) → n < 16 ^ 64 → big.parse_bytes (hex_word n) ≡ some n
  parse_bytes-hex_word n h =
      big.parse_bytes_hex (hex_word n) (non_empty (hex_word n) 63 (length-hex_word n))
        (hex_word-IsHex n)
      ∙ parse-hex_word n h

  decode_digits :
      (s : Text) (n : ℕ)
      → strip_optional_0x s ≡ s
      → length s ≡ 64
      → big.parse_bytes s ≡ some n
      → big.to_string n ≡ decimal n
      → decode_word_as_decimal big s ≡ ok (decimal n)
  unfolding decode_word_as_decimal
  decode_digits s n e l p d = rw (e, l, p, d) refl

  -- A word is read as the number that it encodes.
  pub decode-hex_word :
      (n : ℕ) → n < 16 ^ 64 → decode_word_as_decimal big (hex_word n) ≡ ok (decimal n)
  decode-hex_word n h =
      decode_digits (hex_word n) n (strip_optional_0x-hex (hex_word n) (hex_word-IsHex n))
        (length-hex_word n) (parse_bytes-hex_word n h) (big.to_string_decimal n)

  pub usize-hex_word : (n : ℕ) → n ≤ u64_max → word_decimal_as_usize big (hex_word n) ≡ ok n
  unfolding word_decimal_as_usize
  usize-hex_word n h = rw (decode-hex_word n (omega arith), from_str_radix-decimal u64_max n h) refl

-- The 20 bytes of an address behind 12 zero bytes.
abbrev pub address_topic : Text → Text
address_topic body = codes "0x000000000000000000000000" ++ body

pub take_all : (n : ℕ) (s : Text) → length s ≡ n → take n s ≡ s
take_all zero [] h = refl
take_all zero (c ∷ s) h = absurd (omega arith)
take_all (suc n) [] h = refl
take_all (suc n) (c ∷ s) h = ap (λ l. c ∷ l) (take_all n s (omega arith))

pub topic_address_lem :
    (body : Text)
    → length body ≡ 40
    → topic_address (address_topic body) ≡ ok (codes "0x" ++ to_ascii_lowercase body)
unfolding topic_address slice is_char_boundary is_utf8 strip_0x strip_prefix to_ascii_lowercase
    to_lower
topic_address_lem body h = rw (h, take_all 40 body h) refl

-- The words of a text, one after another.
abbrev pub joined : List Text → Text
joined [] = []
joined (word ∷ words) = word ++ joined words

abbrev pub IsWord : Text → Type 0
IsWord s = length s ≡ 64

pub take-append : (n : ℕ) (s t : Text) → length s ≡ n → take n (s ++ t) ≡ s
take-append zero [] t h = refl
take-append zero (c ∷ s) t h = absurd (omega arith)
take-append (suc n) [] t h = absurd (omega arith)
take-append (suc n) (c ∷ s) t h = ap (λ l. c ∷ l) (take-append n s t (omega arith))

pub drop-append : (n : ℕ) (s t : Text) → length s ≡ n → drop n (s ++ t) ≡ t
drop-append zero [] t h = refl
drop-append zero (c ∷ s) t h = absurd (omega arith)
drop-append (suc n) [] t h = absurd (omega arith)
drop-append (suc n) (c ∷ s) t h = drop-append n s t (omega arith)

pub length-joined :
    (words : List Text) → All IsWord words → length (joined words) ≡ 64 * length words
length-joined [] h = refl
length-joined (word ∷ words) (h, hs) =
    omega (arith, length-append word (joined words), length-joined words hs)

chunks_step :
    (fuel : ℕ) (word t : Text)
    → IsWord word
    → chunks_loop (suc fuel) 64 (word ++ t) ≡ word ∷ chunks_loop fuel 64 t
chunks_step fuel [] t h = absurd (omega arith)
chunks_step fuel (c ∷ s) t h =
    unfold chunks_loop in cc (take-append 64 (c ∷ s) t h, drop-append 64 (c ∷ s) t h)

chunks_loop-joined :
    (fuel : ℕ) (words : List Text)
    → All IsWord words
    → length words < suc fuel
    → chunks_loop fuel 64 (joined words) ≡ words
chunks_loop-joined zero [] h lt = unfold chunks_loop in refl
chunks_loop-joined (suc fuel) [] h lt = unfold chunks_loop in refl
chunks_loop-joined zero (word ∷ words) h lt = absurd (omega arith)
chunks_loop-joined (suc fuel) (word ∷ words) (h, hs) lt =
    chunks_step fuel word (joined words) h
    ∙ ap (λ l. word ∷ l) (chunks_loop-joined fuel words hs (omega arith))

pub chunks-joined : (words : List Text) → All IsWord words → chunks 64 (joined words) ≡ words
unfolding chunks
chunks-joined words h =
    chunks_loop-joined (length (joined words)) words h (omega (arith, length-joined words h))
