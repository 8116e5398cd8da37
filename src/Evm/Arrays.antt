-- ===== src/Evm/Arrays.antt =====
-- Dynamic arrays of words: `decode_dynamic_uint_array` (application/evm.rs) on an encoded array.
use rust_evm_indexer.Base.{
  ℕ, suc, ◌+◌, ◌*◌, ◌/◌, ◌%◌, ◌^◌, ◌≤◌, ◌<◌, ◌≡◌, refl, true, ap, sym, List, [], ◌∷◌, ◌++◌, map,
  some, ok, length, get_elem?, All, length-append, append_assoc, arith,
}
use rust_evm_indexer.Base.Int.{u64_max}
use rust_evm_indexer.Base.Text.{Text, is_utf8}
use rust_evm_indexer.Base.Decimal.{decimal}
use rust_evm_indexer.Evm.Words.{BigUints, decode_items, decode_dynamic_uint_array}
use rust_evm_indexer.Evm.Encoding.{
  hex_word, hex_word_utf8, IsWord, length-hex_word, decode-hex_word, usize-hex_word,
}

abbrev pub IsUint256 : ℕ → Type 0
IsUint256 n = n < 16 ^ 64

-- An array: its length, then its items.
abbrev pub array_words : List ℕ → List Text
array_words ns = hex_word (length ns) ∷ map hex_word ns

words-IsWord : (ns : List ℕ) → All IsWord (map hex_word ns)
words-IsWord [] = tt
words-IsWord (n ∷ ns) = (length-hex_word n, words-IsWord ns)

pub array-IsWord : (ns : List ℕ) → All IsWord (array_words ns)
array-IsWord ns = (length-hex_word (length ns), words-IsWord ns)

-- A text of whole characters.
abbrev pub IsText : Text → Type 0
IsText s = is_utf8 s ≡ true

words-IsText : (ns : List ℕ) → All IsText (map hex_word ns)
words-IsText [] = tt
words-IsText (n ∷ ns) = (hex_word_utf8 n, words-IsText ns)

pub array-IsText : (ns : List ℕ) → All IsText (array_words ns)
array-IsText ns = (hex_word_utf8 (length ns), words-IsText ns)

pub length-words : (ns : List ℕ) → length (map hex_word ns) ≡ length ns
length-words [] = refl
length-words (n ∷ ns) = ap suc (length-words ns)

get_elem?-append :
    (pre : List Text) (word : Text) (post : List Text)
    → get_elem? (pre ++ word ∷ post) (length pre) ≡ some word
get_elem?-append [] word post = refl
get_elem?-append (x ∷ pre) word post = get_elem?-append pre word post

shift :
    (pre : List Text) (word : Text) (post : List Text)
    → pre ++ word ∷ post ≡ pre ++ word ∷ [] ++ post
shift pre word post = sym (append_assoc pre (word ∷ []) post)

module _ (big : BigUints) where
  decode_items-words :
      (ns : List ℕ) (pre post : List Text) (start : ℕ)
      → start ≡ length pre
      → All IsUint256 ns
      → decode_items big (pre ++ (map hex_word ns ++ post)) start (length ns) ≡ ok (map decimal ns)
  unfolding decode_items
  decode_items-words [] pre post start at h = refl
  decode_items-words (n ∷ ns) pre post start at (h, hs) =
      let rest = map hex_word ns ++ post in
      let next =
        decode_items-words ns (pre ++ hex_word n ∷ []) post (suc start)
          (omega (arith, length-append pre (hex_word n ∷ []))) hs in
      let here : get_elem? (pre ++ hex_word n ∷ rest) start ≡ some (hex_word n) =
        rw at (get_elem?-append pre (hex_word n) rest) in
      let later : decode_items big (pre ++ hex_word n ∷ rest) (suc start) (length ns)
          ≡ ok (map decimal ns) =
        rw (shift pre (hex_word n) rest) next in
      rw (here, decode-hex_word big n h, later) refl

  -- An array that stands on a word boundary is read as its items.
  pub decode_array :
      (pre post : List Text) (ns : List ℕ)
      → length ns ≤ u64_max
      → All IsUint256 ns
      → decode_dynamic_uint_array big (pre ++ (array_words ns ++ post)) (32 * length pre)
        ≡ ok (map decimal ns)
  unfolding decode_dynamic_uint_array
  decode_array pre post ns fits h =
      let words = pre ++ (array_words ns ++ post) in
      let aligned : 32 * length pre % 32 ≡ 0 = omega arith in
      let start : 32 * length pre / 32 ≡ length pre = omega arith in
      let here = get_elem?-append pre (hex_word (length ns)) (map hex_word ns ++ post) in
      let items : decode_items big words (length pre + 1) (length ns) ≡ ok (map decimal ns) =
        rw (shift pre (hex_word (length ns)) (map hex_word ns ++ post)) (
          decode_items-words ns (pre ++ hex_word (length ns) ∷ []) post (length pre + 1)
            (omega (arith, length-append pre (hex_word (length ns) ∷ []))) h) in
      rw (aligned, start, here, usize-hex_word big (length ns) fits, items) refl
