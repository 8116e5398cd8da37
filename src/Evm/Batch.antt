-- ===== src/Evm/Batch.antt =====
-- The items of an ERC-1155 batch: their entries, and the words that encode them.
use rust_evm_indexer.Base.{
  ℕ, suc, ◌+◌, ◌*◌, ◌%◌, ◌≤◌, ◌≡◌, refl, ap, subst, List, [], ◌∷◌, ◌++◌, map, some, ok, length, All,
  append_nil, arith, true, All-append,
}
use rust_evm_indexer.Base.Int.{pos, as_i32}
use rust_evm_indexer.Base.Text.{Text, codes, strip_prefix}
use rust_evm_indexer.Base.Decimal.{decimal}
use rust_evm_indexer.Evm.{erc1155, DecodedLedgerEntry, strip_0x}
use rust_evm_indexer.Evm.Words.{BigUints, all_utf8, decode_data_words, decode_dynamic_uint_array}
use rust_evm_indexer.Evm.Decode.{batch_entries}
use rust_evm_indexer.Evm.Encoding.{
  hex_word, hex_word_utf8, length-hex_word, joined, IsWord, length-joined, chunks-joined,
}
use rust_evm_indexer.Evm.Arrays.{
  IsUint256, array_words, array-IsWord, length-words, decode_array, IsText, array-IsText,
}

abbrev pub ids_of : List (ℕ × ℕ) → List ℕ
ids_of items = map (λ item. item.0) items

abbrev pub amounts_of : List (ℕ × ℕ) → List ℕ
amounts_of items = map (λ item. item.1) items

abbrev pub AreUint256 : List (ℕ × ℕ) → Type 0
AreUint256 items = All IsUint256 (ids_of items) × All IsUint256 (amounts_of items)

-- The entry of each item, numbered from an index on.
abbrev pub numbered : Text → Text → Text → ℕ → List (ℕ × ℕ) → List DecodedLedgerEntry
numbered operator from to index [] = []
numbered operator from to index (item ∷ items) =
    record {
      event_name = codes "TransferBatch";
      token_standard = erc1155;
      operator = some operator;
      from = from;
      to = to;
      token_id = decimal item.0;
      amount = decimal item.1;
      batch_index = pos index;
    }
    ∷ numbered operator from to (suc index) items

pub numbered-entries :
    (operator from to : Text) (index : ℕ) (items : List (ℕ × ℕ))
    → index + length items ≤ 2147483648
    → batch_entries operator from to index
        (map decimal (ids_of items))
        (map decimal (amounts_of items))
      ≡ numbered operator from to index items
unfolding batch_entries
numbered-entries operator from to index [] h = refl
numbered-entries operator from to index (item ∷ items) h =
    let small : as_i32 index ≡ pos index = ground arith in
    rw (small, numbered-entries operator from to (suc index) items (omega arith)) refl

pub length-ids : (items : List (ℕ × ℕ)) → length (map decimal (ids_of items)) ≡ length items
length-ids [] = refl
length-ids (item ∷ items) = ap suc (length-ids items)

pub length-amounts : (items : List (ℕ × ℕ)) → length (map decimal (amounts_of items)) ≡ length items
length-amounts [] = refl
length-amounts (item ∷ items) = ap suc (length-amounts items)

-- The words of a batch: two offsets, then the two arrays.
abbrev pub batch_words : List (ℕ × ℕ) → List Text
batch_words items =
    hex_word 64
    ∷ hex_word (32 * (3 + length items))
    ∷ (array_words (ids_of items) ++ array_words (amounts_of items))

all_utf8_lem : (words : List Text) → All IsText words → all_utf8 words ≡ true
all_utf8_lem [] h = refl
all_utf8_lem (word ∷ words) (h, hs) = rw (h, all_utf8_lem words hs) refl

pub data_words-joined :
    (words : List Text)
    → All IsWord words
    → All IsText words
    → decode_data_words (codes "0x" ++ joined words) ≡ ok words
unfolding decode_data_words strip_0x strip_prefix
data_words-joined words h texts =
    let whole : length (joined words) % 64 ≡ 0 = omega (arith, length-joined words h) in
    rw (whole, chunks-joined words h, all_utf8_lem words texts) refl

pub batch_words-IsWord : (items : List (ℕ × ℕ)) → All IsWord (batch_words items)
batch_words-IsWord items = (
  length-hex_word 64,
  (
    length-hex_word (32 * (3 + length items)),
    All-append IsWord (array_words (ids_of items)) (array_words (amounts_of items))
        (array-IsWord (ids_of items)) (array-IsWord (amounts_of items)),
  ),
)

pub batch_words-IsText : (items : List (ℕ × ℕ)) → All IsText (batch_words items)
batch_words-IsText items = (
  hex_word_utf8 64,
  (
    hex_word_utf8 (32 * (3 + length items)),
    All-append IsText (array_words (ids_of items)) (array_words (amounts_of items))
        (array-IsText (ids_of items)) (array-IsText (amounts_of items)),
  ),
)

length-ids_of : (items : List (ℕ × ℕ)) → length (ids_of items) ≡ length items
length-ids_of [] = refl
length-ids_of (item ∷ items) = ap suc (length-ids_of items)

length-amounts_of : (items : List (ℕ × ℕ)) → length (amounts_of items) ≡ length items
length-amounts_of [] = refl
length-amounts_of (item ∷ items) = ap suc (length-amounts_of items)

module _ (big : BigUints) (items : List (ℕ × ℕ)) (small : length items ≤ 2147483648) where
  pub decode-ids :
      All IsUint256 (ids_of items)
      → decode_dynamic_uint_array big (batch_words items) 64 ≡ ok (map decimal (ids_of items))
  decode-ids h =
      decode_array big (hex_word 64 ∷ hex_word (32 * (3 + length items)) ∷ [])
        (array_words (amounts_of items)) (ids_of items) (omega (arith, length-ids_of items)) h

  pub decode-amounts :
      All IsUint256 (amounts_of items)
      → decode_dynamic_uint_array big (batch_words items) (32 * (3 + length items))
        ≡ ok (map decimal (amounts_of items))
  decode-amounts h =
      let numbers = ok (map decimal (amounts_of items)) in
      let pre = hex_word 64 ∷ hex_word (32 * (3 + length items)) ∷ array_words (ids_of items) in
      let at : length pre ≡ 3 + length items =
        omega (arith, length-words (ids_of items), length-ids_of items) in
      let back : pre ++ (array_words (amounts_of items) ++ []) ≡ batch_words items =
        ap (λ l. pre ++ l) (append_nil (array_words (amounts_of items))) in
      subst (λ words. decode_dynamic_uint_array big words (32 * (3 + length items)) ≡ numbers) back
        (subst
          (λ n.
            decode_dynamic_uint_array big (pre ++ (array_words (amounts_of items) ++ [])) (32 * n)
            ≡ numbers)
          at
          (decode_array big pre [] (amounts_of items) (omega (arith, length-amounts_of items)) h))
