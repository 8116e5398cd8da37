-- ===== src/Evm/Calm.antt =====
-- Where `decode_log` (application/evm.rs) cannot panic: on logs whose texts are ASCII.
use rust_evm_indexer.Base.{
  ℕ, zero, suc, ◌+◌, ◌*◌, ◌/◌, ◌%◌, ◌<◌, ◌≡◌, ◌≢◌, refl, subst, Bool, true, false, not,
  if◌then◌else◌, List, [], ◌∷◌, Option, none, some, Result, ok, err, Error, ◌>>=◌, fail_if, or_err,
  is_panic, panicked, missing_prefix, missing_word, bad_length, bad_word, unparsable,
  offset_unaligned, All, length, take, drop, get_elem?, ◌==◌, ltb, arith, Bool-cases, Option-cases,
  inl, inr, ok_inj,
}
use rust_evm_indexer.Base.Text.{Text, codes, strip_prefix, IsAscii, is_char_boundary, is_utf8-ascii}
use rust_evm_indexer.Evm.{RpcLog, strip_0x, strip_optional_0x}
use rust_evm_indexer.Evm.Words.{
  BigUints, slice, require_topic_count, topic_at, topic_address, word_at, chunks_loop, chunks,
  all_utf8, decode_data_words, data_word_count, decode_word_as_decimal, word_decimal_as_usize,
  decode_items, decode_dynamic_uint_array,
}

-- A computation that does not panic.
abbrev pub Calm : {T : Type 0} → Result T → Type 0
Calm (ok value) = Unit
Calm (err e) = is_panic e ≡ false

pub Calm-sound : {T : Type 0} (r : Result T) → Calm r → r ≢ err panicked
Calm-sound (ok value) h same = cc
Calm-sound (err e) h same = let here : e ≡ panicked = cc in absurd (cc (rw here at h))

module _ {T U : Type 0} where
  pub Calm->>= :
      (m : Result T) (next : T → Result U)
      → Calm m
      → ((value : T) → m ≡ ok value → Calm (next value))
      → Calm (m >>= next)
  Calm->>= (ok value) next h k = k value refl
  Calm->>= (err e) next h k = h

pub Calm-fail_if : (failed : Bool) (e : Error) → is_panic e ≡ false → Calm (fail_if failed e)
Calm-fail_if true e h = h
Calm-fail_if false e h = tt

pub Calm-or_err : {T : Type 0} (o : Option T) (e : Error) → is_panic e ≡ false → Calm (or_err o e)
Calm-or_err none e h = h
Calm-or_err (some value) e h = tt

pub Calm-if :
    {T : Type 0} (test : Bool) (this that : Result T)
    → Calm this
    → Calm that
    → Calm (if test then this else that)
Calm-if true this that h k = h
Calm-if false this that h k = k

abbrev pub AllAscii : Text → Type 0
AllAscii = All IsAscii

take-AllAscii : (n : ℕ) (s : Text) → AllAscii s → AllAscii (take n s)
take-AllAscii zero s h = tt
take-AllAscii (suc n) [] h = tt
take-AllAscii (suc n) (c ∷ s) (h, hs) = (h, take-AllAscii n s hs)

drop-AllAscii : (n : ℕ) (s : Text) → AllAscii s → AllAscii (drop n s)
drop-AllAscii zero s h = h
drop-AllAscii (suc n) [] h = tt
drop-AllAscii (suc n) (c ∷ s) (h, hs) = drop-AllAscii n s hs

boundary : (s : Text) (index : ℕ) → AllAscii s → is_char_boundary s index ≡ true
unfolding is_char_boundary
boundary s index h =
    let whole = is_utf8-ascii (take index s) (take-AllAscii index s h) in ground (arith, whole)

slice-Calm : (s : Text) (start end : ℕ) → AllAscii s → Calm (slice s start end)
unfolding slice
slice-Calm s start end h = rw (boundary s start h, boundary s end h) tt

strip_prefix-AllAscii :
    (prefix s rest : Text) → AllAscii s → strip_prefix prefix s ≡ some rest → AllAscii rest
unfolding strip_prefix
strip_prefix-AllAscii [] s rest h e = let same : s ≡ rest = cc in subst AllAscii same h
strip_prefix-AllAscii (p ∷ prefix) [] rest h e = cc
strip_prefix-AllAscii (p ∷ prefix) (c ∷ s) rest (h, hs) e =
    strip_prefix-AllAscii prefix s rest hs (ground (arith, e))

-- What is left behind the prefix is ASCII, and a missing prefix is no panic.
strip_0x-AllAscii : (s digits : Text) → AllAscii s → strip_0x s ≡ ok digits → AllAscii digits
unfolding strip_0x strip_prefix
strip_0x-AllAscii s digits h e = elim (Option-cases (strip_prefix (codes "0x") s)) [
  | inr (rest, lower) ↦
      let same : rest ≡ digits = ok_inj (rw lower at e) in
      subst AllAscii same (strip_prefix-AllAscii (codes "0x") s rest h lower)
  | inl no_lower ↦ elim (Option-cases (strip_prefix (codes "0X") s)) [
    | inr (rest, upper) ↦
        let same : rest ≡ digits = ok_inj (rw (no_lower, upper) at e) in
        subst AllAscii same (strip_prefix-AllAscii (codes "0X") s rest h upper)
    | inl no_upper ↦ absurd (cc (rw (no_lower, no_upper) at e))
  ]
]

strip_0x-Calm : (s : Text) → Calm (strip_0x s)
unfolding strip_0x strip_prefix
strip_0x-Calm s = elim (Option-cases (strip_prefix (codes "0x") s)) [
  | inr (rest, lower) ↦ rw lower tt
  | inl no_lower ↦ rw no_lower (Calm-or_err (strip_prefix (codes "0X") s) missing_prefix refl)
]

chunks_loop-utf8 :
    (fuel size : ℕ) (s : Text) → AllAscii s → all_utf8 (chunks_loop fuel size s) ≡ true
unfolding chunks_loop
chunks_loop-utf8 zero size s h = refl
chunks_loop-utf8 (suc fuel) size [] h = refl
chunks_loop-utf8 (suc fuel) size (c ∷ s) h =
    rw
      (
        is_utf8-ascii (take size (c ∷ s)) (take-AllAscii size (c ∷ s) h),
        chunks_loop-utf8 fuel size (drop size (c ∷ s)) (drop-AllAscii size (c ∷ s) h),
      )
      refl

-- A text that loses its prefix first.
pub stripped-Calm :
    {T : Type 0} (s : Text) (next : Text → Result T)
    → AllAscii s
    → ((digits : Text) → AllAscii digits → Calm (next digits))
    → Calm (strip_0x s >>= next)
stripped-Calm s next h k =
    Calm->>= (strip_0x s) next (strip_0x-Calm s)
      (λ digits e. k digits (strip_0x-AllAscii s digits h e))

topic_address-Calm : (topic : Text) → AllAscii topic → Calm (topic_address topic)
unfolding topic_address
topic_address-Calm topic h = stripped-Calm topic _ h λ digits d.
    Calm->>= (fail_if (not (length digits == 64)) bad_length) _ (Calm-fail_if _ bad_length refl)
      λ _ _. Calm->>= (slice digits 24 64) _ (slice-Calm digits 24 64 d) (λ _ _. tt)

word_at-Calm : (payload : Text) (index : ℕ) → AllAscii payload → Calm (word_at payload index)
unfolding word_at
word_at-Calm payload index h = stripped-Calm payload _ h λ digits d.
    Calm->>= (fail_if (ltb (length digits) (index * 64 + 64)) missing_word) _
      (Calm-fail_if _ missing_word refl) (λ _ _. slice-Calm digits (index * 64) (index * 64 + 64) d)

pub decode_data_words-Calm : (payload : Text) → AllAscii payload → Calm (decode_data_words payload)
unfolding decode_data_words chunks
decode_data_words-Calm payload h = stripped-Calm payload _ h λ digits d.
    Calm->>= (fail_if (not (length digits % 64 == 0)) bad_length) _ (Calm-fail_if _ bad_length refl)
      (λ _ _. rw (chunks_loop-utf8 (length digits) 64 digits d) tt)

pub data_word_count-Calm : (payload : Text) → Calm (data_word_count payload)
unfolding data_word_count
data_word_count-Calm payload = Calm->>= (strip_0x payload) _ (strip_0x-Calm payload) λ digits _.
    Calm->>= (fail_if (not (length digits % 64 == 0)) bad_length) _ (Calm-fail_if _ bad_length refl)
      (λ _ _. tt)

module _ (big : BigUints) where
  pub decimal-Calm : (word : Text) → Calm (decode_word_as_decimal big word)
  unfolding decode_word_as_decimal
  decimal-Calm word =
      let digits = strip_optional_0x word in
      Calm->>= (fail_if (not (length digits == 64)) bad_length)
        (λ _. or_err (big.parse_bytes digits) bad_word >>= λ value. ok (big.to_string value))
        (Calm-fail_if (not (length digits == 64)) bad_length refl)
        λ _ _.
          Calm->>= (or_err (big.parse_bytes digits) bad_word) (λ value. ok (big.to_string value))
            (Calm-or_err (big.parse_bytes digits) bad_word refl) (λ _ _. tt)

  pub usize-Calm : (word : Text) → Calm (word_decimal_as_usize big word)
  unfolding word_decimal_as_usize
  usize-Calm word =
      Calm->>= (decode_word_as_decimal big word) _ (decimal-Calm word)
        (λ value _. Calm-or_err _ unparsable refl)

  decode_items-Calm : (words : List Text) (start len : ℕ) → Calm (decode_items big words start len)
  unfolding decode_items
  decode_items-Calm words start zero = tt
  decode_items-Calm words start (suc len) =
      Calm->>= (or_err (get_elem? words start) missing_word) _ (Calm-or_err _ missing_word refl)
        λ word _. Calm->>= (decode_word_as_decimal big word) _ (decimal-Calm word) λ item _.
          Calm->>= (decode_items big words (suc start) len) _
            (decode_items-Calm words (suc start) len) (λ _ _. tt)

  pub array-Calm :
      (words : List Text) (offset : ℕ) → Calm (decode_dynamic_uint_array big words offset)
  unfolding decode_dynamic_uint_array
  array-Calm words offset =
      Calm->>= (fail_if (not (offset % 32 == 0)) offset_unaligned) _
        (Calm-fail_if _ offset_unaligned refl)
        λ _ _.
          Calm->>= (or_err (get_elem? words (offset / 32)) missing_word) _
            (Calm-or_err _ missing_word refl)
            λ word _.
              Calm->>= (word_decimal_as_usize big word) _ (usize-Calm word)
                (λ len _. decode_items-Calm words (offset / 32 + 1) len)

-- The texts of a log that the decoder cuts.
abbrev pub AsciiLog : RpcLog → Type 0
AsciiLog log = AllAscii log.payload × All AllAscii log.topics

pub topic_at-AllAscii :
    (topics : List Text) (index : ℕ)
    → index < length topics
    → All AllAscii topics
    → (topic : Text) × (get_elem? topics index ≡ some topic) × AllAscii topic
topic_at-AllAscii [] index h k = absurd (omega arith)
topic_at-AllAscii (topic ∷ topics) zero h (k, ks) = (topic, refl, k)
topic_at-AllAscii (topic ∷ topics) (suc index) h (k, ks) =
    topic_at-AllAscii topics index (omega arith) ks

module _ (log : RpcLog) (ascii : AsciiLog log) where
  -- A party's topic, where the count of the topics has been checked.
  pub party-Calm :
      {T : Type 0} (index : ℕ) (next : Text → Result T)
      → index < length log.topics
      → ((address : Text) → Calm (next address))
      → Calm (topic_at log index >>= λ topic. topic_address topic >>= next)
  unfolding topic_at
  party-Calm index next h k =
      let (topic, found, a) = topic_at-AllAscii log.topics index h ascii.1 in
      rw found
        (Calm->>= (topic_address topic) next (topic_address-Calm topic a) (λ address _. k address))

  pub counted-Calm :
      {T : Type 0} (expected : ℕ) (next : Unit {0} → Result T)
      → (length log.topics ≡ expected → Calm (next tt))
      → Calm (require_topic_count log expected >>= next)
  unfolding require_topic_count
  counted-Calm expected next k = elim (Bool-cases (length log.topics == expected)) [
    | inl same ↦ rw same (k (ground arith))
    | inr other ↦ rw other refl
  ]

  pub word-Calm :
      {T : Type 0} (big : BigUints) (index : ℕ) (next : Text → Result T)
      → ((value : Text) → Calm (next value))
      → Calm (word_at log.payload index >>= λ word. decode_word_as_decimal big word >>= next)
  word-Calm big index next k =
      Calm->>= (word_at log.payload index) _ (word_at-Calm log.payload index ascii.0) λ word _.
        Calm->>= (decode_word_as_decimal big word) next (decimal-Calm big word) (λ value _. k value)

  -- The token in the fourth topic.
  pub token-Calm :
      {T : Type 0} (big : BigUints) (next : Text → Result T)
      → length log.topics ≡ 4
      → ((token : Text) → Calm (next token))
      → Calm (
          topic_at log 3 >>= λ topic.
          strip_0x topic >>= λ digits. decode_word_as_decimal big digits >>= next)
  unfolding topic_at
  token-Calm big next four k =
      let (topic, found, a) = topic_at-AllAscii log.topics 3 (omega arith) ascii.1 in
      rw found (
        stripped-Calm topic _ a λ digits _.
          Calm->>= (decode_word_as_decimal big digits) next (decimal-Calm big digits)
            (λ token _. k token))
