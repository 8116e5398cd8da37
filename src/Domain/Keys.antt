-- ===== src/Domain/Keys.antt =====
-- The idempotency key of a range (`IdempotencyKey::ingest`, domain/job.rs) names one source and one
-- range.
use rust_evm_indexer.Base.{
  ℕ, ◌≡◌, refl, sym, ap, subst, ◌∙◌, false, [], ◌∷◌, ◌++◌, Result, ok, err, ok_inj, panicked, arith,
  All, drop, append_assoc,
}
use rust_evm_indexer.Base.Text.{Text, codes, trim, trim_end, push_kept, is_blank}
use rust_evm_indexer.Base.Decimal.{decimal, IsDigit, decimal-IsDigit, parse-decimal}
use rust_evm_indexer.Domain.Chain.{
  NonEmptyId, SourceId, BlockRange, new_id, require_non_empty, is_empty,
}

abbrev pub IdempotencyKey : Type 0
IdempotencyKey = NonEmptyId

abbrev pub ingest_text : SourceId → BlockRange → Text
ingest_text source_id range =
    codes "ingest:" ++ (source_id.as_str ++ b':' ∷ (decimal range.from ++ b':' ∷ decimal range.to))

-- The call of `expect`.
abbrev expect : {T : Type 0} → Result T → Result T
expect (ok value) = ok value
expect (err e) = err panicked

unfoldable pub ingest_key : SourceId → BlockRange → Result IdempotencyKey
ingest_key source_id range = expect (new_id (ingest_text source_id range))

decimal_inj : (m n : ℕ) → decimal m ≡ decimal n → m ≡ n
decimal_inj m n e = cc (parse-decimal m, parse-decimal n, e)

-- A colon is not a digit.
digits_end : (s t : Text) → All IsDigit (s ++ b':' ∷ t) → ⊥
digits_end [] t ((h, k), hs) = omega arith
digits_end (c ∷ s) t (h, hs) = digits_end s t hs

tail_inj : {x y : ℕ} {xs ys : Text} → ◌≡◌ {A = Text} (x ∷ xs) (y ∷ ys) → (x ≡ y) × (xs ≡ ys)
tail_inj e = (cc, cc)

-- Behind its last colon a text has one reading.
colon_inj :
    (s s' d d' : Text)
    → All IsDigit d
    → All IsDigit d'
    → s ++ b':' ∷ d ≡ s' ++ b':' ∷ d'
    → (s ≡ s') × (d ≡ d')
colon_inj [] [] d d' h h' e = (refl, (tail_inj e).1)
colon_inj [] (c ∷ s') d d' h h' e =
    elim (digits_end s' d' (subst (All IsDigit) (tail_inj e).1 h)) [ ]
colon_inj (c ∷ s) [] d d' h h' e =
    elim (digits_end s d (subst (All IsDigit) (sym (tail_inj e).1) h')) [ ]
colon_inj (c ∷ s) (c' ∷ s') d d' h h' e =
    let (same, ends) = colon_inj s s' d d' h h' (tail_inj e).1 in (cc ((tail_inj e).0, same), ends)

ingest_text_inj :
    (s s' : SourceId) (r r' : BlockRange)
    → ingest_text s r ≡ ingest_text s' r'
    → (s ≡ s') × (r ≡ r')
ingest_text_inj s s' r r' e =
    let group : SourceId → BlockRange → Text =
      λ id range. (id.as_str ++ b':' ∷ decimal range.from) ++ b':' ∷ decimal range.to in
    let regroup : (id : SourceId) (range : BlockRange)
        → group id range ≡ drop 7 (ingest_text id range) =
      λ id range. append_assoc id.as_str (b':' ∷ decimal range.from) (b':' ∷ decimal range.to) in
    let (front, same_to) =
      colon_inj (s.as_str ++ b':' ∷ decimal r.from) (s'.as_str ++ b':' ∷ decimal r'.from)
        (decimal r.to) (decimal r'.to) (decimal-IsDigit r.to) (decimal-IsDigit r'.to)
        (regroup s r ∙ ap (drop 7) e ∙ sym (regroup s' r')) in
    let (same_id, same_from) =
      colon_inj s.as_str s'.as_str (decimal r.from) (decimal r'.from) (decimal-IsDigit r.from)
        (decimal-IsDigit r'.from) front in
    (
      ap (λ text. record { as_str = text }) same_id,
      cc (decimal_inj r.from r'.from same_from, decimal_inj r.to r'.to same_to),
    )

kept : (c : ℕ) (s : Text) → is_blank c ≡ false → is_empty (push_kept c s) ≡ false
kept c [] h = rw h refl
kept c (d ∷ s) h = refl

-- A blank is never the whole of a text that starts with another byte.
trimmed : (c : ℕ) (s : Text) → is_blank c ≡ false → is_empty (trim (c ∷ s)) ≡ false
unfolding trim
trimmed c s h = rw h (kept c (trim_end s) h)

ingest_key_ok :
    (s : SourceId) (r : BlockRange) → ingest_key s r ≡ ok (record { as_str = ingest_text s r })
unfolding ingest_key new_id require_non_empty
ingest_key_ok s r = rw (trimmed b'i' (drop 1 (ingest_text s r)) refl) refl

-- The key of a range is always made, and two keys are the same only for the same source and range.
pub ingest_key_inj :
    (s s' : SourceId) (r r' : BlockRange)
    → ((key : IdempotencyKey) × (ingest_key s r ≡ ok key))
      × (ingest_key s r ≡ ingest_key s' r' → (s ≡ s') × (r ≡ r'))
ingest_key_inj s s' r r' = (
  (_, ingest_key_ok s r),
  λ e. ingest_text_inj s s' r r' (
      ap (λ (key : IdempotencyKey). key.as_str)
        (ok_inj (sym (ingest_key_ok s r) ∙ e ∙ ingest_key_ok s' r'))),
)
