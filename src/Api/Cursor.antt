-- ===== src/Api/Cursor.antt =====
-- The cursor's text: what `encode_cursor` prints, `parse_cursor` reads.
use rust_evm_indexer.Base.{
  ℕ, ◌≡◌, ◌↔◌, refl, ap, true, false, List, [], ◌∷◌, Option, none, some, ok, err, All, >>=-eq-ok,
  ok_inj, or_err, inl, inr, ◌⊎◌, ◌>>◌, fail_if, Bool, ◌||◌, Error, bad_request, arith, subst,
}
use rust_evm_indexer.Base.Int.{ℤ, pos, negsuc, ◌≤ℤ◌, ltb_ℤ, i64_max, i32_max}
use rust_evm_indexer.Base.Text.{Text}
use rust_evm_indexer.Base.Decimal.{decimal, IsDigit, decimal-IsDigit}
use rust_evm_indexer.Base.Signed.{
  signed_decimal, parse_signed, parse-signed_decimal, parse_signed_le, split, split_whole,
  split_part, Lacks,
}
use rust_evm_indexer.Ledger.Page.{LedgerCursor}
use rust_evm_indexer.Api.{parse_cursor, parse_parts, encode_cursor}

abbrev pub InRange : ℕ → ℤ → Type 0
InRange limit n = (pos 0 ≤ℤ n) × (n ≤ℤ pos limit)

-- The place of a row: a block of 64 bits and two indices of 32 bits, none below zero.
abbrev pub IsCursor : LedgerCursor → Type 0
IsCursor c =
    InRange i64_max c.block_number × InRange i32_max c.log_index × InRange i32_max c.batch_index

digits-Lacks : (s : Text) → All IsDigit s → Lacks b':' s
digits-Lacks [] h = tt
digits-Lacks (c ∷ s) (h, hs) = (ground arith, digits-Lacks s hs)

signed-Lacks : (n : ℕ) → Lacks b':' (signed_decimal (pos n))
unfolding signed_decimal
signed-Lacks n = digits-Lacks (decimal n) (decimal-IsDigit n)

encode-parts :
    (b l i : ℕ)
    → split
        (encode_cursor record { block_number = pos b; log_index = pos l; batch_index = pos i })
        b':'
      ≡ signed_decimal (pos b) ∷ signed_decimal (pos l) ∷ signed_decimal (pos i) ∷ []
unfolding encode_cursor
encode-parts b l i =
    rw
      (
        split_part (signed_decimal (pos b)) b':' _ (signed-Lacks b),
        split_part (signed_decimal (pos l)) b':' _ (signed-Lacks l),
        split_whole (signed_decimal (pos i)) b':' (signed-Lacks i),
      )
      refl

not_negative : (n : ℕ) → ltb_ℤ (pos n) (pos 0) ≡ false
not_negative n = ground arith

parse-encode_nat :
    (b l i : ℕ)
    → InRange i64_max (pos b)
    → InRange i32_max (pos l)
    → InRange i32_max (pos i)
    → let cursor : LedgerCursor = record {
      block_number = pos b;
      log_index = pos l;
      batch_index = pos i;
    } in
      parse_cursor (encode_cursor cursor) ≡ ok cursor
unfolding parse_cursor parse_parts
parse-encode_nat b l i hb hl hi =
    rw
      (
        encode-parts b l i,
        parse-signed_decimal i64_max b (omega arith),
        parse-signed_decimal i32_max l (omega arith),
        parse-signed_decimal i32_max i (omega arith),
        not_negative b,
        not_negative l,
        not_negative i,
      )
      refl

or_err-eq-ok :
    {T : Type 0} (o : Option T) (reason : Error) (value : T)
    → or_err o reason ≡ ok value
    → o ≡ some value
or_err-eq-ok none reason value h = absurd (cc)
or_err-eq-ok (some x) reason value h = ap some (ok_inj h)

not_below :
    (a b c : ℤ)
    → ltb_ℤ a (pos 0) || (ltb_ℤ b (pos 0) || ltb_ℤ c (pos 0)) ≡ false
    → (pos 0 ≤ℤ a) × (pos 0 ≤ℤ b) × (pos 0 ≤ℤ c)
not_below a b c h = ground arith

fail_if-eq-ok :
    (failed : Bool) (reason : Error) (u : Unit {0}) → fail_if failed reason ≡ ok u → failed ≡ false
fail_if-eq-ok failed reason u h = ground arith

parts-IsCursor : (parts : List Text) (c : LedgerCursor) → parse_parts parts ≡ ok c → IsCursor c
unfolding parse_parts
parts-IsCursor [] c h = absurd (cc)
parts-IsCursor (x ∷ []) c h = absurd (cc)
parts-IsCursor (x ∷ y ∷ []) c h = absurd (cc)
parts-IsCursor (x ∷ y ∷ z ∷ w ∷ rest) c h = absurd (cc)
parts-IsCursor (x ∷ y ∷ z ∷ []) c h =
    let (b, eb, h1) = >>=-eq-ok (or_err (parse_signed i64_max x) bad_request) _ h in
    let (l, el, h2) = >>=-eq-ok (or_err (parse_signed i32_max y) bad_request) _ h1 in
    let (i, ei, h3) = >>=-eq-ok (or_err (parse_signed i32_max z) bad_request) _ h2 in
    let (u, ec, done) =
      >>=-eq-ok (fail_if (ltb_ℤ b (pos 0) || (ltb_ℤ l (pos 0) || ltb_ℤ i (pos 0))) bad_request) _
        h3 in
    let (pb, pl, pi) = not_below b l i (fail_if-eq-ok _ bad_request u ec) in
    subst IsCursor (ok_inj done) (
      (pb, parse_signed_le i64_max x b (or_err-eq-ok _ bad_request b eb)),
      (pl, parse_signed_le i32_max y l (or_err-eq-ok _ bad_request l el)),
      (pi, parse_signed_le i32_max z i (or_err-eq-ok _ bad_request i ei)),
    )

-- Every cursor that is read has a block of 64 bits and indices of 32 bits, none below zero.
pub parse_cursor-IsCursor : (s : Text) (c : LedgerCursor) → parse_cursor s ≡ ok c → IsCursor c
unfolding parse_cursor
parse_cursor-IsCursor s c h = parts-IsCursor (split s b':') c h

parse-encode :
    (b l i : ℤ)
    → InRange i64_max b
    → InRange i32_max l
    → InRange i32_max i
    → let cursor : LedgerCursor = record { block_number = b; log_index = l; batch_index = i } in
      parse_cursor (encode_cursor cursor) ≡ ok cursor
parse-encode (pos b) (pos l) (pos i) hb hl hi = parse-encode_nat b l i hb hl hi
parse-encode (negsuc b) l i hb hl hi = absurd (omega arith)
parse-encode (pos b) (negsuc l) i hb hl hi = absurd (omega arith)
parse-encode (pos b) (pos l) (negsuc i) hb hl hi = absurd (omega arith)

-- A cursor is read back from its text exactly if its block and its indices are in range.
pub parse_cursor-encode_cursor :
    (c : LedgerCursor) → IsCursor c ↔ (parse_cursor (encode_cursor c) ≡ ok c)
parse_cursor-encode_cursor c = (
  λ h. parse-encode c.block_number c.log_index c.batch_index h.0 h.1 h.2,
  parse_cursor-IsCursor (encode_cursor c) c,
)

or_err_cases :
    {T : Type 0} (o : Option T)
    → (or_err o bad_request ≡ err bad_request) ⊎ ((value : T) × (or_err o bad_request ≡ ok value))
or_err_cases none = inl refl
or_err_cases (some value) = inr (value, refl)

fail_if_cases :
    {T : Type 0} (failed : Bool) (value : T)
    → ((fail_if failed bad_request >> ok value) ≡ err bad_request)
      ⊎ ((v : T) × ((fail_if failed bad_request >> ok value) ≡ ok v))
fail_if_cases true value = inl refl
fail_if_cases false value = inr (value, refl)

parts_cases :
    (parts : List Text)
    → (parse_parts parts ≡ err bad_request) ⊎ ((c : LedgerCursor) × (parse_parts parts ≡ ok c))
unfolding parse_parts
parts_cases [] = inl refl
parts_cases (x ∷ []) = inl refl
parts_cases (x ∷ y ∷ []) = inl refl
parts_cases (x ∷ y ∷ z ∷ w ∷ rest) = inl refl
parts_cases (x ∷ y ∷ z ∷ []) = elim (or_err_cases (parse_signed i64_max x)) [
  | inl e ↦ inl (rw e refl)
  | inr (b, e) ↦ rw e (elim (or_err_cases (parse_signed i32_max y)) [
    | inl e' ↦ inl (rw e' refl)
    | inr (l, e') ↦ rw e' (elim (or_err_cases (parse_signed i32_max z)) [
      | inl e'' ↦ inl (rw e'' refl)
      | inr (i, e'') ↦ rw e'' (fail_if_cases _ _)
    ])
  ])
]

-- A text is a cursor or a bad request.
pub parse_cursor_cases :
    (s : Text) → (parse_cursor s ≡ err bad_request) ⊎ ((c : LedgerCursor) × (parse_cursor s ≡ ok c))
unfolding parse_cursor
parse_cursor_cases s = parts_cases (split s b':')
