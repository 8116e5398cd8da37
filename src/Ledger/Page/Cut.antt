-- ===== src/Ledger/Page/Cut.antt =====
-- Cutting the loaded rows to a page, and where the next page starts.
use rust_evm_indexer.Base.{
  ℕ, zero, suc, ◌+◌, ◌≤◌, ◌<◌, ltb, ◌≡◌, refl, ap, inl, inr, true, false, Bool, ◌&&◌, List, [], ◌∷◌,
  ◌++◌, map, none, some, length, take, last, All, select, Bool-cases, arith,
}
use rust_evm_indexer.Base.Int.{ℤ}
use rust_evm_indexer.Base.Text.{Text}
use rust_evm_indexer.Ledger.Rows.{LedgerEntryRow}
use rust_evm_indexer.Ledger.Page.{
  LedgerSort, LedgerTransfer, cursor_of, cursor_of_last, past, transfer_of, cut_page,
}
use rust_evm_indexer.Ledger.Page.Order.{past_asym}
use rust_evm_indexer.Ledger.Page.Sorted.{Ordered}

module _ {A : Type 0} where
  pub select_both :
      (p q : A → Bool) (xs : List A) → select (λ x. p x && q x) xs ≡ select q (select p xs)
  select_both p q [] = refl
  select_both p q (x ∷ xs) = elim (Bool-cases (p x)) [
    | inl hit ↦ rw (hit, select_both p q xs) refl
    | inr miss ↦ rw (miss, select_both p q xs) refl
  ]

  pub select-All : (p : A → Bool) (xs : List A) → All (λ x. p x ≡ true) xs → select p xs ≡ xs
  select-All p [] h = refl
  select-All p (x ∷ xs) (h, hs) = rw (h, select-All p xs hs) refl

  take_short : (n : ℕ) (xs : List A) → length xs ≤ n → take n xs ≡ xs
  take_short zero [] h = refl
  take_short zero (x ∷ xs) h = absurd (omega arith)
  take_short (suc n) [] h = refl
  take_short (suc n) (x ∷ xs) h = ap (λ l. x ∷ l) (take_short n xs (omega arith))

  last-append : (xs : List A) (x : A) → last (xs ++ x ∷ []) ≡ some x
  last-append [] x = refl
  last-append (y ∷ []) x = refl
  last-append (y ∷ z ∷ xs) x = last-append (z ∷ xs) x

  middle-All : (P : A → Type 0) (xs : List A) (y : A) (ys : List A) → All P (xs ++ y ∷ ys) → P y
  middle-All P [] y ys h = h.0
  middle-All P (x ∷ xs) y ys h = middle-All P xs y ys h.1

  -- A list that is longer than a page: the page, its last item, and the rest.
  take_long :
      (m : ℕ) (xs : List A)
      → suc m < length xs
      → (init : List A) × (x : A) × (rest : List A) × (xs ≡ init ++ x ∷ rest)
        × (take (suc m) (take (suc (suc m)) xs) ≡ init ++ x ∷ [])
        × (length (take (suc (suc m)) xs) ≡ suc (suc m))
  take_long m [] h = absurd (omega arith)
  take_long m (x ∷ []) h = absurd (omega arith)
  take_long zero (x ∷ y ∷ xs) h = ([], x, y ∷ xs, refl, refl, refl)
  take_long (suc m) (x ∷ y ∷ xs) h =
      let (init, z, rest, whole, page, size) = take_long m (y ∷ xs) (omega arith) in
      (x ∷ init, z, rest, ap (λ l. x ∷ l) whole, ap (λ l. x ∷ l) page, ap suc size)

-- What follows a row is what is past its place.
pub select-past :
    (sort : LedgerSort) (before : List LedgerEntryRow) (row : LedgerEntryRow)
    (rest : List LedgerEntryRow)
    → Ordered sort (before ++ row ∷ rest)
    → select (λ r. past sort (cursor_of row) (cursor_of r)) (before ++ row ∷ rest) ≡ rest
select-past sort [] row rest (h, hs) =
    let here : past sort (cursor_of row) (cursor_of row) ≡ false =
      elim (Bool-cases (past sort (cursor_of row) (cursor_of row))) [
        | inl itself ↦ past_asym sort (cursor_of row) (cursor_of row) itself
        | inr apart ↦ apart
      ] in
    rw (here, select-All _ rest h) refl
select-past sort (first_row ∷ before) row rest (h, hs) =
    let here : past sort (cursor_of row) (cursor_of first_row) ≡ false =
      past_asym sort (cursor_of first_row) (cursor_of row) (middle-All _ before row rest h) in
    rw (here, select-past sort before row rest hs) refl

module _ (amount_string : ℤ → Text) where
  abbrev pub transfers : List LedgerEntryRow → List LedgerTransfer
  transfers rows = map (transfer_of amount_string) rows

  -- A page that holds all there is.
  pub cut_page-short :
      (limit : ℕ) (rows : List LedgerEntryRow)
      → length rows ≤ limit
      → cut_page amount_string limit (take (limit + 1) rows)
        ≡ record { items = transfers rows; next_cursor = none }
  unfolding cut_page
  cut_page-short limit rows h =
      let all = take_short (limit + 1) rows (omega arith) in
      let small : ltb limit (length rows) ≡ false = ground arith in rw (all, small) refl

  -- A page that more rows follow.
  pub cut_page-long :
      (limit : ℕ) (rows : List LedgerEntryRow)
      → 1 ≤ limit
      → limit < length rows
      → (init : List LedgerEntryRow) × (row : LedgerEntryRow) × (rest : List LedgerEntryRow) × (rows
          ≡ init ++ row ∷ rest)
        × (cut_page amount_string limit (take (limit + 1) rows)
            ≡ record { items = transfers (init ++ row ∷ []); next_cursor = some (cursor_of row) })
  unfolding cut_page cursor_of_last
  cut_page-long zero rows pos_limit h = absurd (omega arith)
  cut_page-long (suc m) rows pos_limit h =
      let (init, row, rest, whole, page, size) = take_long m rows h in
      let one : suc m + 1 ≡ suc (suc m) = omega arith in
      let large : ltb (suc m) (suc (suc m)) ≡ true = ground arith in
      (init, row, rest, whole, rw (one, size, large, page, last-append init row) refl)
