-- ===== src/Ledger/Page/Sorted.antt =====
-- The rows of a page, sorted: what the insertion keeps, and that filters and sorting commute.
use rust_evm_indexer.Base.{
  length, suc, ◌≡◌, ◌≢◌, refl, ap, sym, ◌∙◌, ◌⊎◌, inl, inr, Bool, true, ◌↔◌, List, [], ◌∷◌, All, In,
  select, Bool-cases, if◌then◌else◌, arith,
}
use rust_evm_indexer.Ledger.Rows.{LedgerEntryRow}
use rust_evm_indexer.Ledger.Page.{LedgerSort, cursor_of, past, insert_row, order_rows}
use rust_evm_indexer.Ledger.Page.Order.{past_trans, past_asym, past_total}

-- No two rows have one place.
abbrev pub Distinct : List LedgerEntryRow → Type 0
Distinct [] = Unit
Distinct (row ∷ rows) = All (λ other. cursor_of row ≢ cursor_of other) rows × Distinct rows

module _ {A : Type 0} where
  pub select-All :
      (P : A → Type 0) (test : A → Bool) (xs : List A) → All P xs → All P (select test xs)
  select-All P test [] h = tt
  select-All P test (x ∷ xs) (p, ps) = elim (Bool-cases (test x)) [
    | inl hit ↦ rw hit (p, select-All P test xs ps)
    | inr miss ↦ rw miss (select-All P test xs ps)
  ]

  pub All-map : (P Q : A → Type 0) (xs : List A) → ((x : A) → P x → Q x) → All P xs → All Q xs
  All-map P Q [] f h = tt
  All-map P Q (x ∷ xs) f (p, ps) = (f x p, All-map P Q xs f ps)

swap : {P Q R S : Type 0} → S ↔ (P ⊎ R) → (Q ⊎ S) ↔ (P ⊎ (Q ⊎ R))
swap {P} {Q} {R} {S} (to, from) = (there, back)
  where
    there : Q ⊎ S → P ⊎ (Q ⊎ R)
    there (inl q) = inr (inl q)
    there (inr s) = elim (to s) [ inl p ↦ inl p | inr r ↦ inr (inr r) ]

    back : P ⊎ (Q ⊎ R) → Q ⊎ S
    back (inl p) = inr (from (inl p))
    back (inr (inl q)) = inl q
    back (inr (inr r)) = inr (from (inr r))

pub select-Distinct :
    (test : LedgerEntryRow → Bool) (rows : List LedgerEntryRow)
    → Distinct rows
    → Distinct (select test rows)
select-Distinct test [] h = tt
select-Distinct test (row ∷ rows) (p, ps) = elim (Bool-cases (test row)) [
  | inl hit ↦ rw hit (select-All _ test rows p, select-Distinct test rows ps)
  | inr miss ↦ rw miss (select-Distinct test rows ps)
]

module _ (sort : LedgerSort) where
  abbrev pub Follows : LedgerEntryRow → LedgerEntryRow → Type 0
  Follows row later = past sort (cursor_of row) (cursor_of later) ≡ true

  -- Each row is before all that follow it.
  abbrev pub Ordered : List LedgerEntryRow → Type 0
  Ordered [] = Unit
  Ordered (row ∷ rows) = All (Follows row) rows × Ordered rows

  insert-All :
      (P : LedgerEntryRow → Type 0) (row : LedgerEntryRow) (rows : List LedgerEntryRow)
      → P row
      → All P rows
      → All P (insert_row sort row rows)
  unfolding insert_row
  insert-All P row [] p ps = (p, tt)
  insert-All P row (other ∷ rows) p (q, qs) =
      elim (Bool-cases (past sort (cursor_of other) (cursor_of row))) [
        | inl later ↦ rw later (q, insert-All P row rows p qs)
        | inr before ↦ rw before (p, (q, qs))
      ]

  pub order-All :
      (P : LedgerEntryRow → Type 0) (rows : List LedgerEntryRow)
      → All P rows
      → All P (order_rows sort rows)
  unfolding order_rows
  order-All P [] h = tt
  order-All P (row ∷ rows) (p, ps) = insert-All P row (order_rows sort rows) p (order-All P rows ps)

  Follows-All :
      (a b : LedgerEntryRow) (rows : List LedgerEntryRow)
      → Follows a b
      → All (Follows b) rows
      → All (Follows a) rows
  Follows-All a b rows h =
      All-map (Follows b) (Follows a) rows
        (λ c k. past_trans sort (cursor_of a) (cursor_of b) (cursor_of c) h k)

  insert-Ordered :
      (row : LedgerEntryRow) (rows : List LedgerEntryRow)
      → All (λ other. cursor_of row ≢ cursor_of other) rows
      → Ordered rows
      → Ordered (insert_row sort row rows)
  unfolding insert_row
  insert-Ordered row [] apart ordered = (tt, tt)
  insert-Ordered row (other ∷ rows) (ne, nes) (first_row, ordered) =
      elim (Bool-cases (past sort (cursor_of other) (cursor_of row))) [
        | inl later ↦ rw later (
          insert-All (Follows other) row rows later first_row,
          insert-Ordered row rows nes ordered,
        )
        | inr before ↦
            let here = past_total sort (cursor_of other) (cursor_of row) (λ e. ne (sym e)) before in
            rw before ((here, Follows-All row other rows here first_row), (first_row, ordered))
      ]

  pub order-Ordered : (rows : List LedgerEntryRow) → Distinct rows → Ordered (order_rows sort rows)
  unfolding order_rows
  order-Ordered [] h = tt
  order-Ordered (row ∷ rows) (ne, nes) =
      insert-Ordered row (order_rows sort rows) (order-All _ rows ne) (order-Ordered rows nes)

  -- A row that is before all others is put in front.
  insert_front :
      (row : LedgerEntryRow) (rows : List LedgerEntryRow)
      → All (Follows row) rows
      → insert_row sort row rows ≡ row ∷ rows
  unfolding insert_row
  insert_front row [] h = refl
  insert_front row (other ∷ rows) (h, hs) =
      rw (past_asym sort (cursor_of row) (cursor_of other) h) refl

  insert-select :
      (test : LedgerEntryRow → Bool) (row : LedgerEntryRow) (rows : List LedgerEntryRow)
      → All (λ other. cursor_of row ≢ cursor_of other) rows
      → Ordered rows
      → select test (insert_row sort row rows)
        ≡ (if test row then insert_row sort row (select test rows) else select test rows)
  unfolding insert_row
  insert-select test row [] apart ordered = refl
  insert-select test row (other ∷ rows) (ne, nes) (first_row, ordered) =
      elim (Bool-cases (past sort (cursor_of other) (cursor_of row))) [
        | inl later ↦ ground (arith, later, insert-select test row rows nes ordered)
        | inr before ↦
            let here = past_total sort (cursor_of other) (cursor_of row) (λ e. ne (sym e)) before in
            let all =
              select-All (Follows row) test (other ∷ rows)
                (here, Follows-All row other rows here first_row) in
            ground (arith, before, insert_front row (select test (other ∷ rows)) all)
      ]

  -- Rows are filtered and sorted, or sorted and filtered.
  pub order-select :
      (test : LedgerEntryRow → Bool) (rows : List LedgerEntryRow)
      → Distinct rows
      → select test (order_rows sort rows) ≡ order_rows sort (select test rows)
  unfolding order_rows
  order-select test [] h = refl
  order-select test (row ∷ rows) (ne, nes) =
      insert-select test row (order_rows sort rows) (order-All _ rows ne) (order-Ordered rows nes)
      ∙ ground (arith, order-select test rows nes)

  insert-In :
      (row : LedgerEntryRow) (rows : List LedgerEntryRow) (a : LedgerEntryRow)
      → In a (insert_row sort row rows) ↔ In a (row ∷ rows)
  unfolding insert_row
  insert-In row [] a = (λ m. m, λ m. m)
  insert-In row (other ∷ rows) a = elim (Bool-cases (past sort (cursor_of other) (cursor_of row))) [
    | inr before ↦ rw before (λ m. m, λ m. m)
    | inl later ↦ rw later (swap (insert-In row rows a))
  ]

  -- Sorting keeps the rows.
  pub order-In :
      (rows : List LedgerEntryRow) (a : LedgerEntryRow) → In a (order_rows sort rows) ↔ In a rows
  unfolding order_rows
  order-In [] a = (λ m. m, λ m. m)
  order-In (row ∷ rows) a =
      let (to, from) = insert-In row (order_rows sort rows) a in
      let (to', from') = order-In rows a in
      (
        λ m. elim (to m) [ inl e ↦ inl e | inr rest ↦ inr (to' rest) ],
        λ m. from (elim m [ inl e ↦ inl e | inr rest ↦ inr (from' rest) ]),
      )

  length-insert :
      (row : LedgerEntryRow) (rows : List LedgerEntryRow)
      → length (insert_row sort row rows) ≡ suc (length rows)
  unfolding insert_row
  length-insert row [] = refl
  length-insert row (other ∷ rows) = ground (arith, length-insert row rows)

  pub length-order : (rows : List LedgerEntryRow) → length (order_rows sort rows) ≡ length rows
  unfolding order_rows
  length-order [] = refl
  length-order (row ∷ rows) = length-insert row (order_rows sort rows) ∙ ap suc (length-order rows)
