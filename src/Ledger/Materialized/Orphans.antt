-- ===== src/Ledger/Materialized/Orphans.antt =====
-- Orphaning a range keeps the balances equal to the sums of the ledger.
use rust_evm_indexer.Base.{
  ℕ, ◌≡◌, refl, sym, ap, ◌∙◌, subst, Bool, true, false, List, [], ◌∷◌, some, ◌==◌, if◌then◌else◌,
  select, update_where, All, arith, Bool-cases, inl, inr, ok, >>=-eq-ok, ok_inj, ◌||◌,
}
use rust_evm_indexer.Base.Int.{ℤ, pos, ◌+ℤ◌, ◌-ℤ◌, int_laws, ltb_ℤ}
use rust_evm_indexer.Base.Text.{Text}
use rust_evm_indexer.Base.Action.{transaction-keeps}
use rust_evm_indexer.Ports.{SourceRef}
use rust_evm_indexer.Ledger.Rows.{SourceRow, LedgerEntryRow, TokenBalanceRow, LedgerDb}
use rust_evm_indexer.Ledger.Balances.{apply_balance_delta}
use rust_evm_indexer.Ledger.Balances.Effect.{balance_of}
use rust_evm_indexer.Ledger.Balances.Moves.{apply_balance_delta_lem}
use rust_evm_indexer.Ledger.Persist.{lock_source_for_write_conn}
use rust_evm_indexer.Ledger.Orphan.{
  OrphanRangeSummary, from_source, entry_in_range, entry_before, insert_entry, order_entries,
  as_orphaned, take_back, orphan_range_conn, orphan_source_range,
}
use rust_evm_indexer.Ledger.Materialized.{ledger_sum, IsMaterialized}

abbrev OfSource : ℕ → LedgerEntryRow → Type 0
OfSource source_id row = row.source_id ≡ source_id

ledger_sum-insert :
    (s : ℕ) (h t : Text) (row : LedgerEntryRow) (rows : List LedgerEntryRow)
    → ledger_sum s h t (insert_entry row rows) ≡ ledger_sum s h t (row ∷ rows)
unfolding insert_entry
ledger_sum-insert s h t row [] = refl
ledger_sum-insert s h t row (r ∷ rows) = elim (Bool-cases (entry_before row r)) [
  | inl before ↦ rw before refl
  | inr after ↦ rw (after, ledger_sum-insert s h t row rows) (omega int_laws)
]

ledger_sum-order :
    (s : ℕ) (h t : Text) (rows : List LedgerEntryRow)
    → ledger_sum s h t (order_entries rows) ≡ ledger_sum s h t rows
unfolding order_entries
ledger_sum-order s h t [] = refl
ledger_sum-order s h t (row ∷ rows) =
    rw (ledger_sum-insert s h t row (order_entries rows), ledger_sum-order s h t rows) refl

OfSource-insert :
    (source_id : ℕ) (row : LedgerEntryRow) (rows : List LedgerEntryRow)
    → row.source_id ≡ source_id
    → All (OfSource source_id) rows
    → All (OfSource source_id) (insert_entry row rows)
unfolding insert_entry
OfSource-insert source_id row [] own all = (own, tt)
OfSource-insert source_id row (r ∷ rows) own all = elim (Bool-cases (entry_before row r)) [
  | inl before ↦ rw before (own, all)
  | inr after ↦ rw after (all.0, OfSource-insert source_id row rows own all.1)
]

OfSource-order :
    (source_id : ℕ) (rows : List LedgerEntryRow)
    → All (OfSource source_id) rows
    → All (OfSource source_id) (order_entries rows)
unfolding order_entries
OfSource-order source_id [] all = tt
OfSource-order source_id (row ∷ rows) all =
    OfSource-insert source_id row (order_entries rows) all.0 (OfSource-order source_id rows all.1)

entry_in_range_own :
    (source_id : ℕ) (from_block to_block : ℤ) (row : LedgerEntryRow)
    → entry_in_range source_id from_block to_block row ≡ true
    → row.source_id ≡ source_id
unfolding entry_in_range
entry_in_range_own source_id from_block to_block row hit = ground arith

OfSource-select :
    (source_id : ℕ) (from_block to_block : ℤ) (rows : List LedgerEntryRow)
    → All (OfSource source_id) (select (entry_in_range source_id from_block to_block) rows)
OfSource-select source_id from_block to_block [] = tt
OfSource-select source_id from_block to_block (row ∷ rows) =
    elim (Bool-cases (entry_in_range source_id from_block to_block row)) [
      | inl hit ↦ rw hit (
        entry_in_range_own source_id from_block to_block row hit,
        OfSource-select source_id from_block to_block rows,
      )
      | inr miss ↦ rw miss (OfSource-select source_id from_block to_block rows)
    ]

-- What is orphaned leaves the sum.
ledger_sum-orphaned :
    (s : ℕ) (h t : Text) (test : LedgerEntryRow → Bool) (rows : List LedgerEntryRow)
    → ledger_sum s h t (update_where test as_orphaned rows)
      ≡ ledger_sum s h t rows -ℤ ledger_sum s h t (select test rows)
ledger_sum-orphaned s h t test [] = omega int_laws
ledger_sum-orphaned s h t test (row ∷ rows) = elim (Bool-cases (test row)) [
  | inl hit ↦ rw (hit, ledger_sum-orphaned s h t test rows) (no_sum (s == row.source_id) _ _ _)
  | inr miss ↦ rw (miss, ledger_sum-orphaned s h t test rows) (omega int_laws)
]
  where
    no_sum :
        (own : Bool) (moved rest gone : ℤ)
        → (if own then pos 0 else pos 0) +ℤ (rest -ℤ gone)
          ≡ (if own then moved else pos 0) +ℤ rest -ℤ ((if own then moved else pos 0) +ℤ gone)
    no_sum true moved rest gone = omega int_laws
    no_sum false moved rest gone = omega int_laws

take_back_lem :
    (source : SourceRef) (rows : List LedgerEntryRow) (balances balances' : List TokenBalanceRow)
    → All (OfSource source.id) rows
    → take_back source rows balances ≡ ok balances'
    → (s : ℕ) (h t : Text)
    → balance_of s h t balances' ≡ balance_of s h t balances -ℤ ledger_sum s h t rows
unfolding take_back
take_back_lem source [] balances balances' all done s h t =
    ap (balance_of s h t) (sym (ok_inj done)) ∙ omega int_laws
take_back_lem source (row ∷ rows) balances balances' all done s h t =
    let (mid, first_done, rest) =
      >>=-eq-ok (apply_balance_delta source (some row) (as_orphaned row) balances) _ done in
    let first_moves =
      apply_balance_delta_lem source (some row) (as_orphaned row) balances mid first_done s h t in
    take_back_lem source rows mid balances' all.1 rest s h t
    ∙ rw (first_moves, all.0) (taken (s == source.id) _ _ _)
  where
    taken :
        (own : Bool) (before moved rest : ℤ)
        → (if own then before +ℤ pos 0 -ℤ moved else before) -ℤ rest
          ≡ before -ℤ ((if own then moved else pos 0) +ℤ rest)
    taken true before moved rest = omega int_laws
    taken false before moved rest = omega int_laws

orphan_range_conn_lem :
    (source : SourceRow) (from_block to_block : ℤ) (db : LedgerDb) (summary : OrphanRangeSummary)
    (db' : LedgerDb)
    → orphan_range_conn source from_block to_block db ≡ ok (summary, db')
    → IsMaterialized db
    → IsMaterialized db'
unfolding orphan_range_conn from_source
orphan_range_conn_lem source from_block to_block db summary db' done before =
    let test = entry_in_range source.id from_block to_block in
    let rows = select test db.ledger_entries in
    let (_, locked, done1) =
      >>=-eq-ok (lock_source_for_write_conn (from_source source) db) _ done in
    let (balances, taken, done2) =
      >>=-eq-ok (take_back (from_source source) (order_entries rows) db.token_balances) _ done1 in
    let own =
      OfSource-order source.id rows
        (OfSource-select source.id from_block to_block db.ledger_entries) in
    subst (λ p. IsMaterialized p.1) (ok_inj done2)
      (λ s h t.
        take_back_lem (from_source source) (order_entries rows) db.token_balances balances own taken
          s h t
        ∙ rw (ledger_sum-order s h t rows, before s h t)
            (sym (ledger_sum-orphaned s h t test db.ledger_entries)))

-- Orphaning a range of blocks, whether it succeeds or is refused, keeps every balance equal to
-- the net amount that the ledger moves.
pub orphan-IsMaterialized :
    (source : SourceRow) (from_block to_block : ℤ) (db : LedgerDb)
    → IsMaterialized db
    → IsMaterialized (orphan_source_range source from_block to_block db).1
unfolding orphan_source_range
orphan-IsMaterialized source from_block to_block db before =
    elim (Bool-cases (ltb_ℤ from_block (pos 0) || ltb_ℤ to_block (pos 0))) [
      | inl negative ↦ rw negative before
      | inr sound ↦ elim (Bool-cases (ltb_ℤ to_block from_block)) [
        | inl inverted ↦ rw (sound, inverted) before
        | inr ordered ↦
            rw (sound, ordered)
              (transaction-keeps IsMaterialized (orphan_range_conn source from_block to_block) db
                before
                (λ summary db' done.
                  orphan_range_conn_lem source from_block to_block db summary db' done before))
      ]
    ]
