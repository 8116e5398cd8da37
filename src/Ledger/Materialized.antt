-- ===== src/Ledger/Materialized.antt =====
-- The balances that are kept are the sums of the ledger: the sum, and what an upsert and an
-- orphaning do to it.
mod Upserts
pub mod Scans
pub mod Orphans
use rust_evm_indexer.Base.{
  ℕ, ◌≡◌, refl, sym, ap, ◌∙◌, Bool, true, false, ◌&&◌, not, List, [], ◌∷◌, ◌++◌, Option, none, some,
  ◌==◌, if◌then◌else◌, select, select_first, update_first, update_where, arith, Bool-cases, inl,
  inr,
}
use rust_evm_indexer.Base.Int.{ℤ, pos, ◌+ℤ◌, ◌-ℤ◌, int_laws, +ℤ_zero}
use rust_evm_indexer.Base.Text.{Text}
use rust_evm_indexer.Ledger.Rows.{LedgerEntryRow, TokenBalanceRow, LedgerDb}
use rust_evm_indexer.Ledger.Balances.Effect.{balance_of, live_movement}

-- What a row moves to a holder of a token at a source.
abbrev pub moved_at : ℕ → Text → Text → LedgerEntryRow → ℤ
moved_at s h t row = if s == row.source_id then live_movement h t row else pos 0

-- The net amount that the ledger moves to a holder of a token at a source.
abbrev pub ledger_sum : ℕ → Text → Text → List LedgerEntryRow → ℤ
ledger_sum s h t [] = pos 0
ledger_sum s h t (row ∷ rows) = moved_at s h t row +ℤ ledger_sum s h t rows

-- Every balance is the net amount of the ledger.
abbrev pub IsMaterialized : LedgerDb → Type 0
IsMaterialized db =
    (s : ℕ) (h t : Text) → balance_of s h t db.token_balances ≡ ledger_sum s h t db.ledger_entries

pub ledger_sum-append :
    (s : ℕ) (h t : Text) (rows : List LedgerEntryRow) (row : LedgerEntryRow)
    → ledger_sum s h t (rows ++ row ∷ []) ≡ ledger_sum s h t rows +ℤ moved_at s h t row
ledger_sum-append s h t [] row = omega int_laws
ledger_sum-append s h t (r ∷ rows) row = rw (ledger_sum-append s h t rows row) (omega int_laws)

pub ledger_sum-update :
    (s : ℕ) (h t : Text) (test : LedgerEntryRow → Bool) (change : LedgerEntryRow → LedgerEntryRow)
    (rows : List LedgerEntryRow) (old : LedgerEntryRow)
    → select_first test rows ≡ some old
    → ledger_sum s h t (update_first test change rows)
      ≡ ledger_sum s h t rows +ℤ moved_at s h t (change old) -ℤ moved_at s h t old
ledger_sum-update s h t test change [] old e = cc
ledger_sum-update s h t test change (row ∷ rows) old e = elim (Bool-cases (test row)) [
  | inl hit ↦
      let same : some row ≡ some old = rw hit at e in
      let same_row : row ≡ old = cc in rw (hit, same_row) (omega int_laws)
  | inr miss ↦
      let e' : select_first test rows ≡ some old = rw miss at e in
      rw (miss, ledger_sum-update s h t test change rows old e') (omega int_laws)
]
