-- ===== src/Ledger/Materialized/Upserts.antt =====
-- Persisting an entry of a log keeps the balances equal to the sums of the ledger.
use rust_evm_indexer.Base.{
  ℕ, ◌≡◌, refl, sym, ap, ◌∙◌, subst, Bool, true, false, List, Option, none, some, ◌==◌,
  if◌then◌else◌, select_first, arith, ok, >>=-eq-ok, fail_if, Error, ok_inj, other_source,
}
use rust_evm_indexer.Base.Int.{ℤ, pos, ◌+ℤ◌, ◌-ℤ◌, int_laws, as_i32}
use rust_evm_indexer.Base.Text.{Text, to_ascii_lowercase}
use rust_evm_indexer.Ports.{SourceRef}
use rust_evm_indexer.Evm.{RpcLog, DecodedLedgerEntry, parse_hex_u64}
use rust_evm_indexer.Ledger.Rows.{LedgerEntryRow, LedgerDb}
use rust_evm_indexer.Ledger.Balances.{apply_balance_delta}
use rust_evm_indexer.Ledger.Balances.Effect.{balance_of, live_movement, previous_movement}
use rust_evm_indexer.Ledger.Balances.Moves.{apply_balance_delta_lem}
use rust_evm_indexer.Ledger.Upsert.{
  PersistDecodedLogsOptions, is_ledger_entry, overwrite_entry, store_ledger_entry,
  new_ledger_entry_row, lock_existing_ledger_entry, upsert_ledger_entry,
}
use rust_evm_indexer.Ledger.Persist.{of_other_source, persist_entry}
use rust_evm_indexer.Ledger.Materialized.{
  moved_at, ledger_sum, IsMaterialized, ledger_sum-append, ledger_sum-update,
}

fail_if-ok : (b : Bool) (e : Error) → {u : Unit {0}} → fail_if b e ≡ ok u → b ≡ false
fail_if-ok true e h = cc
fail_if-ok false e h = refl

step :
    (own : Bool) (before new old : ℤ)
    → (if own then before +ℤ new -ℤ old else before)
      ≡ before +ℤ (if own then new else pos 0) -ℤ (if own then old else pos 0)
step true before new old = refl
step false before new old = omega int_laws

-- What the previous row counted for in the ledger.
abbrev previous_at : ℕ → Text → Text → Option LedgerEntryRow → ℤ
previous_at s h t none = pos 0
previous_at s h t (some row) = moved_at s h t row

store_ledger_entry_lem :
    (options : PersistDecodedLogsOptions) (values : LedgerEntryRow)
    (previous : Option LedgerEntryRow) (rows : List LedgerEntryRow)
    → select_first
        (is_ledger_entry values.chain_id values.transaction_hash values.log_index
          values.batch_index)
        rows
      ≡ previous
    → (s : ℕ) (h t : Text)
    → ledger_sum s h t (store_ledger_entry options values previous rows).1
      ≡ ledger_sum s h t rows
        +ℤ moved_at s h t (store_ledger_entry options values previous rows).0
        -ℤ previous_at s h t previous
unfolding store_ledger_entry
store_ledger_entry_lem options values none rows e s h t =
    rw (ledger_sum-append s h t rows values) (omega int_laws)
store_ledger_entry_lem options values (some old) rows e s h t =
    ledger_sum-update s h t
      (is_ledger_entry values.chain_id values.transaction_hash values.log_index values.batch_index)
      (overwrite_entry options values) rows old e

store_ledger_entry_source :
    (options : PersistDecodedLogsOptions) (values : LedgerEntryRow) (source : SourceRef)
    (previous : Option LedgerEntryRow) (rows : List LedgerEntryRow)
    → values.source_id ≡ source.id
    → of_other_source source previous ≡ false
    → (store_ledger_entry options values previous rows).0.source_id ≡ source.id
unfolding store_ledger_entry
store_ledger_entry_source options values source none rows e own = e
store_ledger_entry_source options values source (some old) rows e own = ground arith

previous_at_own :
    (source : SourceRef) (previous : Option LedgerEntryRow) (s : ℕ) (h t : Text)
    → of_other_source source previous ≡ false
    → previous_at s h t previous
      ≡ (if s == source.id then previous_movement h t previous else pos 0)
previous_at_own source none s h t own = ground arith
previous_at_own source (some old) s h t own = ground arith

-- The row that is proposed is of the source, under the key that was locked.
module _ (parse_amount : Text → Option ℤ) where
  new_row_lem :
      (source : SourceRef) (log : RpcLog) (event_id : ℕ) (entry : DecodedLedgerEntry)
      (values : LedgerEntryRow) (index : ℕ)
      → parse_hex_u64 log.log_index ≡ ok index
      → new_ledger_entry_row parse_amount source log event_id entry ≡ ok values
      → (values.log_index ≡ as_i32 index)
        × (values.chain_id ≡ source.chain_id)
        × (values.transaction_hash ≡ to_ascii_lowercase log.transaction_hash)
        × (values.batch_index ≡ entry.batch_index)
        × (values.source_id ≡ source.id)
  unfolding new_ledger_entry_row
  new_row_lem source log event_id entry values index read done = ground (arith, read, done)

  -- What an upsert leaves: the balances as they were, and a ledger that differs by one row.
  upsert_lem :
      (source : SourceRef) (log : RpcLog) (event_id : ℕ) (entry : DecodedLedgerEntry)
      (options : PersistDecodedLogsOptions) (db db' : LedgerDb) (current : LedgerEntryRow)
      (previous : Option LedgerEntryRow)
      → lock_existing_ledger_entry source log entry.batch_index db ≡ ok previous
      → of_other_source source previous ≡ false
      → upsert_ledger_entry parse_amount source log event_id entry options db ≡ ok (current, db')
      → (db'.token_balances ≡ db.token_balances)
        × ((s : ℕ) (h t : Text)
            → ledger_sum s h t db'.ledger_entries
              ≡ ledger_sum s h t db.ledger_entries
                +ℤ (if s == source.id then live_movement h t current else pos 0)
                -ℤ (if s == source.id then previous_movement h t previous else pos 0))
  unfolding upsert_ledger_entry lock_existing_ledger_entry
  upsert_lem source log event_id entry options db db' current previous locked own done =
      let (index, read, locked') = >>=-eq-ok (parse_hex_u64 log.log_index) _ locked in
      let (values, made, done') =
        >>=-eq-ok (new_ledger_entry_row parse_amount source log event_id entry) _ done in
      let facts = new_row_lem source log event_id entry values index read made in
      let key =
        is_ledger_entry values.chain_id values.transaction_hash values.log_index
          values.batch_index in
      let found : select_first key db.ledger_entries ≡ previous =
        rw (facts.0, facts.1, facts.2, facts.3) cc in
      let stored =
        store_ledger_entry options values (select_first key db.ledger_entries) db.ledger_entries in
      let left : (stored.0, record db { ledger_entries = stored.1 }) ≡ (current, db') =
        ok_inj done' in
      let row : stored.0 ≡ current = ap (λ p. p.0) left in
      let rows : stored.1 ≡ db'.ledger_entries = ap (λ p. p.1.ledger_entries) left in
      let own' : of_other_source source (select_first key db.ledger_entries) ≡ false =
        rw found own in
      let of_source : current.source_id ≡ source.id =
        sym (ap (λ r. r.source_id) row)
        ∙ store_ledger_entry_source options values source (select_first key db.ledger_entries)
            db.ledger_entries facts.4 own' in
      (
        sym (ap (λ p. p.1.token_balances) left),
        λ s h t.
            sym (ap (ledger_sum s h t) rows)
            ∙ store_ledger_entry_lem options values (select_first key db.ledger_entries)
                db.ledger_entries refl s h t
            ∙ rw (row, found, previous_at_own source previous s h t own, of_source) refl,
      )

  pub persist_entry_lem :
      (source : SourceRef) (options : PersistDecodedLogsOptions) (log : RpcLog) (event_id : ℕ)
      (entry : DecodedLedgerEntry) (db db' : LedgerDb)
      → persist_entry parse_amount source options log event_id entry db ≡ ok db'
      → IsMaterialized db
      → IsMaterialized db'
  unfolding persist_entry
  persist_entry_lem source options log event_id entry db db' done before s h t =
      let (previous, locked, done1) =
        >>=-eq-ok (lock_existing_ledger_entry source log entry.batch_index db) _ done in
      let (_, own, done2) =
        >>=-eq-ok (fail_if (of_other_source source previous) other_source) _ done1 in
      let ((current, db1), upserted, done3) =
        >>=-eq-ok (upsert_ledger_entry parse_amount source log event_id entry options db) _ done2 in
      let (balances, moved, done4) =
        >>=-eq-ok (apply_balance_delta source previous current db1.token_balances) _ done3 in
      let (kept, summed) =
        upsert_lem source log event_id entry options db db1 current previous locked
          (fail_if-ok _ _ own) upserted in
      let left : record db1 { token_balances = balances } ≡ db' = ok_inj done4 in
      let changed =
        apply_balance_delta_lem source previous current db1.token_balances balances moved s h t in
      subst (λ d. balance_of s h t d.token_balances ≡ ledger_sum s h t d.ledger_entries) left
        (changed
          ∙ rw (kept, before s h t) (step (s == source.id) (ledger_sum s h t db.ledger_entries) _ _)
          ∙ sym (summed s h t))
