-- ===== src/Ledger/Balances/Moves.antt =====
-- What a successful `apply_balance_delta` does to every balance.
use rust_evm_indexer.Base.{
  ℕ, ◌≡◌, refl, ap, ◌∙◌, Bool, true, false, ◌&&◌, List, [], ◌∷◌, Option, none, some, ◌==◌,
  if◌then◌else◌, select_first, ok, arith, Bool-cases, inl, inr, >>=-eq-ok,
}
use rust_evm_indexer.Base.Int.{
  ℤ, pos, ◌+ℤ◌, ◌-ℤ◌, int_laws, eqb_ℤ, eqb_ℤ_iff, ltb_ℤ, +ℤ_zero, +ℤ_assoc,
}
use rust_evm_indexer.Base.Text.{Text, text_eq, text_eq_iff}
use rust_evm_indexer.Ports.{SourceRef}
use rust_evm_indexer.Ledger.Rows.{
  LedgerEntryRow, TokenBalanceRow, min_optional_block, max_optional_block,
}
use rust_evm_indexer.Ledger.Balances.{
  DeltaEntry, is_entry, is_balance, balance_or_zero, optional_block, store_balance, sort_deltas,
  apply_holder_balance_delta, apply_deltas, collect_previous, collect_current, apply_balance_delta,
}
use rust_evm_indexer.Ledger.Balances.Effect.{
  balance_of, delta_at, live_movement, previous_movement, balance_of-update, balance_of-append,
  delta_at-sort, delta_at-previous, delta_at-current,
}

found_key :
    (source_id : ℕ) (holder token : Text) (rows : List TokenBalanceRow) (s : ℕ) (h t : Text)
    → (s == source_id && (text_eq holder h && text_eq token t)) ≡ true
    → balance_of s h t rows ≡ balance_of source_id holder token rows
found_key source_id holder token rows s h t e =
    ground (arith, text_eq_iff holder h, text_eq_iff token t)

store_balance_lem :
    (source : SourceRef) (holder token : Text) (next : ℤ) (first_at last_at : Option ℤ)
    (existing : Option TokenBalanceRow) (rows : List TokenBalanceRow)
    → select_first (is_balance source.id holder token) rows ≡ existing
    → (s : ℕ) (h t : Text)
    → balance_of s h t (store_balance source holder token next first_at last_at existing rows) ≡ (
        if s == source.id && (text_eq holder h && text_eq token t)
        then next
        else balance_of s h t rows)
unfolding store_balance
store_balance_lem source holder token next first_at last_at (some old) rows e s h t =
    balance_of-update s h t source.id holder token
      (λ row. record row {
        balance = next;
        first_received_block = first_at;
        last_moved_block = last_at;
      })
      next (λ row. refl) (λ row. refl) rows old e
store_balance_lem source holder token next first_at last_at none rows e s h t =
    elim (Bool-cases (eqb_ℤ next (pos 0))) [
      | inl zero_balance ↦
          ground
            (arith, zero_balance, eqb_ℤ_iff next (pos 0), text_eq_iff holder h, text_eq_iff token t)
      | inr nonzero ↦ rw nonzero (
          balance_of-append s h t
            (record {
              source_id = source.id;
              chain_id = source.chain_id;
              contract_address = source.contract_address;
              token_standard = source.token_standard;
              holder_address = holder;
              token_id = token;
              balance = next;
              first_received_block = first_at;
              last_moved_block = last_at;
            })
            rows e)
    ]

-- One delta moves the balance under its key, and no other.
apply_holder_lem :
    (source : SourceRef) (e : DeltaEntry) (rows rows' : List TokenBalanceRow)
    → apply_holder_balance_delta source e.holder_address e.token_id e.delta rows ≡ ok rows'
    → (s : ℕ) (h t : Text)
    → balance_of s h t rows'
      ≡ balance_of s h t rows
        +ℤ (if s == source.id && is_entry h t e then e.delta.balance_delta else pos 0)
unfolding apply_holder_balance_delta
apply_holder_lem source e rows rows' done s h t =
    let existing = select_first (is_balance source.id e.holder_address e.token_id) rows in
    let next = balance_or_zero existing +ℤ e.delta.balance_delta in
    elim (Bool-cases (ltb_ℤ next (pos 0))) [
      | inl low ↦ ground (arith, low)
      | inr high ↦ ground (
        arith,
        high,
        +ℤ_zero (balance_of s h t rows),
        store_balance_lem source e.holder_address e.token_id next
            (min_optional_block (optional_block (λ row. row.first_received_block) existing)
              e.delta.first_received_block)
            (max_optional_block (optional_block (λ row. row.last_moved_block) existing)
              e.delta.last_moved_block)
            existing rows refl s h t,
        found_key source.id e.holder_address e.token_id rows s h t,
      )
    ]

sum_moves :
    (same hit : Bool) (before mid after d rest : ℤ)
    → mid ≡ before +ℤ (if same && hit then d else pos 0)
    → after ≡ mid +ℤ (if same then rest else pos 0)
    → after ≡ before +ℤ (if same then (if hit then d else pos 0) +ℤ rest else pos 0)
sum_moves true true before mid after d rest e f = f ∙ ap (λ m. m +ℤ rest) e ∙ +ℤ_assoc before d rest
sum_moves true false before mid after d rest e f =
    f ∙ ap (λ m. m +ℤ rest) e ∙ +ℤ_assoc before (pos 0) rest
sum_moves false hit before mid after d rest e f = f ∙ +ℤ_zero mid ∙ e

net_delta : (before new old : ℤ) → before +ℤ (pos 0 -ℤ old +ℤ new) ≡ before +ℤ new -ℤ old
net_delta before new old = omega int_laws

sum_delta :
    (same : Bool) (before after d new old : ℤ)
    → after ≡ before +ℤ (if same then d else pos 0)
    → d ≡ pos 0 -ℤ old +ℤ new
    → after ≡ (if same then before +ℤ new -ℤ old else before)
sum_delta true before after d new old e f = e ∙ ap (λ m. before +ℤ m) f ∙ net_delta before new old
sum_delta false before after d new old e f = e ∙ +ℤ_zero before

-- The whole list of deltas moves each balance by the sum under its key.
apply_deltas_lem :
    (source : SourceRef) (es : List DeltaEntry) (rows rows' : List TokenBalanceRow)
    → apply_deltas source es rows ≡ ok rows'
    → (s : ℕ) (h t : Text)
    → balance_of s h t rows'
      ≡ balance_of s h t rows +ℤ (if s == source.id then delta_at h t es else pos 0)
unfolding apply_deltas
apply_deltas_lem source [] rows rows' done s h t =
    ground (arith, done, +ℤ_zero (balance_of s h t rows))
apply_deltas_lem source (e ∷ es) rows rows' done s h t =
    let (mid, first_done, rest_done) = >>=-eq-ok _ _ done in
    let head_moves = apply_holder_lem source e rows mid first_done s h t in
    let tail_moves = apply_deltas_lem source es mid rows' rest_done s h t in
    sum_moves (s == source.id) (is_entry h t e) _ _ _ _ _ head_moves tail_moves

-- A successful `apply_balance_delta` moves each balance of its source by what the current row
-- moves, less what the previous row moved.
pub apply_balance_delta_lem :
    (source : SourceRef) (previous : Option LedgerEntryRow) (current : LedgerEntryRow)
    (rows rows' : List TokenBalanceRow)
    → apply_balance_delta source previous current rows ≡ ok rows'
    → (s : ℕ) (h t : Text)
    → balance_of s h t rows' ≡ (
        if s == source.id
        then balance_of s h t rows +ℤ live_movement h t current -ℤ previous_movement h t previous
        else balance_of s h t rows)
unfolding apply_balance_delta
apply_balance_delta_lem source previous current rows rows' done s h t =
    let es = collect_current current (collect_previous previous) in
    sum_delta (s == source.id) _ _ _ _ _
      (apply_deltas_lem source (sort_deltas es) rows rows' done s h t)
      (delta_at-sort h t es
        ∙ delta_at-current h t current (collect_previous previous)
        ∙ ap (λ d. d +ℤ live_movement h t current) (delta_at-previous h t previous))
