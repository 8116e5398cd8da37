-- ===== src/Ledger/Balances/Effect.antt =====
-- The arithmetic of the balances: each change of the table adds to a balance exactly what the
-- deltas say, and the deltas say exactly what the ledger rows move.
use rust_evm_indexer.Base.{
  ℕ, ◌≡◌, refl, ◌∙◌, Bool, true, false, ◌&&◌, List, [], ◌∷◌, ◌++◌, Option, none, some, ◌==◌,
  if◌then◌else◌, select_first, update_first, arith, Bool-cases, inl, inr,
}
use rust_evm_indexer.Base.Int.{ℤ, pos, ◌+ℤ◌, ◌-ℤ◌, int_laws, +ℤ_zero, -ℤ_zero}
use rust_evm_indexer.Base.Text.{Text, text_eq, text_eq_iff}
use rust_evm_indexer.Ledger.Rows.{LedgerEntryRow, TokenBalanceRow}
use rust_evm_indexer.Ledger.Balances.{
  BalanceDelta, DeltaEntry, is_entry, entry_le, no_delta, change_entry, change_party, debit, credit,
  collect_balance_delta, insert_delta, sort_deltas, is_balance, balance_or_zero, collect_previous,
  collect_current,
}

-- The balance that the table holds for a holder of a token of a source; zero without a row.
abbrev pub balance_of : ℕ → Text → Text → List TokenBalanceRow → ℤ
balance_of source_id holder token rows =
    balance_or_zero (select_first (is_balance source_id holder token) rows)

-- The sum of the deltas under a key.
abbrev pub delta_at : Text → Text → List DeltaEntry → ℤ
delta_at holder token [] = pos 0
delta_at holder token (e ∷ es) =
    (if is_entry holder token e then e.delta.balance_delta else pos 0) +ℤ delta_at holder token es

abbrev pub same_party : Option Text → Text → Bool
same_party none holder = false
same_party (some party) holder = text_eq party holder

-- What a row moves to a holder of a token: its amount if the holder receives, less its amount if
-- the holder sends.
abbrev pub movement : Text → Text → LedgerEntryRow → ℤ
movement holder token row =
    (if same_party row.to_address holder && text_eq row.token_id token then row.amount else pos 0)
    -ℤ (if same_party row.from_address holder && text_eq row.token_id token
        then row.amount
        else pos 0)

-- An orphaned row moves nothing.
abbrev pub live_movement : Text → Text → LedgerEntryRow → ℤ
live_movement holder token row = if row.orphaned then pos 0 else movement holder token row

abbrev pub previous_movement : Text → Text → Option LedgerEntryRow → ℤ
previous_movement holder token none = pos 0
previous_movement holder token (some row) = live_movement holder token row

+ℤ_swap : (a b c : ℤ) → a +ℤ (b +ℤ c) ≡ b +ℤ (a +ℤ c)
+ℤ_swap a b c = omega int_laws

delta_at-change :
    (h t holder token : Text) (change : BalanceDelta → BalanceDelta) (n : ℤ)
    → ((d : BalanceDelta) → (change d).balance_delta ≡ d.balance_delta +ℤ n)
    → (es : List DeltaEntry)
    → delta_at h t (change_entry holder token change es)
      ≡ delta_at h t es +ℤ (if text_eq holder h && text_eq token t then n else pos 0)
unfolding change_entry
delta_at-change h t holder token change n adds [] = grind (int_laws, adds no_delta)
delta_at-change h t holder token change n adds (e ∷ es) = grind (
  int_laws,
  adds e.delta,
  delta_at-change h t holder token change n adds es,
  text_eq_iff e.holder_address h,
  text_eq_iff e.token_id t,
  text_eq_iff e.holder_address holder,
  text_eq_iff e.token_id token,
  text_eq_iff holder h,
  text_eq_iff token t,
)

delta_at-insert :
    (h t : Text) (e : DeltaEntry) (es : List DeltaEntry)
    → delta_at h t (insert_delta e es) ≡ delta_at h t (e ∷ es)
unfolding insert_delta
delta_at-insert h t e [] = refl
delta_at-insert h t e (f ∷ fs) = elim (Bool-cases (entry_le e f)) [
  | inl le ↦ ground (arith, le)
  | inr gt ↦ ground (
    arith,
    gt,
    delta_at-insert h t e fs,
    +ℤ_swap (if is_entry h t e then e.delta.balance_delta else pos 0)
        (if is_entry h t f then f.delta.balance_delta else pos 0) (delta_at h t fs),
  )
]

pub delta_at-sort :
    (h t : Text) (es : List DeltaEntry) → delta_at h t (sort_deltas es) ≡ delta_at h t es
unfolding sort_deltas
delta_at-sort h t [] = refl
delta_at-sort h t (e ∷ es) = rw (delta_at-insert h t e (sort_deltas es), delta_at-sort h t es)

-- Collecting a row adds what it moves, or takes it back.
delta_at-party :
    (h t : Text) (party : Option Text) (token : Text) (change : BalanceDelta → BalanceDelta) (n : ℤ)
    → ((d : BalanceDelta) → (change d).balance_delta ≡ d.balance_delta +ℤ n)
    → (es : List DeltaEntry)
    → delta_at h t (change_party party token change es)
      ≡ delta_at h t es +ℤ (if same_party party h && text_eq token t then n else pos 0)
delta_at-party h t none token change n adds es = omega int_laws
delta_at-party h t (some holder) token change n adds es =
    delta_at-change h t holder token change n adds es

collect_sum :
    (reverse received sent : Bool) (amount before : ℤ)
    → let n = if reverse then pos 0 -ℤ amount else amount in
      let moved = (if received then amount else pos 0) -ℤ (if sent then amount else pos 0) in
      before +ℤ (if sent then pos 0 -ℤ n else pos 0) +ℤ (if received then n else pos 0)
      ≡ (if reverse then before -ℤ moved else before +ℤ moved)
collect_sum true true true amount before = omega int_laws
collect_sum true true false amount before = omega int_laws
collect_sum true false true amount before = omega int_laws
collect_sum true false false amount before = omega int_laws
collect_sum false true true amount before = omega int_laws
collect_sum false true false amount before = omega int_laws
collect_sum false false true amount before = omega int_laws
collect_sum false false false amount before = omega int_laws

delta_at-collect :
    (h t : Text) (row : LedgerEntryRow) (reverse : Bool) (es : List DeltaEntry)
    → delta_at h t (collect_balance_delta es row reverse) ≡ (
        if reverse
        then delta_at h t es -ℤ movement h t row
        else delta_at h t es +ℤ movement h t row)
unfolding collect_balance_delta
delta_at-collect h t row reverse es =
    let amount = if reverse then pos 0 -ℤ row.amount else row.amount in
    let paid =
      delta_at-party h t row.from_address row.token_id (debit row reverse amount) (pos 0 -ℤ amount)
        (λ d. unfold debit in omega int_laws) es in
    let received =
      delta_at-party h t row.to_address row.token_id (credit row reverse amount) amount
        (λ d. unfold credit in refl)
        (change_party row.from_address row.token_id (debit row reverse amount) es) in
    received
    ∙ rw paid (
        collect_sum reverse (same_party row.to_address h && text_eq row.token_id t)
          (same_party row.from_address h && text_eq row.token_id t) row.amount (delta_at h t es))

pub delta_at-previous :
    (h t : Text) (previous : Option LedgerEntryRow)
    → delta_at h t (collect_previous previous) ≡ pos 0 -ℤ previous_movement h t previous
unfolding collect_previous
delta_at-previous h t none = omega int_laws
delta_at-previous h t (some row) = elim (Bool-cases row.orphaned) [
  | inl dead ↦ ground (arith, dead, -ℤ_zero (pos 0))
  | inr live ↦ ground (arith, live, delta_at-collect h t row true [])
]

pub delta_at-current :
    (h t : Text) (current : LedgerEntryRow) (es : List DeltaEntry)
    → delta_at h t (collect_current current es) ≡ delta_at h t es +ℤ live_movement h t current
unfolding collect_current
delta_at-current h t current es = elim (Bool-cases current.orphaned) [
  | inl dead ↦ ground (arith, dead, +ℤ_zero (delta_at h t es))
  | inr live ↦ ground (arith, live, delta_at-collect h t current false es)
]

-- The table under one delta: the balance under its key moves by it, and no other.
pub balance_of-update :
    (s : ℕ) (h t : Text) (source_id : ℕ) (holder token : Text)
    (change : TokenBalanceRow → TokenBalanceRow) (next : ℤ)
    → ((row : TokenBalanceRow) → (change row).balance ≡ next)
    → ((row : TokenBalanceRow) → is_balance s h t (change row) ≡ is_balance s h t row)
    → (rows : List TokenBalanceRow) (old : TokenBalanceRow)
    → select_first (is_balance source_id holder token) rows ≡ some old
    → balance_of s h t (update_first (is_balance source_id holder token) change rows) ≡ (
        if s == source_id && (text_eq holder h && text_eq token t)
        then next
        else balance_of s h t rows)
balance_of-update s h t source_id holder token change next sets keeps [] old e = cc
balance_of-update s h t source_id holder token change next sets keeps (row ∷ rows) old e = ground (
  arith,
  sets row,
  keeps row,
  text_eq_iff row.holder_address h,
  text_eq_iff row.token_id t,
  text_eq_iff row.holder_address holder,
  text_eq_iff row.token_id token,
  text_eq_iff holder h,
  text_eq_iff token t,
  balance_of-update s h t source_id holder token change next sets keeps rows old,
)

pub balance_of-append :
    (s : ℕ) (h t : Text) (row : TokenBalanceRow) (rows : List TokenBalanceRow)
    → select_first (is_balance row.source_id row.holder_address row.token_id) rows ≡ none
    → balance_of s h t (rows ++ row ∷ []) ≡ (
        if s == row.source_id && (text_eq row.holder_address h && text_eq row.token_id t)
        then row.balance
        else balance_of s h t rows)
balance_of-append s h t row [] e =
    ground (arith, text_eq_iff row.holder_address h, text_eq_iff row.token_id t)
balance_of-append s h t row (r ∷ rows) e = ground (
  arith,
  text_eq_iff r.holder_address h,
  text_eq_iff r.token_id t,
  text_eq_iff r.holder_address row.holder_address,
  text_eq_iff r.token_id row.token_id,
  text_eq_iff row.holder_address h,
  text_eq_iff row.token_id t,
  balance_of-append s h t row rows,
)
