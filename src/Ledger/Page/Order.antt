-- ===== src/Ledger/Page/Order.antt =====
-- The order of a page: places on the chain are ordered both ways, and the rows are sorted by it.
use rust_evm_indexer.Base.{◌≡◌, ◌≢◌, sym, ◌∙◌, ◌⊎◌, inl, inr, true, false, arith}
use rust_evm_indexer.Base.Int.{◌<ℤ◌, eq_of_parts}
use rust_evm_indexer.Ledger.Page.{LedgerCursor, LedgerSort, asc, desc, past}

-- The first place is before the second, by block, then log, then index in the batch.
abbrev pub Before : LedgerCursor → LedgerCursor → Type 0
Before a b =
    (a.block_number <ℤ b.block_number)
    ⊎ (a.block_number ≡ b.block_number)
      × ((a.log_index <ℤ b.log_index)
          ⊎ (a.log_index ≡ b.log_index) × (a.batch_index <ℤ b.batch_index))

past-Before : (a b : LedgerCursor) → past asc a b ≡ true → Before a b
unfolding past
past-Before a b h =
    ground (arith, eq_of_parts a.block_number b.block_number, eq_of_parts a.log_index b.log_index)

Before-past : (a b : LedgerCursor) → Before a b → past asc a b ≡ true
unfolding past
Before-past a b (inl h) = ground arith
Before-past a b (inr (e, inl h)) = ground arith
Before-past a b (inr (e, inr (e', h))) = ground arith

Before-trans : (a b c : LedgerCursor) → Before a b → Before b c → Before a c
Before-trans a b c (inl h) (inl k) = inl (grind arith)
Before-trans a b c (inl h) (inr (e, k)) = inl (grind arith)
Before-trans a b c (inr (e, h)) (inl k) = inl (grind arith)
Before-trans a b c (inr (e, inl h)) (inr (e', inl k)) = inr (e ∙ e', inl (grind arith))
Before-trans a b c (inr (e, inl h)) (inr (e', inr (f', k))) = inr (e ∙ e', inl (grind arith))
Before-trans a b c (inr (e, inr (f, h))) (inr (e', inl k)) = inr (e ∙ e', inl (grind arith))
Before-trans a b c (inr (e, inr (f, h))) (inr (e', inr (f', k))) =
    inr (e ∙ e', inr (f ∙ f', grind arith))

pub past_trans :
    (sort : LedgerSort) (a b c : LedgerCursor)
    → past sort a b ≡ true
    → past sort b c ≡ true
    → past sort a c ≡ true
past_trans asc a b c h k =
    Before-past a c (Before-trans a b c (past-Before a b h) (past-Before b c k))
past_trans desc a b c h k =
    unfold past in Before-past c a (Before-trans c b a (past-Before c b k) (past-Before b a h))

Before-asym : (a b : LedgerCursor) → Before a b → past asc b a ≡ false
unfolding past
Before-asym a b (inl h) = ground arith
Before-asym a b (inr (e, inl h)) = ground arith
Before-asym a b (inr (e, inr (f, h))) = ground arith

pub past_asym :
    (sort : LedgerSort) (a b : LedgerCursor) → past sort a b ≡ true → past sort b a ≡ false
past_asym asc a b h = Before-asym a b (past-Before a b h)
past_asym desc a b h = unfold past in Before-asym b a (past-Before b a h)

past_total_asc : (a b : LedgerCursor) → a ≢ b → past asc a b ≡ false → past asc b a ≡ true
unfolding past
past_total_asc a b h k = ground (
  arith,
  eq_of_parts a.block_number b.block_number,
  eq_of_parts a.log_index b.log_index,
  eq_of_parts a.batch_index b.batch_index,
)

pub past_total :
    (sort : LedgerSort) (a b : LedgerCursor) → a ≢ b → past sort a b ≡ false → past sort b a ≡ true
past_total asc a b h k = past_total_asc a b h k
past_total desc a b h k = unfold past in past_total_asc b a (λ e. h (sym e)) k
