-- ===== src/Ledger/Page/Wanted.antt =====
-- Which rows a query asks for, as a statement on the row.
use rust_evm_indexer.Base.{
  ℕ, ◌==◌, ◌≡◌, refl, ap, ◌↔◌, ◌⊎◌, inl, inr, Bool, true, false, not, ◌&&◌, ◌||◌, Option, none,
  some, arith,
}
use rust_evm_indexer.Base.Int.{ℤ, ◌≤ℤ◌, leb_ℤ}
use rust_evm_indexer.Base.Text.{Text, text_eq_iff, to_ascii_lowercase}
use rust_evm_indexer.Ledger.Rows.{LedgerEntryRow}
use rust_evm_indexer.Ledger.Page.{LedgerQuery, movement_str, where_some, is_text, selected}

-- A condition that is there only for some queries.
abbrev pub WhereSome {ℓ} : {A : Type ℓ} → Option A → (A → Type 0) → Type 0
WhereSome none P = Unit
WhereSome (some a) P = P a

-- A live row of the source in the blocks of the query, moved from or to the holder, of the token
-- and the kind of movement, where the query names them.
abbrev pub Wanted : ℕ → LedgerQuery → LedgerEntryRow → Type 0
Wanted source_id query row =
    (row.source_id ≡ source_id)
    × ((row.orphaned ≡ false)
        × (WhereSome query.from_block (λ from. from ≤ℤ row.block_number)
            × (WhereSome query.to_block (λ to. row.block_number ≤ℤ to)
                × (WhereSome query.holder (λ holder.
                      (row.from_address ≡ some (to_ascii_lowercase holder))
                      ⊎ (row.to_address ≡ some (to_ascii_lowercase holder)))
                    × (WhereSome query.token_id (λ token_id. row.token_id ≡ token_id)
                        × WhereSome query.movement_type
                            (λ kind. movement_str row.movement_type ≡ to_ascii_lowercase kind))))))

and_iff : (a b : Bool) {P Q : Type 0} → (a ≡ true) ↔ P → (b ≡ true) ↔ Q → (a && b ≡ true) ↔ P × Q
and_iff true b (to, from) (to', from') = (λ h. (to refl, to' h), λ h. from' h.1)
and_iff false b (to, from) (to', from') = (λ h. cc, λ h. from h.0)

or_iff : (a b : Bool) {P Q : Type 0} → (a ≡ true) ↔ P → (b ≡ true) ↔ Q → (a || b ≡ true) ↔ (P ⊎ Q)
or_iff true b (to, from) (to', from') = (λ h. inl (to refl), λ h. refl)
or_iff false b {P} {Q} (to, from) (to', from') = (λ h. inr (to' h), back)
  where
    back : P ⊎ Q → false || b ≡ true
    back (inl p) = let wrong = from p in cc
    back (inr q) = from' q

where_iff {ℓ} :
    {A : Type ℓ} (o : Option A) (test : A → Bool) (P : A → Type 0)
    → ((a : A) → (test a ≡ true) ↔ P a)
    → (where_some o test ≡ true) ↔ WhereSome o P
where_iff none test P h = (λ _. tt, λ _. refl)
where_iff (some a) test P h = h a

is_text_iff : (o : Option Text) (value : Text) → (is_text o value ≡ true) ↔ (o ≡ some value)
is_text_iff none value = (λ h. cc, λ h. cc)
is_text_iff (some text) value =
    let (to, from) = text_eq_iff text value in (λ h. ap some (to h), λ h. from (cc))

live_iff : (b : Bool) → (not b ≡ true) ↔ (b ≡ false)
live_iff b = ground arith

same_iff : (a b : ℕ) → ((a == b) ≡ true) ↔ (a ≡ b)
same_iff a b = ground arith

leb_iff : (a b : ℤ) → (leb_ℤ a b ≡ true) ↔ (a ≤ℤ b)
leb_iff a b = ground arith

-- The filters of the query ask for what the statement says.
pub selected_iff :
    (source_id : ℕ) (query : LedgerQuery) (row : LedgerEntryRow)
    → (selected source_id query row ≡ true) ↔ Wanted source_id query row
unfolding selected
selected_iff source_id query row =
    and_iff (row.source_id == source_id) _ (same_iff row.source_id source_id) (
      and_iff (not row.orphaned) _ (live_iff row.orphaned) (
        and_iff (where_some query.from_block _) _
          (where_iff query.from_block _ _ (λ from. leb_iff from row.block_number))
          (and_iff (where_some query.to_block _) _
            (where_iff query.to_block _ _ (λ to. leb_iff row.block_number to))
            (and_iff (where_some query.holder _) _
              (where_iff query.holder _ _ (λ holder.
                or_iff (is_text row.from_address (to_ascii_lowercase holder)) _
                  (is_text_iff row.from_address (to_ascii_lowercase holder))
                  (is_text_iff row.to_address (to_ascii_lowercase holder))))
              (and_iff (where_some query.token_id _) (where_some query.movement_type _)
                (where_iff query.token_id _ _ (λ token_id. text_eq_iff row.token_id token_id))
                (where_iff query.movement_type _ _ (λ kind.
                  text_eq_iff (movement_str row.movement_type) (to_ascii_lowercase kind))))))))
