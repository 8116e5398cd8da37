-- ===== src/Domain/Entries.antt =====
-- The ledger entry of the domain and the row of the table say the same of a transfer.
use rust_evm_indexer.Base.{
  ◌≡◌, refl, sym, ap, ◌⊎◌, inl, inr, Bool, true, false, Bool-cases, Option, none, some, Result, ok,
  err, Error, both_zero, ◌||◌, if◌then◌else◌, ok_inj, is_some,
}
use rust_evm_indexer.Base.Text.{Text, to_ascii_lowercase}
use rust_evm_indexer.Ledger.Rows.{movement_type, non_zero_address}
use rust_evm_indexer.Domain.Chain.{Address, new_address, is_zero}
use rust_evm_indexer.Domain.Event.{
  LedgerEntry, LedgerEntryInput, from_participants, unless_zero, new_ledger_entry, entry_of,
}

-- The text of an address that may be missing.
abbrev pub text_of : Option Address → Option Text
text_of none = none
text_of (some address) = some address.as_str

accepted :
    {T : Type 0} (test : Bool) (e : Error) {x a : T}
    → ◌≡◌ {A = Result T} (if test then ok x else err e) (ok a)
    → a ≡ x
accepted true e h = sym (ok_inj h)
accepted false e h = absurd (cc)

address_text :
    (value : Text) (a : Address) → new_address value ≡ ok a → a.as_str ≡ to_ascii_lowercase value
unfolding new_address
address_text value a h = ap (λ address. address.as_str) (accepted _ _ h)

-- Whether an address is zero, told by the domain and by the ledger.
ends :
    (value : Text) (a : Address)
    → new_address value ≡ ok a
    → ((is_zero a ≡ true) × (non_zero_address value ≡ none))
      ⊎ ((is_zero a ≡ false) × (non_zero_address value ≡ some a.as_str))
unfolding is_zero non_zero_address
ends value a h = elim (Bool-cases (is_zero a)) [
  | inl zero ↦ inl (zero, rw (← address_text value a h, zero) refl)
  | inr other ↦ inr (other, rw (← address_text value a h, other) refl)
]

unless_zero_text :
    (value : Text) (a : Address)
    → new_address value ≡ ok a
    → text_of (unless_zero a) ≡ non_zero_address value
unfolding unless_zero
unless_zero_text value a h = elim (ends value a h) [
  | inl (zero, missing) ↦ rw (zero, missing) refl
  | inr (other, there) ↦ rw (other, there) refl
]

-- What the table's row says of the same transfer.
abbrev pub Agrees : Text → Text → LedgerEntry → Type 0
Agrees sender receiver entry =
    (entry.movement_type ≡ movement_type sender receiver)
    × (text_of entry.from ≡ non_zero_address sender)
    × (text_of entry.to ≡ non_zero_address receiver)

module _ (sender receiver : Text) (input : LedgerEntryInput)
    (sent : new_address sender ≡ ok input.from)
    (received : new_address receiver ≡ ok input.to) where
  agreed :
      from_participants input.from input.to ≡ ok (movement_type sender receiver)
      → (entry : LedgerEntry) × (new_ledger_entry input ≡ ok entry) × Agrees sender receiver entry
  unfolding new_ledger_entry
  agreed h = (
    entry_of input (movement_type sender receiver),
    rw h refl,
    (refl, unless_zero_text sender input.from sent, unless_zero_text receiver input.to received),
  )

  -- For two texts that are addresses, the entry is refused exactly if both are the zero address.
  -- An entry that is accepted has the movement, the sender and the receiver that the ledger's row
  -- of the same transfer has.
  pub new_ledger_entry_lem :
      ((non_zero_address sender ≡ none)
        × (non_zero_address receiver ≡ none)
        × (new_ledger_entry input ≡ err both_zero))
      ⊎ ((is_some (non_zero_address sender) || is_some (non_zero_address receiver) ≡ true)
          × ((entry : LedgerEntry) × (new_ledger_entry input ≡ ok entry)
              × Agrees sender receiver entry))
  unfolding new_ledger_entry from_participants movement_type
  new_ledger_entry_lem = elim (ends sender input.from sent) [
    | inl (zs, ns) ↦ elim (ends receiver input.to received) [
      | inl (zr, nr) ↦ inl (ns, nr, rw (zs, zr) refl)
      | inr (zr, nr) ↦ inr (rw (ns, nr) refl, agreed (rw (zs, zr, ns, nr) refl))
    ]
    | inr (zs, ns) ↦ elim (ends receiver input.to received) [
      | inl (zr, nr) ↦ inr (rw ns refl, agreed (rw (zs, zr, ns, nr) refl))
      | inr (zr, nr) ↦ inr (rw ns refl, agreed (rw (zs, zr, ns, nr) refl))
    ]
  ]
