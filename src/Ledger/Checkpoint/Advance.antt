-- ===== src/Ledger/Checkpoint/Advance.antt =====
-- Checkpoints only move forward, and stay at or below the finalized block.
use rust_evm_indexer.Base.{
  ℕ, ◌≡◌, refl, subst, ok_inj, false, List, [], ◌∷◌, ◌++◌, Option, none, some, ◌==◌, update_first,
  All, arith, Bool-cases, inl, inr, ◌⊎◌, ok,
}
use rust_evm_indexer.Base.Int.{ℤ, pos, ◌≤ℤ◌, ltb_ℤ}
use rust_evm_indexer.Base.Text.{Text, to_ascii_lowercase}
use rust_evm_indexer.Base.Action.{transaction-keeps}
use rust_evm_indexer.Ledger.Checkpoint.{
  CheckpointRow, checkpoint_of, next_checkpoint, advance_conn, advance_checkpoint,
}

-- A checkpoint is a block of the chain at or below the finalized one.
abbrev pub IsSound : CheckpointRow → Type 0
IsSound row = (pos 0 ≤ℤ row.processed_block) × (row.processed_block ≤ℤ row.finalized_block)

-- A later checkpoint: neither block is lower, and the hash of the same block is the same.
abbrev pub Follows : CheckpointRow → CheckpointRow → Type 0
Follows old new =
    (old.processed_block ≤ℤ new.processed_block)
    × (old.finalized_block ≤ℤ new.finalized_block)
    × (old.processed_block ≡ new.processed_block
        → old.processed_block_hash ≡ new.processed_block_hash)

-- A source that has a checkpoint has a later one.
abbrev pub KeptUp : ℕ → List CheckpointRow → List CheckpointRow → Type 0
KeptUp source_id rows rows' =
    (old : CheckpointRow)
    → checkpoint_of source_id rows ≡ some old
    → (new : CheckpointRow) × (checkpoint_of source_id rows' ≡ some new) × Follows old new

Follows-refl : (row : CheckpointRow) → Follows row row
Follows-refl row = (omega arith, omega arith, λ _. refl)

next_checkpoint-Follows :
    (processed_block : ℤ) (hash : Text) (finalized_block : ℤ) (row : CheckpointRow)
    → Follows row (next_checkpoint processed_block hash finalized_block row)
unfolding next_checkpoint
next_checkpoint-Follows processed_block hash finalized_block row =
    (ground arith, ground arith, λ same. ground arith)

next_checkpoint-IsSound :
    (processed_block : ℤ) (hash : Text) (finalized_block : ℤ) (row : CheckpointRow)
    → pos 0 ≤ℤ processed_block
    → processed_block ≤ℤ finalized_block
    → IsSound row
    → IsSound (next_checkpoint processed_block hash finalized_block row)
unfolding next_checkpoint
next_checkpoint-IsSound processed_block hash finalized_block row low high sound =
    let (from_zero, below) = sound in (ground arith, ground arith)

KeptUp-update :
    (change : CheckpointRow → CheckpointRow)
    → ((row : CheckpointRow) → (change row).source_id ≡ row.source_id)
    → ((row : CheckpointRow) → Follows row (change row))
    → (id s : ℕ) (rows : List CheckpointRow)
    → KeptUp s rows (update_first (λ row. row.source_id == id) change rows)
KeptUp-update change keeps follows id s [] old e = cc
KeptUp-update change keeps follows id s (row ∷ rows) old e =
    elim (Bool-cases (row.source_id == s)) [
      | inl own ↦
          let same : some row ≡ some old = rw own at e in
          let same_row : row ≡ old = cc in
          elim (Bool-cases (row.source_id == id)) [
            | inl hit ↦ (
              change row,
              ground (arith, hit, own, keeps row),
              subst (λ r. Follows r (change row)) same_row (follows row),
            )
            | inr miss ↦ (
              row,
              ground (arith, miss, own),
              subst (λ r. Follows r row) same_row (Follows-refl row),
            )
          ]
      | inr other ↦
          let e' : checkpoint_of s rows ≡ some old = rw other at e in
          elim (Bool-cases (row.source_id == id)) [
            | inl hit ↦ (old, ground (arith, hit, other, keeps row, e'), Follows-refl old)
            | inr miss ↦
                let (new, found, follow) = KeptUp-update change keeps follows id s rows old e' in
                (new, ground (arith, miss, other, found), follow)
          ]
    ]

KeptUp-append :
    (row : CheckpointRow) (s : ℕ) (rows : List CheckpointRow) → KeptUp s rows (rows ++ row ∷ [])
KeptUp-append row s [] old e = cc
KeptUp-append row s (r ∷ rows) old e = elim (Bool-cases (r.source_id == s)) [
  | inl own ↦ let same : some r ≡ some old = rw own at e in (old, rw own same, Follows-refl old)
  | inr other ↦
      let (new, found, follow) = KeptUp-append row s rows old (rw other at e) in
      (new, rw other found, follow)
]

All-update :
    (change : CheckpointRow → CheckpointRow) (id : ℕ) (rows : List CheckpointRow)
    → ((row : CheckpointRow) → IsSound row → IsSound (change row))
    → All IsSound rows
    → All IsSound (update_first (λ row. row.source_id == id) change rows)
All-update change id [] keeps all = tt
All-update change id (row ∷ rows) keeps all = elim (Bool-cases (row.source_id == id)) [
  | inl hit ↦ rw hit (keeps row all.0, all.1)
  | inr miss ↦ rw miss (all.0, All-update change id rows keeps all.1)
]

All-append :
    (rows : List CheckpointRow) (row : CheckpointRow)
    → All IsSound rows
    → IsSound row
    → All IsSound (rows ++ row ∷ [])
All-append [] row all sound = (sound, tt)
All-append (r ∷ rows) row all sound = (all.0, All-append rows row all.1 sound)

KeptUp-refl : (s : ℕ) (rows : List CheckpointRow) → KeptUp s rows rows
KeptUp-refl s rows old e = (old, e, Follows-refl old)

-- What a call leaves.
abbrev pub Advanced : List CheckpointRow → List CheckpointRow → Type 0
Advanced rows rows' = ((s : ℕ) → KeptUp s rows rows') × All IsSound rows'

next_checkpoint_source :
    (processed_block : ℤ) (hash : Text) (finalized_block : ℤ) (row : CheckpointRow)
    → (next_checkpoint processed_block hash finalized_block row).source_id ≡ row.source_id
unfolding next_checkpoint
next_checkpoint_source processed_block hash finalized_block row = refl

-- On a row that is there, a call that succeeds leaves the table or updates the row.
advance_conn_cases :
    (id : ℕ) (processed_block : ℤ) (hash : Text) (finalized_block : ℤ) (existing : CheckpointRow)
    (rows : List CheckpointRow) (row : CheckpointRow) (rows' : List CheckpointRow)
    → advance_conn id processed_block hash finalized_block (some existing) rows ≡ ok (row, rows')
    → (rows ≡ rows')
      ⊎ (update_first
            (λ row. row.source_id == id)
            (next_checkpoint processed_block hash finalized_block)
            rows
          ≡ rows')
unfolding advance_conn
advance_conn_cases id processed_block hash finalized_block existing rows row rows' done =
    ground (arith, done)

not_below : (a b : ℤ) → ltb_ℤ a b ≡ false → b ≤ℤ a
not_below a b h = ground arith

advance_conn-Advanced :
    (id : ℕ) (processed_block : ℤ) (hash : Text) (finalized_block : ℤ)
    (existing : Option CheckpointRow) (rows : List CheckpointRow) (row : CheckpointRow)
    (rows' : List CheckpointRow)
    → pos 0 ≤ℤ processed_block
    → processed_block ≤ℤ finalized_block
    → All IsSound rows
    → advance_conn id processed_block hash finalized_block existing rows ≡ ok (row, rows')
    → Advanced rows rows'
unfolding advance_conn
advance_conn-Advanced id processed_block hash finalized_block none rows row rows' low high sound
      done =
    subst (λ p. Advanced rows p.1) (ok_inj done)
      (λ s. KeptUp-append _ s rows, All-append rows _ sound (low, high))
advance_conn-Advanced id processed_block hash finalized_block (some existing) rows row rows' low
      high sound done =
    elim (advance_conn_cases id processed_block hash finalized_block existing rows row rows' done) [
      | inl same ↦ subst (Advanced rows) same (λ s. KeptUp-refl s rows, sound)
      | inr moved ↦ subst (Advanced rows) moved (
        λ s.
            KeptUp-update (next_checkpoint processed_block hash finalized_block)
              (next_checkpoint_source processed_block hash finalized_block)
              (next_checkpoint-Follows processed_block hash finalized_block) id s rows,
        All-update (next_checkpoint processed_block hash finalized_block) id rows
            (λ r. next_checkpoint-IsSound processed_block hash finalized_block r low high) sound,
      )
    ]

-- After any call, also one that is refused, each checkpoint that a source had is still there or
-- has been followed by one whose blocks are not lower and whose hash, at the same block, is the
-- same; and checkpoints that were blocks at or below the finalized one are so still.
pub advance_checkpoint-Advanced :
    (id : ℕ) (processed_block : ℤ) (hash : Text) (finalized_block : ℤ) (rows : List CheckpointRow)
    → All IsSound rows
    → Advanced rows (advance_checkpoint id processed_block hash finalized_block rows).1
unfolding advance_checkpoint
advance_checkpoint-Advanced id processed_block hash finalized_block rows sound =
    let still : Advanced rows rows = (λ s. KeptUp-refl s rows, sound) in
    elim (Bool-cases (ltb_ℤ processed_block (pos 0))) [
      | inl below ↦ rw below still
      | inr low ↦ elim (Bool-cases (ltb_ℤ finalized_block (pos 0))) [
        | inl below ↦ rw (low, below) still
        | inr final ↦ elim (Bool-cases (ltb_ℤ finalized_block processed_block)) [
          | inl above ↦ rw (low, final, above) still
          | inr high ↦
              rw (low, final, high)
                (transaction-keeps (Advanced rows)
                  (λ rows.
                    advance_conn id processed_block (to_ascii_lowercase hash) finalized_block
                      (checkpoint_of id rows) rows)
                  rows still
                  (λ row rows' done.
                    advance_conn-Advanced id processed_block (to_ascii_lowercase hash)
                      finalized_block (checkpoint_of id rows) rows row rows'
                      (not_below processed_block (pos 0) low)
                      (not_below finalized_block processed_block high) sound done))
        ]
      ]
    ]
