-- ===== src/Reorg/Coalescing.antt =====
-- The runs that are recorded: together they are the mismatches, in order, and none can be joined
-- with the next.
use rust_evm_indexer.Base.{
  append_assoc, append_nil, ◌≡◌, ◌≢◌, refl, sym, ap, ◌∙◌, true, false, List, [], ◌∷◌, ◌++◌, some,
  first, last, All, ok, arith, Bool-cases, inl, inr,
}
use rust_evm_indexer.Base.Int.{pos, ◌+ℤ◌, eqb_ℤ, eqb_ℤ_iff}
use rust_evm_indexer.Ports.{SourceRef, ReorgMismatch, ReorgEventInsert, ReorgRepository}
use rust_evm_indexer.Reorg.{reorg_event, record_reorg_range, record_loop, record_reorg_ranges}

-- Blocks that follow each other, at least one.
abbrev pub IsRun : List ReorgMismatch → Type 0
IsRun [] = ⊥
IsRun (m ∷ []) = Unit
IsRun (m ∷ n ∷ ms) = (n.block_number ≡ m.block_number +ℤ pos 1) × IsRun (n ∷ ms)

-- An event is of a run, from its first block to its last, with the hashes of the first.
abbrev pub IsEvent : SourceRef → ReorgEventInsert → Type 0
IsEvent source event =
    (front : ReorgMismatch) × (back : ReorgMismatch) × (first event.mismatches ≡ some front)
    × (last event.mismatches ≡ some back)
    × IsRun event.mismatches
    × (event.source_id ≡ source.id)
    × (event.from_block ≡ front.block_number)
    × (event.to_block ≡ back.block_number)
    × (event.expected_block_hash ≡ some front.expected_block_hash)
    × (event.actual_block_hash ≡ some front.actual_block_hash)

-- No event could be joined with the next one.
abbrev pub Separated : List ReorgEventInsert → Type 0
Separated [] = Unit
Separated (e ∷ []) = Unit
Separated (e ∷ f ∷ es) = (f.from_block ≢ e.to_block +ℤ pos 1) × Separated (f ∷ es)

abbrev pub all_mismatches : List ReorgEventInsert → List ReorgMismatch
all_mismatches [] = []
all_mismatches (e ∷ es) = e.mismatches ++ all_mismatches es

-- A repository that records every event behind those it has.
abbrev pub Records : {S : Type 0} → ReorgRepository S → (S → List ReorgEventInsert) → Type 0
Records {S} ledger events =
    (event : ReorgEventInsert) (s : S)
    → (s' : S) × (ledger.record_reorg_event event s ≡ (ok tt, s'))
      × (events s' ≡ events s ++ event ∷ [])

IsRun-snoc :
    (range : List ReorgMismatch) (previous m : ReorgMismatch)
    → IsRun range
    → last range ≡ some previous
    → m.block_number ≡ previous.block_number +ℤ pos 1
    → IsRun (range ++ m ∷ [])
IsRun-snoc [] previous m run e step = absurd run
IsRun-snoc (x ∷ []) previous m run e step = let same : x ≡ previous = cc in (rw same step, tt)
IsRun-snoc (x ∷ y ∷ range) previous m run e step =
    (run.0, IsRun-snoc (y ∷ range) previous m run.1 e step)

last-snoc : (range : List ReorgMismatch) (m : ReorgMismatch) → last (range ++ m ∷ []) ≡ some m
last-snoc [] m = refl
last-snoc (x ∷ []) m = refl
last-snoc (x ∷ y ∷ range) m = last-snoc (y ∷ range) m

first-snoc :
    (range : List ReorgMismatch) (m front : ReorgMismatch)
    → first range ≡ some front
    → first (range ++ m ∷ []) ≡ some front
first-snoc [] m front e = cc
first-snoc (x ∷ range) m front e = e

true-false : true ≢ false
true-false e = cc

module _ {S : Type 0} (ledger : ReorgRepository S) (source : SourceRef)
    (events : S → List ReorgEventInsert) (records : Records ledger events) where
  record_range_lem :
      (range : List ReorgMismatch) (front back : ReorgMismatch) (s : S)
      → first range ≡ some front
      → last range ≡ some back
      → record_reorg_range ledger source range s
        ≡ ledger.record_reorg_event (reorg_event ledger source front back range) s
  unfolding record_reorg_range
  record_range_lem range front back s e f = ground (arith, e, f)

  record_loop_split :
      (range : List ReorgMismatch) (previous m : ReorgMismatch) (rest : List ReorgMismatch)
      (s mid s' : S)
      → eqb_ℤ m.block_number (previous.block_number +ℤ pos 1) ≡ false
      → record_reorg_range ledger source range s ≡ (ok tt, mid)
      → record_loop ledger source (m ∷ []) m rest mid ≡ (ok tt, s')
      → record_loop ledger source range previous (m ∷ rest) s ≡ (ok tt, s')
  unfolding record_loop
  record_loop_split range previous m rest s mid s' split recorded done =
      ground (arith, split, recorded, done)

  -- What the loop has recorded when it ends, with the first event apart.
  Coalesced : List ReorgMismatch → ReorgMismatch → List ReorgMismatch → S → S → Type 0
  Coalesced range front rest s s' =
      (event : ReorgEventInsert) × (es : List ReorgEventInsert) × (events s'
        ≡ events s ++ event ∷ es)
      × (event.from_block ≡ front.block_number)
      × (all_mismatches (event ∷ es) ≡ range ++ rest)
      × All (IsEvent source) (event ∷ es)
      × Separated (event ∷ es)

  record_loop_lem :
      (range : List ReorgMismatch) (front previous : ReorgMismatch) (rest : List ReorgMismatch)
      (s : S)
      → IsRun range
      → first range ≡ some front
      → last range ≡ some previous
      → (s' : S) × (record_loop ledger source range previous rest s ≡ (ok tt, s'))
        × Coalesced range front rest s s'
  unfolding record_loop Coalesced
  record_loop_lem range front previous [] s run e f =
      let event = reorg_event ledger source front previous range in
      let (s', done, kept) = records event s in
      (
        s',
        record_range_lem range front previous s e f ∙ done,
        (
          event,
          [],
          kept,
          refl,
          refl,
          ((front, previous, e, f, run, refl, refl, refl, refl, refl), tt),
          tt,
        ),
      )
  record_loop_lem range front previous (m ∷ rest) s run e f =
      elim (Bool-cases (eqb_ℤ m.block_number (previous.block_number +ℤ pos 1))) [
        | inl joined ↦
            let step = (eqb_ℤ_iff m.block_number (previous.block_number +ℤ pos 1)).0 joined in
            let (s', done, (event, es, kept, starts, all, sound, apart)) =
              record_loop_lem (range ++ m ∷ []) front m rest s
                (IsRun-snoc range previous m run f step) (first-snoc range m front e)
                (last-snoc range m) in
            (
              s',
              rw joined done,
              (event, es, kept, starts, all ∙ append_assoc range (m ∷ []) rest, sound, apart),
            )
        | inr split ↦
            let event = reorg_event ledger source front previous range in
            let (mid, recorded, kept) = records event s in
            let (s', done, (next, es, kept', starts, all, sound, apart)) =
              record_loop_lem (m ∷ []) m m rest mid tt refl refl in
            (
              s',
              record_loop_split range previous m rest s mid s' split
                  (record_range_lem range front previous s e f ∙ recorded) done,
              (
                event,
                next ∷ es,
                kept'
                    ∙ ap (λ l. l ++ next ∷ es) kept
                    ∙ append_assoc (events s) (event ∷ []) (next ∷ es),
                refl,
                ap (λ l. range ++ l) all,
                ((front, previous, e, f, run, refl, refl, refl, refl, refl), sound),
                (
                  λ adjacent. true-false (
                      sym (
                        (eqb_ℤ_iff m.block_number (previous.block_number +ℤ pos 1)).1
                          (sym starts ∙ adjacent))
                      ∙ split),
                  apart,
                ),
              ),
            )
      ]

  -- Over a repository that records every event, `record_reorg_ranges` records events that
  -- together hold exactly the mismatches, in order; each is of blocks that follow each other, from
  -- its first block to its last and with the hashes of the first; and none could be joined with
  -- the next.
  pub record_reorg_ranges_lem :
      (mismatches : List ReorgMismatch) (s : S)
      → (s' : S) × (es : List ReorgEventInsert) × (record_reorg_ranges ledger source mismatches s
          ≡ (ok tt, s'))
        × (events s' ≡ events s ++ es)
        × (all_mismatches es ≡ mismatches)
        × All (IsEvent source) es
        × Separated es
  unfolding record_reorg_ranges Coalesced
  record_reorg_ranges_lem [] s = (s, [], refl, sym (append_nil (events s)), refl, tt, tt)
  record_reorg_ranges_lem (m ∷ rest) s =
      let (s', done, (event, es, kept, starts, all, sound, apart)) =
        record_loop_lem (m ∷ []) m m rest s tt refl refl in
      (s', event ∷ es, done, kept, all, sound, apart)
