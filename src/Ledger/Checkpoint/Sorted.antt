-- ===== src/Ledger/Checkpoint/Sorted.antt =====
-- The sorting of the ranges: it keeps every range and puts them in the order of their first block.
use rust_evm_indexer.Base.{◌⊎◌, inl, inr, List, [], ◌∷◌, All, Any, arith, Bool-cases}
use rust_evm_indexer.Base.Int.{ℤ, ◌≤ℤ◌}
use rust_evm_indexer.Ledger.Checkpoint.{range_le, insert_range, sort_ranges}

abbrev pub Later : ℤ → ℤ × ℤ → Type 0
Later from range = from ≤ℤ range.0

abbrev pub Sorted : List (ℤ × ℤ) → Type 0
Sorted [] = Unit
Sorted (r ∷ rs) = All (Later r.0) rs × Sorted rs

All-insert :
    (P : ℤ × ℤ → Type 0) (r : ℤ × ℤ) (rs : List (ℤ × ℤ))
    → P r
    → All P rs
    → All P (insert_range r rs)
unfolding insert_range
All-insert P r [] p ps = (p, tt)
All-insert P r (q ∷ qs) p ps = elim (Bool-cases (range_le r q)) [
  | inl le ↦ rw le (p, ps)
  | inr gt ↦ rw gt (ps.0, All-insert P r qs p ps.1)
]

insert-All :
    (P : ℤ × ℤ → Type 0) (r : ℤ × ℤ) (rs : List (ℤ × ℤ))
    → All P (insert_range r rs)
    → P r × All P rs
unfolding insert_range
insert-All P r [] ps = ps
insert-All P r (q ∷ qs) ps = elim (Bool-cases (range_le r q)) [
  | inl le ↦ let ps' : P r × (P q × All P qs) = rw le at ps in ps'
  | inr gt ↦
      let ps' : P q × All P (insert_range r qs) = rw gt at ps in
      let rest = insert-All P r qs ps'.1 in (rest.0, (ps'.0, rest.1))
]

pub sort-All : (P : ℤ × ℤ → Type 0) (rs : List (ℤ × ℤ)) → All P (sort_ranges rs) → All P rs
unfolding sort_ranges
sort-All P [] ps = tt
sort-All P (r ∷ rs) ps =
    let rest = insert-All P r (sort_ranges rs) ps in (rest.0, sort-All P rs rest.1)

insert-Any :
    (P : ℤ × ℤ → Type 0) (r : ℤ × ℤ) (rs : List (ℤ × ℤ))
    → Any P (insert_range r rs)
    → Any P (r ∷ rs)
unfolding insert_range
insert-Any P r [] m = m
insert-Any P r (q ∷ qs) m = elim (Bool-cases (range_le r q)) [
  | inl le ↦ let m' : Any P (r ∷ q ∷ qs) = rw le at m in m'
  | inr gt ↦
      let m' : P q ⊎ Any P (insert_range r qs) = rw gt at m in
      elim m' [
        | inl p ↦ inr (inl p)
        | inr rest ↦ elim (insert-Any P r qs rest) [ inl p ↦ inl p | inr later ↦ inr (inr later) ]
      ]
]

pub sort-Any : (P : ℤ × ℤ → Type 0) (rs : List (ℤ × ℤ)) → Any P (sort_ranges rs) → Any P rs
unfolding sort_ranges
sort-Any P [] m = m
sort-Any P (r ∷ rs) m = elim (insert-Any P r (sort_ranges rs) m) [
  | inl p ↦ inl p
  | inr rest ↦ inr (sort-Any P rs rest)
]

Later-All : (a b : ℤ) (rs : List (ℤ × ℤ)) → a ≤ℤ b → All (Later b) rs → All (Later a) rs
Later-All a b [] le all = tt
Later-All a b (r ∷ rs) le all =
    let here : b ≤ℤ r.0 = all.0 in (omega arith, Later-All a b rs le all.1)

insert-Sorted : (r : ℤ × ℤ) (rs : List (ℤ × ℤ)) → Sorted rs → Sorted (insert_range r rs)
unfolding insert_range
insert-Sorted r [] sorted = (tt, tt)
insert-Sorted r (q ∷ qs) sorted = elim (Bool-cases (range_le r q)) [
  | inl le ↦
      let below : r.0 ≤ℤ q.0 = ground arith in
      rw le ((below, Later-All r.0 q.0 qs below sorted.0), sorted)
  | inr gt ↦
      let above : q.0 ≤ℤ r.0 = ground arith in
      rw gt (All-insert (Later q.0) r qs above sorted.0, insert-Sorted r qs sorted.1)
]

pub sort-Sorted : (rs : List (ℤ × ℤ)) → Sorted (sort_ranges rs)
unfolding sort_ranges
sort-Sorted [] = tt
sort-Sorted (r ∷ rs) = insert-Sorted r (sort_ranges rs) (sort-Sorted rs)
