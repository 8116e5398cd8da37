-- ===== src/Backfill/Tiling.antt =====
-- The chunks of `split_inclusive_range` tile the range that was asked for.
use rust_evm_indexer.Base.{
  ℕ, zero, suc, ◌+◌, ◌-◌, ◌≤◌, ◌<◌, ◌≡◌, Bool, ◌&&◌, List, [], ◌∷◌, leb, if◌then◌else◌, All, ok,
  arith, Bool-cases, inl, inr, min, ◌==◌,
}
use rust_evm_indexer.Base.Int.{u64_max, saturating_add}
use rust_evm_indexer.Backfill.{BackfillChunk, split_loop, split_inclusive_range}

abbrev pub covers : BackfillChunk → ℕ → Bool
covers c b = leb c.from b && leb b c.to

-- How many chunks hold a block.
abbrev pub times_covered : List BackfillChunk → ℕ → ℕ
times_covered [] b = 0
times_covered (c ∷ cs) b = (if covers c b then 1 else 0) + times_covered cs b

-- A chunk is a nonempty range of at most `size` blocks, inside the range that was asked for.
pub record Fits (from to size : ℕ) (c : BackfillChunk) : Type 0 where
  pub starts : from ≤ c.from
  pub ordered : c.from ≤ c.to
  pub ends : c.to ≤ to
  pub small : c.to - c.from < size

Fits-later :
    (from later to size : ℕ) (cs : List BackfillChunk)
    → from ≤ later
    → All (Fits later to size) cs
    → All (Fits from to size) cs
Fits-later from later to size [] h f = tt
Fits-later from later to size (c ∷ cs) h f = (
  record { starts = omega (arith, f.0); ordered = f.0.ordered; ends = f.0.ends; small = f.0.small },
  Fits-later from later to size cs h f.1,
)

pub record Tiles (from to size : ℕ) (cs : List BackfillChunk) : Type 0 where
  pub once : (b : ℕ) → times_covered cs b ≡ (if leb from b && leb b to then 1 else 0)
  pub fits : All (Fits from to size) cs

-- The end of the chunk that starts at `from`.
chunk_end_bounds :
    (from to size : ℕ)
    → 0 < size
    → to ≤ u64_max
    → from ≤ to
    → let e = min (saturating_add from (size - 1)) to in (from ≤ e) × (e ≤ to) × (e - from < size)
chunk_end_bounds from to size s t h = ground arith

-- A chunk in front of the tiles of what follows it.
cons-Tiles :
    (from end to size : ℕ) (cs : List BackfillChunk)
    → from ≤ end
    → end ≤ to
    → end - from < size
    → Tiles (end + 1) to size cs
    → Tiles from to size (record { from = from; to = end } ∷ cs)
cons-Tiles from end to size cs a b c t = record {
  once = λ n. ground (arith, t.once n);
  fits = (
    record { starts = omega arith; ordered = a; ends = b; small = c },
    Fits-later from (end + 1) to size cs (omega arith) t.fits,
  );
}

pub nil-Tiles : (from to size : ℕ) → to < from → Tiles from to size []
nil-Tiles from to size h = record { once = λ b. ground arith; fits = tt }

split_loop-Tiles :
    (fuel from to size : ℕ)
    → 0 < size
    → to ≤ u64_max
    → to + 1 - from < fuel
    → (cs : List BackfillChunk) × (split_loop fuel from to size ≡ ok cs) × Tiles from to size cs
unfolding split_loop
split_loop-Tiles zero from to size s t h = absurd (omega arith)
split_loop-Tiles (suc fuel) from to size s t h = elim (Bool-cases (leb from to)) [
  | inr past ↦ ([], rw past, nil-Tiles from to size (ground arith))
  | inl inside ↦
      let end : ℕ = min (saturating_add from (size - 1)) to in
      let (lo, hi, short) = chunk_end_bounds from to size s t (ground arith) in
      elim (Bool-cases (end == u64_max)) [
        | inl full ↦ (
          record { from = from; to = end } ∷ [],
          rw (inside, full),
          cons-Tiles from end to size [] lo hi short (nil-Tiles (end + 1) to size (ground arith)),
        )
        | inr more ↦
            let (cs, e, t') = split_loop-Tiles fuel (end + 1) to size s t (omega arith) in
            (
              record { from = from; to = end } ∷ cs,
              rw (inside, more, e),
              cons-Tiles from end to size cs lo hi short t',
            )
      ]
]

-- For every range that is not inverted and ends at a 64-bit block, with a chunk size above
-- zero, `split_inclusive_range` returns chunks in which every block of the range, and no other,
-- is held exactly once, and each chunk holds from one to `size` blocks inside the range.
pub split_inclusive_range-Tiles :
    (from to size : ℕ)
    → from ≤ to
    → to ≤ u64_max
    → 0 < size
    → (cs : List BackfillChunk) × (split_inclusive_range from to size ≡ ok cs)
      × Tiles from to size cs
unfolding split_inclusive_range
split_inclusive_range-Tiles from to size h t s =
    let (cs, e, tiles) = split_loop-Tiles (to - from + 2) from to size s t (omega arith) in
    (cs, ground (arith, e), tiles)
