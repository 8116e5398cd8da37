-- ===== src/Ingest/Chunks.antt =====
-- Fetching in chunks returns the logs of the range, whatever the size of a chunk.
use rust_evm_indexer.Base.{
  append_assoc, append_nil, ℕ, zero, suc, ◌+◌, ◌-◌, ◌≤◌, ◌<◌, min, ◌≡◌, refl, sym, ap, ◌∙◌, Bool,
  true, false, ◌&&◌, List, [], ◌++◌, Option, none, some, leb, ◌==◌, if◌then◌else◌, arith,
  Bool-cases, inl, inr, Result, ok,
}
use rust_evm_indexer.Base.Int.{u64_max, saturating_add}
use rust_evm_indexer.Evm.{RpcLog}
use rust_evm_indexer.Ingest.{
  PrefetchedLogChunk, chunk_logs, fetch_loop, fetch_logs_in_chunks_with_progress,
}

-- The logs of `count` blocks from a block on, where each block has its logs.
abbrev pub logs_of : (ℕ → List RpcLog) → ℕ → ℕ → List RpcLog
logs_of block_logs from zero = []
logs_of block_logs from (suc count) = block_logs from ++ logs_of block_logs (from + 1) count

-- The node answers with the logs of the blocks that it is asked for.
abbrev pub Answers : (ℕ → ℕ → Result (List RpcLog)) → (ℕ → List RpcLog) → Type 0
Answers fetch block_logs =
    (from to : ℕ) → from ≤ to → fetch from to ≡ ok (logs_of block_logs from (to + 1 - from))

-- What was prefetched is what the node would answer.
abbrev pub Agrees : (ℕ → List RpcLog) → Option PrefetchedLogChunk → Type 0
Agrees block_logs none = Unit
Agrees block_logs (some chunk) =
    chunk.logs ≡ logs_of block_logs chunk.from (chunk.to + 1 - chunk.from)

logs_of-add :
    (block_logs : ℕ → List RpcLog) (from m n : ℕ)
    → logs_of block_logs from (m + n) ≡ logs_of block_logs from m ++ logs_of block_logs (from + m) n
logs_of-add block_logs from zero n =
    let none_first : 0 + n ≡ n = omega arith in
    let here : from + 0 ≡ from = omega arith in rw (none_first, here) refl
logs_of-add block_logs from (suc m) n =
    let one_more : suc m + n ≡ suc (m + n) = omega arith in
    let further : from + suc m ≡ from + 1 + m = omega arith in
    rw (one_more, further)
      (ap (λ l. block_logs from ++ l) (logs_of-add block_logs (from + 1) m n)
        ∙ sym (
            append_assoc (block_logs from) (logs_of block_logs (from + 1) m)
              (logs_of block_logs (from + 1 + m) n)))

last_round :
    (last : Bool) (here : List RpcLog) (rest : Result (List RpcLog)) {all : List RpcLog}
    → (last ≡ true → here ≡ all)
    → rest ≡ ok all
    → (if last then ok here else rest) ≡ ok all
last_round true here rest ends goes = ap ok (ends refl)
last_round false here rest ends goes = goes

module _ (fetch : ℕ → ℕ → Result (List RpcLog)) (block_logs : ℕ → List RpcLog)
    (answers : Answers fetch block_logs) where
  chunk_logs_lem :
      (prefetched : Option PrefetchedLogChunk) (from to : ℕ)
      → Agrees block_logs prefetched
      → from ≤ to
      → (prefetched' : Option PrefetchedLogChunk) × (chunk_logs fetch prefetched from to
          ≡ ok (logs_of block_logs from (to + 1 - from), prefetched'))
        × Agrees block_logs prefetched'
  unfolding chunk_logs
  chunk_logs_lem none from to agrees h = (none, ground (arith, answers from to h), tt)
  chunk_logs_lem (some chunk) from to agrees h =
      elim (Bool-cases (chunk.from == from && chunk.to == to)) [
        | inl hit ↦
            let same_from : chunk.from ≡ from = ground arith in
            let same_to : chunk.to ≡ to = ground arith in
            let given : chunk.logs ≡ logs_of block_logs from (to + 1 - from) =
              rw (same_from, same_to) at agrees in
            (none, ground (arith, hit, given), tt)
        | inr miss ↦ (some chunk, ground (arith, miss, answers from to h), agrees)
      ]

  fetch_loop_lem :
      (fuel : ℕ) (prefetched : Option PrefetchedLogChunk) (from to size : ℕ) (logs : List RpcLog)
      → Agrees block_logs prefetched
      → 0 < size
      → to ≤ u64_max
      → from ≤ to + 1
      → to + 1 - from < fuel
      → fetch_loop fetch fuel prefetched from to size logs
        ≡ ok (logs ++ logs_of block_logs from (to + 1 - from))
  unfolding fetch_loop
  fetch_loop_lem zero prefetched from to size logs agrees z t h f = elim f [ ]
  fetch_loop_lem (suc fuel) prefetched from to size logs agrees z t h f =
      elim (Bool-cases (leb from to)) [
        | inr past ↦
            let over : to + 1 - from ≡ 0 = ground arith in
            rw (past, over) (sym (ap ok (append_nil logs)))
        | inl inside ↦
            let chunk_to = min (saturating_add from (size - 1)) to in
            let low : from ≤ chunk_to = ground arith in
            let high : chunk_to ≤ to = omega arith in
            let (prefetched', asked, agrees') =
              chunk_logs_lem prefetched from chunk_to agrees low in
            let more = logs_of block_logs from (chunk_to + 1 - from) in
            let counts : to + 1 - from ≡ chunk_to + 1 - from + (to + 1 - (chunk_to + 1)) =
              omega arith in
            let start : from + (chunk_to + 1 - from) ≡ chunk_to + 1 = omega arith in
            let joined : logs ++ more ++ logs_of block_logs (chunk_to + 1) (to + 1 - (chunk_to + 1))
                ≡ logs ++ logs_of block_logs from (to + 1 - from) =
              append_assoc logs more (logs_of block_logs (chunk_to + 1) (to + 1 - (chunk_to + 1)))
              ∙ sym (
                  ap (λ l. logs ++ l)
                    (ap (logs_of block_logs from) counts
                      ∙ logs_of-add block_logs from (chunk_to + 1 - from) (to + 1 - (chunk_to + 1))
                      ∙ ap (λ k. more ++ logs_of block_logs k (to + 1 - (chunk_to + 1))) start)) in
            rw (inside, asked)
              (last_round (chunk_to == u64_max) (logs ++ more) _
                (λ last.
                  let whole : chunk_to ≡ to = ground (arith, last) in
                  ap (λ k. logs ++ logs_of block_logs from (k + 1 - from)) whole)
                (fetch_loop_lem fuel prefetched' (chunk_to + 1) to size (logs ++ more) agrees' z t
                    (omega arith) (omega arith)
                  ∙ ap ok joined))
      ]

  -- Where the node answers for each block range with the logs of its blocks, and what was
  -- prefetched is what it would answer, fetching a range that is not inverted and ends at a 64-bit
  -- block in chunks of at least one block succeeds with the logs of the range's blocks in order,
  -- each once, whatever the size of a chunk.
  pub fetch_logs_in_chunks_lem :
      (prefetched : Option PrefetchedLogChunk) (from to size : ℕ)
      → Agrees block_logs prefetched
      → from ≤ to
      → to ≤ u64_max
      → 0 < size
      → fetch_logs_in_chunks_with_progress fetch prefetched from to size
        ≡ ok (logs_of block_logs from (to + 1 - from))
  unfolding fetch_logs_in_chunks_with_progress
  fetch_logs_in_chunks_lem prefetched from to size agrees h t z =
      let done =
        fetch_loop_lem (to - from + 2) prefetched from to size [] agrees z t (omega arith)
          (omega arith) in
      ground (arith, done)
