-- ===== src/Ingest/Settled.antt =====
-- A standard that the logs of a range show is detected.
use rust_evm_indexer.Base.{
  ℕ, zero, suc, ◌+◌, ◌-◌, ◌≤◌, ◌<◌, min, ◌≡◌, refl, ◌∙◌, subst, ◌⊎◌, inl, inr, true, false, List,
  [], ◌∷◌, none, some, Bool-cases, ok, All, In, All-In, All-append, All-split, leb, ltb, ◌==◌,
  arith,
}
use rust_evm_indexer.Base.Int.{u64_max, saturating_add}
use rust_evm_indexer.Base.Text.{Text, text_eq_refl}
use rust_evm_indexer.Evm.{RpcLog, TokenStandard, auto, standard_str}
use rust_evm_indexer.Evm.Decode.{Keccak, standard_eq}
use rust_evm_indexer.Ingest.Node.{ChainRpc}
use rust_evm_indexer.Ingest.Chunks.{logs_of, Answers}
use rust_evm_indexer.Ingest.Detect.{
  TokenStandardDetection, note_candidate, detect_from, detect_token_standard_from_logs, detect_loop,
  detect_token_standard_with_prefetched_logs,
}
use rust_evm_indexer.Ingest.Shown.{
  Silent, Shows, AtMost, IsDetected, detect_from-FoundAfter,
  detect_token_standard_with_prefetched_logs-IsDetected,
}

-- What holds of the logs of a range holds of the logs of each of its blocks.
module _ (P : RpcLog → Type 0) (block_logs : ℕ → List RpcLog) where
  logs_of-All :
      (from count : ℕ)
      → ((block : ℕ) → All P (block_logs block))
      → All P (logs_of block_logs from count)
  logs_of-All from zero h = tt
  logs_of-All from (suc count) h =
      All-append P (block_logs from) (logs_of block_logs (from + 1) count) (h from)
        (logs_of-All (from + 1) count h)

  All-logs_of :
      (from count block : ℕ)
      → from ≤ block
      → block < from + count
      → All P (logs_of block_logs from count)
      → All P (block_logs block)
  All-logs_of from zero block h k all = absurd (omega arith)
  All-logs_of from (suc count) block h k all =
      let (here, rest) = All-split P (block_logs from) (logs_of block_logs (from + 1) count) all in
      elim (Bool-cases (from == block)) [
        | inl same ↦
            let same' : from ≡ block = ground arith in subst (λ b. All P (block_logs b)) same' here
        | inr other ↦ All-logs_of (from + 1) count block (ground arith) (omega arith) rest
      ]

module _ (hash : Keccak) (standard : TokenStandard) where
  seen_again :
      (log : RpcLog) (logs : List RpcLog)
      → (Silent hash log ⊎ Shows hash standard log)
      → detect_from hash (some standard) (log ∷ logs) ≡ detect_from hash (some standard) logs
  unfolding detect_from note_candidate standard_eq
  seen_again log logs (inl silent) = rw silent refl
  seen_again log logs (inr shows) = rw (shows, text_eq_refl (standard_str standard)) refl

  seen_stays :
      (logs : List RpcLog)
      → AtMost hash standard logs
      → detect_from hash (some standard) logs ≡ ok (some standard)
  unfolding detect_from
  seen_stays [] h = refl
  seen_stays (log ∷ logs) (h, hs) = seen_again log logs h ∙ seen_stays logs hs

  detect_known :
      (logs : List RpcLog)
      → AtMost hash standard logs
      → (detect_from hash none logs ≡ ok none) ⊎ (detect_from hash none logs ≡ ok (some standard))
  unfolding detect_from note_candidate
  detect_known [] h = inl refl
  detect_known (log ∷ logs) (inl silent, hs) = elim (detect_known logs hs) [
    | inl e ↦ inl (rw silent e)
    | inr e ↦ inr (rw silent e)
  ]
  detect_known (log ∷ logs) (inr shows, hs) = inr (rw shows (seen_stays logs hs))

  module _ (rpc : ChainRpc) (contract : Text) (block_logs : ℕ → List RpcLog)
      (answers : Answers (rpc.logs contract auto) block_logs)
      (most : (block : ℕ) → AtMost hash standard (block_logs block)) (block : ℕ) (log : RpcLog)
      (there : In log (block_logs block)) (shows : Shows hash standard log) where
    -- A chunk that shows nothing does not hold the block.
    misses :
        (from count : ℕ)
        → from ≤ block
        → detect_from hash none (logs_of block_logs from count) ≡ ok none
        → from + count ≤ block
    misses from count h nothing = elim (Bool-cases (ltb block (from + count))) [
      | inl inside ↦
          let silent =
            All-logs_of (Silent hash) block_logs from count block h (ground arith)
              (detect_from-FoundAfter hash none none (logs_of block_logs from count) nothing) in
          absurd (cc (All-In (Silent hash) (block_logs block) log silent there, shows))
      | inr outside ↦ ground arith
    ]

    detect_loop_finds :
        (fuel from to size : ℕ)
        → from ≤ block
        → block ≤ to
        → to ≤ u64_max
        → 0 < size
        → to + 1 - from < fuel
        → (detection : TokenStandardDetection) × (detect_loop hash rpc contract fuel from to size
            ≡ ok detection)
          × (detection.standard ≡ standard)
    unfolding detect_loop detect_token_standard_from_logs
    detect_loop_finds zero from to size h k l m n = absurd (omega arith)
    detect_loop_finds (suc fuel) from to size h k l m n =
        let chunk_to : ℕ = min (saturating_add from (size - 1)) to in
        let inside : leb from to ≡ true = ground arith in
        let starts : from ≤ chunk_to = ground arith in
        let got = answers from chunk_to starts in
        let logs : List RpcLog = logs_of block_logs from (chunk_to + 1 - from) in
        elim (detect_known logs (
          logs_of-All (λ l. Silent hash l ⊎ Shows hash standard l) block_logs from
            (chunk_to + 1 - from) most)) [
              | inr found ↦ (
                record {
                  standard = standard;
                  prefetched_logs = record { from = from; to = chunk_to; logs = logs };
                },
                rw (inside, got, found) refl,
                refl,
              )
              | inl nothing ↦
                  let past = misses from (chunk_to + 1 - from) h nothing in
                  let more : (chunk_to == u64_max) ≡ false = ground (arith, past, starts) in
                  let (detection, rest, same) =
                    detect_loop_finds fuel (chunk_to + 1) to size (omega (arith, past, starts)) k l
                      m (omega (arith, starts)) in
                  (detection, rw (inside, got, nothing, more) rest, same)
            ]

    -- Where the node answers for each block range with the logs of its blocks, no log shows another
    -- standard, and a log of a block of the range shows this one, it is detected over the range,
    -- which ends at a 64-bit block, whatever the size of a chunk of at least one
    -- block; the chunk that showed it lies in the range and holds what the node answered.
    pub detect_token_standard_with_prefetched_logs_lem :
        (from to size : ℕ)
        → from ≤ block
        → block ≤ to
        → to ≤ u64_max
        → 0 < size
        → (detection : TokenStandardDetection) × (detect_token_standard_with_prefetched_logs hash
              rpc contract from to size
            ≡ ok detection)
          × (detection.standard ≡ standard)
          × IsDetected hash rpc contract from to detection
    unfolding detect_token_standard_with_prefetched_logs
    detect_token_standard_with_prefetched_logs_lem from to size h k l m =
        let (detection, found, same) =
          detect_loop_finds (to - from + 2) from to size h k l m (omega (arith, h, k)) in
        let ordered : ltb to from ≡ false = ground arith in
        let sized : (size == 0) ≡ false = ground arith in
        let done : detect_token_standard_with_prefetched_logs hash rpc contract from to size
            ≡ ok detection =
          rw (ordered, sized) found in
        (
          detection,
          done,
          same,
          detect_token_standard_with_prefetched_logs-IsDetected hash rpc contract from to size
              detection l done,
        )
