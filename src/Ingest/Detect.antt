-- ===== src/Ingest/Detect.antt =====
-- The detection of a source's token standard from the logs of its contract (application/ingest.rs).
use rust_evm_indexer.Base.{
  ℕ, zero, suc, ◌+◌, ◌-◌, min, List, [], ◌∷◌, Option, none, some, ltb, leb, ◌==◌, if◌then◌else◌,
  Result, ok, err, ◌>>=◌, ◌>>◌, fail_if, inverted_range, chunk_size_zero, out_of_fuel,
  conflicting_standards, standard_not_detected,
}
use rust_evm_indexer.Base.Int.{u64_max, saturating_add}
use rust_evm_indexer.Base.Text.{Text}
use rust_evm_indexer.Evm.{RpcLog, TokenStandard, auto}
use rust_evm_indexer.Evm.Decode.{Keccak, standard_eq, detect_token_standard_from_log}
use rust_evm_indexer.Ingest.{PrefetchedLogChunk}
use rust_evm_indexer.Ingest.Node.{ChainRpc}

pub record TokenStandardDetection : Type 0 where
  pub standard : TokenStandard
  pub prefetched_logs : PrefetchedLogChunk

-- What is detected so far, after one more log.
unfoldable pub note_candidate :
    Option TokenStandard → Option TokenStandard → Result (Option TokenStandard)
note_candidate detected none = ok detected
note_candidate none (some candidate) = ok (some candidate)
note_candidate (some existing) (some candidate) =
    if standard_eq existing candidate then ok (some existing) else err conflicting_standards

module _ (hash : Keccak) where
  unfoldable pub detect_from : Option TokenStandard → List RpcLog → Result (Option TokenStandard)
  detect_from detected [] = ok detected
  detect_from detected (log ∷ logs) = do
    candidate ← detect_token_standard_from_log hash log
    detected' ← note_candidate detected candidate
    detect_from detected' logs

  unfoldable pub detect_token_standard_from_logs : List RpcLog → Result (Option TokenStandard)
  detect_token_standard_from_logs logs = detect_from none logs

  module _ (rpc : ChainRpc) (contract : Text) where
    -- The `while` loop, a round for each unit of fuel.
    unfoldable pub detect_loop : ℕ → ℕ → ℕ → ℕ → Result TokenStandardDetection
    detect_loop zero chunk_from to chunk_size = err out_of_fuel
    detect_loop (suc fuel) chunk_from to chunk_size =
        let chunk_to = min (saturating_add chunk_from (chunk_size - 1)) to in
        let rest = detect_loop fuel (chunk_to + 1) to chunk_size in
        let round = do
          logs ← rpc.logs contract auto chunk_from chunk_to
          found ← detect_token_standard_from_logs logs
          elim found [
            | some standard ↦ ok record {
              standard = standard;
              prefetched_logs = record { from = chunk_from; to = chunk_to; logs = logs };
            }
            | none ↦ if chunk_to == u64_max then err standard_not_detected else rest
          ]
        in if leb chunk_from to then round else err standard_not_detected

    unfoldable pub detect_token_standard_with_prefetched_logs :
        ℕ → ℕ → ℕ → Result TokenStandardDetection
    detect_token_standard_with_prefetched_logs from to chunk_size = do
      fail_if (ltb to from) inverted_range
      fail_if (chunk_size == 0) chunk_size_zero
      detect_loop (to - from + 2) from to chunk_size

    unfoldable pub detect_token_standard : ℕ → ℕ → ℕ → Result TokenStandard
    detect_token_standard from to chunk_size = do
      detection ← detect_token_standard_with_prefetched_logs from to chunk_size
      ok detection.standard
