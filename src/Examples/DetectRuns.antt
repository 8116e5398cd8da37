-- ===== src/Examples/DetectRuns.antt =====
-- A node whose blocks each hold the transfer of a coin.
use rust_evm_indexer.Base.{
  ℕ, ◌+◌, ◌-◌, ◌≡◌, refl, inl, inr, List, [], ◌∷◌, ok, err, not_found, arith,
}
use rust_evm_indexer.Base.Text.{codes, text_eq, to_ascii_lowercase, strip_prefix}
use rust_evm_indexer.Evm.{RpcLog, erc20, strip_0x, standard_str}
use rust_evm_indexer.Evm.Words.{data_word_count}
use rust_evm_indexer.Evm.Encoding.{hex_word}
use rust_evm_indexer.Evm.Decode.{
  standard_eq, detect_token_standard_from_log, detect_event, detect_by_topic0, transfer_shape,
  event_topic,
}
use rust_evm_indexer.Ingest.Node.{ChainRpc}
use rust_evm_indexer.Ingest.Chunks.{logs_of}
use rust_evm_indexer.Ingest.Detect.{
  TokenStandardDetection, detect_token_standard_with_prefetched_logs,
  detect_token_standard_from_logs, detect_from, detect_loop, note_candidate,
}
use rust_evm_indexer.Ingest.Shown.{
  Shows, IsDetected, detect_token_standard_with_prefetched_logs-IsDetected,
}
use rust_evm_indexer.Ingest.Settled.{detect_token_standard_with_prefetched_logs_lem}
use rust_evm_indexer.Examples.DecodeRuns.{demo_keccak, coin_log}

abbrev coin_logs : ℕ → List RpcLog
coin_logs block = coin_log ∷ []

abbrev coin_node : ChainRpc
coin_node = record {
  block_number = ok 100;
  code_at = λ contract block. ok (codes "0x60");
  block_hash = λ block. ok (codes "0xBB");
  block_timestamp = λ block. ok block;
  logs = λ contract standard from to. ok (logs_of coin_logs from (to + 1 - from));
  transaction_receipt = λ hash. err not_found;
}

coin_log-Shows : Shows demo_keccak erc20 coin_log
unfolding detect_token_standard_from_log detect_event detect_by_topic0 transfer_shape event_topic
    text_eq to_ascii_lowercase data_word_count strip_0x strip_prefix hex_word
coin_log-Shows = refl

detect_token_standard_with_prefetched_logs_lem_example :
    (detection : TokenStandardDetection) × (detect_token_standard_with_prefetched_logs demo_keccak
        coin_node
        (codes "0x01")
        5
        9
        2
      ≡ ok detection)
    × (detection.standard ≡ erc20)
    × IsDetected demo_keccak coin_node (codes "0x01") 5 9 detection
detect_token_standard_with_prefetched_logs_lem_example =
    detect_token_standard_with_prefetched_logs_lem demo_keccak erc20 coin_node (codes "0x01")
      coin_logs (λ from to h. refl) (λ block. (inr coin_log-Shows, tt)) 7 coin_log (inl refl)
      coin_log-Shows 5 9 2 (omega arith) (omega arith) (omega arith) (omega arith)

abbrev coin_detection : TokenStandardDetection
coin_detection = record {
  standard = erc20;
  prefetched_logs = record { from = 5; to = 6; logs = coin_log ∷ coin_log ∷ [] };
}

coin_detection_demo :
    detect_token_standard_with_prefetched_logs demo_keccak coin_node (codes "0x01") 5 9 2
    ≡ ok coin_detection
unfolding detect_token_standard_with_prefetched_logs detect_loop detect_token_standard_from_logs
    detect_from note_candidate detect_token_standard_from_log detect_event detect_by_topic0
    transfer_shape event_topic text_eq to_ascii_lowercase data_word_count strip_0x strip_prefix
    hex_word standard_eq standard_str
coin_detection_demo = refl

detect_token_standard_with_prefetched_logs-IsDetected_example :
    IsDetected demo_keccak coin_node (codes "0x01") 5 9 coin_detection
detect_token_standard_with_prefetched_logs-IsDetected_example =
    detect_token_standard_with_prefetched_logs-IsDetected demo_keccak coin_node (codes "0x01") 5 9 2
      coin_detection (omega arith) coin_detection_demo
