-- ===== src/Evm/Panics.antt =====
-- The decoders of application/evm.rs on a log whose texts are ASCII: each of their indices and cuts
-- is in range.
use rust_evm_indexer.Base.Text.{Text}
use rust_evm_indexer.Evm.Calm.{Calm}
