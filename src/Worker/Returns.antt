-- ===== src/Worker/Returns.antt =====
-- A job that was leased gets an outcome, whatever the node answers.
use rust_evm_indexer.Base.{◌≡◌, Result, ok}
use rust_evm_indexer.Base.Action.{Action}
use rust_evm_indexer.Base.Text.{Text}

abbrev Returns : {A S : Type 0} → Action S A → S → Type 0
Returns {A} {S} call db = (a : A) × (db' : S) × ◌≡◌ {A = Result A × S} (call db) (ok a, db')
