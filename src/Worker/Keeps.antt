-- ===== src/Worker/Keeps.antt =====
-- What a call leaves alone, or keeps, carried through the chains of calls of a worker.
use rust_evm_indexer.Base.{Bool, List, Result, ok, err}
use rust_evm_indexer.Base.Action.{Action, ◌>>=◌, pure, lift, query}
use rust_evm_indexer.Jobs.Table.{JobsDb}
use rust_evm_indexer.Ledger.Rows.{LedgerDb}
use rust_evm_indexer.Ledger.Receipts.{TransactionReceiptRow}
use rust_evm_indexer.Ledger.Checkpoint.{CheckpointRow}
use rust_evm_indexer.Worker.Execute.{
  WorkerDb, now, on_queue, on_ledger, on_receipts, on_checkpoints, attempt, set_priority,
}

-- A property of the state that a call keeps, whether it succeeds or fails.
abbrev pub Keeps : {A : Type 0} → (WorkerDb → Type 0) → Action WorkerDb A → Type 0
Keeps P call = (db : WorkerDb) → P db → P (call db).1

module _ (P : WorkerDb → Type 0) where
  module _ {A B : Type 0} where
    pub bind-Keeps :
        (call : Action WorkerDb A) (next : A → Action WorkerDb B)
        → Keeps P call
        → ((a : A) → Keeps P (next a))
        → Keeps P (call >>= next)
    bind-Keeps call next first_step second_step db before =
        go (call db).0 (call db).1 (first_step db before)
      where
        go :
            (answer : Result A) (db' : WorkerDb)
            → P db'
            → P
                (elim answer as (λ _. Result B × WorkerDb) [
                  | ok a ↦ next a db'
                  | err e ↦ (err e, db')
                ]).1
        go (ok a) db' here = second_step a db' here
        go (err e) db' here = here

-- A property of each of the three stores that the worker writes.
module _ (Q : JobsDb → Type 0) (L : LedgerDb → Type 0) (C : List CheckpointRow → Type 0) where
  pub record Stores (db : WorkerDb) : Type 0 where
    pub of_queue : Q db.queue
    pub of_ledger : L db.ledger
    pub of_checkpoints : C db.checkpoints

  pub now-Keeps : Keeps Stores now
  unfolding now
  now-Keeps db before = record {
    of_queue = before.of_queue;
    of_ledger = before.of_ledger;
    of_checkpoints = before.of_checkpoints;
  }

  pub set_priority-Keeps : (flag : Bool) → Keeps Stores (set_priority flag)
  unfolding set_priority
  set_priority-Keeps flag db before = record {
    of_queue = before.of_queue;
    of_ledger = before.of_ledger;
    of_checkpoints = before.of_checkpoints;
  }

  module _ {A : Type 0} where
    pub pure-Keeps : (a : A) → Keeps Stores (pure a)
    pure-Keeps a db before = before

    pub lift-Keeps : (answer : Result A) → Keeps Stores (lift answer)
    lift-Keeps answer db before = before

    pub query-Keeps : (ask : WorkerDb → Result A) → Keeps Stores (query ask)
    query-Keeps ask db before = before

    pub on_queue-Keeps :
        (call : Action JobsDb A)
        → ((q : JobsDb) → Q q → Q (call q).1)
        → Keeps Stores (on_queue call)
    unfolding on_queue
    on_queue-Keeps call h db before = record {
      of_queue = h db.queue before.of_queue;
      of_ledger = before.of_ledger;
      of_checkpoints = before.of_checkpoints;
    }

    pub on_ledger-Keeps :
        (call : Action LedgerDb A)
        → ((q : LedgerDb) → L q → L (call q).1)
        → Keeps Stores (on_ledger call)
    unfolding on_ledger
    on_ledger-Keeps call h db before = record {
      of_queue = before.of_queue;
      of_ledger = h db.ledger before.of_ledger;
      of_checkpoints = before.of_checkpoints;
    }

    pub on_receipts-Keeps :
        (call : Action (List TransactionReceiptRow) A) → Keeps Stores (on_receipts call)
    unfolding on_receipts
    on_receipts-Keeps call db before = record {
      of_queue = before.of_queue;
      of_ledger = before.of_ledger;
      of_checkpoints = before.of_checkpoints;
    }

    pub on_checkpoints-Keeps :
        (call : Action (List CheckpointRow) A)
        → ((rows : List CheckpointRow) → C rows → C (call rows).1)
        → Keeps Stores (on_checkpoints call)
    unfolding on_checkpoints
    on_checkpoints-Keeps call h db before = record {
      of_queue = before.of_queue;
      of_ledger = before.of_ledger;
      of_checkpoints = h db.checkpoints before.of_checkpoints;
    }

    pub attempt-Keeps : (call : Action WorkerDb A) → Keeps Stores call → Keeps Stores (attempt call)
    unfolding attempt
    attempt-Keeps call h db before = h db before
