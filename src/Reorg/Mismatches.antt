-- ===== src/Reorg/Mismatches.antt =====
-- The blocks that `verify_source_reorgs` checks, and those whose hash differs from the node's.
use rust_evm_indexer.Base.{
  ℕ, Bool, ◌&&◌, List, [], ◌∷◌, Option, none, some, if◌then◌else◌, Result, ok, ◌>>=◌,
}
use rust_evm_indexer.Base.Int.{ℤ, eqb_ℤ, leb_ℤ, as_u64}
use rust_evm_indexer.Base.Text.{Text, text_eq, text_le, to_ascii_lowercase}
use rust_evm_indexer.Ports.{SourceCheckpoint, IndexedBlockHash, ReorgMismatch}

-- The order of `IndexedBlockHash`: by number, then by hash.
abbrev pub hash_eq : IndexedBlockHash → IndexedBlockHash → Bool
hash_eq a b = eqb_ℤ a.block_number b.block_number && text_eq a.block_hash b.block_hash

abbrev pub hash_le : IndexedBlockHash → IndexedBlockHash → Bool
hash_le a b =
    if eqb_ℤ a.block_number b.block_number
    then text_le a.block_hash b.block_hash
    else leb_ℤ a.block_number b.block_number

-- `BTreeSet::insert`, on the set as its sorted list.
unfoldable pub set_insert : IndexedBlockHash → List IndexedBlockHash → List IndexedBlockHash
set_insert x [] = x ∷ []
set_insert x (y ∷ ys) =
    let rest = set_insert x ys in
    if hash_eq x y then y ∷ ys else if hash_le x y then x ∷ y ∷ ys else y ∷ rest

unfoldable pub to_set : List IndexedBlockHash → List IndexedBlockHash
to_set [] = []
to_set (x ∷ xs) = set_insert x (to_set xs)

-- The checkpoint's block joins the set where it lies in the range.
unfoldable pub insert_checkpoint :
    ℤ → ℤ → Option SourceCheckpoint → List IndexedBlockHash → List IndexedBlockHash
insert_checkpoint from to none expected = expected
insert_checkpoint from to (some checkpoint) expected =
    if leb_ℤ from checkpoint.processed_block && leb_ℤ checkpoint.processed_block to
    then set_insert
        (record {
          block_number = checkpoint.processed_block;
          block_hash = checkpoint.processed_block_hash;
        })
        expected
    else expected

-- `block_hash` asks the node.
unfoldable pub find_mismatches :
    (ℕ → Result Text) → List IndexedBlockHash → Result (List ReorgMismatch)
find_mismatches block_hash [] = ok []
find_mismatches block_hash (indexed ∷ rest) = do
  answer ← block_hash (as_u64 indexed.block_number)
  let actual = to_ascii_lowercase answer
  let expected = to_ascii_lowercase indexed.block_hash
  mismatches ← find_mismatches block_hash rest
  ok (
      if text_eq expected actual
      then mismatches
      else record {
        block_number = indexed.block_number;
        expected_block_hash = expected;
        actual_block_hash = actual;
      }
        ∷ mismatches)
