-- ===== src/Lib.antt =====
-- Exfer, a proof-of-work chain with a UTXO state: its wire formats, its consensus arithmetic, its
-- block validation and fork choice, its UTXO set with the sparse Merkle tree below it, its mempool
-- and its script language.
--
-- How the parts interact: a block (src/types/block.rs) holds transactions (src/types/transaction.rs),
-- whose hashes (src/types/hash.rs) name the outputs that later transactions spend. The difficulty rule
-- (src/consensus/difficulty.rs) gives the target of the next block from the headers before it, the work
-- of a target adds up along a chain, and the fork choice (src/chain/fork_choice.rs) prefers the chain
-- with more work. The UTXO set (src/chain/state.rs) applies the transactions of a block and undoes them
-- when the fork choice leaves the block's chain; every change goes to the tree of src/chain/smt.rs, whose
-- root is in the header. The reward (src/consensus/reward.rs) and the cost with the smallest fee
-- (src/consensus/cost.rs) bound what a block and a transaction may claim. The pool
-- (src/mempool/mempool.rs) holds the transactions that no block has yet. An output may be locked by a
-- script (src/script/ast.rs), which is type checked (src/script/typecheck.rs), priced
-- (src/script/cost.rs) and evaluated (src/script/eval.rs) when the output is spent.
--
-- Common: shared names; Tests, Lists, Results and Words have Boolean tests, lists measured by native
--   numbers, Rust's Result and Option with `?`, and machine words; Map has BTreeMap and BTreeSet as
--   association lists in key order; Exec has methods that take `&mut self` and may fail.
-- Types.Hash: src/types/hash.rs. SHA-256 is a parameter, the record Sha, with the length of a digest as
--   its only law.
-- Types.Merkle: merkle_root of src/types/hash.rs. Its loop runs on fuel, one round to each hash, and every
--   round halves the level.
-- Types.Amount: src/types/amount.rs.
-- Types.Cursor: the reads `data[pos..pos + n]` of the decoders, with the position as state. The loops
--   `for _ in 0..count` are `repeat`, by recursion on the count.
-- Types.Transaction: src/types/transaction.rs. Data has the structs, Encode `serialize` and the
--   identifiers, Decode `deserialize`. The texts of the errors are the constructors of Reason. The
--   signature domain, which the process binds once, is the argument genesis_id.
-- Types.Block: src/types/block.rs, in the same parts.
-- Consensus.Digits: numbers as big-endian digits, with carries and borrows.
-- Consensus.Difficulty: src/consensus/difficulty.rs. Arith has add_work, div_256, work_from_target and
--   mul_div_256 on the 32 bytes; the 256 rounds of div_256 are recursion on the rounds that are left.
--   Retarget has retarget, expected_difficulty and the header overlay with its copy of the rule. The
--   storage is a function from ids to headers that may fail.
-- Consensus.Reward: src/consensus/reward.rs. The table is its recurrence.
-- Consensus.Cost: src/consensus/cost.rs. The sums are in u128 in the source, and stay below 2^128 for the
--   sizes that a u64 length can have, so they are sums of natural numbers here.
-- Chain.ForkChoice: src/chain/fork_choice.rs.
-- Chain.Smt: src/chain/smt.rs. The root file has the leaf encoding and the interface Smt that
--   Chain.State is written against: a map of leaves whose root depends on the leaves alone. Bits has
--   get_bit and first_different_bit, Node the nodes with find_leaf and the hashes, Update insert_at,
--   remove_at and SparseMerkleTree, Batch compute_root_recursive. A node owns its children, so the
--   arena of nodes with its free list is an inductive tree and NULL its empty case. Prefix, Shape,
--   Insertion, Kept, Removal, Gone, Hashing, Count and Level have the lemmas, Valid and Runs the
--   theorems, and Instance fills the interface. A key index past the key, where the source panics,
--   reads as 0.
-- Chain.State: src/chain/state.rs. Defs has the set with its three tables, insert and remove; Apply has
--   apply_transaction, undo_transaction and undo_partial_transaction, each with its errors and with the
--   state that an error leaves behind; Query has the snapshot, the balance and the listings, with the
--   coinbase maturity as an argument.
-- Chain.Index: the index from scripts to ids that the set and the pool both keep.
-- Mempool: src/mempool/mempool.rs. Defs has the pool, its indexes and removal; Admit has admission,
--   removal on a block and revalidation; Query the selection for a block template and the address
--   queries. The eviction loop runs on fuel, one round to each entry, since every round on a pool
--   whose ranks are in step removes an entry. The events are left out. Add has add, which repeats the
--   text of add_validated, and Steps compares the two; Confirmed and Refresh are about what a block and a
--   revalidation take out of the pool; Scripts and Admitted are about the index of the
--   pool. HashMap and HashSet are kept in key order; no result depends on it but the order in which
--   entries are visited.
-- Consensus.Pow: src/consensus/pow.rs. Argon2id, of the crate argon2, is an argument.
-- Consensus.Validation: src/consensus/validation.rs. Defs has the errors, the median and the
--   transaction root; Header has validate_block_header, one function for each rule, in the order in
--   which the source checks them; Rules states the rules of a block.
--   Coinbase has validate_coinbase and Structure validate_block_structure; both take what is asked of a
--   script as the record ScriptRules, which Spendable.output_rules fills. OutputScript has
--   validate_output_script, with the parser of programs as an argument, and Joined describes what its
--   loops ask of the nodes. Witness has the proof
--   that an input may be spent, and Transaction validate_transaction; the record Setting has what they
--   take from crates, from src/script/serialize.rs and from the process. A message of an error is the
--   data that it prints.
--   Apply has validate_and_apply_block_transactions_atomic, with the local variables of its loop as
--   the record Applied, and Undo the undoing of a block; Snapshot, Corrupted, Atomic and Whole have the
--   proof about both. AssumeValid has apply_block_transactions_assume_valid and Unguarded
--   validate_and_apply_block_transactions, which has no rollback; Succeeded and Replay have what the
--   comparison with the first of the three takes. apply_all stands for the calls of apply_transaction
--   that the loops over a block make when none fails. A HashSet is a list of keys in order, as in the
--   mempool.
-- Script.Types and Script.Value: src/script/types.rs and src/script/value.rs. The levels of
--   deserialize_depth that are left are the argument of read_value, 129 at the start.
-- Script.Jets: src/script/jets/mod.rs and context.rs, without the implementations of the jets.
-- Script.Ast: src/script/ast.rs. The vectors that are filled from the end, in max_depth, compute_cost and
--   typecheck, are the results of a recursion on the rest of the nodes; `behind` reads them.
-- Script.Cost: src/script/cost.rs. Script.Typecheck: src/script/typecheck.rs.
-- Script.Eval: src/script/eval.rs. The state is the budget with the position of the witness reader, and
--   the levels of MAX_EVAL_DEPTH that are left bound the recursion, 129 at the root. The jets, the heap
--   size of a value and the size of a Value in memory are the record Host. Within, Priced, Affordable,
--   Totals and Sufficient have the proof that the static cost is enough.
-- Examples: runs, and each theorem at a concrete input.
--
-- Not modelled: the implementations of the jets, the encoding of programs, the covenants, the storage
-- on the database crate redb, the network, the RPC interface, the wallet, the miner and the programs.
-- Formatting impls, diagnostics and logging are left out everywhere. Lengths are natural numbers; where
-- the source casts one to a fixed width the wrap-around is written out.
pub mod Common
pub mod Types
pub mod Consensus
pub mod Chain
pub mod Mempool
pub mod Script
pub mod Examples
