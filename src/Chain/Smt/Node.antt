-- ===== src/Chain/Smt/Node.antt =====
-- chain/smt.rs: the nodes of the path-compressed tree, their cached hashes, and the walk to a leaf.
-- A node owns its children: each index of the arena is held by one parent, so that the arena with
-- its free list is the tree below, and `NULL` is `null`.
use exfer.Common.{
  ℕ, zero, suc, ◌-◌, Option, none, some, ◌++◌, ◌==◌, ltb, Bool, true, false, if◌then◌else◌,
  bytes_eq,
}
use exfer.Types.Hash.{Hash256, Sha, zero_hash}
use exfer.Chain.Smt.Bits.{get_bit, smt_depth}

pub data SmtNode : Type 0 where
  null : SmtNode
  leaf : (key value : Hash256) → SmtNode
  branch : (bit_depth : ℕ) (left right : SmtNode) (hash : Hash256) → SmtNode
  extension :
      (bit_depth child_depth : ℕ) (prefix_key : Hash256) (child : SmtNode) (hash : Hash256)
      → SmtNode

-- The loop `for d in bd..cd` of `find_leaf`, over the n positions from d.
unfoldable pub matches_prefix : Hash256 → Hash256 → ℕ → ℕ → Bool
matches_prefix key prefix_key d zero = true
matches_prefix key prefix_key d (suc n) =
    if get_bit key d == get_bit prefix_key d then matches_prefix key prefix_key (suc d) n else false

unfoldable pub find_leaf : Hash256 → SmtNode → Option Hash256
find_leaf key null = none
find_leaf key (leaf k value) = if bytes_eq k key then some value else none
find_leaf key (branch bd left right hash) = elim (get_bit key bd == 0) [
  | true ↦ find_leaf key left
  | false ↦ find_leaf key right
]
find_leaf key (extension bd cd prefix_key child hash) =
    elim (matches_prefix key prefix_key bd (cd - bd)) [ true ↦ find_leaf key child | false ↦ none ]

unfoldable pub is_null : SmtNode → Bool
is_null null = true
is_null (leaf k v) = false
is_null (branch bd l r h) = false
is_null (extension bd cd p c h) = false

unfoldable pub logical_depth : SmtNode → ℕ
logical_depth null = 0
logical_depth (leaf k v) = smt_depth
logical_depth (branch bd l r h) = bd
logical_depth (extension bd cd p c h) = bd

-- Any key reachable from the node.
unfoldable pub any_key : SmtNode → Hash256
any_key null = zero_hash
any_key (leaf k v) = k
any_key (branch bd l r h) = elim (is_null l) [ true ↦ any_key r | false ↦ any_key l ]
any_key (extension bd cd p c h) = any_key c

module _ (sha : Sha) where
  unfoldable pub hash_pair : Hash256 → Hash256 → Hash256
  hash_pair left right = sha.sha256 (left ++ right)

  -- `EmptyHashes`: the hash of an empty subtree of height d.
  unfoldable pub empty_hash : ℕ → Hash256
  empty_hash zero = zero_hash
  empty_hash (suc d) = hash_pair (empty_hash d) (empty_hash d)

  unfoldable pub empty_root : Hash256
  empty_root = empty_hash smt_depth

  unfoldable pub subtree_hash : SmtNode → ℕ → Hash256
  subtree_hash null at_depth = empty_hash (smt_depth - at_depth)
  subtree_hash (leaf k value) at_depth = value
  subtree_hash (branch bd l r h) at_depth = h
  subtree_hash (extension bd cd p c h) at_depth = h

  unfoldable pub compute_branch_hash : SmtNode → SmtNode → ℕ → Hash256
  compute_branch_hash left right bd =
      hash_pair (subtree_hash left (suc bd)) (subtree_hash right (suc bd))

  -- One level of `fold_hash`: the sibling at depth d + 1 is empty.
  unfoldable pub fold_level : Hash256 → Hash256 → ℕ → Hash256
  fold_level h key d =
      let empty_sibling = empty_hash (smt_depth - d - 1) in
      if get_bit key d == 0 then hash_pair h empty_sibling else hash_pair empty_sibling h

  -- The n levels from d, the deepest first.
  unfoldable pub fold_levels : Hash256 → Hash256 → ℕ → ℕ → Hash256
  fold_levels h key d zero = h
  fold_levels h key d (suc n) = fold_level (fold_levels h key (suc d) n) key d

  unfoldable pub fold_hash : Hash256 → Hash256 → ℕ → ℕ → Hash256
  fold_hash child_hash key from_depth to_depth =
      fold_levels child_hash key from_depth (to_depth - from_depth)

  -- The extension over [from, to) with its hash.
  unfoldable pub extend : ℕ → ℕ → Hash256 → SmtNode → SmtNode
  extend from to prefix_key child =
      extension from to prefix_key child (fold_hash (subtree_hash child to) prefix_key from to)

  unfoldable pub wrap_in_extension : SmtNode → ℕ → SmtNode
  wrap_in_extension node target_depth =
      let node_depth = logical_depth node in
      if ltb target_depth node_depth
      then extend target_depth node_depth (any_key node) node
      else node

  -- A branch with its hash.
  unfoldable pub join : ℕ → SmtNode → SmtNode → SmtNode
  join bd left right = branch bd left right (compute_branch_hash left right bd)
