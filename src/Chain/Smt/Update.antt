-- ===== src/Chain/Smt/Update.antt =====
-- chain/smt.rs: `insert_at` and `remove_at`, and the tree with its root hash and leaf count.
use exfer.Common.{
  ℕ, suc, ◌-◌, Option, none, some, ◌==◌, ltb, Bool, true, false, if◌then◌else◌, bytes_eq,
}
use exfer.Types.Hash.{Hash256, Sha, zero_hash}
use exfer.Chain.Smt.Bits.{get_bit, smt_depth, first_different_bit, first_different_from}
use exfer.Chain.Smt.Node.{
  SmtNode, null, leaf, branch, extension, find_leaf, any_key, is_null, empty_root, subtree_hash,
  extend, wrap_in_extension, join,
}

pub record SparseMerkleTree : Type 0 where
  pub root : SmtNode
  pub root_hash : Hash256
  pub leaf_count : ℕ

unfoldable pub is_some : Option Hash256 → Bool
is_some none = false
is_some (some v) = true

module _ (sha : Sha) where
  -- The two children of a branch at `diverge`: the new leaf goes to the side of its bit.
  unfoldable pub branch_off : Hash256 → ℕ → SmtNode → SmtNode → SmtNode
  branch_off key diverge new_leaf other =
      if get_bit key diverge == 0
      then join sha diverge new_leaf other
      else join sha diverge other new_leaf

  -- The case of `insert_at` for a leaf with another key.
  unfoldable pub split_leaf : Hash256 → Hash256 → ℕ → Hash256 → Hash256 → SmtNode
  split_leaf existing_key existing_value depth key value =
      let diverge = first_different_bit existing_key key smt_depth in
      let node =
        branch_off key diverge (wrap_in_extension sha (leaf key value) (suc diverge))
          (wrap_in_extension sha (leaf existing_key existing_value) (suc diverge)) in
      if ltb depth diverge then extension depth diverge key node zero_hash else node

  -- The case of `insert_at` for an extension whose prefix leaves the key at `diverge`.
  unfoldable pub split_extension : ℕ → ℕ → Hash256 → SmtNode → ℕ → Hash256 → Hash256 → SmtNode
  split_extension bd cd prefix_key child diverge key value =
      let remaining_child =
        if ltb (suc diverge) cd then extend sha (suc diverge) cd prefix_key child else child in
      let node =
        branch_off key diverge (wrap_in_extension sha (leaf key value) (suc diverge))
          remaining_child in
      if ltb bd diverge then extend sha bd diverge key node else node

  unfoldable pub insert_at : SmtNode → ℕ → Hash256 → Hash256 → SmtNode
  insert_at null depth key value = wrap_in_extension sha (leaf key value) depth
  insert_at (leaf k v) depth key value =
      if bytes_eq k key then leaf key value else split_leaf k v depth key value
  insert_at (branch bd left right hash) depth key value = elim (get_bit key bd == 0) [
    | true ↦ join sha bd (insert_at left (suc bd) key value) right
    | false ↦ join sha bd left (insert_at right (suc bd) key value)
  ]
  insert_at (extension bd cd prefix_key child hash) depth key value =
      let diverge = first_different_from key prefix_key bd (cd - bd) in
      elim (diverge == cd) [
        | true ↦ extend sha bd cd prefix_key (insert_at child cd key value)
        | false ↦ split_extension bd cd prefix_key child diverge key value
      ]

  -- The surviving child of a branch takes the place of the branch.
  unfoldable pub prepend_extension : SmtNode → ℕ → SmtNode
  prepend_extension null from_depth = null
  prepend_extension (leaf k v) from_depth =
      if ltb from_depth smt_depth then extend sha from_depth smt_depth k (leaf k v) else leaf k v
  prepend_extension (branch bd l r h) from_depth =
      if ltb from_depth bd
      then extend sha from_depth bd (any_key (branch bd l r h)) (branch bd l r h)
      else branch bd l r h
  prepend_extension (extension bd cd prefix_key inner h) from_depth =
      extend sha from_depth cd prefix_key inner

  -- An extension and its child after a removal below.
  unfoldable pub try_merge_extension : ℕ → ℕ → Hash256 → SmtNode → SmtNode
  try_merge_extension bd cd prefix_key null = null
  try_merge_extension bd cd prefix_key (extension inner_bd inner_cd inner_prefix inner h) =
      extend sha bd inner_cd inner_prefix inner
  try_merge_extension bd cd prefix_key (leaf k v) = extend sha bd smt_depth k (leaf k v)
  try_merge_extension bd cd prefix_key (branch b l r h) =
      extend sha bd cd prefix_key (branch b l r h)

  -- A branch after a removal below: it collapses when one child is gone.
  unfoldable pub collapse : ℕ → ℕ → SmtNode → SmtNode → SmtNode
  collapse bd depth left right =
      if is_null left
      then (if is_null right then null else prepend_extension right depth)
      else (if is_null right then prepend_extension left depth else join sha bd left right)

  unfoldable pub remove_at : SmtNode → ℕ → Hash256 → SmtNode
  remove_at null depth key = null
  remove_at (leaf k v) depth key = if bytes_eq k key then null else leaf k v
  remove_at (branch bd left right hash) depth key = elim (get_bit key bd == 0) [
    | true ↦ collapse bd depth (remove_at left (suc bd) key) right
    | false ↦ collapse bd depth left (remove_at right (suc bd) key)
  ]
  remove_at (extension bd cd prefix_key child hash) depth key =
      try_merge_extension bd cd prefix_key (remove_at child cd key)

  unfoldable pub new : SparseMerkleTree
  new = record { root = null; root_hash = empty_root sha; leaf_count = 0 }

  abbrev pub with_root : SmtNode → ℕ → SparseMerkleTree
  with_root node count = record {
    root = node;
    root_hash = subtree_hash sha node 0;
    leaf_count = count;
  }

  unfoldable pub insert : Hash256 → Hash256 → SparseMerkleTree → SparseMerkleTree
  insert key value t =
      let was_present = is_some (find_leaf key t.root) in
      with_root (insert_at t.root 0 key value)
        (if was_present then t.leaf_count else suc t.leaf_count)

  unfoldable pub remove : Hash256 → SparseMerkleTree → SparseMerkleTree
  remove key t =
      if is_some (find_leaf key t.root)
      then with_root (remove_at t.root 0 key) (t.leaf_count - 1)
      else t

  unfoldable pub contains : Hash256 → SparseMerkleTree → Bool
  contains key t = is_some (find_leaf key t.root)

  unfoldable pub is_empty : SparseMerkleTree → Bool
  is_empty t = t.leaf_count == 0
