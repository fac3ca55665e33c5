-- ===== src/Chain/Smt/Instance.antt =====
-- chain/smt.rs: the path-compressed tree as the tree that chain/state.rs is written against.
use exfer.Common.{◌≡◌, none, refl}
use exfer.Types.Hash.{Hash256, Sha}
use exfer.Chain.Smt.{Smt}
use exfer.Chain.Smt.Node.{find_leaf}
use exfer.Chain.Smt.Update.{SparseMerkleTree, new, insert, remove}
use exfer.Chain.Smt.Valid.{
  IsValid, new-IsValid, IsValid-insert, IsValid-remove, find-insert, find-remove, root_hash_ext,
}

module _ (sha : Sha) where
  pub find-new : (k : Hash256) → find_leaf k (new sha).root ≡ none
  unfolding new find_leaf
  find-new k = refl

  abbrev pub sparse_smt : Smt
  sparse_smt = record {
    Tree = SparseMerkleTree;
    IsValid = IsValid sha;
    empty = new sha;
    find = λ k t. find_leaf k t.root;
    insert = insert sha;
    remove = remove sha;
    root = λ t. t.root_hash;
    empty-IsValid = new-IsValid sha;
    insert-IsValid = IsValid-insert sha;
    remove-IsValid = IsValid-remove sha;
    find-empty = find-new;
    find-insert = find-insert sha;
    find-remove = find-remove sha;
    root_ext = λ t u w w' same. (root_hash_ext sha t u w w' same).0;
  }
