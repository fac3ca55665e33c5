-- ===== src/Chain/Smt/Valid.antt =====
-- chain/smt.rs: `SparseMerkleTree` as a map from keys to values with the root of its leaves.
use exfer.Common.{
  ◌+◌, ◌≡◌, refl, sym, ◌∙◌, ap, arith, if◌then◌else◌, Option-cases, inl, inr, none, some, length,
  length-append, bytes_eq, bytes_eq_iff,
}
use exfer.Types.Hash.{Hash256, Sha}
use exfer.Chain.Smt.Bits.{smt_depth, IsKey, Agree}
use exfer.Chain.Smt.Node.{
  SmtNode, null, leaf, branch, extension, find_leaf, empty_root, subtree_hash,
}
use exfer.Chain.Smt.Shape.{AllKeys, IsShaped, IsSlot, IsSlot-IsShaped}
use exfer.Chain.Smt.Insertion.{find-wrap_leaf, find-insert_at}
use exfer.Chain.Smt.Kept.{IsShaped-wrap_leaf, IsShaped-insert_at}
use exfer.Chain.Smt.Removal.{IsSlot-remove_at}
use exfer.Chain.Smt.Gone.{find-remove_at}
use exfer.Chain.Smt.Hashing.{IsHashed, IsHashed-wrap_leaf, IsHashed-insert_at, IsHashed-remove_at}
use exfer.Chain.Smt.Count.{size, found, size-wrap_leaf, size-insert_at, size-remove_at}
use exfer.Chain.Smt.Level.{leaves}
use exfer.Chain.Smt.Batch.{compute_root_recursive, root-batch, leaves_ext}
use exfer.Chain.Smt.Update.{SparseMerkleTree, is_some, insert_at, remove_at, new, insert, remove}

-- Every key agrees with another one in no bit at all.
AllKeys-Agree_zero : (q : Hash256) (t : SmtNode) → AllKeys (λ k. Agree q k 0) t
AllKeys-Agree_zero q null = tt
AllKeys-Agree_zero q (leaf k v) = λ i l. absurd (omega arith)
AllKeys-Agree_zero q (branch bd l r h) = (AllKeys-Agree_zero q l, AllKeys-Agree_zero q r)
AllKeys-Agree_zero q (extension bd cd p c h) = AllKeys-Agree_zero q c

size-leaves : (t : SmtNode) → size t ≡ length (leaves t)
size-leaves null = refl
size-leaves (leaf k v) = refl
size-leaves (branch bd l r h) =
    omega (arith, size-leaves l, size-leaves r, length-append (leaves l) (leaves r))
size-leaves (extension bd cd p c h) = size-leaves c

module _ (sha : Sha) where
  -- A tree that the operations build.
  pub record IsValid (t : SparseMerkleTree) : Type 0 where
    pub shaped : IsSlot 0 t.root
    pub hashed : IsHashed sha t.root
    pub rooted : t.root_hash ≡ subtree_hash sha t.root 0
    pub counted : t.leaf_count ≡ size t.root

  -- An insertion into nothing or below depth 0.
  record Inserted (t u : SmtNode) (key v : Hash256) : Type 0 where
    pub shape : IsSlot 0 u
    pub hash : IsHashed sha t → IsHashed sha u
    pub reads : (j : Hash256) → find_leaf j u ≡ (if bytes_eq key j then some v else find_leaf j t)
    pub counts : size u + found (find_leaf key t) ≡ size t + 1

  shaped-Inserted :
      (t : SmtNode) (key v : Hash256)
      → IsKey key
      → IsShaped 0 t
      → Inserted t (insert_at sha t 0 key v) key v
  shaped-Inserted t key v ik s =
      let a = AllKeys-Agree_zero key t in
      record {
        shape = IsSlot-IsShaped 0 _ (IsShaped-insert_at sha t 0 key v ik s a);
        hash = IsHashed-insert_at sha t 0 key v ik s a;
        reads = λ j. find-insert_at sha t 0 j key v ik s a;
        counts = size-insert_at sha t 0 key v ik s a;
      }

  insert_at-Inserted :
      (t : SmtNode) (key v : Hash256)
      → IsKey key
      → IsSlot 0 t
      → Inserted t (insert_at sha t 0 key v) key v
  unfolding insert_at find_leaf
  insert_at-Inserted null key v ik s = record {
    shape = IsSlot-IsShaped 0 _ (IsShaped-wrap_leaf sha key v 0 ik (omega arith));
    hash = λ h. IsHashed-wrap_leaf sha key v 0;
    reads = λ j. find-wrap_leaf sha j key v 0;
    counts = omega (arith, size-wrap_leaf sha key v 0);
  }
  insert_at-Inserted (leaf k w) key v ik s = shaped-Inserted (leaf k w) key v ik s
  insert_at-Inserted (branch bd l r h) key v ik s = shaped-Inserted (branch bd l r h) key v ik s
  insert_at-Inserted (extension bd cd p c h) key v ik s =
      shaped-Inserted (extension bd cd p c h) key v ik s

  pub new-IsValid : IsValid (new sha)
  unfolding new empty_root subtree_hash
  new-IsValid = record { shaped = tt; hashed = tt; rooted = refl; counted = refl }

  -- `insert` keeps a tree valid.
  pub IsValid-insert :
      (key v : Hash256) (t : SparseMerkleTree)
      → IsKey key
      → IsValid t
      → IsValid (insert sha key v t)
  unfolding insert is_some
  IsValid-insert key v t ik w =
      let i = insert_at-Inserted t.root key v ik w.shaped in
      record {
        shaped = i.shape;
        hashed = i.hash w.hashed;
        rooted = refl;
        counted = elim (Option-cases (find_leaf key t.root)) [
          | inl e ↦ let c = rw e at i.counts in rw e (omega (arith, c, w.counted))
          | inr (x, e) ↦ let c = rw e at i.counts in rw e (omega (arith, c, w.counted))
        ];
      }

  -- After `insert` the key reads as the value, and every other key as before.
  pub find-insert :
      (key j v : Hash256) (t : SparseMerkleTree)
      → IsKey key
      → IsValid t
      → find_leaf j (insert sha key v t).root
        ≡ (if bytes_eq key j then some v else find_leaf j t.root)
  unfolding insert
  find-insert key j v t ik w = (insert_at-Inserted t.root key v ik w.shaped).reads j

  -- What a removal leaves of a root.
  record Removed (t u : SmtNode) (key : Hash256) : Type 0 where
    pub shape : IsSlot 0 u
    pub reads : (j : Hash256) → find_leaf j u ≡ (if bytes_eq key j then none else find_leaf j t)

  shaped-Removed :
      (t : SmtNode) (key : Hash256) → IsShaped 0 t → Removed t (remove_at sha t 0 key) key
  shaped-Removed t key s =
      let a = AllKeys-Agree_zero key t in
      record {
        shape = IsSlot-remove_at sha key t 0 key s a;
        reads = λ j. find-remove_at sha key t 0 j key s a;
      }

  remove_at-Removed :
      (t : SmtNode) (key : Hash256) → IsSlot 0 t → Removed t (remove_at sha t 0 key) key
  unfolding remove_at find_leaf
  remove_at-Removed null key s = record { shape = tt; reads = λ j. ground arith }
  remove_at-Removed (leaf k w) key s = shaped-Removed (leaf k w) key s
  remove_at-Removed (branch bd l r h) key s = shaped-Removed (branch bd l r h) key s
  remove_at-Removed (extension bd cd p c h) key s = shaped-Removed (extension bd cd p c h) key s

  -- `remove` keeps a tree valid.
  pub IsValid-remove :
      (key : Hash256) (t : SparseMerkleTree) → IsValid t → IsValid (remove sha key t)
  unfolding remove is_some
  IsValid-remove key t w = elim (Option-cases (find_leaf key t.root)) [
    | inl e ↦ rw e w
    | inr (v, e) ↦
        let c = size-remove_at sha t.root 0 key v e in
        rw e (record {
          shaped = (remove_at-Removed t.root key w.shaped).shape;
          hashed = IsHashed-remove_at sha t.root 0 key w.hashed;
          rooted = refl;
          counted = omega (arith, c, w.counted);
        })
  ]

  -- After `remove` the key is not found, and every other key reads as before.
  pub find-remove :
      (key j : Hash256) (t : SparseMerkleTree)
      → IsValid t
      → find_leaf j (remove sha key t).root ≡ (if bytes_eq key j then none else find_leaf j t.root)
  unfolding remove is_some
  find-remove key j t w = elim (Option-cases (find_leaf key t.root)) [
    | inl e ↦ rw e (ground (arith, bytes_eq_iff key j))
    | inr (v, e) ↦ rw e ((remove_at-Removed t.root key w.shaped).reads j)
  ]

  -- The root hash of a valid tree is the root that the batch computation gives for its leaves.
  pub root_hash-compute_root_recursive :
      (t : SparseMerkleTree)
      → IsValid t
      → t.root_hash ≡ compute_root_recursive sha (leaves t.root) smt_depth 0
  root_hash-compute_root_recursive t w =
      w.rooted ∙ sym (root-batch sha smt_depth 0 t.root refl w.shaped w.hashed)

  -- Valid trees in which the same is found have the same root hash and leaf count.
  pub root_hash_ext :
      (t u : SparseMerkleTree)
      → IsValid t
      → IsValid u
      → ((j : Hash256) → find_leaf j t.root ≡ find_leaf j u.root)
      → (t.root_hash ≡ u.root_hash) × (t.leaf_count ≡ u.leaf_count)
  root_hash_ext t u w w' same =
      let l = leaves_ext sha smt_depth 0 t.root u.root refl w.shaped w'.shaped same in
      let rt = root_hash-compute_root_recursive t w in
      let ru = root_hash-compute_root_recursive u w' in
      (
        rt ∙ rw l (sym ru),
        w.counted ∙ size-leaves t.root ∙ ap length l ∙ sym (size-leaves u.root) ∙ sym w'.counted,
      )
