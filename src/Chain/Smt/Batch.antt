-- ===== src/Chain/Smt/Batch.antt =====
-- chain/smt.rs: the root as the tests compute it from all leaves at once, and the tree that keeps it.
use exfer.Common.{
  ℕ, zero, suc, ◌+◌, ◌-◌, ◌<◌, ◌≡◌, ◌≢◌, refl, sym, ◌∙◌, arith, ◌==◌, ==_iff, if◌then◌else◌, false,
  Bool-cases, inl, inr, none, bytes_eq_refl, bytes_eq_iff, List, [], ◌∷◌, ◌++◌, take, drop, length,
  All, take-append_length, drop-append_length,
}
use exfer.Types.Hash.{Hash256, Sha}
use exfer.Chain.Smt.Bits.{get_bit, smt_depth}
use exfer.Chain.Smt.Node.{
  SmtNode, null, leaf, branch, extension, empty_hash, hash_pair, subtree_hash, find_leaf,
}
use exfer.Chain.Smt.Shape.{AllKeys, AllKeys-imp, IsSlot, find_leaf-absent}
use exfer.Chain.Smt.Hashing.{IsHashed}
use exfer.Chain.Smt.Level.{
  Leaf, leaves, child_at, IsSlot-child_at, AllKeys-child_at, IsHashed-child_at, leaves-child_at,
  hash-child_at, find-child_at,
}

-- `leaves.partition_point(..)`: on a slice that is partitioned, the length of the first part.
unfoldable pub split_point : ℕ → List Leaf → ℕ
split_point bit_index [] = 0
split_point bit_index ((k, v) ∷ rest) =
    if get_bit k bit_index == 0 then suc (split_point bit_index rest) else 0

All-append : (P : Leaf → Type 0) (xs ys : List Leaf) → All P xs → All P ys → All P (xs ++ ys)
All-append P [] ys a b = b
All-append P (x ∷ xs) ys a b = (a.0, All-append P xs ys a.1 b)

module _ (sha : Sha) where
  unfoldable pub compute_root_recursive : List Leaf → ℕ → ℕ → Hash256
  compute_root_recursive [] depth bit_index = empty_hash sha depth
  compute_root_recursive ((k, v) ∷ rest) zero bit_index = v
  compute_root_recursive ((k, v) ∷ rest) (suc depth) bit_index =
      let all = (k, v) ∷ rest in
      let at = split_point bit_index all in
      hash_pair sha (compute_root_recursive (take at all) depth (suc bit_index))
        (compute_root_recursive (drop at all) depth (suc bit_index))

  abbrev HasBit : ℕ → ℕ → List Leaf → Type 0
  HasBit d b xs = All (λ (x : Leaf). get_bit x.0 d ≡ b) xs

  All-leaves :
      (P : Hash256 → Type 0) (t : SmtNode) → AllKeys P t → All (λ (x : Leaf). P x.0) (leaves t)
  All-leaves P null a = tt
  All-leaves P (leaf k v) a = (a, tt)
  All-leaves P (branch bd l r h) a =
      All-append _ (leaves l) (leaves r) (All-leaves P l a.0) (All-leaves P r a.1)
  All-leaves P (extension bd cd p c h) a = All-leaves P c a

  split_point-append :
      (d : ℕ) (xs ys : List Leaf)
      → HasBit d 0 xs
      → HasBit d 1 ys
      → split_point d (xs ++ ys) ≡ length xs
  unfolding split_point
  split_point-append d [] [] zeros ones = refl
  split_point-append d [] ((k, v) ∷ ys) zeros ones = rw (split_point, ones.0) refl
  split_point-append d ((k, v) ∷ xs) ys zeros ones =
      rw (split_point, zeros.0, split_point-append d xs ys zeros.1 ones) refl

  -- A list that is partitioned by the bit splits into its two parts.
  compute_root-append :
      (n d : ℕ) (xs ys : List Leaf)
      → HasBit d 0 xs
      → HasBit d 1 ys
      → compute_root_recursive (xs ++ ys) (suc n) d
        ≡ hash_pair sha (compute_root_recursive xs n (suc d)) (compute_root_recursive ys n (suc d))
  unfolding compute_root_recursive empty_hash
  compute_root-append n d [] [] zeros ones = refl
  compute_root-append n d [] ((k, v) ∷ ys) zeros ones =
      rw (split_point-append d [] ((k, v) ∷ ys) zeros ones) refl
  compute_root-append n d ((k, v) ∷ xs) ys zeros ones =
      let all = (k, v) ∷ xs in
      let first = take-append_length all ys in
      let second = drop-append_length all ys in
      rw (split_point-append d all ys zeros ones) (λ i.
        hash_pair sha (compute_root_recursive (first i) n (suc d))
          (compute_root_recursive (second i) n (suc d)))

  pub root-batch :
      (n d : ℕ) (t : SmtNode)
      → d + n ≡ smt_depth
      → IsSlot d t
      → IsHashed sha t
      → compute_root_recursive (leaves t) n d ≡ subtree_hash sha t d
  unfolding compute_root_recursive subtree_hash
  root-batch zero d null e s h = let z : smt_depth - d ≡ 0 = omega arith in rw z refl
  root-batch zero d (leaf k v) e s h = refl
  root-batch zero d (branch bd l r w) e s h = absurd (omega (arith, s.1))
  root-batch zero d (extension bd cd p c w) e s h = absurd (omega (arith, s.1, s.2))
  root-batch (suc n) d t e s h =
      let l : d < smt_depth = omega arith in
      let left = child_at sha d 0 t in
      let right = child_at sha d 1 t in
      let zeros =
        All-leaves (λ k. get_bit k d ≡ 0) left (AllKeys-child_at sha d 0 t l (omega arith) s) in
      let ones =
        All-leaves (λ k. get_bit k d ≡ 1) right (AllKeys-child_at sha d 1 t l (omega arith) s) in
      let parts = compute_root-append n d (leaves left) (leaves right) zeros ones in
      let ihl =
        root-batch n (suc d) left (omega arith) (IsSlot-child_at sha d 0 t l s)
          (IsHashed-child_at sha d 0 t h) in
      let ihr =
        root-batch n (suc d) right (omega arith) (IsSlot-child_at sha d 1 t l s)
          (IsHashed-child_at sha d 1 t h) in
      rw (leaves-child_at sha d t l s, parts, ihl, ihr) (sym (hash-child_at sha d t l s h))

  leaves_at_end :
      (d : ℕ) (t u : SmtNode)
      → d ≡ smt_depth
      → IsSlot d t
      → IsSlot d u
      → ((j : Hash256) → find_leaf j t ≡ find_leaf j u)
      → leaves t ≡ leaves u
  unfolding find_leaf
  leaves_at_end d null null e s s' same = refl
  leaves_at_end d null (leaf k v) e s s' same = let q = rw (bytes_eq_refl k) at (same k) in cc
  leaves_at_end d (leaf k v) null e s s' same = let q = rw (bytes_eq_refl k) at (same k) in cc
  leaves_at_end d (leaf k v) (leaf k' v') e s s' same =
      let q = rw (bytes_eq_refl k) at (same k) in ground (arith, q, bytes_eq_iff k' k)
  leaves_at_end d (branch bd l r w) u e s s' same = absurd (omega (arith, s.1))
  leaves_at_end d (extension bd cd p c w) u e s s' same = absurd (omega (arith, s.1, s.2))
  leaves_at_end d null (branch bd l r w) e s s' same = absurd (omega (arith, s'.1))
  leaves_at_end d (leaf k v) (branch bd l r w) e s s' same = absurd (omega (arith, s'.1))
  leaves_at_end d null (extension bd cd p c w) e s s' same = absurd (omega (arith, s'.1, s'.2))
  leaves_at_end d (leaf k v) (extension bd cd p c w) e s s' same =
      absurd (omega (arith, s'.1, s'.2))

  off_side :
      (d b : ℕ) (t : SmtNode) (j : Hash256)
      → d < smt_depth
      → b < 2
      → IsSlot d t
      → (get_bit j d == b) ≡ false
      → find_leaf j (child_at sha d b t) ≡ none
  off_side d b t j l b2 s q = find_leaf-absent j (child_at sha d b t) (
      AllKeys-imp (λ k. get_bit k d ≡ b) (λ k. k ≢ j)
        (λ k e same. let e' = rw same at e in ground (arith, e', q)) (child_at sha d b t)
        (AllKeys-child_at sha d b t l b2 s))

  same_side :
      (d b : ℕ) (t u : SmtNode) (j : Hash256)
      → d < smt_depth
      → b < 2
      → IsSlot d t
      → IsSlot d u
      → find_leaf j t ≡ find_leaf j u
      → find_leaf j (child_at sha d b t) ≡ find_leaf j (child_at sha d b u)
  same_side d b t u j l b2 s s' same = elim (Bool-cases (get_bit j d == b)) [
    | inl q ↦
        let z = (==_iff (get_bit j d) b).0 q in
        let ft = rw z at (find-child_at sha d t j l s) in
        let fu = rw z at (find-child_at sha d u j l s') in ft ∙ same ∙ sym fu
    | inr q ↦ rw (off_side d b t j l b2 s q, off_side d b u j l b2 s' q) refl
  ]

  -- Shaped trees in which the same is found have the same leaves.
  pub leaves_ext :
      (n d : ℕ) (t u : SmtNode)
      → d + n ≡ smt_depth
      → IsSlot d t
      → IsSlot d u
      → ((j : Hash256) → find_leaf j t ≡ find_leaf j u)
      → leaves t ≡ leaves u
  leaves_ext zero d t u e s s' same = leaves_at_end d t u (omega arith) s s' same
  leaves_ext (suc n) d t u e s s' same =
      let l : d < smt_depth = omega arith in
      let side = λ (b : ℕ) (b2 : b < 2).
        leaves_ext n (suc d) (child_at sha d b t) (child_at sha d b u) (omega arith)
          (IsSlot-child_at sha d b t l s) (IsSlot-child_at sha d b u l s')
          (λ j. same_side d b t u j l b2 s s' (same j)) in
      rw
        (
          leaves-child_at sha d t l s,
          leaves-child_at sha d u l s',
          side 0 (omega arith),
          side 1 (omega arith),
        )
        refl
