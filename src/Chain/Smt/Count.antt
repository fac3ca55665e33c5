-- ===== src/Chain/Smt/Count.antt =====
-- chain/smt.rs: the number of leaves after `insert_at` and `remove_at`.
use exfer.Common.{
  ℕ, suc, ◌+◌, ◌-◌, ◌<◌, ◌≤◌, ◌≡◌, ◌∙◌, refl, arith, ◌==◌, ==_iff, ltb, Bool-cases, inl, inr, Bool,
  true, false, if◌then◌else◌, Option, none, some, bytes_eq_refl, bytes_eq_iff,
}
use exfer.Types.Hash.{Hash256, Sha}
use exfer.Chain.Smt.Bits.{get_bit, smt_depth, first_different_from, IsKey, Agree, key_of_bits}
use exfer.Chain.Smt.Node.{
  SmtNode, null, leaf, branch, extension, logical_depth, any_key, is_null, extend,
  wrap_in_extension, join, find_leaf, matches_prefix,
}
use exfer.Chain.Smt.Prefix.{first_different_from-StopsAt, StopsAt, matches_self, matches_agree}
use exfer.Chain.Smt.Shape.{AllKeys, IsShaped}
use exfer.Chain.Smt.Insertion.{Agree-suc, Agree-cd, not_zero}
use exfer.Chain.Smt.Update.{
  branch_off, split_extension, insert_at, prepend_extension, try_merge_extension, collapse,
  remove_at,
}

-- The number of leaves below a node.
abbrev pub size : SmtNode → ℕ
size null = 0
size (leaf k v) = 1
size (branch bd l r h) = size l + size r
size (extension bd cd p c h) = size c

-- 1 for a hit and 0 for a miss.
abbrev pub found : Option Hash256 → ℕ
found none = 0
found (some v) = 1

module _ (sha : Sha) where
  size-extend :
      (p : Hash256) (d e : ℕ) (t : SmtNode) (b : Bool)
      → size (if b then extend sha d e p t else t) ≡ size t
  unfolding extend
  size-extend p d e t true = refl
  size-extend p d e t false = refl

  pub size-wrap_leaf : (key v : Hash256) (d : ℕ) → size (wrap_in_extension sha (leaf key v) d) ≡ 1
  unfolding wrap_in_extension logical_depth
  size-wrap_leaf key v d = size-extend _ d smt_depth (leaf key v) (ltb d smt_depth)

  size-branch_off :
      (key : Hash256) (e : ℕ) (a b : SmtNode) → size (branch_off sha key e a b) ≡ size a + size b
  unfolding branch_off join
  size-branch_off key e a b = elim (Bool-cases (get_bit key e == 0)) [
    | inl q ↦ rw q refl
    | inr q ↦ rw q (omega arith)
  ]

  size-split_extension :
      (d cd e : ℕ) (p : Hash256) (c : SmtNode) (key v : Hash256)
      → size (split_extension sha d cd p c e key v) ≡ 1 + size c
  unfolding split_extension
  size-split_extension d cd e p c key v =
      let rest = if ltb (suc e) cd then extend sha (suc e) cd p c else c in
      let wrapped = wrap_in_extension sha (leaf key v) (suc e) in
      size-extend key d e (branch_off sha key e wrapped rest) (ltb d e)
      ∙ size-branch_off key e wrapped rest
      ∙ rw (size-wrap_leaf key v (suc e), size-extend p (suc e) cd c (ltb (suc e) cd)) refl

  not_found :
      (key p : Hash256) (d n e : ℕ)
      → StopsAt key p d n e
      → e < d + n
      → matches_prefix key p d n ≡ false
  not_found key p d n e s l = elim (Bool-cases (matches_prefix key p d n)) [
    | inl q ↦ absurd (s.differ l (matches_agree key p d n q e s.low l))
    | inr q ↦ q
  ]

  -- An insertion adds one leaf, or none where the key was there.
  pub size-insert_at :
      (t : SmtNode) (d : ℕ) (key v : Hash256)
      → IsKey key
      → IsShaped d t
      → AllKeys (λ k. Agree key k d) t
      → size (insert_at sha t d key v) + found (find_leaf key t) ≡ size t + 1
  unfolding insert_at find_leaf extend join
  size-insert_at null d key v ik s a = absurd s
  size-insert_at (leaf k w) d key v ik s a =
      let same = key_of_bits key k ik s.1 (rw (s.0) at a) in
      rw (insert_at, same, bytes_eq_refl k) refl
  size-insert_at (branch bd l r _) d key v ik s a = elim (Bool-cases (get_bit key bd == 0)) [
    | inl q ↦
        let z = let z' = (==_iff (get_bit key bd) 0).0 q in rw (s.0) at z' in
        let l' = size-insert_at l (suc d) key v ik s.2 (Agree-suc sha key d 0 l z a.0 s.4) in
        rw (insert_at, find_leaf, q, s.0) (omega (arith, l'))
    | inr q ↦
        let z = let z' = not_zero sha key bd q in rw (s.0) at z' in
        let r' = size-insert_at r (suc d) key v ik s.3 (Agree-suc sha key d 1 r z a.1 s.5) in
        rw (insert_at, find_leaf, q, s.0) (omega (arith, r'))
  ]
  size-insert_at (extension bd cd p c _) d key v ik s a =
      let stops = first_different_from-StopsAt key p d (cd - d) in
      elim (Bool-cases (first_different_from key p bd (cd - bd) == cd)) [
        | inl q ↦
            let at_end = let z = (==_iff _ cd).0 q in rw (s.0) at z in
            let agree : (i : ℕ) → d ≤ i → i < cd → get_bit key i ≡ get_bit p i =
              λ i low high. stops.agree i low (omega (arith, at_end, high)) in
            let c' = size-insert_at c cd key v ik s.4 (Agree-cd sha key p d cd c agree a s.5) in
            let hit =
              matches_self key p d (cd - d)
                (λ i low high. agree i low (omega (arith, high, s.1))) in
            rw (insert_at, find_leaf, q, s.0, hit) c'
        | inr q ↦
            let q' = rw (s.0) at q in
            let miss =
              not_found key p d (cd - d) (first_different_from key p d (cd - d)) stops
                (ground (arith, stops.high, s.1, q')) in
            rw (insert_at, find_leaf, q, s.0, miss)
              (rw (size-split_extension d cd _ p c key v) (omega arith))
      ]

  size-prepend : (t : SmtNode) (d : ℕ) → size (prepend_extension sha t d) ≡ size t
  unfolding prepend_extension extend
  size-prepend null d = refl
  size-prepend (leaf k v) d = size-extend k d smt_depth (leaf k v) (ltb d smt_depth)
  size-prepend (branch bd x y w) d =
      size-extend (any_key (branch bd x y w)) d bd (branch bd x y w) (ltb d bd)
  size-prepend (extension bd cd p c w) d = refl

  size-try_merge :
      (d cd : ℕ) (p : Hash256) (t : SmtNode) → size (try_merge_extension sha d cd p t) ≡ size t
  unfolding try_merge_extension extend
  size-try_merge d cd p null = refl
  size-try_merge d cd p (leaf k v) = refl
  size-try_merge d cd p (branch b x y w) = refl
  size-try_merge d cd p (extension b e q c w) = refl

  size-null : (t : SmtNode) → is_null t ≡ true → size t ≡ 0
  unfolding is_null
  size-null null e = refl
  size-null (leaf k v) e = cc
  size-null (branch bd l r h) e = cc
  size-null (extension bd cd p c h) e = cc

  size-collapse : (bd d : ℕ) (l r : SmtNode) → size (collapse sha bd d l r) ≡ size l + size r
  unfolding collapse join
  size-collapse bd d l r = elim (Bool-cases (is_null l)) [
    | inl e ↦ elim (Bool-cases (is_null r)) [
      | inl e' ↦ rw (e, e') (omega (arith, size-null l e, size-null r e'))
      | inr e' ↦ rw (e, e') (omega (arith, size-null l e, size-prepend r d))
    ]
    | inr e ↦ elim (Bool-cases (is_null r)) [
      | inl e' ↦ rw (e, e') (omega (arith, size-null r e', size-prepend l d))
      | inr e' ↦ rw (e, e') refl
    ]
  ]

  -- Removing a key that is there takes one leaf away.
  pub size-remove_at :
      (t : SmtNode) (d : ℕ) (key v : Hash256)
      → find_leaf key t ≡ some v
      → size (remove_at sha t d key) + 1 ≡ size t
  unfolding remove_at find_leaf
  size-remove_at null d key v h = cc
  size-remove_at (leaf k w) d key v h = ground (arith, bytes_eq_iff k key)
  size-remove_at (branch bd l r _) d key v h = elim (Bool-cases (get_bit key bd == 0)) [
    | inl e ↦
        let h' = rw (find_leaf, e) at h in
        rw (remove_at, e)
          (omega (
            arith,
            size-collapse bd d (remove_at sha l (suc bd) key) r,
            size-remove_at l (suc bd) key v h',
          ))
    | inr e ↦
        let h' = rw (find_leaf, e) at h in
        rw (remove_at, e)
          (omega (
            arith,
            size-collapse bd d l (remove_at sha r (suc bd) key),
            size-remove_at r (suc bd) key v h',
          ))
  ]
  size-remove_at (extension bd cd p c _) d key v h =
      elim (Bool-cases (matches_prefix key p bd (cd - bd))) [
        | inl e ↦
            let h' = rw (find_leaf, e) at h in
            omega
              (arith, size-try_merge bd cd p (remove_at sha c cd key), size-remove_at c cd key v h')
        | inr e ↦ let h' = rw (find_leaf, e) at h in cc
      ]
