-- ===== src/Chain/Smt/Level.antt =====
-- chain/smt.rs: the compressed tree seen one binary level at a time.
use exfer.Common.{
  ℕ, suc, ◌-◌, ◌≤◌, ◌<◌, ◌≡◌, refl, sym, ◌∙◌, arith, ◌==◌, ==_iff, ltb, Bool-cases, inl, inr, Bool,
  true, false, if◌then◌else◌, List, [], ◌∷◌, ◌++◌, append-nil,
}
use exfer.Types.Hash.{Hash256, Sha}
use exfer.Chain.Smt.Bits.{get_bit, smt_depth, Agree}
use exfer.Chain.Smt.Node.{
  SmtNode, null, leaf, branch, extension, extend, find_leaf, matches_prefix, subtree_hash,
  compute_branch_hash, fold_hash, fold_levels, fold_level, hash_pair, empty_hash,
}
use exfer.Chain.Smt.Prefix.{matches_split}
use exfer.Chain.Smt.Shape.{AllKeys, AllKeys-imp, IsShaped, IsSlot, IsSlot-IsShaped, IsCompact}
use exfer.Chain.Smt.Hashing.{IsHashed}
use exfer.Chain.Smt.Insertion.{find-extend, not_zero}

-- A leaf as its key and value.
abbrev pub Leaf : Type 0
Leaf = Hash256 × Hash256

-- The leaves in the order of their keys' bits.
abbrev pub leaves : SmtNode → List Leaf
leaves null = []
leaves (leaf k v) = (k, v) ∷ []
leaves (branch bd l r h) = leaves l ++ leaves r
leaves (extension bd cd p c h) = leaves c

module _ (sha : Sha) where
  -- The side b of a node at depth d, as a node at depth d + 1.
  unfoldable pub child_at : ℕ → ℕ → SmtNode → SmtNode
  child_at d b null = null
  child_at d b (leaf k v) = null
  child_at d b (branch bd l r h) = if b == 0 then l else r
  child_at d b (extension bd cd p c h) =
      if get_bit p d == b then (if ltb (suc d) cd then extend sha (suc d) cd p c else c) else null

  IsShaped-shorter :
      (d cd : ℕ) (p : Hash256) (c : SmtNode)
      → suc d ≤ cd
      → cd ≤ smt_depth
      → IsCompact c
      → IsShaped cd c
      → AllKeys (λ k. Agree p k cd) c
      → IsShaped (suc d) (if ltb (suc d) cd then extend sha (suc d) cd p c else c)
  unfolding extend
  IsShaped-shorter d cd p c le top ic st a = elim (Bool-cases (ltb (suc d) cd)) [
    | inl q ↦ rw q (refl, ground arith, top, ic, st, a)
    | inr q ↦ let same : suc d ≡ cd = ground arith in rw (q, same) st
  ]

  pub IsSlot-child_at :
      (d b : ℕ) (t : SmtNode) → d < smt_depth → IsSlot d t → IsSlot (suc d) (child_at d b t)
  unfolding child_at
  IsSlot-child_at d b null l s = tt
  IsSlot-child_at d b (leaf k v) l s = tt
  IsSlot-child_at d b (branch bd x y h) l s = elim (Bool-cases (b == 0)) [
    | inl q ↦ rw (child_at, q) (IsSlot-IsShaped (suc d) x s.2)
    | inr q ↦ rw (child_at, q) (IsSlot-IsShaped (suc d) y s.3)
  ]
  IsSlot-child_at d b (extension bd cd p c h) l s = elim (Bool-cases (get_bit p d == b)) [
    | inl q ↦
        rw (child_at, q)
          (IsSlot-IsShaped (suc d) _
            (IsShaped-shorter d cd p c (omega (arith, s.1)) s.2 s.3 s.4 s.5))
    | inr q ↦ rw (child_at, q) tt
  ]

  AllKeys-shorter :
      (P : Hash256 → Type 0) (d cd : ℕ) (p : Hash256) (c : SmtNode) (b : Bool)
      → AllKeys P c
      → AllKeys P (if b then extend sha d cd p c else c)
  unfolding extend
  AllKeys-shorter P d cd p c true a = a
  AllKeys-shorter P d cd p c false a = a

  -- The keys of the side b have the bit b.
  pub AllKeys-child_at :
      (d b : ℕ) (t : SmtNode)
      → d < smt_depth
      → b < 2
      → IsSlot d t
      → AllKeys (λ k. get_bit k d ≡ b) (child_at d b t)
  unfolding child_at
  AllKeys-child_at d b null l b2 s = tt
  AllKeys-child_at d b (leaf k v) l b2 s = tt
  AllKeys-child_at d b (branch bd x y h) l b2 s = elim (Bool-cases (b == 0)) [
    | inl q ↦ rw (child_at, q) (let z = (==_iff b 0).0 q in rw z s.4)
    | inr q ↦ rw (child_at, q) (let z : b ≡ 1 = ground arith in rw z s.5)
  ]
  AllKeys-child_at d b (extension bd cd p c h) l b2 s = elim (Bool-cases (get_bit p d == b)) [
    | inl q ↦
        let z = (==_iff (get_bit p d) b).0 q in
        let shared =
          AllKeys-imp (λ k. Agree p k cd) (λ k. get_bit k d ≡ b) (λ k agree. sym (agree d s.1) ∙ z)
            c s.5 in
        rw (child_at, q) (AllKeys-shorter (λ k. get_bit k d ≡ b) (suc d) cd p c _ shared)
    | inr q ↦ rw (child_at, q) tt
  ]

  pub IsHashed-child_at : (d b : ℕ) (t : SmtNode) → IsHashed sha t → IsHashed sha (child_at d b t)
  unfolding child_at extend
  IsHashed-child_at d b null h = tt
  IsHashed-child_at d b (leaf k v) h = tt
  IsHashed-child_at d b (branch bd x y w) h = elim (Bool-cases (b == 0)) [
    | inl q ↦ rw (child_at, q) h.1
    | inr q ↦ rw (child_at, q) h.2
  ]
  IsHashed-child_at d b (extension bd cd p c w) h = elim (Bool-cases (get_bit p d == b)) [
    | inl q ↦ elim (Bool-cases (ltb (suc d) cd)) [
      | inl q' ↦ rw (child_at, q, q') (refl, h.1)
      | inr q' ↦ rw (child_at, q, q') h.1
    ]
    | inr q ↦ rw (child_at, q) tt
  ]

  -- A key is looked up on the side of its bit.
  pub find-child_at :
      (d : ℕ) (t : SmtNode) (j : Hash256)
      → d < smt_depth
      → IsSlot d t
      → find_leaf j (child_at d (get_bit j d) t) ≡ find_leaf j t
  unfolding child_at find_leaf matches_prefix
  find-child_at d null j l s = refl
  find-child_at d (leaf k v) j l s = absurd (omega (arith, s.0))
  find-child_at d (branch bd x y h) j l s = rw (s.0) (ground arith)
  find-child_at d (extension bd cd p c h) j l s =
      let halves =
        matches_split j p d d 0 (cd - suc d) (cd - d) (omega arith) (omega (arith, s.1)) in
      let below = find-extend sha j p (suc d) cd c (omega (arith, s.1)) in
      elim (Bool-cases (get_bit p d == get_bit j d)) [
        | inl q ↦ rw (child_at, q, below, s.0) (ground (arith, halves, q))
        | inr q ↦ rw (child_at, q, s.0) (ground (arith, halves, q))
      ]

  leaves-shorter :
      (d cd : ℕ) (p : Hash256) (c : SmtNode) (b : Bool)
      → leaves c ≡ leaves (if b then extend sha d cd p c else c)
  unfolding extend
  leaves-shorter d cd p c true = refl
  leaves-shorter d cd p c false = refl

  hash-shorter :
      (d cd : ℕ) (p : Hash256) (c : SmtNode)
      → d ≤ cd
      → IsShaped cd c
      → subtree_hash sha (if ltb d cd then extend sha d cd p c else c) d
        ≡ fold_levels sha (subtree_hash sha c cd) p d (cd - d)
  unfolding extend subtree_hash fold_hash fold_levels
  hash-shorter d cd p c le s = elim (Bool-cases (ltb d cd)) [
    | inl q ↦ rw q refl
    | inr q ↦
        let same : d ≡ cd = ground arith in
        let none_left : cd - cd ≡ 0 = omega arith in rw (q, same, none_left) refl
  ]

  -- The leaves of the two sides are the leaves.
  pub leaves-child_at :
      (d : ℕ) (t : SmtNode)
      → d < smt_depth
      → IsSlot d t
      → leaves t ≡ leaves (child_at d 0 t) ++ leaves (child_at d 1 t)
  unfolding child_at
  leaves-child_at d null l s = refl
  leaves-child_at d (leaf k v) l s = absurd (omega (arith, s.0))
  leaves-child_at d (branch bd x y h) l s = refl
  leaves-child_at d (extension bd cd p c h) l s = elim (Bool-cases (get_bit p d == 0)) [
    | inl q ↦
        let z = (==_iff (get_bit p d) 0).0 q in
        rw (child_at, child_at, z) (leaves-shorter (suc d) cd p c _ ∙ sym (append-nil _))
    | inr q ↦
        let z = not_zero sha p d q in rw (child_at, child_at, z) (leaves-shorter (suc d) cd p c _)
  ]

  -- The hash of a node is the hash of its two sides.
  pub hash-child_at :
      (d : ℕ) (t : SmtNode)
      → d < smt_depth
      → IsSlot d t
      → IsHashed sha t
      → subtree_hash sha t d
        ≡ hash_pair sha
            (subtree_hash sha (child_at d 0 t) (suc d))
            (subtree_hash sha (child_at d 1 t) (suc d))
  unfolding child_at subtree_hash empty_hash compute_branch_hash fold_hash fold_level fold_levels
      get_bit
  hash-child_at d null l s h =
      let one : smt_depth - d ≡ suc (smt_depth - suc d) = omega arith in rw one refl
  hash-child_at d (leaf k v) l s h = absurd (omega (arith, s.0))
  hash-child_at d (branch bd x y w) l s h = rw (h.0, s.0) refl
  hash-child_at d (extension bd cd p c w) l s h =
      let one : cd - d ≡ suc (cd - suc d) = omega (arith, s.1) in
      let below = hash-shorter (suc d) cd p c (omega (arith, s.1)) s.4 in
      let sibling : smt_depth - d - 1 ≡ smt_depth - suc d = omega arith in
      let top : w
          ≡ fold_level sha (fold_levels sha (subtree_hash sha c cd) p (suc d) (cd - suc d)) p d =
        h.0 ∙ rw (s.0, fold_hash, one, fold_levels) refl in
      elim (Bool-cases (get_bit p d == 0)) [
        | inl q ↦
            let z = (==_iff (get_bit p d) 0).0 q in rw (top, fold_level, z, below, sibling) refl
        | inr q ↦ let z = not_zero sha p d q in rw (top, fold_level, z, below, sibling) refl
      ]
