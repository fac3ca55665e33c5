-- ===== src/Chain/Smt/Hashing.antt =====
-- chain/smt.rs: every operation leaves each cached hash equal to what it is the hash of.
use exfer.Common.{
  ℕ, suc, ◌-◌, ◌≡◌, refl, arith, ◌==◌, ==_iff, ltb, Bool-cases, inl, inr, Bool, true, false,
  if◌then◌else◌, bytes_eq, bytes_eq_refl,
}
use exfer.Types.Hash.{Hash256, Sha}
use exfer.Chain.Smt.Bits.{get_bit, smt_depth, first_different_from, IsKey, Agree, key_of_bits}
use exfer.Chain.Smt.Node.{
  SmtNode, null, leaf, branch, extension, logical_depth, any_key, is_null, extend,
  wrap_in_extension, join, subtree_hash, compute_branch_hash, fold_hash,
}
use exfer.Chain.Smt.Prefix.{first_different_from-StopsAt}
use exfer.Chain.Smt.Shape.{AllKeys, IsShaped}
use exfer.Chain.Smt.Insertion.{Agree-suc, Agree-cd, not_zero}
use exfer.Chain.Smt.Update.{
  branch_off, split_extension, insert_at, prepend_extension, try_merge_extension, collapse,
  remove_at,
}

module _ (sha : Sha) where
  abbrev pub IsHashed : SmtNode → Type 0
  IsHashed null = Unit
  IsHashed (leaf k v) = Unit
  IsHashed (branch bd l r h) = (h ≡ compute_branch_hash sha l r bd) × IsHashed l × IsHashed r
  IsHashed (extension bd cd p c h) =
      (h ≡ fold_hash sha (subtree_hash sha c cd) p bd cd) × IsHashed c

  IsHashed-extend :
      (p : Hash256) (d e : ℕ) (t : SmtNode) (b : Bool)
      → IsHashed t
      → IsHashed (if b then extend sha d e p t else t)
  unfolding extend
  IsHashed-extend p d e t true a = (refl, a)
  IsHashed-extend p d e t false a = a

  pub IsHashed-wrap_leaf :
      (key v : Hash256) (d : ℕ) → IsHashed (wrap_in_extension sha (leaf key v) d)
  unfolding wrap_in_extension logical_depth
  IsHashed-wrap_leaf key v d = IsHashed-extend _ d smt_depth (leaf key v) (ltb d smt_depth) tt

  IsHashed-branch_off :
      (key : Hash256) (e : ℕ) (a b : SmtNode)
      → IsHashed a
      → IsHashed b
      → IsHashed (branch_off sha key e a b)
  unfolding branch_off join
  IsHashed-branch_off key e a b pa pb = elim (Bool-cases (get_bit key e == 0)) [
    | inl q ↦ rw q (refl, pa, pb)
    | inr q ↦ rw q (refl, pb, pa)
  ]

  IsHashed-split_extension :
      (d cd e : ℕ) (p : Hash256) (c : SmtNode) (key v : Hash256)
      → IsHashed c
      → IsHashed (split_extension sha d cd p c e key v)
  unfolding split_extension
  IsHashed-split_extension d cd e p c key v a = IsHashed-extend key d e _ (ltb d e) (
      IsHashed-branch_off key e _ _ (IsHashed-wrap_leaf key v (suc e))
        (IsHashed-extend p (suc e) cd c (ltb (suc e) cd) a))

  pub IsHashed-insert_at :
      (t : SmtNode) (d : ℕ) (key v : Hash256)
      → IsKey key
      → IsShaped d t
      → AllKeys (λ k. Agree key k d) t
      → IsHashed t
      → IsHashed (insert_at sha t d key v)
  unfolding insert_at extend join
  IsHashed-insert_at null d key v ik s a h = absurd s
  IsHashed-insert_at (leaf k w) d key v ik s a h =
      let same = key_of_bits key k ik s.1 (rw (s.0) at a) in
      rw (insert_at, same, bytes_eq_refl k) tt
  IsHashed-insert_at (branch bd l r _) d key v ik s a h = elim (Bool-cases (get_bit key bd == 0)) [
    | inl q ↦
        let z = let z' = (==_iff (get_bit key bd) 0).0 q in rw (s.0) at z' in
        let l' =
          IsHashed-insert_at l (suc d) key v ik s.2 (Agree-suc sha key d 0 l z a.0 s.4) h.1 in
        rw (insert_at, q, s.0) (refl, l', h.2)
    | inr q ↦
        let z = let z' = not_zero sha key bd q in rw (s.0) at z' in
        let r' =
          IsHashed-insert_at r (suc d) key v ik s.3 (Agree-suc sha key d 1 r z a.1 s.5) h.2 in
        rw (insert_at, q, s.0) (refl, h.1, r')
  ]
  IsHashed-insert_at (extension bd cd p c _) d key v ik s a h =
      elim (Bool-cases (first_different_from key p bd (cd - bd) == cd)) [
        | inl q ↦
            let at_end = let z = (==_iff _ cd).0 q in rw (s.0) at z in
            let stops = first_different_from-StopsAt key p d (cd - d) in
            let shared =
              Agree-cd sha key p d cd c
                (λ i low high. stops.agree i low (omega (arith, at_end, high))) a s.5 in
            rw (insert_at, q, s.0) (refl, IsHashed-insert_at c cd key v ik s.4 shared h.1)
        | inr q ↦ rw (insert_at, q, s.0) (IsHashed-split_extension d cd _ p c key v h.1)
      ]

  IsHashed-prepend : (t : SmtNode) (d : ℕ) → IsHashed t → IsHashed (prepend_extension sha t d)
  unfolding prepend_extension extend
  IsHashed-prepend null d h = tt
  IsHashed-prepend (leaf k v) d h = IsHashed-extend k d smt_depth (leaf k v) (ltb d smt_depth) tt
  IsHashed-prepend (branch bd x y w) d h =
      IsHashed-extend (any_key (branch bd x y w)) d bd (branch bd x y w) (ltb d bd) h
  IsHashed-prepend (extension bd cd p c w) d h = (refl, h.1)

  IsHashed-try_merge :
      (d cd : ℕ) (p : Hash256) (t : SmtNode)
      → IsHashed t
      → IsHashed (try_merge_extension sha d cd p t)
  unfolding try_merge_extension extend
  IsHashed-try_merge d cd p null h = tt
  IsHashed-try_merge d cd p (leaf k v) h = (refl, h)
  IsHashed-try_merge d cd p (branch b x y w) h = (refl, h)
  IsHashed-try_merge d cd p (extension b e q c w) h = (refl, h.1)

  IsHashed-collapse :
      (bd d : ℕ) (l r : SmtNode) → IsHashed l → IsHashed r → IsHashed (collapse sha bd d l r)
  unfolding collapse join
  IsHashed-collapse bd d l r hl hr = elim (Bool-cases (is_null l)) [
    | inl e ↦ elim (Bool-cases (is_null r)) [
      | inl e' ↦ rw (e, e') tt
      | inr e' ↦ rw (e, e') (IsHashed-prepend r d hr)
    ]
    | inr e ↦ elim (Bool-cases (is_null r)) [
      | inl e' ↦ rw (e, e') (IsHashed-prepend l d hl)
      | inr e' ↦ rw (e, e') (refl, hl, hr)
    ]
  ]

  pub IsHashed-remove_at :
      (t : SmtNode) (d : ℕ) (key : Hash256) → IsHashed t → IsHashed (remove_at sha t d key)
  unfolding remove_at
  IsHashed-remove_at null d key h = tt
  IsHashed-remove_at (leaf k v) d key h = elim (Bool-cases (bytes_eq k key)) [
    | inl e ↦ rw (remove_at, e) tt
    | inr e ↦ rw (remove_at, e) tt
  ]
  IsHashed-remove_at (branch bd l r _) d key h = elim (Bool-cases (get_bit key bd == 0)) [
    | inl e ↦
        rw (remove_at, e) (IsHashed-collapse bd d _ r (IsHashed-remove_at l (suc bd) key h.1) h.2)
    | inr e ↦
        rw (remove_at, e) (IsHashed-collapse bd d l _ h.1 (IsHashed-remove_at r (suc bd) key h.2))
  ]
  IsHashed-remove_at (extension bd cd p c _) d key h =
      IsHashed-try_merge bd cd p _ (IsHashed-remove_at c cd key h.1)
