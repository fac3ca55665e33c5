-- ===== src/Chain/Smt/Gone.antt =====
-- chain/smt.rs: what is found after `remove_at`.
use exfer.Common.{
  ℕ, zero, suc, ◌-◌, ◌<◌, ◌≡◌, refl, sym, ◌∙◌, arith, ◌==◌, lt→ltb, Bool-cases, inl, inr, true,
  if◌then◌else◌, none, bytes_eq, bytes_eq_iff,
}
use exfer.Types.Hash.{Hash256, Sha}
use exfer.Chain.Smt.Bits.{get_bit, bit-bound, smt_depth, Agree}
use exfer.Chain.Smt.Node.{
  SmtNode, null, leaf, branch, extension, any_key, is_null, extend, join, find_leaf, matches_prefix,
}
use exfer.Chain.Smt.Prefix.{matches_ext, matches_self, matches_split}
use exfer.Chain.Smt.Shape.{
  AllKeys, AllKeys-and, AllKeys-any_key, IsShaped, IsSlot, IsSlot-IsShaped, IsShaped-IsSlot,
}
use exfer.Chain.Smt.Removal.{shared_child, AllKeys-remove_at, IsSlot-remove_at}
use exfer.Chain.Smt.Update.{prepend_extension, try_merge_extension, collapse, remove_at}

module _ (sha : Sha) where
  find-leaf_extension :
      (j k v p h : Hash256) (d cd : ℕ)
      → Agree k p cd
      → find_leaf j (extension d cd p (leaf k v) h) ≡ find_leaf j (leaf k v)
  unfolding find_leaf
  find-leaf_extension j k v p h d cd agree = elim (Bool-cases (bytes_eq k j)) [
    | inl q ↦
        let same = (bytes_eq_iff k j).0 q in
        let hit = matches_self j p d (cd - d) (λ i a b. rw (sym same) (agree i (omega arith))) in
        ground (arith, hit)
    | inr q ↦ ground arith
  ]

  find-extension_one :
      (j p h : Hash256) (d cd : ℕ) (t : SmtNode)
      → cd ≡ suc d
      → find_leaf j (extension d cd p t h)
        ≡ (if get_bit j d == get_bit p d then find_leaf j t else none)
  unfolding find_leaf matches_prefix
  find-extension_one j p h d cd t e =
      let one : cd - d ≡ suc zero = omega arith in rw (find_leaf, one) (ground arith)

  -- The prefix of an extension has the bits that all keys below share.
  prefix_bit :
      (p : Hash256) (d b cd : ℕ) (t : SmtNode)
      → d < cd
      → IsShaped cd t
      → AllKeys (λ k. Agree p k cd) t
      → AllKeys (λ k. get_bit k d ≡ b) t
      → get_bit p d ≡ b
  prefix_bit p d b cd t l s a e =
      let first =
        AllKeys-any_key (λ k. Agree p k cd × (get_bit k d ≡ b)) cd t s
          (AllKeys-and (λ k. Agree p k cd) (λ k. get_bit k d ≡ b) t a e) in
      first.0 d l ∙ first.1

  find-prepend :
      (j : Hash256) (d b : ℕ) (t : SmtNode)
      → d < smt_depth
      → IsShaped (suc d) t
      → AllKeys (λ k. get_bit k d ≡ b) t
      → find_leaf j (prepend_extension sha t d) ≡ (if get_bit j d == b then find_leaf j t else none)
  unfolding prepend_extension extend find_leaf matches_prefix
  find-prepend j d b null l s e = absurd s
  find-prepend j d b (leaf k v) l s e =
      let found = find-leaf_extension j k v k k d smt_depth (λ i m. refl) in
      rw (prepend_extension, lt→ltb d smt_depth l) (found ∙ ground (arith, bytes_eq_iff k j, e))
  find-prepend j d b (branch bd x y h) l s e =
      let t = branch bd x y h in
      let found = find-extension_one j (any_key t) h d bd t s.0 in
      let bit = AllKeys-any_key (λ k. get_bit k d ≡ b) (suc d) t s e in
      rw (prepend_extension, lt→ltb d bd (omega (arith, s.0))) (found ∙ rw bit refl)
  find-prepend j d b (extension bd cd p c h) l s e =
      let halves =
        matches_split j p d d 0 (cd - suc d) (cd - d) (omega arith) (omega (arith, s.0, s.1)) in
      let bit = prefix_bit p d b cd c (omega (arith, s.0, s.1)) s.4 s.5 e in
      rw (s.0) (ground (arith, halves, bit))

  find-null : (j : Hash256) (t : SmtNode) → is_null t ≡ true → find_leaf j t ≡ none
  unfolding is_null find_leaf
  find-null j null e = refl
  find-null j (leaf k v) e = cc
  find-null j (branch bd l r h) e = cc
  find-null j (extension bd cd p c h) e = cc

  find-collapse :
      (j : Hash256) (d : ℕ) (l r : SmtNode)
      → d < smt_depth
      → IsSlot (suc d) l
      → IsSlot (suc d) r
      → AllKeys (λ k. get_bit k d ≡ 0) l
      → AllKeys (λ k. get_bit k d ≡ 1) r
      → find_leaf j (collapse sha d d l r)
        ≡ (if get_bit j d == 0 then find_leaf j l else find_leaf j r)
  unfolding collapse join find_leaf
  find-collapse j d l r lt sl sr el er = elim (Bool-cases (is_null l)) [
    | inl e ↦
        let nl = find-null j l e in
        elim (Bool-cases (is_null r)) [
          | inl e' ↦ rw (e, e') (ground (arith, nl, find-null j r e'))
          | inr e' ↦
              let right = find-prepend j d 1 r lt (IsShaped-IsSlot (suc d) r e' sr) er in
              rw (e, e', right) (ground (arith, nl, bit-bound j d))
        ]
    | inr e ↦ elim (Bool-cases (is_null r)) [
      | inl e' ↦
          let left = find-prepend j d 0 l lt (IsShaped-IsSlot (suc d) l e sl) el in
          rw (e, e', left) (ground (arith, find-null j r e'))
      | inr e' ↦ rw (e, e') (ground arith)
    ]
  ]

  find-try_merge :
      (j : Hash256) (d cd : ℕ) (p : Hash256) (t : SmtNode)
      → d < cd
      → IsSlot cd t
      → AllKeys (λ k. Agree p k cd) t
      → find_leaf j (try_merge_extension sha d cd p t)
        ≡ (if matches_prefix j p d (cd - d) then find_leaf j t else none)
  unfolding try_merge_extension extend find_leaf matches_prefix
  find-try_merge j d cd p null l s a = ground arith
  find-try_merge j d cd p (leaf k v) l s a =
      rw (sym s.0) (ground (arith, matches_ext j p k d (cd - d) (λ i b m. a i (omega arith))))
  find-try_merge j d cd p (branch bd x y h) l s a = ground arith
  find-try_merge j d cd p (extension bd e q c h) l s a =
      let outer =
        matches_split j q d cd (cd - d) (e - suc cd) (e - d) (omega arith) (omega (arith, s.1)) in
      let inner =
        matches_split j q cd cd 0 (e - suc cd) (e - cd) (omega arith) (omega (arith, s.1)) in
      let first =
        AllKeys-any_key (λ k. Agree p k cd × Agree q k e) e c s.4
          (AllKeys-and (λ k. Agree p k cd) (λ k. Agree q k e) c a s.5) in
      let same =
        matches_ext j p q d (cd - d)
          (λ i b m. first.0 i (omega arith) ∙ sym (first.1 i (omega (arith, s.1)))) in
      rw (s.0) (ground (arith, outer, inner, same))

  -- After the removal the removed key is not found, and every other key reads as before.
  pub find-remove_at :
      (q : Hash256) (t : SmtNode) (d : ℕ) (j key : Hash256)
      → IsShaped d t
      → AllKeys (λ k. Agree q k d) t
      → find_leaf j (remove_at sha t d key) ≡ (if bytes_eq key j then none else find_leaf j t)
  unfolding remove_at find_leaf
  find-remove_at q null d j key s a = absurd s
  find-remove_at q (leaf k v) d j key s a = elim (Bool-cases (bytes_eq k key)) [
    | inl e ↦ rw (remove_at, e) (ground (arith, bytes_eq_iff k key, bytes_eq_iff key j))
    | inr e ↦
        rw (remove_at, e) (ground (arith, bytes_eq_iff k key, bytes_eq_iff key j, bytes_eq_iff k j))
  ]
  find-remove_at q (branch bd l r h) d j key s a =
      let al = shared_child sha q d 0 l (suc d) s.2 a.0 s.4 in
      let ar = shared_child sha q d 1 r (suc d) s.3 a.1 s.5 in
      elim (Bool-cases (get_bit key bd == 0)) [
        | inl e ↦
            let ih = find-remove_at (any_key l) l (suc d) j key s.2 al in
            let sides =
              find-collapse j d _ r s.1 (IsSlot-remove_at sha (any_key l) l (suc d) key s.2 al)
                (IsSlot-IsShaped (suc d) r s.3)
                (AllKeys-remove_at sha (λ k. get_bit k d ≡ 0) l (suc d) key s.4) s.5 in
            let e' = rw (s.0) at e in
            rw (remove_at, e, s.0) (sides ∙ ground (arith, ih, e', bytes_eq_iff key j))
        | inr e ↦
            let ih = find-remove_at (any_key r) r (suc d) j key s.3 ar in
            let sides =
              find-collapse j d l _ s.1 (IsSlot-IsShaped (suc d) l s.2)
                (IsSlot-remove_at sha (any_key r) r (suc d) key s.3 ar) s.4
                (AllKeys-remove_at sha (λ k. get_bit k d ≡ 1) r (suc d) key s.5) in
            let e' = rw (s.0) at e in
            rw (remove_at, e, s.0) (sides ∙ ground (arith, ih, e', bytes_eq_iff key j))
      ]
  find-remove_at q (extension bd cd p c h) d j key s a =
      let ih = find-remove_at p c cd j key s.4 s.5 in
      let merged =
        find-try_merge j d cd p _ s.1 (IsSlot-remove_at sha p c cd key s.4 s.5)
          (AllKeys-remove_at sha (λ k. Agree p k cd) c cd key s.5) in
      rw (remove_at, s.0) (merged ∙ ground (arith, ih))
