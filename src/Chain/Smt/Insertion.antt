-- ===== src/Chain/Smt/Insertion.antt =====
-- chain/smt.rs: what is found after `insert_at`.
use exfer.Common.{
  ℕ, suc, ◌-◌, ◌≤◌, ◌<◌, ◌≡◌, refl, arith, ◌==◌, ==_iff, ltb, Bool-cases, ◌∙◌, inl, inr, false,
  if◌then◌else◌, none, some, bytes_eq, bytes_eq_refl, bytes_eq_iff,
}
use exfer.Types.Hash.{Hash256, Sha}
use exfer.Chain.Smt.Bits.{
  get_bit, bit-bound, smt_depth, first_different_from, IsKey, Agree, key_of_bits,
}
use exfer.Chain.Smt.Node.{
  SmtNode, null, leaf, branch, extension, find_leaf, logical_depth, any_key, matches_prefix, extend,
  wrap_in_extension, join,
}
use exfer.Chain.Smt.Prefix.{
  matches_ext, matches_self, matches_split, StopsAt, first_different_from-StopsAt,
}
use exfer.Chain.Smt.Shape.{AllKeys, AllKeys-imp, AllKeys-and, IsShaped}
use exfer.Chain.Smt.Update.{branch_off, split_extension, insert_at}

module _ (sha : Sha) where
  pub find-wrap_leaf :
      (j key v : Hash256) (d : ℕ)
      → find_leaf j (wrap_in_extension sha (leaf key v) d)
        ≡ (if bytes_eq key j then some v else none)
  unfolding wrap_in_extension logical_depth any_key extend find_leaf
  find-wrap_leaf j key v d = elim (Bool-cases (bytes_eq key j)) [
    | inl e ↦
        let same = (bytes_eq_iff key j).0 e in
        let hit = matches_self j key d (smt_depth - d) (λ i l m. rw same refl) in
        ground (arith, hit)
    | inr e ↦ ground arith
  ]

  find-branch_off :
      (j key : Hash256) (e : ℕ) (a b : SmtNode)
      → find_leaf j (branch_off sha key e a b)
        ≡ (if get_bit j e == get_bit key e then find_leaf j a else find_leaf j b)
  unfolding branch_off join find_leaf
  find-branch_off j key e a b = ground (arith, bit-bound j e, bit-bound key e)

  -- An extension that is left out when it would skip nothing.
  pub find-extend :
      (j key : Hash256) (d e : ℕ) (t : SmtNode)
      → d ≤ e
      → find_leaf j (if ltb d e then extend sha d e key t else t)
        ≡ (if matches_prefix j key d (e - d) then find_leaf j t else none)
  unfolding extend find_leaf matches_prefix
  find-extend j key d e t le = elim (Bool-cases (ltb d e)) [
    | inl q ↦ ground arith
    | inr q ↦ let z : e - d ≡ 0 = ground arith in rw (q, z) refl
  ]

  find-split_extension :
      (j key v p h : Hash256) (d cd e : ℕ) (c : SmtNode)
      → StopsAt key p d (cd - d) e
      → e < cd
      → find_leaf j (split_extension sha d cd p c e key v)
        ≡ (if bytes_eq key j then some v else find_leaf j (extension d cd p c h))
  unfolding split_extension find_leaf
  find-split_extension j key v p h d cd e c s l =
      let rest = if ltb (suc e) cd then extend sha (suc e) cd p c else c in
      let wrapped = wrap_in_extension sha (leaf key v) (suc e) in
      let outer = find-extend j key d e (branch_off sha key e wrapped rest) s.low in
      let sides = find-branch_off j key e wrapped rest in
      let new_leaf = find-wrap_leaf j key v (suc e) in
      let below = find-extend j p (suc e) cd c (omega arith) in
      let above = matches_ext j key p d (e - d) (λ i a b. s.agree i a (omega (arith, s.low))) in
      let halves =
        matches_split j p d e (e - d) (cd - suc e) (cd - d) (omega (arith, s.low))
          (omega (arith, s.low)) in
      let differ = s.differ (omega (arith, s.low)) in
      elim (Bool-cases (bytes_eq key j)) [
        | inl q ↦
            let same = (bytes_eq_iff key j).0 q in
            let hit = matches_self j key d (e - d) (λ i a b. rw same refl) in
            rw (outer, sides, new_leaf, hit, q) (ground (arith, same))
        | inr q ↦
            rw (outer, sides, new_leaf, below, above, q)
              (ground (arith, halves, bit-bound j e, bit-bound key e, bit-bound p e, differ))
      ]

  find-join :
      (j : Hash256) (d : ℕ) (a b : SmtNode)
      → find_leaf j (join sha d a b) ≡ (if get_bit j d == 0 then find_leaf j a else find_leaf j b)
  unfolding join find_leaf
  find-join j d a b = ground arith

  -- Below a branch the keys share one bit more.
  pub Agree-suc :
      (key : Hash256) (d b : ℕ) (t : SmtNode)
      → get_bit key d ≡ b
      → AllKeys (λ k. Agree key k d) t
      → AllKeys (λ k. get_bit k d ≡ b) t
      → AllKeys (λ k. Agree key k (suc d)) t
  Agree-suc key d b t e a q =
      AllKeys-imp (λ k. Agree key k d × (get_bit k d ≡ b)) (λ k. Agree key k (suc d))
        (λ k both i l. elim (Bool-cases (i == d)) [
          | inl same ↦ let i_eq = (==_iff i d).0 same in rw (i_eq, e, both.1) refl
          | inr other ↦ both.0 i (ground arith)
        ])
        t (AllKeys-and (λ k. Agree key k d) (λ k. get_bit k d ≡ b) t a q)

  -- Below an extension that the key follows they share the bits that it skips.
  pub Agree-cd :
      (key p : Hash256) (d cd : ℕ) (t : SmtNode)
      → ((i : ℕ) → d ≤ i → i < cd → get_bit key i ≡ get_bit p i)
      → AllKeys (λ k. Agree key k d) t
      → AllKeys (λ k. Agree p k cd) t
      → AllKeys (λ k. Agree key k cd) t
  Agree-cd key p d cd t same a q =
      AllKeys-imp (λ k. Agree key k d × Agree p k cd) (λ k. Agree key k cd)
        (λ k both i l. elim (Bool-cases (ltb i d)) [
          | inl low ↦ both.0 i (ground arith)
          | inr high ↦ same i (ground arith) l ∙ both.1 i l
        ])
        t (AllKeys-and (λ k. Agree key k d) (λ k. Agree p k cd) t a q)

  pub not_zero : (key : Hash256) (d : ℕ) → (get_bit key d == 0) ≡ false → get_bit key d ≡ 1
  not_zero key d q = ground (arith, bit-bound key d)

  -- A shaped node whose keys share the first d bits with `key` reads, after the insertion, like a map.
  pub find-insert_at :
      (t : SmtNode) (d : ℕ) (j key v : Hash256)
      → IsKey key
      → IsShaped d t
      → AllKeys (λ k. Agree key k d) t
      → find_leaf j (insert_at sha t d key v) ≡ (if bytes_eq key j then some v else find_leaf j t)
  unfolding insert_at find_leaf extend
  find-insert_at null d j key v ik s a = absurd s
  find-insert_at (leaf k w) d j key v ik s a =
      let same = key_of_bits key k ik s.1 (rw (s.0) at a) in
      rw (same, bytes_eq_refl k) (ground arith)
  find-insert_at (branch bd l r h) d j key v ik s a =
      let l_case = λ (z : get_bit key d ≡ 0).
        find-insert_at l (suc d) j key v ik s.2 (Agree-suc key d 0 l z a.0 s.4) in
      let r_case = λ (z : get_bit key d ≡ 1).
        find-insert_at r (suc d) j key v ik s.3 (Agree-suc key d 1 r z a.1 s.5) in
      elim (Bool-cases (get_bit key bd == 0)) [
        | inl q ↦
            rw (insert_at, q, find-join j bd (insert_at sha l (suc bd) key v) r, s.0)
              (ground
                (arith, l_case (let z = (==_iff _ _).0 q in rw (s.0) at z), bytes_eq_iff key j))
        | inr q ↦
            rw (insert_at, q, find-join j bd l (insert_at sha r (suc bd) key v), s.0)
              (ground
                (arith, r_case (let z = not_zero key bd q in rw (s.0) at z), bytes_eq_iff key j))
      ]
  find-insert_at (extension bd cd p c h) d j key v ik s a =
      let e = first_different_from key p d (cd - d) in
      let stops = first_different_from-StopsAt key p d (cd - d) in
      elim (Bool-cases (first_different_from key p bd (cd - bd) == cd)) [
        | inl q ↦
            let at_end : e ≡ cd = let z = (==_iff _ cd).0 q in rw (s.0) at z in
            let agree : (i : ℕ) → d ≤ i → i < cd → get_bit key i ≡ get_bit p i =
              λ i low high. stops.agree i low (omega (arith, at_end, high)) in
            let below = find-insert_at c cd j key v ik s.4 (Agree-cd key p d cd c agree a s.5) in
            let self =
              matches_self key p d (cd - d)
                (λ i low high. agree i low (omega (arith, high, s.1))) in
            rw (insert_at, q, s.0) (ground (arith, below, self, bytes_eq_iff key j))
        | inr q ↦
            let q' = rw (s.0) at q in
            let inside : e < cd = ground (arith, stops.high, s.1, q') in
            rw (insert_at, q, s.0) (find-split_extension j key v p h d cd e c stops inside)
      ]
