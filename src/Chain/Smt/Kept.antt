-- ===== src/Chain/Smt/Kept.antt =====
-- chain/smt.rs: `insert_at` keeps the shape of the tree.
use exfer.Common.{
  ℕ, suc, ◌-◌, ◌≤◌, ◌<◌, ◌≡◌, ◌≢◌, refl, sym, ◌∙◌, arith, ◌==◌, ==_iff, ltb, ltb→lt, Bool-cases,
  inl, inr, Bool, true, false, if◌then◌else◌, bytes_eq, bytes_eq_refl,
}
use exfer.Types.Hash.{Hash256, Sha}
use exfer.Chain.Smt.Bits.{
  get_bit, bit-bound, smt_depth, first_different_from, first_different_bit, IsKey, Agree,
  key_of_bits,
}
use exfer.Chain.Smt.Node.{
  SmtNode, null, leaf, branch, extension, logical_depth, any_key, extend, wrap_in_extension, join,
}
use exfer.Chain.Smt.Prefix.{StopsAt, first_different_from-StopsAt}
use exfer.Chain.Smt.Shape.{AllKeys, AllKeys-imp, AllKeys-any_key, IsShaped, IsCompact}
use exfer.Chain.Smt.Insertion.{Agree-suc, Agree-cd, not_zero}
use exfer.Chain.Smt.Update.{branch_off, split_leaf, split_extension, insert_at}

module _ (sha : Sha) where
  AllKeys-wrap_leaf :
      (P : Hash256 → Type 0) (key v : Hash256) (d : ℕ)
      → P key
      → AllKeys P (wrap_in_extension sha (leaf key v) d)
  unfolding wrap_in_extension extend logical_depth any_key
  AllKeys-wrap_leaf P key v d p = elim (Bool-cases (ltb d smt_depth)) [
    | inl q ↦ rw q p
    | inr q ↦ rw q p
  ]

  AllKeys-branch_off :
      (P : Hash256 → Type 0) (key : Hash256) (e : ℕ) (a b : SmtNode)
      → AllKeys P a
      → AllKeys P b
      → AllKeys P (branch_off sha key e a b)
  unfolding branch_off join
  AllKeys-branch_off P key e a b pa pb = elim (Bool-cases (get_bit key e == 0)) [
    | inl q ↦ rw q (pa, pb)
    | inr q ↦ rw q (pb, pa)
  ]

  -- An extension that may be left out.
  AllKeys-extend :
      (P : Hash256 → Type 0) (p : Hash256) (d e : ℕ) (t : SmtNode) (b : Bool)
      → AllKeys P t
      → AllKeys P (if b then extend sha d e p t else t)
  unfolding extend
  AllKeys-extend P p d e t true a = a
  AllKeys-extend P p d e t false a = a

  AllKeys-split_leaf :
      (P : Hash256 → Type 0) (k w : Hash256) (d : ℕ) (key v : Hash256)
      → P k
      → P key
      → AllKeys P (split_leaf sha k w d key v)
  unfolding split_leaf
  AllKeys-split_leaf P k w d key v pk p =
      let e = first_different_bit k key smt_depth in
      let node =
        AllKeys-branch_off P key e _ _ (AllKeys-wrap_leaf P key v (suc e) p)
          (AllKeys-wrap_leaf P k w (suc e) pk) in
      elim (Bool-cases (ltb d e)) [ inl q ↦ rw q node | inr q ↦ rw q node ]

  AllKeys-split_extension :
      (P : Hash256 → Type 0) (d cd e : ℕ) (p : Hash256) (c : SmtNode) (key v : Hash256)
      → P key
      → AllKeys P c
      → AllKeys P (split_extension sha d cd p c e key v)
  unfolding split_extension
  AllKeys-split_extension P d cd e p c key v pk a = AllKeys-extend P key d e _ (ltb d e) (
      AllKeys-branch_off P key e _ _ (AllKeys-wrap_leaf P key v (suc e) pk)
        (AllKeys-extend P p (suc e) cd c (ltb (suc e) cd) a))

  -- The keys of the node and the inserted one are all the keys there are.
  pub AllKeys-insert_at :
      (P : Hash256 → Type 0) (t : SmtNode) (d : ℕ) (key v : Hash256)
      → P key
      → AllKeys P t
      → AllKeys P (insert_at sha t d key v)
  unfolding insert_at extend join
  AllKeys-insert_at P null d key v pk a = AllKeys-wrap_leaf P key v d pk
  AllKeys-insert_at P (leaf k w) d key v pk a = elim (Bool-cases (bytes_eq k key)) [
    | inl q ↦ rw (insert_at, q) pk
    | inr q ↦ rw (insert_at, q) (AllKeys-split_leaf P k w d key v a pk)
  ]
  AllKeys-insert_at P (branch bd l r h) d key v pk a = elim (Bool-cases (get_bit key bd == 0)) [
    | inl q ↦ rw (insert_at, q) (AllKeys-insert_at P l (suc bd) key v pk a.0, a.1)
    | inr q ↦ rw (insert_at, q) (a.0, AllKeys-insert_at P r (suc bd) key v pk a.1)
  ]
  AllKeys-insert_at P (extension bd cd p c h) d key v pk a =
      elim (Bool-cases (first_different_from key p bd (cd - bd) == cd)) [
        | inl q ↦ rw (insert_at, q) (AllKeys-insert_at P c cd key v pk a)
        | inr q ↦ rw (insert_at, q) (AllKeys-split_extension P bd cd _ p c key v pk a)
      ]

  pub IsShaped-wrap_leaf :
      (key v : Hash256) (d : ℕ)
      → IsKey key
      → d ≤ smt_depth
      → IsShaped d (wrap_in_extension sha (leaf key v) d)
  unfolding wrap_in_extension extend logical_depth any_key
  IsShaped-wrap_leaf key v d ik le = elim (Bool-cases (ltb d smt_depth)) [
    | inl q ↦ rw q (refl, ltb→lt d smt_depth q, omega arith, tt, (refl, ik), λ i l. refl)
    | inr q ↦ rw q (ground arith, ik)
  ]

  -- Two nodes that the bit e tells apart.
  IsShaped-branch_off :
      (key : Hash256) (e : ℕ) (a b : SmtNode)
      → e < smt_depth
      → IsShaped (suc e) a
      → IsShaped (suc e) b
      → AllKeys (λ k. get_bit k e ≡ get_bit key e) a
      → AllKeys (λ k. get_bit k e ≢ get_bit key e) b
      → IsShaped e (branch_off sha key e a b)
  unfolding branch_off join
  IsShaped-branch_off key e a b l sa sb pa pb = elim (Bool-cases (get_bit key e == 0)) [
    | inl q ↦
        let z = (==_iff (get_bit key e) 0).0 q in
        let other =
          AllKeys-imp _ (λ k. get_bit k e ≡ 1) (λ k n. ground (arith, bit-bound k e, n)) b
            (rw z at pb) in
        rw q (refl, l, sa, sb, rw z at pa, other)
    | inr q ↦
        let z = not_zero sha key e q in
        let other =
          AllKeys-imp _ (λ k. get_bit k e ≡ 0) (λ k n. ground (arith, bit-bound k e, n)) b
            (rw z at pb) in
        rw q (refl, l, sb, sa, other, rw z at pa)
  ]

  IsCompact-branch_off :
      (key : Hash256) (e : ℕ) (a b : SmtNode) → IsCompact (branch_off sha key e a b)
  unfolding branch_off join
  IsCompact-branch_off key e a b = elim (Bool-cases (get_bit key e == 0)) [
    | inl q ↦ rw q tt
    | inr q ↦ rw q tt
  ]

  IsShaped-extend :
      (d e : ℕ) (p : Hash256) (t : SmtNode)
      → d ≤ e
      → e ≤ smt_depth
      → IsCompact t
      → IsShaped e t
      → AllKeys (λ k. Agree p k e) t
      → IsShaped d (if ltb d e then extend sha d e p t else t)
  unfolding extend
  IsShaped-extend d e p t le top ic st a = elim (Bool-cases (ltb d e)) [
    | inl q ↦ rw q (refl, ltb→lt d e q, top, ic, st, a)
    | inr q ↦ let same : d ≡ e = ground arith in rw (q, same) st
  ]

  IsShaped-split_extension :
      (d cd e : ℕ) (p : Hash256) (c : SmtNode) (h key v : Hash256)
      → IsKey key
      → IsShaped d (extension d cd p c h)
      → AllKeys (λ k. Agree key k d) c
      → StopsAt key p d (cd - d) e
      → e < cd
      → IsShaped d (split_extension sha d cd p c e key v)
  unfolding split_extension
  IsShaped-split_extension d cd e p c h key v ik s a stops l =
      let differ = stops.differ (omega (arith, stops.low)) in
      let new_leaf = IsShaped-wrap_leaf key v (suc e) ik (omega (arith, s.2)) in
      let below = IsShaped-extend (suc e) cd p c (omega arith) s.2 s.3 s.4 s.5 in
      let apart =
        AllKeys-imp (λ k. Agree p k cd) (λ k. get_bit k e ≢ get_bit key e)
          (λ k agree same. differ (sym (agree e l ∙ same))) c s.5 in
      let shared = Agree-cd sha key p d e c stops.agree a (
        AllKeys-imp (λ k. Agree p k cd) (λ k. Agree p k e) (λ k agree i m. agree i (omega arith)) c
          s.5) in
      IsShaped-extend d e key _ stops.low (omega (arith, s.2)) (IsCompact-branch_off key e _ _)
        (IsShaped-branch_off key e _ _ (omega (arith, s.2)) new_leaf below
          (AllKeys-wrap_leaf (λ k. get_bit k e ≡ get_bit key e) key v (suc e) refl)
          (AllKeys-extend (λ k. get_bit k e ≢ get_bit key e) p (suc e) cd c _ apart))
        (AllKeys-branch_off (λ k. Agree key k e) key e _ _
          (AllKeys-wrap_leaf (λ k. Agree key k e) key v (suc e) (λ i m. refl))
          (AllKeys-extend (λ k. Agree key k e) p (suc e) cd c _ shared))

  IsCompact-insert_at :
      (t : SmtNode) (d : ℕ) (key v : Hash256)
      → IsKey key
      → IsCompact t
      → IsShaped d t
      → AllKeys (λ k. Agree key k d) t
      → IsCompact (insert_at sha t d key v)
  unfolding insert_at join
  IsCompact-insert_at null d key v ik ic s a = absurd ic
  IsCompact-insert_at (leaf k w) d key v ik ic s a =
      let same = key_of_bits key k ik s.1 (rw (s.0) at a) in
      rw (insert_at, same, bytes_eq_refl k) tt
  IsCompact-insert_at (branch bd l r h) d key v ik ic s a =
      elim (Bool-cases (get_bit key bd == 0)) [
        | inl q ↦ rw (insert_at, q) tt
        | inr q ↦ rw (insert_at, q) tt
      ]
  IsCompact-insert_at (extension bd cd p c h) d key v ik ic s a = absurd ic

  -- The prefix of an extension agrees with a key that follows it, in all the bits above the child.
  Agree-prefix :
      (key p : Hash256) (d cd : ℕ) (t : SmtNode)
      → ((i : ℕ) → d ≤ i → i < cd → get_bit key i ≡ get_bit p i)
      → IsShaped cd t
      → AllKeys (λ k. Agree key k d) t
      → AllKeys (λ k. Agree p k cd) t
      → Agree p key cd
  Agree-prefix key p d cd t same s a q i l =
      let k = AllKeys-any_key (λ k. Agree p k cd) cd t s q in
      let k' = AllKeys-any_key (λ k. Agree key k d) cd t s a in
      elim (Bool-cases (ltb i d)) [
        | inl low ↦ k i l ∙ sym (k' i (ltb→lt i d low))
        | inr high ↦ sym (same i (ground arith) l)
      ]

  pub IsShaped-insert_at :
      (t : SmtNode) (d : ℕ) (key v : Hash256)
      → IsKey key
      → IsShaped d t
      → AllKeys (λ k. Agree key k d) t
      → IsShaped d (insert_at sha t d key v)
  unfolding insert_at extend join
  IsShaped-insert_at null d key v ik s a = absurd s
  IsShaped-insert_at (leaf k w) d key v ik s a =
      let same = key_of_bits key k ik s.1 (rw (s.0) at a) in rw (insert_at, same, bytes_eq_refl k) s
  IsShaped-insert_at (branch bd l r h) d key v ik s a = elim (Bool-cases (get_bit key bd == 0)) [
    | inl q ↦
        let z = let z' = (==_iff (get_bit key bd) 0).0 q in rw (s.0) at z' in
        let l' = IsShaped-insert_at l (suc d) key v ik s.2 (Agree-suc sha key d 0 l z a.0 s.4) in
        rw (insert_at, q, s.0)
          (refl, s.1, l', s.3, AllKeys-insert_at (λ k. get_bit k d ≡ 0) l (suc d) key v z s.4, s.5)
    | inr q ↦
        let z = let z' = not_zero sha key bd q in rw (s.0) at z' in
        let r' = IsShaped-insert_at r (suc d) key v ik s.3 (Agree-suc sha key d 1 r z a.1 s.5) in
        rw (insert_at, q, s.0)
          (refl, s.1, s.2, r', s.4, AllKeys-insert_at (λ k. get_bit k d ≡ 1) r (suc d) key v z s.5)
  ]
  IsShaped-insert_at (extension bd cd p c h) d key v ik s a =
      let e = first_different_from key p d (cd - d) in
      let stops = first_different_from-StopsAt key p d (cd - d) in
      elim (Bool-cases (first_different_from key p bd (cd - bd) == cd)) [
        | inl q ↦
            let at_end : e ≡ cd = let z = (==_iff _ cd).0 q in rw (s.0) at z in
            let agree : (i : ℕ) → d ≤ i → i < cd → get_bit key i ≡ get_bit p i =
              λ i low high. stops.agree i low (omega (arith, at_end, high)) in
            let shared = Agree-cd sha key p d cd c agree a s.5 in
            rw (insert_at, q, s.0)
              (
                refl,
                s.1,
                s.2,
                IsCompact-insert_at c cd key v ik s.3 s.4 shared,
                IsShaped-insert_at c cd key v ik s.4 shared,
                AllKeys-insert_at (λ k. Agree p k cd) c cd key v
                    (Agree-prefix key p d cd c agree s.4 a s.5) s.5,
              )
        | inr q ↦
            let q' = rw (s.0) at q in
            let inside : e < cd = ground (arith, stops.high, s.1, q') in
            let s' : IsShaped d (extension d cd p c h) = (refl, s.1, s.2, s.3, s.4, s.5) in
            rw (insert_at, q, s.0)
              (IsShaped-split_extension d cd e p c h key v ik s' a stops inside)
      ]
