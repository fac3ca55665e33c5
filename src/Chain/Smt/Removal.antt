-- ===== src/Chain/Smt/Removal.antt =====
-- chain/smt.rs: `remove_at` keeps the shape of the tree.
use exfer.Common.{
  ℕ, suc, ◌≤◌, ◌<◌, ◌≡◌, refl, sym, ◌∙◌, arith, ◌==◌, ltb, lt→ltb, Bool-cases, inl, inr, bytes_eq,
}
use mathlib.Core.Path.{subst}
use exfer.Types.Hash.{Hash256, Sha}
use exfer.Chain.Smt.Bits.{get_bit, smt_depth, Agree}
use exfer.Chain.Smt.Node.{SmtNode, null, leaf, branch, extension, any_key, is_null, extend, join}
use exfer.Chain.Smt.Shape.{
  AllKeys, AllKeys-imp, AllKeys-and, AllKeys-any_key, IsShaped, IsSlot, IsSlot-IsShaped,
  IsShaped-IsSlot,
}
use exfer.Chain.Smt.Insertion.{Agree-suc}
use exfer.Chain.Smt.Update.{prepend_extension, try_merge_extension, collapse, remove_at}

module _ (sha : Sha) where
  AllKeys-prepend :
      (P : Hash256 → Type 0) (t : SmtNode) (d : ℕ)
      → AllKeys P t
      → AllKeys P (prepend_extension sha t d)
  unfolding prepend_extension extend
  AllKeys-prepend P null d a = tt
  AllKeys-prepend P (leaf k v) d a = elim (Bool-cases (ltb d smt_depth)) [
    | inl q ↦ rw (prepend_extension, q) a
    | inr q ↦ rw (prepend_extension, q) a
  ]
  AllKeys-prepend P (branch bd l r h) d a = elim (Bool-cases (ltb d bd)) [
    | inl q ↦ rw (prepend_extension, q) a
    | inr q ↦ rw (prepend_extension, q) a
  ]
  AllKeys-prepend P (extension bd cd p c h) d a = a

  AllKeys-try_merge :
      (P : Hash256 → Type 0) (bd cd : ℕ) (p : Hash256) (t : SmtNode)
      → AllKeys P t
      → AllKeys P (try_merge_extension sha bd cd p t)
  unfolding try_merge_extension extend
  AllKeys-try_merge P bd cd p null a = tt
  AllKeys-try_merge P bd cd p (leaf k v) a = a
  AllKeys-try_merge P bd cd p (branch b l r h) a = a
  AllKeys-try_merge P bd cd p (extension b e q c h) a = a

  AllKeys-collapse :
      (P : Hash256 → Type 0) (bd d : ℕ) (l r : SmtNode)
      → AllKeys P l
      → AllKeys P r
      → AllKeys P (collapse sha bd d l r)
  unfolding collapse join
  AllKeys-collapse P bd d l r pl pr = elim (Bool-cases (is_null l)) [
    | inl q ↦ elim (Bool-cases (is_null r)) [
      | inl q' ↦ rw (q, q') tt
      | inr q' ↦ rw (q, q') (AllKeys-prepend P r d pr)
    ]
    | inr q ↦ elim (Bool-cases (is_null r)) [
      | inl q' ↦ rw (q, q') (AllKeys-prepend P l d pl)
      | inr q' ↦ rw (q, q') (pl, pr)
    ]
  ]

  -- A removal adds no key.
  pub AllKeys-remove_at :
      (P : Hash256 → Type 0) (t : SmtNode) (d : ℕ) (key : Hash256)
      → AllKeys P t
      → AllKeys P (remove_at sha t d key)
  unfolding remove_at
  AllKeys-remove_at P null d key a = tt
  AllKeys-remove_at P (leaf k v) d key a = elim (Bool-cases (bytes_eq k key)) [
    | inl q ↦ rw (remove_at, q) tt
    | inr q ↦ rw (remove_at, q) a
  ]
  AllKeys-remove_at P (branch bd l r h) d key a = elim (Bool-cases (get_bit key bd == 0)) [
    | inl q ↦
        rw (remove_at, q) (AllKeys-collapse P bd d _ r (AllKeys-remove_at P l (suc bd) key a.0) a.1)
    | inr q ↦
        rw (remove_at, q) (AllKeys-collapse P bd d l _ a.0 (AllKeys-remove_at P r (suc bd) key a.1))
  ]
  AllKeys-remove_at P (extension bd cd p c h) d key a =
      AllKeys-try_merge P bd cd p _ (AllKeys-remove_at P c cd key a)

  -- The keys of a child of a branch share one bit more, also with `any_key` of the child.
  pub shared_child :
      (q : Hash256) (d b : ℕ) (t : SmtNode) (e : ℕ)
      → IsShaped e t
      → AllKeys (λ k. Agree q k d) t
      → AllKeys (λ k. get_bit k d ≡ b) t
      → AllKeys (λ k. Agree (any_key t) k (suc d)) t
  shared_child q d b t e s a w =
      let first =
        AllKeys-any_key (λ k. Agree q k d × (get_bit k d ≡ b)) e t s
          (AllKeys-and (λ k. Agree q k d) (λ k. get_bit k d ≡ b) t a w) in
      let shared =
        AllKeys-imp (λ k. Agree q k d) (λ k. Agree (any_key t) k d)
          (λ k agree i m. sym (first.0 i m) ∙ agree i m) t a in
      Agree-suc sha (any_key t) d b t first.1 shared w

  -- The survivor of a branch at depth d, which stood at d + 1.
  IsShaped-prepend :
      (q : Hash256) (d b : ℕ) (t : SmtNode)
      → d < smt_depth
      → IsShaped (suc d) t
      → AllKeys (λ k. Agree q k d) t
      → AllKeys (λ k. get_bit k d ≡ b) t
      → IsShaped d (prepend_extension sha t d)
  unfolding prepend_extension extend
  IsShaped-prepend q d b null l s a e = absurd s
  IsShaped-prepend q d b (leaf k v) l s a e =
      rw (prepend_extension, lt→ltb d smt_depth l)
        (refl, l, omega arith, tt, (refl, s.1), λ i m. refl)
  IsShaped-prepend q d b (branch bd x y h) l s a e =
      let t = branch bd x y h in
      let deeper = shared_child q d b t (suc d) s a e in
      rw (prepend_extension, lt→ltb d bd (omega (arith, s.0)))
        (
          refl,
          omega (arith, s.0),
          omega (arith, s.0, s.1),
          tt,
          rw (s.0) (refl, s.1, s.2, s.3, s.4, s.5),
          subst (λ n. AllKeys (λ k. Agree (any_key t) k n) t) (sym s.0) deeper,
        )
  IsShaped-prepend q d b (extension bd cd p c h) l s a e =
      (refl, omega (arith, s.1), s.2, s.3, s.4, s.5)

  IsSlot-collapse :
      (q : Hash256) (d : ℕ) (l r : SmtNode)
      → d < smt_depth
      → IsSlot (suc d) l
      → IsSlot (suc d) r
      → AllKeys (λ k. Agree q k d) l
      → AllKeys (λ k. Agree q k d) r
      → AllKeys (λ k. get_bit k d ≡ 0) l
      → AllKeys (λ k. get_bit k d ≡ 1) r
      → IsSlot d (collapse sha d d l r)
  unfolding collapse join
  IsSlot-collapse q d l r lt sl sr al ar el er = elim (Bool-cases (is_null l)) [
    | inl e ↦ elim (Bool-cases (is_null r)) [
      | inl e' ↦ rw (e, e') tt
      | inr e' ↦
          rw (e, e')
            (IsSlot-IsShaped d _
              (IsShaped-prepend q d 1 r lt (IsShaped-IsSlot (suc d) r e' sr) ar er))
    ]
    | inr e ↦ elim (Bool-cases (is_null r)) [
      | inl e' ↦
          rw (e, e')
            (IsSlot-IsShaped d _
              (IsShaped-prepend q d 0 l lt (IsShaped-IsSlot (suc d) l e sl) al el))
      | inr e' ↦
          rw (e, e')
            (refl, lt, IsShaped-IsSlot (suc d) l e sl, IsShaped-IsSlot (suc d) r e' sr, el, er)
    ]
  ]

  IsSlot-try_merge :
      (d cd : ℕ) (p : Hash256) (t : SmtNode)
      → d < cd
      → cd ≤ smt_depth
      → IsSlot cd t
      → AllKeys (λ k. Agree p k cd) t
      → IsSlot d (try_merge_extension sha d cd p t)
  unfolding try_merge_extension extend
  IsSlot-try_merge d cd p null l top s a = tt
  IsSlot-try_merge d cd p (leaf k v) l top s a =
      (refl, omega (arith, s.0), omega arith, tt, (refl, s.1), λ i m. refl)
  IsSlot-try_merge d cd p (branch b x y h) l top s a = (refl, l, top, tt, s, a)
  IsSlot-try_merge d cd p (extension b e q c h) l top s a =
      (refl, omega (arith, s.1), s.2, s.3, s.4, s.5)

  -- What is left of a node at depth d stands at depth d.
  pub IsSlot-remove_at :
      (q : Hash256) (t : SmtNode) (d : ℕ) (key : Hash256)
      → IsShaped d t
      → AllKeys (λ k. Agree q k d) t
      → IsSlot d (remove_at sha t d key)
  unfolding remove_at
  IsSlot-remove_at q null d key s a = absurd s
  IsSlot-remove_at q (leaf k v) d key s a = elim (Bool-cases (bytes_eq k key)) [
    | inl e ↦ rw (remove_at, e) tt
    | inr e ↦ rw (remove_at, e) s
  ]
  IsSlot-remove_at q (branch bd l r h) d key s a =
      let al = shared_child q d 0 l (suc d) s.2 a.0 s.4 in
      let ar = shared_child q d 1 r (suc d) s.3 a.1 s.5 in
      elim (Bool-cases (get_bit key bd == 0)) [
        | inl e ↦
            rw (remove_at, e, s.0)
              (IsSlot-collapse q d _ r s.1 (IsSlot-remove_at (any_key l) l (suc d) key s.2 al)
                (IsSlot-IsShaped (suc d) r s.3)
                (AllKeys-remove_at (λ k. Agree q k d) l (suc d) key a.0) a.1
                (AllKeys-remove_at (λ k. get_bit k d ≡ 0) l (suc d) key s.4) s.5)
        | inr e ↦
            rw (remove_at, e, s.0)
              (IsSlot-collapse q d l _ s.1 (IsSlot-IsShaped (suc d) l s.2)
                (IsSlot-remove_at (any_key r) r (suc d) key s.3 ar) a.0
                (AllKeys-remove_at (λ k. Agree q k d) r (suc d) key a.1) s.4
                (AllKeys-remove_at (λ k. get_bit k d ≡ 1) r (suc d) key s.5))
      ]
  IsSlot-remove_at q (extension bd cd p c h) d key s a =
      rw (remove_at, s.0)
        (IsSlot-try_merge d cd p _ s.1 s.2 (IsSlot-remove_at p c cd key s.4 s.5)
          (AllKeys-remove_at (λ k. Agree p k cd) c cd key s.5))
