-- ===== src/Types/Merkle.antt =====
-- types/hash.rs: the Merkle root.
use exfer.Common.{
  ℕ, zero, suc, ◌+◌, ◌*◌, ◌%◌, ◌≤◌, ◌<◌, ◌≡◌, refl, sym, ◌∙◌, ap, arith, List, [], ◌∷◌, ◌++◌, Bytes,
  length, ltb, if◌then◌else◌, Bool-cases, inl, inr,
}
use exfer.Types.Hash.{Hash256, Sha, zero_hash, domain_hash}

-- A level of odd length gets its last element a second time.
unfoldable pub pad_even : List Hash256 → List Hash256
pad_even [] = []
pad_even (x ∷ []) = x ∷ x ∷ []
pad_even (x ∷ y ∷ level) = x ∷ y ∷ pad_even level

module _ (sha : Sha) (domain : Bytes) where
  -- `chunks_exact(2)`: one digest for each pair.
  unfoldable pub combine : List Hash256 → List Hash256
  combine [] = []
  combine (x ∷ []) = []
  combine (x ∷ y ∷ level) = domain_hash sha domain (x ++ y) ∷ combine level

  unfoldable pub next_level : List Hash256 → List Hash256
  unfolding pad_even combine
  next_level level = combine (pad_even level)

  -- `while level.len() > 1`, on fuel.
  unfoldable pub reduce : ℕ → List Hash256 → List Hash256
  reduce zero level = level
  reduce (suc rounds) level =
      let rest = reduce rounds (next_level level) in if ltb 1 (length level) then rest else level

  abbrev pub first_of : List Hash256 → Hash256
  first_of [] = zero_hash
  first_of (x ∷ xs) = x

  -- `merkle_root`
  unfoldable pub merkle_root : List Hash256 → Hash256
  merkle_root hashes = first_of (reduce (length hashes) hashes)

  length-next_level : (level : List Hash256) → 2 * length (next_level level) ≤ length level + 1
  unfolding next_level
  length-next_level [] = omega arith
  length-next_level (x ∷ []) = omega arith
  length-next_level (x ∷ y ∷ level) = omega (arith, length-next_level level)

  next_level_nonempty : (level : List Hash256) → 0 < length level → 0 < length (next_level level)
  unfolding next_level
  next_level_nonempty [] h = absurd (omega arith)
  next_level_nonempty (x ∷ []) h = omega arith
  next_level_nonempty (x ∷ y ∷ level) h = omega arith

  -- As many rounds as a level has elements reduce it to one element.
  pub length-reduce :
      (rounds : ℕ) (level : List Hash256)
      → length level ≤ rounds
      → 0 < length level
      → length (reduce rounds level) ≡ 1
  unfolding reduce
  length-reduce zero level h k = absurd (omega (arith, h, k))
  length-reduce (suc rounds) level h k = elim (Bool-cases (ltb 1 (length level))) [
    | inr single ↦ rw (reduce, single) (ground (arith, single, k))
    | inl more ↦
        rw (reduce, more)
          (length-reduce rounds (next_level level)
            (ground (arith, length-next_level level, more, h)) (next_level_nonempty level k))
  ]

  -- More rounds change nothing.
  reduce_enough :
      (rounds others : ℕ) (level : List Hash256)
      → length level ≤ rounds
      → length level ≤ others
      → reduce rounds level ≡ reduce others level
  unfolding reduce
  reduce_enough zero zero level h k = refl
  reduce_enough zero (suc others) level h k = ground (arith, h)
  reduce_enough (suc rounds) zero level h k = ground (arith, k)
  reduce_enough (suc rounds) (suc others) level h k = elim (Bool-cases (ltb 1 (length level))) [
    | inr single ↦ rw (reduce, single)
    | inl more ↦
        rw (reduce, more)
          (reduce_enough rounds others (next_level level)
            (ground (arith, length-next_level level, more, h))
            (ground (arith, length-next_level level, more, k)))
  ]

  reduce_step :
      (rounds : ℕ) (level : List Hash256)
      → 1 < length level
      → reduce (suc rounds) level ≡ reduce rounds (next_level level)
  unfolding reduce
  reduce_step rounds level h = ground (arith, h)

  -- The first level of a list of odd length is that of the list with its last element once more.
  next_level-last :
      (level : List Hash256) (last : Hash256)
      → length level % 2 ≡ 0
      → next_level (level ++ (last ∷ [])) ≡ next_level (level ++ (last ∷ last ∷ []))
  unfolding next_level
  next_level-last [] last h = refl
  next_level-last (y ∷ []) last h = absurd (omega (arith, h))
  next_level-last (y ∷ z ∷ level) last h =
      ap (λ rest. domain_hash sha domain (y ++ z) ∷ rest)
        (next_level-last level last (omega (arith, h)))

  -- A list of odd length, three at least, has the root of the list in which its last element stands
  -- once more: the root does not tell them apart.
  pub merkle_root-last :
      (first second : Hash256) (middle : List Hash256) (last : Hash256)
      → length middle % 2 ≡ 0
      → merkle_root (first ∷ second ∷ (middle ++ (last ∷ [])))
        ≡ merkle_root (first ∷ second ∷ (middle ++ (last ∷ last ∷ [])))
  unfolding merkle_root
  merkle_root-last first second middle last h =
      let once = middle ++ (last ∷ []) in
      let twice = middle ++ (last ∷ last ∷ []) in
      let a = first ∷ second ∷ once in
      let b = first ∷ second ∷ twice in
      let same : next_level a ≡ next_level b =
        next_level-last (first ∷ second ∷ middle) last (omega (arith, h)) in
      ap first_of (
        reduce_step (suc (length once)) a (omega arith)
        ∙ reduce_enough (suc (length once)) (suc (length twice)) (next_level a)
            (omega (arith, length-next_level a)) (rw same (omega (arith, length-next_level b)))
        ∙ ap (reduce (suc (length twice))) same
        ∙ sym (reduce_step (suc (length twice)) b (omega arith)))
