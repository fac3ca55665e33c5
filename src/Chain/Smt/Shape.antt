-- ===== src/Chain/Smt/Shape.antt =====
-- chain/smt.rs: the shape that the operations keep, in which the walk to a leaf is the lookup of a map.
use exfer.Common.{ℕ, suc, ◌≤◌, ◌<◌, ◌≡◌, ◌≢◌, refl, arith, false, bytes_eq, bytes_eq_iff, none}
use exfer.Types.Hash.{Hash256}
use exfer.Chain.Smt.Bits.{get_bit, smt_depth, IsKey, Agree}
use exfer.Chain.Smt.Node.{SmtNode, null, leaf, branch, extension, find_leaf, is_null, any_key}

-- Every key of the node satisfies P.
abbrev pub AllKeys : (Hash256 → Type 0) → SmtNode → Type 0
AllKeys P null = Unit
AllKeys P (leaf k v) = P k
AllKeys P (branch bd l r h) = AllKeys P l × AllKeys P r
AllKeys P (extension bd cd p c h) = AllKeys P c

pub AllKeys-imp :
    (P Q : Hash256 → Type 0)
    → ((k : Hash256) → P k → Q k)
    → (t : SmtNode) → AllKeys P t
    → AllKeys Q t
AllKeys-imp P Q f null a = tt
AllKeys-imp P Q f (leaf k v) a = f k a
AllKeys-imp P Q f (branch bd l r h) a = (AllKeys-imp P Q f l a.0, AllKeys-imp P Q f r a.1)
AllKeys-imp P Q f (extension bd cd p c h) a = AllKeys-imp P Q f c a

pub AllKeys-and :
    (P Q : Hash256 → Type 0) (t : SmtNode) → AllKeys P t → AllKeys Q t → AllKeys (λ k. P k × Q k) t
AllKeys-and P Q null a b = tt
AllKeys-and P Q (leaf k v) a b = (a, b)
AllKeys-and P Q (branch bd l r h) a b = (AllKeys-and P Q l a.0 b.0, AllKeys-and P Q r a.1 b.1)
AllKeys-and P Q (extension bd cd p c h) a b = AllKeys-and P Q c a b

abbrev pub IsCompact : SmtNode → Type 0
IsCompact null = ⊥
IsCompact (leaf k v) = Unit
IsCompact (branch bd l r h) = Unit
IsCompact (extension bd cd p c h) = ⊥

-- A node that stands at depth d: a leaf at full depth; a branch with both children, told apart by
-- the bit d; an extension over a leaf or a branch, whose prefix agrees with every key below in all
-- bits above the child, not only in those that it skips.
abbrev pub IsShaped : ℕ → SmtNode → Type 0
IsShaped d null = ⊥
IsShaped d (leaf k v) = (d ≡ smt_depth) × IsKey k
IsShaped d (branch bd l r h) =
    (bd ≡ d)
    × (d < smt_depth)
    × IsShaped (suc d) l
    × IsShaped (suc d) r
    × AllKeys (λ k. get_bit k d ≡ 0) l
    × AllKeys (λ k. get_bit k d ≡ 1) r
IsShaped d (extension bd cd p c h) =
    (bd ≡ d)
    × (d < cd)
    × (cd ≤ smt_depth)
    × IsCompact c
    × IsShaped cd c
    × AllKeys (λ k. Agree p k cd) c

-- Nothing, or a node that stands at depth d.
abbrev pub IsSlot : ℕ → SmtNode → Type 0
IsSlot d null = Unit
IsSlot d (leaf k v) = IsShaped d (leaf k v)
IsSlot d (branch bd l r h) = IsShaped d (branch bd l r h)
IsSlot d (extension bd cd p c h) = IsShaped d (extension bd cd p c h)

pub IsSlot-IsShaped : (d : ℕ) (t : SmtNode) → IsShaped d t → IsSlot d t
IsSlot-IsShaped d null s = absurd s
IsSlot-IsShaped d (leaf k v) s = s
IsSlot-IsShaped d (branch bd l r h) s = s
IsSlot-IsShaped d (extension bd cd p c h) s = s

pub IsShaped-IsSlot : (d : ℕ) (t : SmtNode) → is_null t ≡ false → IsSlot d t → IsShaped d t
unfolding is_null
IsShaped-IsSlot d null e s = cc
IsShaped-IsSlot d (leaf k v) e s = s
IsShaped-IsSlot d (branch bd l r h) e s = s
IsShaped-IsSlot d (extension bd cd p c h) e s = s

pub bytes_eq_ne : (a b : Hash256) → a ≢ b → bytes_eq a b ≡ false
bytes_eq_ne a b n = ground (arith, bytes_eq_iff a b)

-- A key that no leaf has is not found.
pub find_leaf-absent : (j : Hash256) (t : SmtNode) → AllKeys (λ k. k ≢ j) t → find_leaf j t ≡ none
unfolding find_leaf
find_leaf-absent j null a = refl
find_leaf-absent j (leaf k v) a = rw (bytes_eq_ne k j a) refl
find_leaf-absent j (branch bd l r h) a =
    ground (arith, find_leaf-absent j l a.0, find_leaf-absent j r a.1)
find_leaf-absent j (extension bd cd p c h) a = ground (arith, find_leaf-absent j c a)

-- A shaped node has a key, and what all its keys satisfy `any_key` does.
pub AllKeys-any_key :
    (P : Hash256 → Type 0) (d : ℕ) (t : SmtNode) → IsShaped d t → AllKeys P t → P (any_key t)
unfolding any_key is_null
AllKeys-any_key P d null s a = absurd s
AllKeys-any_key P d (leaf k v) s a = a
AllKeys-any_key P d (branch bd null r h) s a = absurd s.2
AllKeys-any_key P d (branch bd (leaf k v) r h) s a = a.0
AllKeys-any_key P d (branch bd (branch bd' l' r' h') r h) s a =
    AllKeys-any_key P (suc d) (branch bd' l' r' h') s.2 a.0
AllKeys-any_key P d (branch bd (extension bd' cd p c h') r h) s a =
    AllKeys-any_key P (suc d) (extension bd' cd p c h') s.2 a.0
AllKeys-any_key P d (extension bd cd p c h) s a = AllKeys-any_key P cd c s.4 a
