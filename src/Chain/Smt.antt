-- ===== src/Chain/Smt.antt =====
-- chain/smt.rs as chain/state.rs uses it: the leaf encoding, and the tree behind an interface.
pub mod Bits
pub mod Node
pub mod Update
pub mod Prefix
pub mod Shape
pub mod Insertion
pub mod Kept
pub mod Removal
pub mod Gone
pub mod Hashing
pub mod Count
pub mod Level
pub mod Batch
pub mod Valid
pub mod Runs
pub mod Instance
use exfer.Common.{
  ℕ, ◌≡◌, Bool, Option, none, some, ◌∷◌, [], ◌++◌, Bytes, to_le, byte_string, bytes_eq,
  if◌then◌else◌,
}
use exfer.Types.Hash.{Hash256, Sha, domain_hash}
use exfer.Chain.Smt.Bits.{IsKey}

-- A set of leaves with a root that depends on the leaves alone. The laws are for trees that the
-- operations build, with keys of 32 bytes.
pub record Smt : Type 1 where
  pub Tree : Type 0
  pub IsValid : Tree → Type 0
  pub empty : Tree
  pub find : Hash256 → Tree → Option Hash256
  pub insert : Hash256 → Hash256 → Tree → Tree
  pub remove : Hash256 → Tree → Tree
  pub root : Tree → Hash256
  pub empty-IsValid : IsValid empty
  pub insert-IsValid : (k v : Hash256) (t : Tree) → IsKey k → IsValid t → IsValid (insert k v t)
  pub remove-IsValid : (k : Hash256) (t : Tree) → IsValid t → IsValid (remove k t)
  pub find-empty : (k : Hash256) → find k empty ≡ none
  pub find-insert :
      (k j v : Hash256) (t : Tree)
      → IsKey k
      → IsValid t
      → find j (insert k v t) ≡ (if bytes_eq k j then some v else find j t)
  pub find-remove :
      (k j : Hash256) (t : Tree)
      → IsValid t
      → find j (remove k t) ≡ (if bytes_eq k j then none else find j t)
  pub root_ext :
      (t u : Tree) → IsValid t → IsValid u → ((k : Hash256) → find k t ≡ find k u) → root t ≡ root u

abbrev pub ds_state : Bytes
ds_state = byte_string "EXFER-STATE"

module _ (sha : Sha) where
  unfoldable pub leaf_key : Hash256 → ℕ → Hash256
  leaf_key tx_id output_index = domain_hash sha ds_state (tx_id ++ to_le 4 output_index)

  unfoldable pub leaf_value : Bytes → ℕ → Bool → Hash256
  leaf_value output_bytes height is_coinbase =
      sha.sha256 (output_bytes ++ (to_le 8 height ++ (if is_coinbase then 1 else 0) ∷ []))
