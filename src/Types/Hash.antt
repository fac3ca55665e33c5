-- ===== src/Types/Hash.antt =====
-- types/hash.rs: 32-byte digests, domain separation, and the Merkle root over a list of digests.
use exfer.Common.{◌%◌, ◌≡◌, ◌∷◌, ◌++◌, Bytes, length, replicate}

-- A digest is its 32 bytes.
abbrev pub Hash256 : Type 0
Hash256 = Bytes

abbrev pub IsHash : Hash256 → Type 0
IsHash h = length h ≡ 32

-- `Hash256::ZERO`
abbrev pub zero_hash : Hash256
zero_hash = replicate 32 0

-- `Sha256` of the crate sha2.
pub record Sha : Type 0 where
  pub sha256 : Bytes → Hash256
  pub length-sha256 : (data' : Bytes) → length (sha256 data') ≡ 32

module _ (sha : Sha) where
  -- SHA-256(len(separator) || separator || data)
  unfoldable pub domain_hash : Bytes → Bytes → Hash256
  domain_hash separator message = sha.sha256 (length separator % 256 ∷ (separator ++ message))
