-- ===== src/Consensus/Pow.antt =====
-- consensus/pow.rs: the proof of work of a header.
use exfer.Common.{Bytes, byte_string, ℕ, Bool, Result, ok, ◌>>=◌}
use exfer.Common.Map.{bytes_before}
use exfer.Types.Hash.{Hash256, Sha, domain_hash}
use exfer.Types.Block.{BlockHeader, serialize_block_header}

-- `PowError`, its messages as bytes.
pub data PowError : Type 0 where
  params : Bytes → PowError
  hash : Bytes → PowError

-- types/mod.rs
abbrev pub ds_pow_p : Bytes
ds_pow_p = byte_string "EXFER-POW-P"

abbrev pub ds_pow_s : Bytes
ds_pow_s = byte_string "EXFER-POW-S"

abbrev pub argon2_memory_kib : ℕ
argon2_memory_kib = 65_536

abbrev pub argon2_iterations : ℕ
argon2_iterations = 2

abbrev pub argon2_parallelism : ℕ
argon2_parallelism = 1

abbrev pub argon2_output_len : ℕ
argon2_output_len = 32

-- `Params::new` and `hash_password_into` of the crate argon2, for Argon2id, version 0x13: memory,
-- iterations, lanes and output length, the password and the salt.
abbrev pub Argon2 : Type 0
Argon2 = ℕ → ℕ → ℕ → ℕ → Bytes → Bytes → Result Hash256 PowError

module _ (sha : Sha) (argon2 : Argon2) where
  unfoldable pub compute_pow : BlockHeader → Result Hash256 PowError
  compute_pow header =
      let header_bytes = serialize_block_header header in
      let pw = domain_hash sha ds_pow_p header_bytes in
      let salt = domain_hash sha ds_pow_s header_bytes in
      argon2 argon2_memory_kib argon2_iterations argon2_parallelism argon2_output_len pw salt

  -- Digests are compared as byte strings, that is as big-endian numbers of 256 bits.
  unfoldable pub verify_pow : BlockHeader → Result Bool PowError
  verify_pow header = do
    pow_hash ← compute_pow header
    ok (bytes_before pow_hash header.difficulty_target)
