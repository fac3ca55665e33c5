-- ===== src/Examples/Toy.antt =====
-- A digest function and a tree for the examples, and a few transactions.
use exfer.Common.{
  ℕ, ◌-◌, ◌%◌, ◌^◌, refl, Option, none, some, [], ◌∷◌, replicate, to_le, from_le, length-to_le,
  bytes_eq, if◌then◌else◌,
}
use exfer.Types.Hash.{Hash256, Sha, zero_hash}
use exfer.Types.Transaction.{TxOutput, TxWitness, Transaction}
use exfer.Chain.Smt.{Smt}
use mathlib.Core.Path.{fun_ext, ap}
use mathlib.Core.Option.{get_or}

-- The message as a number, modulo a prime of 255 bits.
abbrev pub toy_sha : Sha
toy_sha = record {
  sha256 = λ message. to_le 32 (from_le message % (2 ^ 255 - 19));
  length-sha256 = λ message. length-to_le 32 (from_le message % (2 ^ 255 - 19));
}

-- A tree as the function that looks its leaves up.
abbrev pub toy_smt : Smt
toy_smt = record {
  Tree = Hash256 → Option Hash256;
  empty = λ k. none;
  find = λ k t. t k;
  insert = λ k v t j. if bytes_eq k j then some v else t j;
  remove = λ k t j. if bytes_eq k j then none else t j;
  root = λ t. get_or (t zero_hash) zero_hash;
  IsValid = λ t. Unit;
  empty-IsValid = tt;
  insert-IsValid = λ k v t is_key valid. tt;
  remove-IsValid = λ k t valid. tt;
  find-empty = λ k. refl;
  find-insert = λ k j v t is_key valid. refl;
  find-remove = λ k j t valid. refl;
  root_ext = λ t u valid_t valid_u same. ap (λ f. get_or (f zero_hash) zero_hash) (fun_ext same);
}

abbrev pub pay : ℕ → TxOutput
pay value = record { value = value; script = replicate 32 7; datum = none; datum_hash = none }

abbrev pub with_datum : TxOutput
with_datum = record {
  value = 300;
  script = 1 ∷ 2 ∷ [];
  datum = some (9 ∷ 8 ∷ 7 ∷ []);
  datum_hash = some (replicate 32 5);
}

abbrev pub no_witness : TxWitness
no_witness = record { witness = []; redeemer = none }

abbrev pub coinbase : Transaction
coinbase = record {
  inputs = record { prev_tx_id = zero_hash; output_index = 4 } ∷ [];
  outputs = pay 10_000_000_000 ∷ [];
  witnesses = no_witness ∷ [];
}

abbrev pub spending : Transaction
spending = record {
  inputs = record { prev_tx_id = replicate 32 3; output_index = 1 } ∷ [];
  outputs = pay 40 ∷ with_datum ∷ [];
  witnesses = record { witness = replicate 96 1; redeemer = some (4 ∷ []) } ∷ [];
}
