-- ===== src/Script/Jets.antt =====
-- script/jets/mod.rs: the registry of jets, with their types and their static and runtime costs.
use exfer.Common.{
  ℕ, ◌*◌, ◌/◌, ◌≤◌, ◌≡◌, refl, arith, Bool, true, false, ◌==◌, if◌then◌else◌, Option, none, some,
  List, [], Bytes, length, max, div_ceil, saturating_add_u64, saturating_mul_u64,
}
use exfer.Types.Hash.{Hash256}
use exfer.Script.Types.{
  Ty, unit_type, product, list_type, option, bool_type, bytes_type, hash256_type, u64_type,
  u256_type,
}
use exfer.Script.Value.Defs.{Value, count}

-- script/jets/context.rs
pub record TxInputInfo : Type 0 where
  pub prev_tx_id : Hash256
  pub output_index : ℕ
  pub value : ℕ
  pub script_hash : Hash256

pub record TxOutputInfo : Type 0 where
  pub value : ℕ
  pub script_hash : Hash256
  pub datum_hash : Option Hash256

pub record ScriptContext : Type 0 where
  pub tx_inputs : List TxInputInfo
  pub tx_outputs : List TxOutputInfo
  pub self_index : ℕ
  pub block_height : ℕ
  pub sig_hash : Bytes

abbrev pub empty_context : ScriptContext
empty_context = record {
  tx_inputs = [];
  tx_outputs = [];
  self_index = 0;
  block_height = 0;
  sig_hash = [];
}

abbrev pub with_self_index : ℕ → ScriptContext → ScriptContext
with_self_index index c = record c { self_index = index }

pub data JetId : Type 0 where
  sha256 ed25519_verify schnorr_verify merkle_verify add64 sub64 mul64 div64 mod64 eq64 : JetId
  lt64 gt64 add256 sub256 mul256 div256 mod256 eq256 lt256 gt256 cat slice len eq_bytes : JetId
  eq_hash tx_inputs tx_outputs tx_value tx_script_hash tx_input_count tx_output_count : JetId
  self_index block_height tx_sig_hash list_len list_at list_sum list_all list_any : JetId
  list_find : JetId

-- `self as u32`
abbrev pub to_u32 : JetId → ℕ
to_u32 sha256 = 1
to_u32 ed25519_verify = 2
to_u32 schnorr_verify = 3
to_u32 merkle_verify = 4
to_u32 add64 = 256
to_u32 sub64 = 257
to_u32 mul64 = 258
to_u32 div64 = 259
to_u32 mod64 = 260
to_u32 eq64 = 261
to_u32 lt64 = 262
to_u32 gt64 = 263
to_u32 add256 = 512
to_u32 sub256 = 513
to_u32 mul256 = 514
to_u32 div256 = 515
to_u32 mod256 = 516
to_u32 eq256 = 517
to_u32 lt256 = 518
to_u32 gt256 = 519
to_u32 cat = 768
to_u32 slice = 769
to_u32 len = 770
to_u32 eq_bytes = 771
to_u32 eq_hash = 772
to_u32 tx_inputs = 1024
to_u32 tx_outputs = 1025
to_u32 tx_value = 1026
to_u32 tx_script_hash = 1027
to_u32 tx_input_count = 1028
to_u32 tx_output_count = 1029
to_u32 self_index = 1030
to_u32 block_height = 1031
to_u32 tx_sig_hash = 1032
to_u32 list_len = 1280
to_u32 list_at = 1281
to_u32 list_sum = 1282
to_u32 list_all = 1283
to_u32 list_any = 1284
to_u32 list_find = 1285

unfoldable pub from_u32 : ℕ → Option JetId
from_u32 id =
    if id == 1
    then some sha256
    else if id == 2
    then some ed25519_verify
    else if id == 3
    then some schnorr_verify
    else if id == 4
    then some merkle_verify
    else if id == 256
    then some add64
    else if id == 257
    then some sub64
    else if id == 258
    then some mul64
    else if id == 259
    then some div64
    else if id == 260
    then some mod64
    else if id == 261
    then some eq64
    else if id == 262
    then some lt64
    else if id == 263
    then some gt64
    else if id == 512
    then some add256
    else if id == 513
    then some sub256
    else if id == 514
    then some mul256
    else if id == 515
    then some div256
    else if id == 516
    then some mod256
    else if id == 517
    then some eq256
    else if id == 518
    then some lt256
    else if id == 519
    then some gt256
    else if id == 768
    then some cat
    else if id == 769
    then some slice
    else if id == 770
    then some len
    else if id == 771
    then some eq_bytes
    else if id == 772
    then some eq_hash
    else if id == 1024
    then some tx_inputs
    else if id == 1025
    then some tx_outputs
    else if id == 1026
    then some tx_value
    else if id == 1027
    then some tx_script_hash
    else if id == 1028
    then some tx_input_count
    else if id == 1029
    then some tx_output_count
    else if id == 1030
    then some self_index
    else if id == 1031
    then some block_height
    else if id == 1032
    then some tx_sig_hash
    else if id == 1280
    then some list_len
    else if id == 1281
    then some list_at
    else if id == 1282
    then some list_sum
    else if id == 1283
    then some list_all
    else if id == 1284
    then some list_any
    else if id == 1285
    then some list_find
    else none

-- The input and the output type.
unfoldable pub jet_type : JetId → Ty × Ty
jet_type sha256 = (bytes_type, hash256_type)
jet_type ed25519_verify = (product bytes_type (product bytes_type bytes_type), bool_type)
jet_type schnorr_verify = (product bytes_type (product bytes_type bytes_type), bool_type)
jet_type merkle_verify = (product hash256_type (product hash256_type bytes_type), bool_type)
jet_type add64 = (product u64_type u64_type, u64_type)
jet_type sub64 = (product u64_type u64_type, u64_type)
jet_type mul64 = (product u64_type u64_type, u64_type)
jet_type div64 = (product u64_type u64_type, u64_type)
jet_type mod64 = (product u64_type u64_type, u64_type)
jet_type eq64 = (product u64_type u64_type, bool_type)
jet_type lt64 = (product u64_type u64_type, bool_type)
jet_type gt64 = (product u64_type u64_type, bool_type)
jet_type add256 = (product u256_type u256_type, u256_type)
jet_type sub256 = (product u256_type u256_type, u256_type)
jet_type mul256 = (product u256_type u256_type, u256_type)
jet_type div256 = (product u256_type u256_type, u256_type)
jet_type mod256 = (product u256_type u256_type, u256_type)
jet_type eq256 = (product u256_type u256_type, bool_type)
jet_type lt256 = (product u256_type u256_type, bool_type)
jet_type gt256 = (product u256_type u256_type, bool_type)
jet_type cat = (product bytes_type bytes_type, bytes_type)
jet_type slice = (product bytes_type (product u64_type u64_type), bytes_type)
jet_type len = (bytes_type, u64_type)
jet_type eq_bytes = (product bytes_type bytes_type, bool_type)
jet_type eq_hash = (product hash256_type hash256_type, bool_type)
jet_type tx_inputs =
    (unit_type, list_type (product hash256_type (product u64_type (product u64_type hash256_type))))
jet_type tx_outputs =
    (unit_type, list_type (product u64_type (product hash256_type (option hash256_type))))
jet_type tx_value = (u64_type, u64_type)
jet_type tx_script_hash = (u64_type, hash256_type)
jet_type tx_input_count = (unit_type, u64_type)
jet_type tx_output_count = (unit_type, u64_type)
jet_type self_index = (unit_type, u64_type)
jet_type block_height = (unit_type, u64_type)
jet_type tx_sig_hash = (unit_type, bytes_type)
jet_type list_len = (list_type unit_type, u64_type)
jet_type list_at = (product (list_type unit_type) u64_type, option unit_type)
jet_type list_sum = (list_type u64_type, u64_type)
jet_type list_all = (list_type bool_type, bool_type)
jet_type list_any = (list_type bool_type, bool_type)
jet_type list_find = (list_type bool_type, option u64_type)

-- The static steps and cells.
unfoldable pub jet_cost : JetId → ℕ × ℕ
jet_cost sha256 = (1_000, 1)
jet_cost ed25519_verify = (5_000, 1)
jet_cost schnorr_verify = (5_000, 1)
jet_cost merkle_verify = (32_000, 1)
jet_cost add64 = (10, 1)
jet_cost sub64 = (10, 1)
jet_cost mul64 = (10, 1)
jet_cost div64 = (10, 1)
jet_cost mod64 = (10, 1)
jet_cost eq64 = (10, 1)
jet_cost lt64 = (10, 1)
jet_cost gt64 = (10, 1)
jet_cost add256 = (50, 1)
jet_cost sub256 = (50, 1)
jet_cost mul256 = (50, 1)
jet_cost div256 = (50, 1)
jet_cost mod256 = (50, 1)
jet_cost eq256 = (50, 1)
jet_cost lt256 = (50, 1)
jet_cost gt256 = (50, 1)
jet_cost cat = (100, 1)
jet_cost slice = (100, 1)
jet_cost len = (10, 0)
jet_cost eq_bytes = (500, 0)
jet_cost eq_hash = (500, 0)
jet_cost tx_inputs = (1_000, 0)
jet_cost tx_outputs = (1_000, 0)
jet_cost tx_value = (10, 0)
jet_cost tx_script_hash = (10, 0)
jet_cost tx_input_count = (5, 0)
jet_cost tx_output_count = (5, 0)
jet_cost self_index = (5, 0)
jet_cost block_height = (5, 0)
jet_cost tx_sig_hash = (5, 0)
jet_cost list_len = (10, 0)
jet_cost list_at = (10, 1)
jet_cost list_sum = (1_000, 0)
jet_cost list_all = (1_000, 0)
jet_cost list_any = (1_000, 0)
jet_cost list_find = (1_000, 0)

abbrev pub raw_length : Value → ℕ
raw_length (Value.raw bs) = length bs
raw_length _ = 0

abbrev pub raw_or_hash_length : Value → ℕ
raw_or_hash_length (Value.raw bs) = length bs
raw_or_hash_length (Value.hash h) = 32
raw_or_hash_length _ = 0

abbrev pub first_length : Value → ℕ
first_length (Value.pair a b) = raw_length a
first_length _ = 0

abbrev pub list_length : Value → ℕ
list_length (Value.list vs) = count vs
list_length _ = 0

abbrev pub proof_length : Value → ℕ
proof_length (Value.pair root (Value.pair item proof)) = raw_length proof
proof_length _ = 0

abbrev pub longer_length : Value → ℕ
longer_length (Value.pair a b) = max (raw_or_hash_length a) (raw_or_hash_length b)
longer_length _ = 0

abbrev pub total_length : Value → ℕ
total_length (Value.pair a b) = saturating_add_u64 (raw_length a) (raw_length b)
total_length _ = 0

unfoldable pub runtime_cost : JetId → Value → ScriptContext → ℕ
runtime_cost sha256 input c = saturating_add_u64 500 (raw_length input / 64 * 8)
runtime_cost merkle_verify input c =
    saturating_add_u64 500 (saturating_mul_u64 (proof_length input / 33) 500)
runtime_cost list_sum input c = saturating_add_u64 10 (list_length input)
runtime_cost list_all input c = saturating_add_u64 10 (list_length input)
runtime_cost list_any input c = saturating_add_u64 10 (list_length input)
runtime_cost list_find input c = saturating_add_u64 10 (list_length input)
runtime_cost eq_hash input c = 14
runtime_cost eq_bytes input c = saturating_add_u64 10 (longer_length input / 8)
runtime_cost cat input c = saturating_add_u64 10 (total_length input / 8)
runtime_cost slice input c = saturating_add_u64 10 (first_length input / 8)
runtime_cost tx_inputs input c = saturating_add_u64 10 (length c.tx_inputs * 10)
runtime_cost tx_outputs input c = saturating_add_u64 10 (length c.tx_outputs * 10)
runtime_cost tx_sig_hash input c = saturating_add_u64 5 (length c.sig_hash / 64)
runtime_cost ed25519_verify input c =
    saturating_add_u64 5_000 (saturating_mul_u64 (div_ceil (first_length input) 64) 8)
runtime_cost jet input c = (jet_cost jet).0

abbrev pub is_implemented : JetId → Bool
is_implemented schnorr_verify = false
is_implemented _ = true

-- The jets that are charged the same whatever their input.
abbrev pub has_constant_cost : JetId → Bool
has_constant_cost sha256 = false
has_constant_cost merkle_verify = false
has_constant_cost list_sum = false
has_constant_cost list_all = false
has_constant_cost list_any = false
has_constant_cost list_find = false
has_constant_cost eq_bytes = false
has_constant_cost cat = false
has_constant_cost slice = false
has_constant_cost tx_inputs = false
has_constant_cost tx_outputs = false
has_constant_cost tx_sig_hash = false
has_constant_cost ed25519_verify = false
has_constant_cost _ = true

-- A jet of constant cost is charged at most its static cost.
pub runtime_cost_le_jet_cost :
    (jet : JetId) (input : Value) (c : ScriptContext)
    → has_constant_cost jet ≡ true
    → runtime_cost jet input c ≤ (jet_cost jet).0
unfolding runtime_cost jet_cost
runtime_cost_le_jet_cost sha256 input c h = cc
runtime_cost_le_jet_cost eq_hash input c h = omega arith
runtime_cost_le_jet_cost _ input c h = ground arith

-- The number of a jet stands for it.
pub from_u32-to_u32 : (jet : JetId) → from_u32 (to_u32 jet) ≡ some jet
unfolding from_u32
from_u32-to_u32 sha256 = refl
from_u32-to_u32 _ = refl
