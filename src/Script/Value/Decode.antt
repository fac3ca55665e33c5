-- ===== src/Script/Value/Decode.antt =====
-- script/value.rs: `Value::deserialize`.
use exfer.Common.{
  ℕ, zero, suc, ◌+◌, true, false, ◌==◌, ltb, if◌then◌else◌, [], ◌∷◌, Bytes, length, take, drop,
  from_le, Result, ok, err, ◌>>=◌, ◌>>◌, reject,
}
use exfer.Script.Value.Defs.{
  Value, Values, unit, left, right, pair, list, raw, u64, u256, boolean, hash, nil, cons,
}

-- The messages of the source.
pub data ValueError : Type 0 where
  depth_exceeded : ValueError
  end_of_value : ValueError
  end_of_list_length : ValueError
  list_too_long : ValueError
  end_of_bytes_length : ValueError
  end_of_bytes : ValueError
  end_of_u64 : ValueError
  end_of_u256 : ValueError
  end_of_bool : ValueError
  non_canonical_bool : ValueError
  end_of_hash : ValueError
  unknown_tag : ValueError

abbrev pub max_value_depth : ℕ
max_value_depth = 128

abbrev pub max_list_length : ℕ
max_list_length = 65_536

-- A value from the front of a slice, with the number of bytes consumed.
abbrev pub Reader : Type 0
Reader = Bytes → Result (Value × ℕ) ValueError

-- `for _ in 0..count`, with the slice from `pos` on.
unfoldable pub read_values : Reader → ℕ → Bytes → ℕ → Result (Values × ℕ) ValueError
read_values read zero data' pos = ok (nil, pos)
read_values read (suc left_over) data' pos = do
  one ← read (drop pos data')
  more ← read_values read left_over data' (pos + one.1)
  ok (cons one.0 more.0, more.1)

unfoldable pub read_inner : Reader → (Value → Value) → Reader
read_inner read wrap rest = do inner ← read rest; ok (wrap inner.0, 1 + inner.1)

unfoldable pub read_pair : Reader → Reader
read_pair read rest = do a ← read rest; b ← read (drop a.1 rest); ok (pair a.0 b.0, 1 + a.1 + b.1)

unfoldable pub read_list : Reader → Reader
read_list read rest = do
  reject (ltb (length rest) 4) end_of_list_length
  reject (ltb max_list_length (from_le (take 4 rest))) list_too_long
  vs ← read_values read (from_le (take 4 rest)) rest 4
  ok (list vs.0, 1 + vs.1)

unfoldable pub read_raw : Reader
read_raw rest = do
  reject (ltb (length rest) 4) end_of_bytes_length
  reject (ltb (length rest) (4 + from_le (take 4 rest))) end_of_bytes
  ok (raw (take (from_le (take 4 rest)) (drop 4 rest)), 1 + 4 + from_le (take 4 rest))

unfoldable pub read_u64 : Reader
read_u64 rest = do reject (ltb (length rest) 8) end_of_u64; ok (u64 (from_le (take 8 rest)), 1 + 8)

unfoldable pub read_32 : (Bytes → Value) → ValueError → Reader
read_32 wrap error rest = do reject (ltb (length rest) 32) error; ok (wrap (take 32 rest), 1 + 32)

unfoldable pub read_bool : Reader
read_bool [] = err end_of_bool
read_bool (b ∷ rest) =
    if b == 0
    then ok (boolean false, 2)
    else if b == 1
    then ok (boolean true, 2)
    else err non_canonical_bool

unfoldable pub read_tagged : Reader → ℕ → Reader
read_tagged read tag rest =
    if tag == 0
    then ok (unit, 1)
    else if tag == 1
    then read_inner read left rest
    else if tag == 2
    then read_inner read right rest
    else if tag == 3
    then read_pair read rest
    else if tag == 4
    then read_list read rest
    else if tag == 5
    then read_raw rest
    else if tag == 6
    then read_u64 rest
    else if tag == 7
    then read_32 u256 end_of_u256 rest
    else if tag == 8
    then read_bool rest
    else if tag == 9
    then read_32 hash end_of_hash rest
    else err unknown_tag

-- `deserialize_depth`, at depth `max_value_depth + 1 - levels`.
unfoldable pub read_value : ℕ → Reader
read_value zero data' = err depth_exceeded
read_value (suc levels) [] = err end_of_value
read_value (suc levels) (tag ∷ rest) = read_tagged (read_value levels) tag rest

unfoldable pub deserialize : Reader
deserialize data' = read_value (max_value_depth + 1) data'
