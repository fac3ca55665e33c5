-- ===== src/Types/Cursor/Defs.antt =====
-- `SerError`, and the steps that the deserializers of transaction.rs and block.rs are made of.
use exfer.Common.{
  ℕ, zero, suc, ◌+◌, List, [], ◌∷◌, Bytes, length, take, drop, get_or, ltb, leb, if◌then◌else◌,
  from_le, Result, ok, err,
}

-- The formatted messages of `SerError::InvalidData`, with the numbers that they print.
pub data Reason : Type 0 where
  varbytes_length : ℕ → Reason
  has_datum_flag : ℕ → Reason
  datum_size : ℕ → Reason
  has_datum_hash_flag : ℕ → Reason
  has_redeemer_flag : ℕ → Reason
  redeemer_size : ℕ → Reason
  input_count : ℕ → Reason
  output_count : ℕ → Reason
  tx_count : ℕ → Reason

pub data SerError : Type 0 where
  unexpected_eof : SerError
  invalid_data : Reason → SerError
  invalid_length : SerError

-- A reader of `data` from position `pos` on, with the position behind what it read.
abbrev pub Cursor : Type 0 → Type 0
Cursor A = Bytes → ℕ → Result (A × ℕ) SerError

abbrev pub continue :
    {A B : Type 0}
    → Result (A × ℕ) SerError
    → (A → ℕ → Result (B × ℕ) SerError)
    → Result (B × ℕ) SerError
continue (ok (a, pos)) f = f a pos
continue (err e) f = err e

infixl 5 ◌>>=◌ ◌>>◌
abbrev pub ◌>>=◌ : {A B : Type 0} → Cursor A → (A → Cursor B) → Cursor B
◌>>=◌ m f bytes pos = continue (m bytes pos) (λ a pos'. f a bytes pos')

abbrev pub ◌>>◌ : {B : Type 0} → Cursor (Unit {0}) → Cursor B → Cursor B
m >> k = m >>= λ _. k

abbrev pub pure : {A : Type 0} → A → Cursor A
pure a bytes pos = ok (a, pos)

abbrev pub fail : {A : Type 0} → SerError → Cursor A
fail e bytes pos = err e

-- `if data.len() < pos + n { return Err(UnexpectedEof) }`
unfoldable pub need : ℕ → Cursor (Unit {0})
need n bytes pos = if ltb (length bytes) (pos + n) then err unexpected_eof else ok (tt, pos)

-- `&data[pos..pos + n]`, after a test that it is in range; then `pos += n`.
unfoldable pub slice : ℕ → Cursor Bytes
slice n bytes pos = ok (take n (drop pos bytes), pos + n)

-- `uN::from_le_bytes(data[pos..pos + n])`
unfoldable pub word : ℕ → Cursor ℕ
word n bytes pos = ok (from_le (take n (drop pos bytes)), pos + n)

-- `if pos >= data.len() { return Err(UnexpectedEof) }`, and the byte at `pos`.
unfoldable pub byte : Cursor ℕ
byte bytes pos =
    if leb (length bytes) pos then err unexpected_eof else ok (get_or bytes pos 0, pos + 1)

-- `let (x, consumed) = f(&data[pos..])?; pos += consumed;`
unfoldable pub sub_slice : {A : Type 0} → (Bytes → Result (A × ℕ) SerError) → Cursor A
sub_slice f bytes pos = continue (f (drop pos bytes)) (λ a consumed. ok (a, pos + consumed))

-- `for _ in 0..count { … }` with the results pushed on a vector.
unfoldable pub repeat : {A : Type 0} → Cursor A → ℕ → Cursor (List A)
repeat item zero = pure []
repeat item (suc count) = item >>= λ x. repeat item count >>= λ xs. pure (x ∷ xs)
