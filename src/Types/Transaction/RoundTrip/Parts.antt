-- ===== src/Types/Transaction/RoundTrip/Parts.antt =====
-- types/transaction.rs: inputs, outputs and witnesses are read back, and how long they are.
use exfer.Common.{
  ℕ, ◌≤◌, ◌<◌, ◌^◌, ◌≡◌, refl, arith, Option, none, some, [], ◌∷◌, ◌++◌, Bytes, length,
  length-append, ltb, ltb→lt, le→ltb, Bool-cases, ok, inl, inr, >>=-eq-ok, to_le,
}
use exfer.Types.Hash.{Hash256}
use exfer.Types.Cursor.{
  Reason, slice, word, byte, sub_slice, Reads, ReadsSlice, Reads-bind, Reads-bind_pure,
  Reads-bind_end, Reads-pure, Reads-need, Reads-sub_slice, ReadsSlice-run, Reads-slice, Reads-word,
  Reads-byte, has_datum_flag, datum_size, has_redeemer_flag, redeemer_size,
}
use exfer.Types.Transaction.Data.{
  TxInput, TxOutput, TxWitness, AtMost, IsOptionalHash, IsInput, IsOutput, IsWitness,
  max_datum_size, max_redeemer_size,
}
use exfer.Types.Transaction.Encode.{
  serialize_varbytes, serialize_input, serialize_optional, serialize_optional_hash,
  serialize_output, serialize_witness,
}
use exfer.Types.Transaction.Decode.{
  varbytes, deserialize_varbytes, input_cursor, deserialize_input, optional_body, optional,
  optional_hash_body, optional_hash, output_cursor, deserialize_output, witness_cursor,
  deserialize_witness,
}

varbytes_bytes :
    (bs : Bytes) {out : Bytes}
    → serialize_varbytes bs ≡ ok out
    → (length bs < 2 ^ 16) × (out ≡ to_le 2 (length bs) ++ bs)
unfolding serialize_varbytes
varbytes_bytes bs h = elim (Bool-cases (ltb (length bs) (2 ^ 16))) [
  | inl small ↦ (ltb→lt _ _ small, cc (rw small at h))
  | inr big ↦ cc (rw big at h)
]

Reads-varbytes_parts :
    (bs : Bytes) → length bs < 2 ^ 16 → Reads varbytes bs (to_le 2 (length bs) ++ bs)
unfolding varbytes
Reads-varbytes_parts bs h = Reads-need 2 _ bs (to_le 2 (length bs) ++ bs) (omega arith) (
    Reads-bind (word 2) _ (length bs) bs (to_le 2 (length bs)) bs (Reads-word 2 (length bs) h)
      (Reads-need (length bs) _ bs bs (omega arith) (Reads-slice (length bs) bs refl)))

Reads-varbytes :
    (bs out : Bytes)
    → serialize_varbytes bs ≡ ok out
    → Reads (sub_slice deserialize_varbytes) bs out
unfolding deserialize_varbytes
Reads-varbytes bs out h =
    let (small, e) = varbytes_bytes bs h in
    Reads-sub_slice deserialize_varbytes bs out
      (ReadsSlice-run varbytes bs out (rw e (Reads-varbytes_parts bs small)))

pub ReadsSlice-input :
    (i : TxInput) → IsInput i → ReadsSlice deserialize_input i (serialize_input i)
unfolding deserialize_input serialize_input
ReadsSlice-input i h = ReadsSlice-run input_cursor i _ (
    Reads-need 36 _ i (i.prev_tx_id ++ to_le 4 i.output_index)
      (rw length-append (omega (arith, h.prev)))
      (Reads-bind (slice 32) _ i.prev_tx_id i i.prev_tx_id (to_le 4 i.output_index)
        (Reads-slice 32 i.prev_tx_id h.prev)
        (Reads-bind_pure (word 4) _ i.output_index (to_le 4 i.output_index)
          (Reads-word 4 i.output_index h.index))))

module _ (max_size : ℕ) (flag size : ℕ → Reason) where
  Reads-optional :
      (o : Option Bytes) (out : Bytes)
      → AtMost max_size o
      → serialize_optional o ≡ ok out
      → Reads (optional max_size flag size) o out
  unfolding serialize_optional optional optional_body
  Reads-optional none out small h =
      let e : 0 ∷ [] ≡ out = cc in
      rw (← e) (Reads-bind_end byte _ 0 none (0 ∷ []) (Reads-byte 0) (Reads-pure none))
  Reads-optional (some bs) out small h =
      let (body, written, e) = >>=-eq-ok (serialize_varbytes bs) _ h in
      let e' : 1 ∷ body ≡ out = cc in
      rw (← e') (
        Reads-bind byte _ 1 (some bs) (1 ∷ []) body (Reads-byte 1) (
          Reads-bind_end (sub_slice deserialize_varbytes) _ bs (some bs) body
            (Reads-varbytes bs body written)
            (rw (le→ltb max_size (length bs) small) (Reads-pure (some bs)))))

Reads-optional_hash :
    (o : Option Hash256) → IsOptionalHash o → Reads optional_hash o (serialize_optional_hash o)
unfolding serialize_optional_hash optional_hash optional_hash_body
Reads-optional_hash none h = Reads-bind_end byte _ 0 none (0 ∷ []) (Reads-byte 0) (Reads-pure none)
Reads-optional_hash (some digest) h =
    Reads-bind byte _ 1 (some digest) (1 ∷ []) digest (Reads-byte 1) (
      Reads-need 32 _ (some digest) digest (omega arith)
        (Reads-bind_pure (slice 32) _ digest digest (Reads-slice 32 digest h)))

-- `TxOutput::deserialize` reads back an output that `TxOutput::serialize` wrote.
pub ReadsSlice-output :
    (o : TxOutput) (out : Bytes)
    → IsOutput o
    → serialize_output o ≡ ok out
    → ReadsSlice deserialize_output o out
unfolding deserialize_output output_cursor serialize_output
ReadsSlice-output o out h written =
    let (script, script_ok, more) = >>=-eq-ok (serialize_varbytes o.script) _ written in
    let (datum, datum_ok, last) = >>=-eq-ok (serialize_optional o.datum) _ more in
    let hash = serialize_optional_hash o.datum_hash in
    let e : to_le 8 o.value ++ (script ++ (datum ++ hash)) ≡ out = cc in
    rw (← e) (
      ReadsSlice-run output_cursor o _ (
        Reads-need 8 _ o _ (omega arith) (
          Reads-bind (word 8) _ o.value o (to_le 8 o.value) (script ++ (datum ++ hash))
            (Reads-word 8 o.value h.value)
            (Reads-bind (sub_slice deserialize_varbytes) _ o.script o script (datum ++ hash)
              (Reads-varbytes o.script script script_ok)
              (Reads-bind (optional max_datum_size has_datum_flag datum_size) _ o.datum o datum hash
                (Reads-optional max_datum_size has_datum_flag datum_size o.datum datum h.datum
                  datum_ok)
                (Reads-bind_pure optional_hash _ o.datum_hash hash
                  (Reads-optional_hash o.datum_hash h.datum_hash)))))))

pub ReadsSlice-witness :
    (w : TxWitness) (out : Bytes)
    → IsWitness w
    → serialize_witness w ≡ ok out
    → ReadsSlice deserialize_witness w out
unfolding deserialize_witness witness_cursor serialize_witness
ReadsSlice-witness w out h written =
    let (body, body_ok, more) = >>=-eq-ok (serialize_varbytes w.witness) _ written in
    let (redeemer, redeemer_ok, last) = >>=-eq-ok (serialize_optional w.redeemer) _ more in
    let e : body ++ redeemer ≡ out = cc in
    rw (← e) (
      ReadsSlice-run witness_cursor w _ (
        Reads-bind (sub_slice deserialize_varbytes) _ w.witness w body redeemer
          (Reads-varbytes w.witness body body_ok)
          (Reads-bind_pure (optional max_redeemer_size has_redeemer_flag redeemer_size) _ w.redeemer
            redeemer
            (Reads-optional max_redeemer_size has_redeemer_flag redeemer_size w.redeemer redeemer h
              redeemer_ok))))

-- The minimal sizes that `Transaction::deserialize` counts with.
pub length-input : (i : TxInput) → IsInput i → length (serialize_input i) ≡ 36
unfolding serialize_input
length-input i h = rw length-append (omega (arith, h.prev))

varbytes_size : (bs out : Bytes) → serialize_varbytes bs ≡ ok out → 2 ≤ length out
varbytes_size bs out h = let (small, e) = varbytes_bytes bs h in rw e (omega arith)

optional_size : (o : Option Bytes) (out : Bytes) → serialize_optional o ≡ ok out → 1 ≤ length out
unfolding serialize_optional
optional_size none out h = let e : 0 ∷ [] ≡ out = cc in rw (← e) (omega arith)
optional_size (some bs) out h =
    let (body, written, e) = >>=-eq-ok (serialize_varbytes bs) _ h in
    let e' : 1 ∷ body ≡ out = cc in rw (← e') (omega arith)

optional_hash_size : (o : Option Hash256) → 1 ≤ length (serialize_optional_hash o)
unfolding serialize_optional_hash
optional_hash_size none = omega arith
optional_hash_size (some h) = omega arith

pub output_size : (o : TxOutput) (out : Bytes) → serialize_output o ≡ ok out → 12 ≤ length out
unfolding serialize_output
output_size o out written =
    let (script, script_ok, more) = >>=-eq-ok (serialize_varbytes o.script) _ written in
    let (datum, datum_ok, last) = >>=-eq-ok (serialize_optional o.datum) _ more in
    let e : to_le 8 o.value ++ (script ++ (datum ++ serialize_optional_hash o.datum_hash)) ≡ out =
      cc in
    rw (← e) (
      omega (
        arith,
        varbytes_size o.script script script_ok,
        optional_size o.datum datum datum_ok,
        optional_hash_size o.datum_hash,
        length-append script (datum ++ serialize_optional_hash o.datum_hash),
        length-append datum (serialize_optional_hash o.datum_hash),
      ))

pub witness_size : (w : TxWitness) (out : Bytes) → serialize_witness w ≡ ok out → 3 ≤ length out
unfolding serialize_witness
witness_size w out written =
    let (body, body_ok, more) = >>=-eq-ok (serialize_varbytes w.witness) _ written in
    let (redeemer, redeemer_ok, last) = >>=-eq-ok (serialize_optional w.redeemer) _ more in
    let e : body ++ redeemer ≡ out = cc in
    rw (← e) (
      omega (
        arith,
        varbytes_size w.witness body body_ok,
        optional_size w.redeemer redeemer redeemer_ok,
        length-append body redeemer,
      ))
