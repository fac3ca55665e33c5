-- ===== src/Types/Transaction/RoundTrip.antt =====
-- types/transaction.rs: what `Transaction::serialize` writes, `Transaction::deserialize` reads back.
mod Parts
use exfer.Common.{
  ℕ, zero, suc, ◌+◌, ◌*◌, ◌-◌, ◌≤◌, ◌<◌, ◌^◌, ◌≡◌, refl, sym, ap, ◌∙◌, arith, List, [], ◌∷◌, ◌++◌,
  Bytes, All, length, length-append, length-to_le, ltb, ltb→lt, le→ltb, Bool-cases, Result, ok, err,
  inl, inr, >>=-eq-ok, to_le, append_assoc, append-nil,
}
use exfer.Types.Cursor.{
  Cursor, ◌>>=◌, ◌>>◌, pure, need, slice, word, byte, sub_slice, repeat, Reads, ReadsSlice,
  Reads-bind, Reads-bind_pure, Reads-bind_end, Reads-pure, Reads-need, Reads-sub_slice,
  ReadsSlice-run, Reads-slice, Reads-word, SerError,
}
use exfer.Types.Transaction.Data.{
  TxInput, TxOutput, TxWitness, Transaction, IsInput, IsOutput, IsWitness, IsWire,
}
use exfer.Types.Transaction.Encode.{
  serialize_input, encode_input, serialize_output, serialize_witness, serialize_all,
  serialize_header, serialize_body, serialize,
}
use exfer.Types.Transaction.Decode.{
  deserialize_input, deserialize_output, deserialize_witness, min_needed, plausible,
  transaction_cursor, deserialize,
}
use Parts.{
  ReadsSlice-input, ReadsSlice-output, ReadsSlice-witness, length-input, output_size, witness_size,
}

module _ {A : Type 0} (item : Cursor A) (encode : A → Result Bytes SerError) where
  abbrev pub ReadsBack : A → Type 0
  ReadsBack x = (bs : Bytes) → encode x ≡ ok bs → Reads item x bs

  pub Reads-repeat-All :
      (xs : List A) (out : Bytes)
      → All ReadsBack xs
      → serialize_all encode xs ≡ ok out
      → Reads (repeat item (length xs)) xs out
  unfolding repeat serialize_all
  Reads-repeat-All [] out h written = let e : [] ≡ out = cc in rw (← e) (Reads-pure [])
  Reads-repeat-All (x ∷ xs) out (hx, hs) written =
      let (bytes, first, rest) = >>=-eq-ok (encode x) _ written in
      let (more, others, last) = >>=-eq-ok (serialize_all encode xs) _ rest in
      let e : bytes ++ more ≡ out = cc in
      rw (← e) (
        Reads-bind item _ x (x ∷ xs) bytes more (hx bytes first) (
          Reads-bind_pure (repeat item (length xs)) (λ ys. x ∷ ys) xs more
            (Reads-repeat-All xs more hs others)))

  length-serialize_all :
      (k : ℕ) (xs : List A) (out : Bytes)
      → All (λ x. (bs : Bytes) → encode x ≡ ok bs → k ≤ length bs) xs
      → serialize_all encode xs ≡ ok out
      → length xs * k ≤ length out
  unfolding serialize_all
  length-serialize_all k [] out h written = omega arith
  length-serialize_all k (x ∷ xs) out (hx, hs) written =
      let (bytes, first, rest) = >>=-eq-ok (encode x) _ written in
      let (more, others, last) = >>=-eq-ok (serialize_all encode xs) _ rest in
      let e : bytes ++ more ≡ out = cc in
      rw (← e) (
        omega (
          arith,
          hx bytes first,
          length-serialize_all k xs more hs others,
          length-append bytes more,
        ))

Reads-plausible :
    {A : Type 0} (i o : ℕ) (m : Cursor A) (x : A) (bs : Bytes)
    → min_needed i o ≤ length bs
    → Reads m x bs
    → Reads (plausible i o >> m) x bs
unfolding plausible
Reads-plausible i o m x bs fits h = record {
  at = λ pre rest.
      rw (length-append pre (bs ++ rest), length-append bs rest)
        (rw
          (le→ltb (length pre + (length bs + length rest) - length pre) (min_needed i o)
            (omega arith))
          (h.at pre rest));
}

pub All-map {ℓ} :
    {A : Type ℓ} {P Q : A → Type ℓ} (xs : List A) → ((x : A) → P x → Q x) → All P xs → All Q xs
All-map [] f h = tt
All-map (x ∷ xs) f (hx, hs) = (f x hx, All-map xs f hs)

header_bytes :
    (tx : Transaction) {out : Bytes}
    → serialize_header tx ≡ ok out
    → (length tx.inputs < 2 ^ 16)
      × (length tx.outputs < 2 ^ 16)
      × (out ≡ to_le 2 (length tx.inputs) ++ to_le 2 (length tx.outputs))
unfolding serialize_header
header_bytes tx h = elim (Bool-cases (ltb (length tx.inputs) (2 ^ 16))) [
  | inl few ↦ elim (Bool-cases (ltb (length tx.outputs) (2 ^ 16))) [
    | inl small ↦ (ltb→lt _ _ few, ltb→lt _ _ small, cc (rw (few, small) at h))
    | inr big ↦ cc (rw (few, big) at h)
  ]
  | inr many ↦ cc (rw many at h)
]

input-Reads :
    (i : TxInput)
    → IsInput i
    → (bs : Bytes) → encode_input i ≡ ok bs
    → Reads (sub_slice deserialize_input) i bs
input-Reads i h bs e =
    let e' : serialize_input i ≡ bs = cc in
    rw (← e') (Reads-sub_slice deserialize_input i _ (ReadsSlice-input i h))

input_long : (i : TxInput) → IsInput i → (bs : Bytes) → encode_input i ≡ ok bs → 36 ≤ length bs
input_long i h bs e =
    let e' : serialize_input i ≡ bs = cc in rw (← e') (omega (arith, length-input i h))

-- The three lists behind the counts, once their encodings are known.
module _ (tx : Transaction) (w : IsWire tx) (ins outs wits : Bytes)
    (ins_ok : serialize_all encode_input tx.inputs ≡ ok ins)
    (outs_ok : serialize_all serialize_output tx.outputs ≡ ok outs)
    (wits_ok : serialize_all serialize_witness tx.witnesses ≡ ok wits) where
  lists_long : min_needed (length tx.inputs) (length tx.outputs) ≤ length (ins ++ (outs ++ wits))
  lists_long = omega (
    arith,
    w.paired,
    length-serialize_all (sub_slice deserialize_input) encode_input 36 tx.inputs ins
        (All-map tx.inputs input_long w.inputs) ins_ok,
    length-serialize_all (sub_slice deserialize_output) serialize_output 12 tx.outputs outs
        (All-map tx.outputs (λ o _. output_size o) w.outputs) outs_ok,
    length-serialize_all (sub_slice deserialize_witness) serialize_witness 3 tx.witnesses wits
        (All-map tx.witnesses (λ v _. witness_size v) w.witnesses) wits_ok,
    length-append ins (outs ++ wits),
    length-append outs wits,
  )

  Reads-transaction :
      length tx.inputs < 2 ^ 16
      → length tx.outputs < 2 ^ 16
      → Reads transaction_cursor tx
          (to_le 2 (length tx.inputs) ++ (to_le 2 (length tx.outputs) ++ (ins ++ (outs ++ wits))))
  unfolding transaction_cursor
  Reads-transaction few small = Reads-need 4 _ tx _ (omega arith) (
      Reads-bind (word 2) _ (length tx.inputs) tx _ _ (Reads-word 2 (length tx.inputs) few) (
        Reads-bind (word 2) _ (length tx.outputs) tx _ _ (Reads-word 2 (length tx.outputs) small) (
          Reads-plausible (length tx.inputs) (length tx.outputs) _ tx _ lists_long (
            Reads-bind (repeat (sub_slice deserialize_input) (length tx.inputs)) _ tx.inputs tx ins
              (outs ++ wits)
              (Reads-repeat-All (sub_slice deserialize_input) encode_input tx.inputs ins
                (All-map tx.inputs input-Reads w.inputs) ins_ok)
              (Reads-bind (repeat (sub_slice deserialize_output) (length tx.outputs)) _ tx.outputs
                tx outs wits
                (Reads-repeat-All (sub_slice deserialize_output) serialize_output tx.outputs outs
                  (All-map tx.outputs
                    (λ o h bs e.
                      Reads-sub_slice deserialize_output o bs (ReadsSlice-output o bs h e))
                    w.outputs)
                  outs_ok)
                (Reads-bind_pure (repeat (sub_slice deserialize_witness) (length tx.inputs)) _
                  tx.witnesses wits
                  (rw (← w.paired) (
                    Reads-repeat-All (sub_slice deserialize_witness) serialize_witness tx.witnesses
                      wits
                      (All-map tx.witnesses
                        (λ v h bs e.
                          Reads-sub_slice deserialize_witness v bs (ReadsSlice-witness v bs h e))
                        w.witnesses)
                      wits_ok))))))))

regroup :
    (li lo ins outs wits : Bytes) {header body bytes : Bytes}
    → header ≡ li ++ lo
    → ins ++ outs ≡ body
    → header ++ (body ++ wits) ≡ bytes
    → li ++ (lo ++ (ins ++ (outs ++ wits))) ≡ bytes
regroup li lo ins outs wits eh eb e =
    cc (append_assoc li lo ((ins ++ outs) ++ wits), append_assoc ins outs wits)

-- A transaction within the wire limits that `Transaction::serialize` accepts is given back by
-- `Transaction::deserialize`, with the length of its encoding, whatever bytes follow.
pub deserialize-serialize :
    (tx : Transaction) (bytes rest : Bytes)
    → IsWire tx
    → serialize tx ≡ ok bytes
    → deserialize (bytes ++ rest) ≡ ok (tx, length bytes)
unfolding deserialize serialize serialize_body
deserialize-serialize tx bytes rest w written =
    let (header, header_ok, r1) = >>=-eq-ok (serialize_header tx) _ written in
    let (body, body_ok, r2) = >>=-eq-ok (serialize_body tx) _ r1 in
    let (wits, wits_ok, r3) = >>=-eq-ok (serialize_all serialize_witness tx.witnesses) _ r2 in
    let (ins, ins_ok, r4) = >>=-eq-ok (serialize_all encode_input tx.inputs) _ body_ok in
    let (outs, outs_ok, r5) = >>=-eq-ok (serialize_all serialize_output tx.outputs) _ r4 in
    let (few, small, eh) = header_bytes tx header_ok in
    let reads = Reads-transaction tx w ins outs wits ins_ok outs_ok wits_ok few small in
    let whole : header ++ (body ++ wits) ≡ bytes = cc in
    let parts : ins ++ outs ≡ body = cc in
    let e : to_le 2 (length tx.inputs) ++ (to_le 2 (length tx.outputs) ++ (ins ++ (outs ++ wits)))
        ≡ bytes =
      regroup (to_le 2 (length tx.inputs)) (to_le 2 (length tx.outputs)) ins outs wits eh parts
        whole in
    (ReadsSlice-run transaction_cursor tx bytes (rw e at reads)).at rest
