-- ===== src/Types/Block/RoundTrip.antt =====
-- types/block.rs: what is serialized is read back.
use exfer.Common.{
  ℕ, ◌%◌, ◌^◌, ◌≤◌, ◌≡◌, arith, ◌++◌, Bytes, length, length-append, to_le, ok, >>=-eq-ok, le→ltb,
}
use exfer.Types.Cursor.{
  Cursor, slice, word, sub_slice, repeat, Reads, Reads-bind, Reads-bind_pure, Reads-need,
  Reads-slice, Reads-word, ReadsSlice-run, Reads-sub_slice,
}
use exfer.Types.Transaction.{serialize, serialize_all, deserialize}
use exfer.Types.Transaction.RoundTrip.{deserialize-serialize, Reads-repeat-All, All-map}
use exfer.Types.Block.Encode.{
  BlockHeader, IsHeader, serialize_block_header, Block, serialize_block, IsWireBlock, max_txs,
}
use exfer.Types.Block.Decode.{
  block_header_cursor, bounded_transactions, block_cursor, deserialize_block,
}

Reads-header :
    (h : BlockHeader) → IsHeader h → Reads block_header_cursor h (serialize_block_header h)
unfolding block_header_cursor serialize_block_header
Reads-header h w = Reads-bind (word 4) _ h.version h _ _ (Reads-word 4 h.version w.version) (
    Reads-bind (word 8) _ h.height h _ _ (Reads-word 8 h.height w.height) (
      Reads-bind (slice 32) _ h.prev_block_id h _ _ (Reads-slice 32 h.prev_block_id w.prev_block_id)
        (Reads-bind (word 8) _ h.timestamp h _ _ (Reads-word 8 h.timestamp w.timestamp) (
          Reads-bind (slice 32) _ h.difficulty_target h _ _
            (Reads-slice 32 h.difficulty_target w.difficulty_target)
            (Reads-bind (word 8) _ h.nonce h _ _ (Reads-word 8 h.nonce w.nonce) (
              Reads-bind (slice 32) _ h.tx_root h _ _ (Reads-slice 32 h.tx_root w.tx_root) (
                Reads-bind_pure (slice 32) _ h.state_root _
                  (Reads-slice 32 h.state_root w.state_root))))))))

-- A header takes 156 bytes.
pub length-header : (h : BlockHeader) → IsHeader h → length (serialize_block_header h) ≡ 156
unfolding serialize_block_header
length-header h w = rw (length-append h.prev_block_id) (
    rw (length-append h.difficulty_target) (
      rw (length-append h.tx_root h.state_root)
        (omega (arith, w.prev_block_id, w.difficulty_target, w.tx_root, w.state_root))))

Reads-bounded :
    (count : ℕ) (m : Cursor Block) (b : Block) (bs : Bytes)
    → count ≤ max_txs
    → Reads m b bs
    → Reads (bounded_transactions count m) b bs
unfolding bounded_transactions
Reads-bounded count m b bs h r = rw (le→ltb max_txs count h) r

-- A block within the wire limits that `Block::serialize` accepts is given back by
-- `Block::deserialize`, with the length of its encoding, whatever bytes follow.
pub deserialize_block-serialize_block :
    (b : Block) (bytes rest : Bytes)
    → IsWireBlock b
    → serialize_block b ≡ ok bytes
    → deserialize_block (bytes ++ rest) ≡ ok (b, length bytes)
unfolding deserialize_block block_cursor serialize_block
deserialize_block-serialize_block b bytes rest w written =
    let (txs, txs_ok, last) = >>=-eq-ok (serialize_all serialize b.transactions) _ written in
    let n = length b.transactions in
    let count : n % 2 ^ 32 ≡ n = omega (arith, w.few) in
    let e : serialize_block_header b.header ++ (to_le 4 n ++ txs) ≡ bytes = cc (rw count at last) in
    (ReadsSlice-run block_cursor b bytes (
        rw (← e) (
          Reads-need 160 _ b _ (rw length-append (omega (arith, length-header b.header w.header))) (
            Reads-bind block_header_cursor _ b.header b _ _ (Reads-header b.header w.header) (
              Reads-bind (word 4) _ n b _ _ (Reads-word 4 n (omega (arith, w.few))) (
                Reads-bounded n _ b txs w.few (
                  Reads-bind_pure (repeat (sub_slice deserialize) n) _ b.transactions txs (
                    Reads-repeat-All (sub_slice deserialize) serialize b.transactions txs
                      (All-map b.transactions
                        (λ tx wire bs written.
                          Reads-sub_slice deserialize tx bs
                            (record { at = λ more. deserialize-serialize tx bs more wire written }))
                        w.transactions)
                      txs_ok)))))))).at
      rest
