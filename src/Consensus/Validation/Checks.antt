-- ===== src/Consensus/Validation/Checks.antt =====
-- consensus/validation.rs: each check accepts exactly the blocks that its rule accepts.
use exfer.Common.{
  ltb→ge, le→ltb, ◌∙◌, ℕ, ◌+◌, ◌≡◌, refl, ◌↔◌, arith, Bool, true, false, not, Bool-cases, inl, inr,
  Option, none, some, List, [], ◌∷◌, Bytes, bytes_eq, bytes_eq_iff, All, length, ltb, leb, ◌==◌,
  Result, ok, err, reject, ◌>>◌, >>=-eq-ok,
}
use exfer.Common.Map.{bytes_key}
use exfer.Types.Hash.{Sha, zero_hash}
use exfer.Types.Merkle.{merkle_root}
use exfer.Types.Transaction.{OutPoint, Transaction, is_coinbase, wtx_id}
use exfer.Types.Block.{BlockHeader, Block, block_id, serialize_block, max_block_size}
use exfer.Chain.State.Defs.{outpoint_key}
use exfer.Consensus.Pow.{Argon2, PowError, verify_pow}
use exfer.Consensus.Validation.Defs.{
  ValidationError, hash_all, median_time_past, compute_tx_root, ds_txroot,
}
use exfer.Consensus.Validation.Header.{
  Check, max_timestamp_drift, max_timestamp_gap, sized, check_at_most, check_height, check_median,
  check_drift, check_gap, check_size, no_sentinel, check_coinbase, first_repeat, spent_by,
  skip_first, refuse_repeat, check_spends, require_work, check_prev, check_root, check_work,
}
use exfer.Consensus.Validation.Distinct.{IsDistinct, first_repeat-IsDistinct, sized-ok}
use exfer.Consensus.Validation.Rules.{
  HasCoinbase, HasRoot, HasSize, HasWork, IsAfterMedian, IsCloseTo, IsLinked, IsNextHeight,
  IsNotAhead, IsWithin,
}

-- Two checks, one after the other.
pub both :
    {P Q : Type 0} {first rest : Check}
    → (first ≡ ok tt) ↔ P
    → (rest ≡ ok tt) ↔ Q
    → (first >> rest ≡ ok tt) ↔ (P × Q)
both {first = first} p q = (
  λ e. let (done, one, two) = >>=-eq-ok first _ e in (p.0 one, q.0 two),
  λ (one, two). rw (p.1 one) (q.1 two),
)

pub reject-ok : (b : Bool) (e : ValidationError) → (reject {0} b e ≡ ok tt) ↔ (b ≡ false)
reject-ok true e = (λ h. cc, λ h. cc)
reject-ok false e = (λ h. refl, λ h. refl)

pub reject-not : (b : Bool) (e : ValidationError) → (reject {0} (not b) e ≡ ok tt) ↔ (b ≡ true)
reject-not true e = (λ h. refl, λ h. refl)
reject-not false e = (λ h. cc, λ h. cc)

pub reject-bytes :
    (a b : Bytes) (e : ValidationError) → (reject {0} (not (bytes_eq a b)) e ≡ ok tt) ↔ (a ≡ b)
reject-bytes a b e =
    let (there, back) = reject-not (bytes_eq a b) e in
    let (eq, test) = bytes_eq_iff a b in (λ h. eq (there h), λ h. back (test h))

pub reject-nat : (a b : ℕ) (e : ValidationError) → (reject {0} (not (a == b)) e ≡ ok tt) ↔ (a ≡ b)
reject-nat a b e = (λ h. ground arith, λ h. ground (arith, h))

pub check_at_most-IsWithin :
    (x base room : ℕ) (bad : ℕ → ValidationError)
    → (check_at_most x base room bad ≡ ok tt) ↔ IsWithin x base room
unfolding check_at_most
check_at_most-IsWithin x base room bad = (
  λ h. ground (arith, h, (reject-ok (ltb (base + room) x) (bad (base + room))).0),
  λ (fits, small). ground (arith, fits, small),
)

pub check_height-IsNextHeight :
    (parent : Option BlockHeader) (h : BlockHeader)
    → (check_height parent h ≡ ok tt) ↔ IsNextHeight parent h
unfolding check_height
check_height-IsNextHeight none h = reject-nat h.height 0 _
check_height-IsNextHeight (some p) h =
    (λ e. ground (arith, e), λ (fits, next). ground (arith, fits, next))

pub check_median-IsAfterMedian :
    (ts : List ℕ) (h : BlockHeader) → (check_median ts h ≡ ok tt) ↔ IsAfterMedian ts h
unfolding check_median
check_median-IsAfterMedian [] h = (λ e. tt, λ e. refl)
check_median-IsAfterMedian (t ∷ ts) h =
    let mtp = median_time_past (t ∷ ts) in
    let (there, back) = reject-ok (leb h.timestamp mtp) _ in
    (λ e. ground (arith, there e), λ e. back (ground (arith, e)))

pub check_drift-IsNotAhead :
    (clock : Option ℕ) (h : BlockHeader) → (check_drift clock h ≡ ok tt) ↔ IsNotAhead clock h
unfolding check_drift
check_drift-IsNotAhead none h = (λ e. tt, λ e. refl)
check_drift-IsNotAhead (some wc) h = check_at_most-IsWithin h.timestamp wc max_timestamp_drift _

pub check_gap-IsCloseTo :
    (parent : Option BlockHeader) (h : BlockHeader)
    → (check_gap parent h ≡ ok tt) ↔ IsCloseTo parent h
unfolding check_gap
check_gap-IsCloseTo none h = (λ e. tt, λ e. refl)
check_gap-IsCloseTo (some p) h = check_at_most-IsWithin h.timestamp p.timestamp max_timestamp_gap _

pub check_size-HasSize : (block : Block) → (check_size block ≡ ok tt) ↔ HasSize block
unfolding check_size
check_size-HasSize block = (
  λ e.
      let (bytes, written, small) = >>=-eq-ok (sized (serialize_block block)) _ e in
      (
        bytes,
        (sized-ok (serialize_block block) bytes).0 written,
        ltb→ge max_block_size (length bytes) ((reject-ok _ _).0 small),
      ),
  λ (bytes, written, small). rw (
    (sized-ok (serialize_block block) bytes).1 written,
    le→ltb max_block_size (length bytes) small,
  ),
)

no_sentinel-All :
    (i : ℕ) (txs : List Transaction)
    → (no_sentinel i txs ≡ ok tt) ↔ All (λ t. is_coinbase t ≡ false) txs
unfolding no_sentinel
no_sentinel-All i [] = (λ e. tt, λ e. refl)
no_sentinel-All i (tx ∷ txs) =
    let (there, back) = no_sentinel-All (i + 1) txs in
    (
      λ e. elim (Bool-cases (is_coinbase tx)) [
        | inl is ↦ absurd (cc (rw is at e))
        | inr isnt ↦ (isnt, there (rw isnt at e))
      ],
      λ (isnt, rest). rw isnt (back rest),
    )

pub check_coinbase-HasCoinbase :
    (txs : List Transaction) → (check_coinbase txs ≡ ok tt) ↔ HasCoinbase txs
unfolding check_coinbase
check_coinbase-HasCoinbase [] = (λ e. cc, λ e. absurd e)
check_coinbase-HasCoinbase (tx ∷ txs) =
    let (there, back) = no_sentinel-All 1 txs in
    (
      λ e. elim (Bool-cases (is_coinbase tx)) [
        | inr isnt ↦ absurd (cc (rw isnt at e))
        | inl is ↦ (is, there (rw is at e))
      ],
      λ (is, rest). rw is (back rest),
    )

refuse_repeat-none : (o : Option OutPoint) → (refuse_repeat o ≡ ok tt) ↔ (o ≡ none)
unfolding refuse_repeat
refuse_repeat-none none = (λ e. refl, λ e. refl)
refuse_repeat-none (some op) = (λ e. cc, λ e. cc)

pub check_spends-IsDistinct :
    (txs : List Transaction) → (check_spends txs ≡ ok tt) ↔ IsDistinct (spent_by (skip_first txs))
unfolding check_spends
check_spends-IsDistinct txs =
    let outpoints = spent_by (skip_first txs) in
    let (there, back) = first_repeat-IsDistinct outpoints in
    let (free, refused) = refuse_repeat-none (first_repeat outpoints []) in
    (λ e. there (free e), λ e. refused (back e))

require_work-true : (r : Result Bool PowError) → (require_work r ≡ ok tt) ↔ (r ≡ ok true)
unfolding require_work
require_work-true (ok true) = (λ h. refl, λ h. refl)
require_work-true (ok false) = (λ h. cc, λ h. cc)
require_work-true (err e) = (λ h. cc, λ h. cc)

module _ (sha : Sha) where
  pub check_prev-IsLinked :
      (parent : Option BlockHeader) (h : BlockHeader)
      → (check_prev sha parent h ≡ ok tt) ↔ IsLinked sha parent h
  unfolding check_prev
  check_prev-IsLinked none h = reject-bytes h.prev_block_id zero_hash _
  check_prev-IsLinked (some p) h = reject-bytes h.prev_block_id (block_id sha p) _

  pub check_root-HasRoot : (block : Block) → (check_root sha block ≡ ok tt) ↔ HasRoot sha block
  unfolding check_root compute_tx_root sized
  check_root-HasRoot block = (
    λ e.
        let (root, computed, same) =
          >>=-eq-ok (sized (compute_tx_root sha block.transactions)) _ e in
        let done = (sized-ok (compute_tx_root sha block.transactions) root).0 computed in
        let (ids, all, last) = >>=-eq-ok (hash_all (wtx_id sha) block.transactions) _ done in
        (ids, all, (reject-bytes block.header.tx_root root _).0 same ∙ cc),
    λ (ids, all, same).
        let root = merkle_root sha ds_txroot ids in
        rw all ((reject-bytes block.header.tx_root root _).1 same),
  )

  module _ (argon2 : Argon2) where
    pub check_work-HasWork :
        (skip_pow : Bool) (h : BlockHeader)
        → (check_work sha argon2 skip_pow h ≡ ok tt) ↔ HasWork sha argon2 skip_pow h
    unfolding check_work
    check_work-HasWork true h = (λ e. tt, λ e. refl)
    check_work-HasWork false h = require_work-true (verify_pow sha argon2 h)
