-- ===== src/Mempool/Admitted.antt =====
-- mempool/mempool.rs: what an admission leaves in the pool.
use exfer.Common.{
  ℕ, ◌≡◌, refl, ◌∙◌, arith, false, ◌||◌, none, some, Bytes, Result-cases, ok, inl, inr,
  bytes_eq_iff,
}
use exfer.Common.Map.{lookup, lookup-insert, bytes_key}
use exfer.Types.Hash.{Hash256, Sha}
use exfer.Types.Transaction.{Transaction, tx_id, is_coinbase}
use exfer.Chain.Index.{indexed}
use exfer.Chain.Smt.{Smt}
use exfer.Chain.State.Defs.{UtxoSet, outpoint_key}
use exfer.Mempool.Defs.{Mempool, MempoolEntry, density_key, size_or}
use exfer.Mempool.Admit.{admit, density_of, new_entry, add_validated}
use exfer.Mempool.Spending.{IsTracked}
use exfer.Mempool.Admission.{screen-ok, make_room_lem, add_validated_parts, add_validated-err}
use exfer.Mempool.Scripts.{
  pays, funds, touches, held-resolve_inputs, IsListed, IsListed-admit, IsListed-make_room,
}

module _ (sha : Sha) (smt : Smt) where
  -- What the parts of an admission leave.
  IsListed-admitted :
      (tx : Transaction) (fee script_cost validation_cost : ℕ) (resolved : UtxoSet smt)
      (p q : Mempool) (id : Hash256)
      → add_validated sha smt tx fee script_cost validation_cost resolved p ≡ (ok id, q)
      → IsTracked p
      → IsListed p
      → IsListed q
  IsListed-admitted tx fee script_cost validation_cost resolved p q id h t l =
      let (cost, passed, priced, roomy, end) =
        add_validated_parts sha smt tx fee script_cost validation_cost resolved p q id h in
      let (named, absent, free, minted) = screen-ok sha tx p id passed in
      let (t1, less) = make_room_lem (density_of fee cost) (size_or 0 tx) p t in
      rw (← end) (
        IsListed-admit (new_entry smt tx id fee cost resolved) (size_or 0 tx) _
          (IsListed-make_room (density_of fee cost) (size_or 0 tx) p l) (less.entries id absent))

  -- `add_validated` keeps the index of the pool, on every branch: if an identifier stood under a
  -- script exactly when its entry pays to the script or spends an output that held it, then so after.
  pub IsListed-add_validated :
      (tx : Transaction) (fee script_cost validation_cost : ℕ) (resolved : UtxoSet smt)
      (p : Mempool)
      → IsTracked p
      → IsListed p
      → IsListed (add_validated sha smt tx fee script_cost validation_cost resolved p).1
  IsListed-add_validated tx fee script_cost validation_cost resolved p t l =
      let run = add_validated sha smt tx fee script_cost validation_cost resolved p in
      elim (Result-cases run.0) [
        | inr (x, failed) ↦
            rw
              (add_validated-err sha smt tx fee script_cost validation_cost resolved p run.1 x
                (λ i. (failed i, run.1)))
              l
        | inl (id, done) ↦
            IsListed-admitted tx fee script_cost validation_cost resolved p run.1 id
              (λ i. (done i, run.1)) t l
      ]

  -- On a pool whose bookkeeping of outpoints and of scripts is in step with its entries: an admitted
  -- transaction is no coinbase, its identifier was new, and it stands in the pool under that
  -- identifier, with its fee. Under a script the identifier is listed exactly if an output of the
  -- transaction pays to the script or an input spends an entry of the given set that is locked to it,
  -- and the bookkeeping of scripts is in step with all entries again.
  pub add_validated-ok :
      (tx : Transaction) (fee script_cost validation_cost : ℕ) (resolved : UtxoSet smt)
      (p q : Mempool) (id : Hash256)
      → add_validated sha smt tx fee script_cost validation_cost resolved p ≡ (ok id, q)
      → IsTracked p
      → IsListed p
      → (tx_id sha tx ≡ ok id)
        × (is_coinbase tx ≡ false)
        × (lookup id p.entries ≡ none)
        × ((e : MempoolEntry) × (lookup id q.entries ≡ some e) × (e.tx ≡ tx) × (e.fee ≡ fee))
        × ((script : Bytes)
            → indexed script id q.by_script
              ≡ (pays script tx.outputs || funds smt script resolved tx.inputs))
        × IsListed q
  unfolding admit touches
  add_validated-ok tx fee script_cost validation_cost resolved p q id h t l =
      let (cost, passed, priced, roomy, end) =
        add_validated_parts sha smt tx fee script_cost validation_cost resolved p q id h in
      let (named, absent, free, minted) = screen-ok sha tx p id passed in
      let e = new_entry smt tx id fee cost resolved in
      let there : lookup id q.entries ≡ some e =
        rw (← end, lookup-insert id id e _) (ground (arith, bytes_eq_iff id id)) in
      let after = IsListed-admitted tx fee script_cost validation_cost resolved p q id h t l in
      (
        named,
        minted,
        absent,
        (e, there, refl, refl),
        λ script.
            after.listed script id
            ∙ rw (there, touches, held-resolve_inputs smt script tx.inputs resolved) refl,
        after,
      )
