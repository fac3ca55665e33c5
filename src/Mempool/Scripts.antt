-- ===== src/Mempool/Scripts.antt =====
-- mempool/mempool.rs: `by_script` lists exactly the entries that touch a script.
use exfer.Common.{
  ℕ, zero, suc, ◌≡◌, refl, arith, Bool, true, false, ◌&&◌, ◌||◌, Option, none, some, List, [], ◌∷◌,
  ◌++◌, Bytes, length, leb, if◌then◌else◌, Option-cases, Bool-cases, inl, inr, bytes_eq,
  bytes_eq_iff,
}
use exfer.Common.Map.{Map, Set, lookup, remove, lookup-insert, lookup-remove, bytes_key}
use exfer.Types.Hash.{Hash256}
use exfer.Types.Transaction.{TxInput, TxOutput}
use exfer.Chain.Index.{index, unindex, indexed, indexed-index, indexed-unindex}
use exfer.Chain.Smt.{Smt}
use exfer.Chain.State.Defs.{UtxoSet, get, outpoint_key}
use exfer.Chain.State.Apply.{spent_outpoint}
use exfer.Mempool.Defs.{
  Mempool, MempoolEntry, SpentInput, Density, density_key, new, resolve_inputs, output_scripts,
  spent_scripts, scripts_of, index_all, unindex_all, index_entry, deindex_entry, forget,
  evict_first, evict_lowest,
}
use exfer.Mempool.Admit.{admit, is_full, evict_while_full, evict_for, make_room}
use exfer.Mempool.Spending.{either_way}

-- An output pays to the script; an input that was resolved held it.
unfoldable pub pays : Bytes → List TxOutput → Bool
pays script [] = false
pays script (o ∷ os) = bytes_eq o.script script || pays script os

unfoldable pub held : Bytes → List SpentInput → Bool
held script [] = false
held script (s ∷ ss) = bytes_eq s.script script || held script ss

-- An input spends an entry of the set that is locked to the script.
unfoldable pub funds : (smt : Smt) → Bytes → UtxoSet smt → List TxInput → Bool
funds smt script utxos [] = false
funds smt script utxos (i ∷ is) =
    elim (get smt (spent_outpoint i) utxos) [
      | none ↦ false
      | some u ↦ bytes_eq u.output.script script
    ]
    || funds smt script utxos is

unfoldable pub touches : Bytes → Option MempoolEntry → Bool
touches script none = false
touches script (some e) = pays script e.tx.outputs || held script e.spent_inputs

pub record IsListed (p : Mempool) : Type 0 where
  pub named : (id : Hash256) (e : MempoolEntry) → lookup id p.entries ≡ some e → e.tx_id ≡ id
  pub listed :
      (script : Bytes) (id : Hash256)
      → indexed script id p.by_script ≡ touches script (lookup id p.entries)

pub IsListed-new : IsListed new
unfolding new lookup touches indexed
IsListed-new = record { named = λ id e at. cc; listed = λ script id. refl }

unfoldable among : Bytes → List Bytes → Bool
among script [] = false
among script (s ∷ ss) = bytes_eq s script || among script ss

among-output_scripts :
    (script : Bytes) (os : List TxOutput) (ss : List SpentInput)
    → among script (output_scripts os ++ spent_scripts ss) ≡ (pays script os || held script ss)
unfolding among output_scripts spent_scripts pays held
among-output_scripts script [] [] = refl
among-output_scripts script [] (s ∷ ss) = ground (arith, among-output_scripts script [] ss)
among-output_scripts script (o ∷ os) ss = ground (arith, among-output_scripts script os ss)

indexed-index_all :
    (script : Bytes) (k j : Hash256) (scripts : List Bytes) (m : Map Bytes (Set Hash256))
    → indexed script j (index_all k scripts m)
      ≡ (if bytes_eq k j && among script scripts then true else indexed script j m)
unfolding index_all among
indexed-index_all script k j [] m = ground arith
indexed-index_all script k j (s ∷ ss) m =
    ground (arith, indexed-index_all script k j ss (index s k m), indexed-index s script k j m)

indexed-unindex_all :
    (script : Bytes) (k j : Hash256) (scripts : List Bytes) (m : Map Bytes (Set Hash256))
    → indexed script j (unindex_all k scripts m)
      ≡ (if bytes_eq k j && among script scripts then false else indexed script j m)
unfolding unindex_all among
indexed-unindex_all script k j [] m = ground arith
indexed-unindex_all script k j (s ∷ ss) m =
    ground
      (arith, indexed-unindex_all script k j ss (unindex s k m), indexed-unindex s script k j m)

IsListed-without :
    (p q : Mempool) (id : Hash256) (e : MempoolEntry)
    → IsListed p
    → lookup id p.entries ≡ some e
    → q.entries ≡ remove id p.entries
    → q.by_script ≡ deindex_entry e p.by_script
    → IsListed q
unfolding touches deindex_entry scripts_of
IsListed-without p q id e l at same_entries same_scripts = record {
  named = λ j f h.
      let h' = rw (same_entries, lookup-remove id j p.entries) at h in
      l.named j f (ground (arith, h'));
  listed = λ script j.
      rw
        (
          same_entries,
          same_scripts,
          lookup-remove id j p.entries,
          l.named id e at,
          indexed-unindex_all script id j (scripts_of e) p.by_script,
          among-output_scripts script e.tx.outputs e.spent_inputs,
        )
        (ground (arith, l.listed script j, at, bytes_eq_iff id j));
}

pub IsListed-admit :
    (e : MempoolEntry) (tx_bytes : ℕ) (p : Mempool)
    → IsListed p
    → lookup e.tx_id p.entries ≡ none
    → IsListed (admit e tx_bytes p)
unfolding admit touches index_entry scripts_of
IsListed-admit e tx_bytes p l absent = record {
  named = λ j f h.
      let h' = rw (lookup-insert e.tx_id j e p.entries) at h in
      elim (Bool-cases (bytes_eq e.tx_id j)) [
        | inl same ↦
            let e_f : e ≡ f = cc (rw same at h') in rw (← e_f) ((bytes_eq_iff e.tx_id j).0 same)
        | inr other ↦ l.named j f (rw other at h')
      ];
  listed = λ script j.
      rw
        (
          lookup-insert e.tx_id j e p.entries,
          indexed-index_all script e.tx_id j (scripts_of e) p.by_script,
          among-output_scripts script e.tx.outputs e.spent_inputs,
        )
        (ground (arith, l.listed script j, absent, bytes_eq_iff e.tx_id j));
}

-- The order of eviction does not matter to the scripts.
IsListed-reranked :
    (p : Mempool) (ranks : Map Density Hash256)
    → IsListed p
    → IsListed (record p { by_fee_density = ranks })
IsListed-reranked p ranks l = record { named = l.named; listed = l.listed }

IsListed-evict_first :
    (ranks : Map Density Hash256) (p : Mempool) → IsListed p → IsListed (evict_first ranks p)
unfolding evict_first forget
IsListed-evict_first [] p l = l
IsListed-evict_first ((key, id) ∷ rest) p l = elim (Option-cases (lookup id p.entries)) [
  | inl absent ↦ rw (evict_first, absent) (IsListed-reranked p _ l)
  | inr (f, at) ↦ rw (evict_first, at) (IsListed-without p _ id f l at refl refl)
]

IsListed-evict_while_full :
    (rounds tx_bytes : ℕ) (p : Mempool) → IsListed p → IsListed (evict_while_full rounds tx_bytes p)
unfolding evict_while_full evict_lowest
IsListed-evict_while_full zero tx_bytes p l = l
IsListed-evict_while_full (suc rounds) tx_bytes p l =
    let later =
      IsListed-evict_while_full rounds tx_bytes (evict_lowest p)
        (IsListed-evict_first p.by_fee_density p l) in
    elim (Bool-cases (is_full tx_bytes p)) [
      | inr roomy ↦ rw (evict_while_full, roomy) l
      | inl full ↦ rw (evict_while_full, full) (either_way p.entries p _ IsListed l later)
    ]

IsListed-evict_for :
    (fee_density tx_bytes : ℕ) (ranks : Map Density Hash256) (p : Mempool)
    → IsListed p
    → IsListed (evict_for fee_density tx_bytes ranks p).1
unfolding evict_for
IsListed-evict_for fee_density tx_bytes [] p l = l
IsListed-evict_for fee_density tx_bytes (((worst, id), id') ∷ rest) p l =
    elim (Bool-cases (leb fee_density worst)) [
      | inl low ↦ rw (evict_for, low) l
      | inr high ↦ rw (evict_for, high) (IsListed-evict_while_full (length p.entries) tx_bytes p l)
    ]

pub IsListed-make_room :
    (fee_density tx_bytes : ℕ) (p : Mempool)
    → IsListed p
    → IsListed (make_room fee_density tx_bytes p).1
unfolding make_room
IsListed-make_room fee_density tx_bytes p l = elim (Bool-cases (is_full tx_bytes p)) [
  | inl full ↦ rw (make_room, full) (IsListed-evict_for fee_density tx_bytes p.by_fee_density p l)
  | inr roomy ↦ rw (make_room, roomy) l
]

pub held-resolve_inputs :
    (smt : Smt) (script : Bytes) (is : List TxInput) (utxos : UtxoSet smt)
    → held script (resolve_inputs smt is utxos) ≡ funds smt script utxos is
unfolding held resolve_inputs funds
held-resolve_inputs smt script [] utxos = refl
held-resolve_inputs smt script (i ∷ is) utxos =
    elim (Option-cases (get smt (spent_outpoint i) utxos)) [
      | inl absent ↦ rw (resolve_inputs, funds, absent) (held-resolve_inputs smt script is utxos)
      | inr (u, there) ↦
          rw (resolve_inputs, funds, there)
            (ground (arith, held-resolve_inputs smt script is utxos))
    ]
