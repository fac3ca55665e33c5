-- ===== src/Consensus/Validation/Accounts.antt =====
-- consensus/validation.rs: what an accepted transaction spends, creates and pays.
use exfer.Common.{
  Bytes, ℕ, ◌+◌, ◌-◌, ◌%◌, ◌^◌, ◌≤◌, ◌<◌, ◌≡◌, ◌∙◌, ap, refl, arith, false, ◌&&◌, not, Option, none,
  some, List, [], ◌∷◌, map, length, ltb, ltb→ge, ◌==◌, Result, ok, reject, ok_or, >>=-eq-ok,
}
use mathlib.Core.Path.{subst}
use exfer.Types.Hash.{Sha}
use exfer.Types.Transaction.{serialize, TxInput, OutPoint, Transaction, sig_message}
use exfer.Chain.Smt.{Smt}
use exfer.Chain.State.Defs.{UtxoSet, UtxoEntry, get, outpoint_key}
use exfer.Chain.State.Apply.{spent_outpoint}
use exfer.Consensus.Cost.{min_fee_with_script_cost}
use exfer.Consensus.Validation.Defs.{
  fee_below_minimum, tx_too_large, cost_overflow, utxo_not_found, coinbase_immature,
  witness_count_mismatch, no_inputs, no_outputs, script_eval_failed, total_above_budget,
}
use exfer.Consensus.Validation.Header.{first_repeat, sized}
use exfer.Consensus.Validation.Distinct.{IsDistinct, first_repeat-IsDistinct, sized-ok}
use exfer.Consensus.Validation.Checks.{reject-ok}
use exfer.Consensus.Validation.Coinbase.{max_tx_size, check_tx_size, check_scripts, total_output}
use exfer.Consensus.Validation.Structure.{check_witness_sizes, refuse_duplicate}
use exfer.Consensus.Validation.Spendable.{output_rules, ok_or-some}
use exfer.Consensus.Validation.Witness.{Setting, build_script_context}
use exfer.Consensus.Validation.Transaction.{
  check_datum_sizes, total_input, zip, check_values, spendable_entry, spendable_entries,
  verify_inputs, check_fee, check_shape, validate_transaction, max_tx_script_budget,
}

ok_same : {A E : Type 0} (a b : A) → ◌≡◌ {A = Result A E} (ok a) (ok b) → a ≡ b
ok_same a b h = cc

module _ (sha : Sha) (smt : Smt) (setting : Setting) where
  -- The entries that the inputs name are in the set, and no coinbase among them is too young.
  abbrev pub AreFunded : ℕ → UtxoSet smt → List TxInput → List UtxoEntry → Type 0
  AreFunded height s [] [] = Unit
  AreFunded height s (i ∷ is) (e ∷ es) =
      (get smt (spent_outpoint i) s ≡ some e)
      × ((e.is_coinbase && ltb (height - e.height) setting.coinbase_maturity) ≡ false)
      × AreFunded height s is es
  AreFunded height s _ _ = ⊥

  pub record IsPaid (tx : Transaction) (s : UtxoSet smt) (height fee cost more_cost : ℕ)
      : Type 0 where
    pub entries : List UtxoEntry
    pub min_fee : ℕ
    pub funded : AreFunded height s tx.inputs entries
    pub distinct : IsDistinct (map spent_outpoint tx.inputs)
    pub balanced : total_input entries ≡ fee + total_output tx.outputs
    pub fits : total_input entries < 2 ^ 64
    pub priced : min_fee_with_script_cost tx cost more_cost ≡ some min_fee
    pub enough : min_fee ≤ fee
    pub within : cost ≤ max_tx_script_budget
    pub bytes : Bytes
    pub written : serialize tx ≡ ok bytes
    pub small : length bytes ≤ max_tx_size

  spendable_entry-found :
      (height : ℕ) (op : OutPoint) (s : UtxoSet smt) (e : UtxoEntry)
      → spendable_entry sha smt setting height op s ≡ ok e
      → (get smt op s ≡ some e)
        × ((e.is_coinbase && ltb (height - e.height) setting.coinbase_maturity) ≡ false)
  unfolding spendable_entry
  spendable_entry-found height op s e h =
      let (e', found, young) = >>=-eq-ok (ok_or (get smt op s) (utxo_not_found op)) _ h in
      let (u, mature, same) =
        >>=-eq-ok
          (reject (e'.is_coinbase && ltb (height - e'.height) setting.coinbase_maturity)
            (coinbase_immature op (height - e'.height)))
          _ young in
      let e_e : e' ≡ e = cc in
      let there : get smt op s ≡ some e' = ok_or-some (get smt op s) (utxo_not_found op) e' found in
      let old =
        (reject-ok (e'.is_coinbase && ltb (height - e'.height) setting.coinbase_maturity)
            (coinbase_immature op (height - e'.height))).0
          mature in
      (there ∙ ap some e_e, rw e_e at old)

  spendable_entries-AreFunded :
      (height : ℕ) (is : List TxInput) (s : UtxoSet smt) (es : List UtxoEntry)
      → spendable_entries sha smt setting height is s ≡ ok es
      → AreFunded height s is es
  unfolding spendable_entries
  spendable_entries-AreFunded height [] s [] h = tt
  spendable_entries-AreFunded height [] s (e ∷ es) h = cc
  spendable_entries-AreFunded height (i ∷ is) s [] h =
      let (e, first, rest) =
        >>=-eq-ok (spendable_entry sha smt setting height (spent_outpoint i) s) _ h in
      let (es, others, last) = >>=-eq-ok (spendable_entries sha smt setting height is s) _ rest in
      cc
  spendable_entries-AreFunded height (i ∷ is) s (e ∷ es) h =
      let (e', first, rest) =
        >>=-eq-ok (spendable_entry sha smt setting height (spent_outpoint i) s) _ h in
      let (es', others, last) = >>=-eq-ok (spendable_entries sha smt setting height is s) _ rest in
      let e_e : e' ≡ e = cc in
      let es_es : es' ≡ es = cc in
      let (found, mature) = spendable_entry-found height (spent_outpoint i) s e (rw e_e at first) in
      (found, mature, spendable_entries-AreFunded height is s es (rw es_es at others))

  check_values-Balanced :
      (input output : ℕ) → check_values input output ≡ ok tt → (input < 2 ^ 64) × (output ≤ input)
  unfolding check_values
  check_values-Balanced input output h = ground (arith, h)

  refuse_duplicate-none : (o : Option OutPoint) → refuse_duplicate o ≡ ok tt → o ≡ none
  unfolding refuse_duplicate
  refuse_duplicate-none none h = refl
  refuse_duplicate-none (some op) h = cc

  check_tx_size-small :
      (tx : Transaction)
      → check_tx_size tx ≡ ok tt
      → (bytes : Bytes) × (serialize tx ≡ ok bytes) × (length bytes ≤ max_tx_size)
  unfolding check_tx_size
  check_tx_size-small tx h =
      let (bytes, written, small) = >>=-eq-ok (sized (serialize tx)) _ h in
      (
        bytes,
        (sized-ok (serialize tx) bytes).0 written,
        ltb→ge max_tx_size (length bytes)
            ((reject-ok (ltb max_tx_size (length bytes)) (tx_too_large (length bytes))).0 small),
      )

  check_shape-parts :
      (tx : Transaction)
      → check_shape sha smt setting tx ≡ ok tt
      → IsDistinct (map spent_outpoint tx.inputs) × (check_tx_size tx ≡ ok tt)
  unfolding check_shape
  check_shape-parts tx h =
      let mismatch = witness_count_mismatch (length tx.inputs) (length tx.witnesses) in
      let (u1, e1, r1) = >>=-eq-ok (reject (length tx.inputs == 0) no_inputs) _ h in
      let (u2, e2, r2) = >>=-eq-ok (reject (length tx.outputs == 0) no_outputs) _ r1 in
      let (u3, e3, r3) =
        >>=-eq-ok (reject (not (length tx.witnesses == length tx.inputs)) mismatch) _ r2 in
      let (u4, e4, r4) = >>=-eq-ok (check_witness_sizes 0 tx.witnesses) _ r3 in
      let (u5, e5, r5) = >>=-eq-ok (check_datum_sizes 0 tx.outputs) _ r4 in
      let (u6, e6, r6) = >>=-eq-ok (check_tx_size tx) _ r5 in
      let (u7, once, r7) =
        >>=-eq-ok (refuse_duplicate (first_repeat (map spent_outpoint tx.inputs) [])) _ r6 in
      (
        (first_repeat-IsDistinct (map spent_outpoint tx.inputs)).0
            (refuse_duplicate-none (first_repeat (map spent_outpoint tx.inputs) []) once),
        e6,
      )

  -- A transaction that `validate_transaction` accepts spends distinct outpoints whose entries are in
  -- the set, none a coinbase below the maturity. Their values are less than 2^64 together, and are
  -- exactly the values of the outputs and the returned fee: nothing is minted. The fee is at least
  -- the smallest fee for the costs that are returned, and the cost of the scripts is within the
  -- budget of a transaction, whose encoding exists and is at most 1 MiB.
  pub validate_transaction-IsPaid :
      (tx : Transaction) (s : UtxoSet smt) (height fee cost more_cost : ℕ)
      → validate_transaction sha smt setting tx s height ≡ ok (fee, (cost, more_cost))
      → IsPaid tx s height fee cost more_cost
  unfolding validate_transaction check_fee
  validate_transaction-IsPaid tx s height fee cost more_cost h =
      let rules = output_rules setting.deserialize_program in
      let (u1, shape, r1) = >>=-eq-ok (check_shape sha smt setting tx) _ h in
      let (entries, funded, r2) =
        >>=-eq-ok (spendable_entries sha smt setting height tx.inputs s) _ r1 in
      let input = total_input entries in
      let output = total_output tx.outputs in
      let (u3, values, r3) = >>=-eq-ok (check_values input output) _ r2 in
      let (u4, scripts, r4) = >>=-eq-ok (check_scripts sha rules 0 tx.outputs) _ r3 in
      let (message, signed, r5) = >>=-eq-ok (sized (sig_message setting.genesis_id tx)) _ r4 in
      let (context, built, r6) =
        >>=-eq-ok (build_script_context sha smt setting.genesis_id tx s height) _ r5 in
      let (costs, verified, r7) =
        >>=-eq-ok (verify_inputs sha smt setting message context 0 (zip entries tx.witnesses)) _
          r6 in
      let (u8, budget, r8) =
        >>=-eq-ok
          (reject (ltb max_tx_script_budget costs.0)
            (script_eval_failed (length tx.inputs - 1) (total_above_budget costs.0)))
          _ r7 in
      let paid = (input - output) % 2 ^ 64 in
      let (u9, priced, last) = >>=-eq-ok (check_fee sha smt setting tx paid costs) _ r8 in
      let (min_fee, smallest, enough) =
        >>=-eq-ok (ok_or (min_fee_with_script_cost tx costs.0 costs.1) cost_overflow) _ priced in
      let same = ok_same (paid, costs) (fee, (cost, more_cost)) last in
      let (fits, covers) = check_values-Balanced input output values in
      let (distinct, size) = check_shape-parts tx shape in
      let (bytes, written, small) = check_tx_size-small tx size in
      let answer : IsPaid tx s height paid costs.0 costs.1 = record {
        entries = entries;
        min_fee = min_fee;
        funded = spendable_entries-AreFunded height tx.inputs s entries funded;
        distinct = distinct;
        balanced = omega (arith, fits, covers);
        fits = fits;
        priced =
            ok_or-some (min_fee_with_script_cost tx costs.0 costs.1) cost_overflow min_fee smallest;
        enough =
            ltb→ge paid min_fee
              ((reject-ok (ltb paid min_fee) (fee_below_minimum paid min_fee)).0 enough);
        within = ltb→ge max_tx_script_budget costs.0 (
            (reject-ok (ltb max_tx_script_budget costs.0)
                (script_eval_failed (length tx.inputs - 1) (total_above_budget costs.0))).0
              budget);
        bytes = bytes;
        written = written;
        small = small;
      } in
      subst (λ r. IsPaid tx s height r.0 r.1.0 r.1.1) same answer
