-- ===== src/Script/Sufficient.antt =====
-- script/eval.rs and script/cost.rs: under the budget of the static cost the evaluator does not run
-- out of steps or cells.
use exfer.Common.{
  ℕ, zero, suc, ◌+◌, ◌-◌, ◌≤◌, ◌≡◌, ◌≢◌, arith, max, true, Bool-cases, Option-cases, inl, inr,
  Option, some, List, [], ◌∷◌, Bytes, length, ltb, get_elem?, Result, ok, err, ◌>>=◌, >>=-eq-ok,
}
use native.Mathlib.Nat.{mul_comm}
use exfer.Script.Value.Defs.{Value}
use exfer.Script.Jets.{ScriptContext, runtime_cost, jet_cost, runtime_cost_le_jet_cost}
use exfer.Script.Ast.{NodeId, Combinator, Program, get}
use exfer.Script.Cost.{
  ScriptCost, CostError, ListSizes, child_cost, node_cost, costs_of, compute_cost, check_structure,
}
use exfer.Script.Typecheck.{TypedNode, TypeError, typecheck}
use exfer.Script.Eval.{
  Run, EvalState, EvalError, Host, budget_exceeded, hidden_node, node_out_of_bounds,
  recursion_depth_exceeded, eval_combinator, eval_node, eval_found, max_eval_depth, Budget,
  eval_checked, eval_typed, unconsumed, evaluate_with_context,
}
use exfer.Script.Within.{
  IsPaid, Spent, Within, Within-pure, Within-fail, Within-le, Within-bind, Within-consume_step,
  Within-consume_cell, Within-consume_steps, Within-track_memory,
}
use exfer.Script.Priced.{costs_of-Priced}
use exfer.Script.Totals.{
  ok_or-eq-ok, cost-Totals, comp_cost-Totals, pair_cost-Totals, one_more_step-Totals,
  one_more_cell-Totals, case_cost-Totals, const_cost-positive, fold_cost-Totals,
}
use exfer.Script.Affordable.{
  is_static, all_static, Paid, Eval, Within-comp, Within-pair, Within-eval_take, Within-eval_drop,
  Within-eval_case, Within-eval_fold, Within-jet_result, Within-read_typed_value,
}

-- The cost of a child is read from the table.
child_cost-eq :
    (children : NodeId → Option ScriptCost) (f : NodeId)
    (next : ScriptCost → Result ScriptCost CostError) (c : ScriptCost)
    → (child_cost children f >>= next) ≡ ok c
    → (fc : ScriptCost) × (children f ≡ some fc) × (next fc ≡ ok c)
child_cost-eq children f next c h =
    let (fc, e, h') = >>=-eq-ok (child_cost children f) next h in
    (fc, ok_or-eq-ok (children f) _ fc e, h')

all_static-get_elem? :
    (nodes : List Combinator) (i : ℕ) (node : Combinator)
    → all_static nodes ≡ true
    → get_elem? nodes i ≡ some node
    → is_static node ≡ true
all_static-get_elem? [] i node h g = cc
all_static-get_elem? (x ∷ rest) zero node h g = ground (arith, g, h)
all_static-get_elem? (x ∷ rest) (suc i) node h g =
    all_static-get_elem? rest i node (ground (arith, h)) g

module _ (host : Host) (witness_data : Bytes) (program : Program) (context : ScriptContext)
    (typed_nodes : List TypedNode) where
  -- The cost of a node pays for it, when the costs of its children pay for them.
  Within-eval_combinator :
      (call : NodeId → Value → Run Value) (id : NodeId) (node : Combinator) (input : Value)
      (children : NodeId → Option ScriptCost) (n : ℕ) (c : ScriptCost)
      → node_cost node children n ≡ ok c
      → is_static node ≡ true
      → ((f : NodeId) (fc : ScriptCost)
          → children f ≡ some fc
          → Paid host witness_data program context typed_nodes call f fc)
      → Within
          (Eval host witness_data program context typed_nodes call id node input)
          c.steps
          c.cells
  unfolding eval_combinator node_cost
  Within-eval_combinator call id Combinator.iden input children n c h s paid =
      let t = cost-Totals c 0 1 h in
      Within-le _ _ _ _ _
        (Within-bind _ _ 1 0 0 0 Within-consume_step
          λ done. Within-bind _ _ 0 0 0 0 (Within-track_memory _) λ done. Within-pure input)
        (omega (arith, t.steps_eq)) (omega arith)
  Within-eval_combinator call id Combinator.unit input children n c h s paid =
      let t = cost-Totals c 0 1 h in
      Within-le _ _ _ _ _ (Within-bind _ _ 1 0 0 0 Within-consume_step λ done. Within-pure _)
        (omega (arith, t.steps_eq)) (omega arith)
  Within-eval_combinator call id (Combinator.comp f g) input children n c h s paid =
      let (fc, ef, h1) = child_cost-eq children f _ c h in
      let (gc, eg, h2) = child_cost-eq children g _ c h1 in
      let t = comp_cost-Totals fc gc c h2 in
      Within-le _ _ _ _ _
        (Within-comp host witness_data program context typed_nodes call id f g fc gc input
          (paid f fc ef) (paid g gc eg))
        (omega (arith, t.steps_eq)) (omega (arith, t.cells_eq))
  Within-eval_combinator call id (Combinator.pair f g) input children n c h s paid =
      let (fc, ef, h1) = child_cost-eq children f _ c h in
      let (gc, eg, h2) = child_cost-eq children g _ c h1 in
      let t = pair_cost-Totals fc gc c h2 in
      Within-le _ _ _ _ _
        (Within-pair host witness_data program context typed_nodes call id f g fc gc input
          (paid f fc ef) (paid g gc eg))
        (omega (arith, t.steps_eq)) (omega (arith, t.cells_eq))
  Within-eval_combinator call id (Combinator.take f) input children n c h s paid =
      let (fc, ef, h1) = child_cost-eq children f _ c h in
      let t = one_more_step-Totals fc c h1 in
      Within-le _ _ _ _ _
        (Within-bind _ _ 1 0 _ _ Within-consume_step λ done.
          Within-eval_take host witness_data program context typed_nodes call f fc input
            (paid f fc ef))
        (omega (arith, t.steps_eq)) (omega (arith, t.cells_eq))
  Within-eval_combinator call id (Combinator.drop f) input children n c h s paid =
      let (fc, ef, h1) = child_cost-eq children f _ c h in
      let t = one_more_step-Totals fc c h1 in
      Within-le _ _ _ _ _
        (Within-bind _ _ 1 0 _ _ Within-consume_step λ done.
          Within-eval_drop host witness_data program context typed_nodes call f fc input
            (paid f fc ef))
        (omega (arith, t.steps_eq)) (omega (arith, t.cells_eq))
  Within-eval_combinator call id (Combinator.inj_l f) input children n c h s paid =
      let (fc, ef, h1) = child_cost-eq children f _ c h in
      let t = one_more_cell-Totals fc c h1 in
      Within-le _ _ _ _ _
        (Within-bind _ _ 1 0 _ _ Within-consume_step λ done.
          Within-bind _ _ 0 1 _ _ Within-consume_cell λ done.
            Within-bind _ _ _ _ 0 0 (paid f fc ef input)
              λ result. Within-bind _ _ 0 0 0 0 (Within-track_memory _) λ done. Within-pure _)
        (omega (arith, t.steps_eq)) (omega (arith, t.cells_eq))
  Within-eval_combinator call id (Combinator.inj_r f) input children n c h s paid =
      let (fc, ef, h1) = child_cost-eq children f _ c h in
      let t = one_more_cell-Totals fc c h1 in
      Within-le _ _ _ _ _
        (Within-bind _ _ 1 0 _ _ Within-consume_step λ done.
          Within-bind _ _ 0 1 _ _ Within-consume_cell λ done.
            Within-bind _ _ _ _ 0 0 (paid f fc ef input)
              λ result. Within-bind _ _ 0 0 0 0 (Within-track_memory _) λ done. Within-pure _)
        (omega (arith, t.steps_eq)) (omega (arith, t.cells_eq))
  Within-eval_combinator call id (Combinator.case f g) input children n c h s paid =
      let (fc, ef, h1) = child_cost-eq children f _ c h in
      let (gc, eg, h2) = child_cost-eq children g _ c h1 in
      let t = case_cost-Totals fc gc c h2 in
      Within-le _ _ _ _ _
        (Within-bind _ _ 1 0 _ _ Within-consume_step λ done.
          Within-eval_case host witness_data program context typed_nodes call id f g fc gc input
            (paid f fc ef) (paid g gc eg))
        (omega (arith, t.steps_eq)) (omega (arith, t.cells_eq))
  Within-eval_combinator call id (Combinator.fold f z k) input children n c h s paid =
      let (fc, ef, h1) = child_cost-eq children f _ c h in
      let (zc, ez, h2) = child_cost-eq children z _ c h1 in
      let t = fold_cost-Totals fc zc c k h2 in
      Within-le _ _ _ _ _
        (Within-bind _ _ 1 0 _ _ Within-consume_step λ done.
          Within-eval_fold host witness_data program context typed_nodes call f z fc zc k input
            (paid f fc ef) (paid z zc ez))
        (omega (arith, t.steps_eq, mul_comm k (fc.steps + 1)))
        (omega (arith, t.cells_eq, mul_comm k fc.cells))
  Within-eval_combinator call id (Combinator.list_fold f z) input children n c h s paid = cc
  Within-eval_combinator call id (Combinator.jet jet_id) input children n c h s paid =
      let t = cost-Totals c (jet_cost jet_id).1 (jet_cost jet_id).0 h in
      Within-le _ _ _ _ _
        (Within-bind _ _ _ 0 0 0 (Within-consume_steps (runtime_cost jet_id input context))
          λ done. Within-jet_result host witness_data program context typed_nodes call _)
        (omega (arith, t.steps_eq, runtime_cost_le_jet_cost jet_id input context s)) (omega arith)
  Within-eval_combinator call id Combinator.witness input children n c h s paid =
      let t = cost-Totals c 0 1 h in
      Within-le _ _ _ _ _
        (Within-bind _ _ 1 0 0 0 Within-consume_step λ done.
          Within-bind _ _ 0 0 0 0
            (Within-read_typed_value host witness_data program context typed_nodes _)
            λ value. Within-bind _ _ 0 0 0 0 (Within-track_memory _) λ done. Within-pure value)
        (omega (arith, t.steps_eq)) (omega arith)
  Within-eval_combinator call id (Combinator.merkle_hidden x) input children n c h s paid =
      Within-le _ 0 0 _ _ (Within-fail hidden_node (λ e. cc)) (omega arith) (omega arith)
  Within-eval_combinator call id (Combinator.const v) input children n c h s paid =
      Within-le _ _ _ _ _
        (Within-bind _ _ 1 0 0 0 Within-consume_step
          λ done. Within-bind _ _ 0 0 0 0 (Within-track_memory _) λ done. Within-pure v)
        (omega (arith, const_cost-positive _ c h)) (omega arith)

  -- At any depth, the cost in the table pays for the node.
  Within-eval_node :
      (levels n : ℕ) (costs : List ScriptCost) (id : NodeId) (input : Value) (c : ScriptCost)
      → costs_of n 0 program.nodes ≡ ok costs
      → all_static program.nodes ≡ true
      → get_elem? costs id ≡ some c
      → Within
          (eval_node host witness_data program context typed_nodes levels id input)
          c.steps
          c.cells
  unfolding eval_node eval_found
  Within-eval_node zero n costs id input c table s e =
      Within-le _ 0 0 _ _ (Within-fail recursion_depth_exceeded (λ e. cc)) (omega arith)
        (omega arith)
  Within-eval_node (suc levels) n costs id input c table s e =
      elim (Option-cases (get program id)) [
        | inl q ↦ rw q (
            Within-le _ 0 0 _ _ (Within-fail (node_out_of_bounds id) (λ e. cc)) (omega arith)
              (omega arith))
        | inr (node, q) ↦
            let p = costs_of-Priced n 0 program.nodes costs id node table q in
            let same : p.here ≡ c = let at = p.at in cc in
            let static = all_static-get_elem? program.nodes id node s q in
            rw (q, ← same)
              (Within-eval_combinator
                (eval_node host witness_data program context typed_nodes levels) id node input
                p.children n p.here p.from_children static
                (λ f fc k v.
                  let same_id : f - 0 ≡ f = omega arith in
                  let found = rw same_id at (p.agrees f fc k).1 in
                  Within-eval_node levels n costs f v fc table s found))
      ]

Within-unconsumed :
    (host : Host) (witness_data : Bytes) (result : Value)
    → Within (unconsumed host witness_data result) 0 0
unfolding unconsumed
Within-unconsumed host witness_data result = record {
  spends = λ s h k. elim (Bool-cases (ltb s.pos (length witness_data))) [
    | inl q ↦ rw q (record { paid = λ e. cc; steps_left = omega arith; cells_left = omega arith })
    | inr q ↦ rw q (record { paid = tt; steps_left = omega arith; cells_left = omega arith })
  ];
}

paid-ne : (r : Result Value EvalError) → IsPaid r → r ≢ err budget_exceeded
paid-ne (ok v) p h = cc
paid-ne (err e) p h = p cc

Spent-eval_checked :
    (host : Host) (witness_data : Bytes) (program : Program) (context : ScriptContext)
    (input : Value) (c : ScriptCost) (s : EvalState) (typed : Result (List TypedNode) TypeError)
    → ((nodes : List TypedNode)
        → Within
            (eval_node host witness_data program context nodes
              (suc max_eval_depth)
              program.root
              input)
            c.steps
            c.cells)
    → c.steps ≤ s.budget.steps_remaining
    → c.cells ≤ s.budget.cells_remaining
    → Spent c.steps c.cells s (eval_checked host witness_data program input context typed s)
unfolding eval_checked eval_typed unconsumed
Spent-eval_checked host witness_data program context input c s (err e) w h k = record {
  paid = λ q. cc;
  steps_left = omega arith;
  cells_left = omega arith;
}
Spent-eval_checked host witness_data program context input c s (ok nodes) w h k =
    (Within-le _ _ _ c.steps c.cells
        (Within-bind _ _ c.steps c.cells 0 0 (w nodes)
          λ result. Within-unconsumed host witness_data result)
        (omega arith) (omega arith)).spends
      s h k

-- A program with a static cost that has no list fold and none of the jets whose runtime cost depends
-- on the data (sha256, ed25519_verify, merkle_verify and the others that has_constant_cost excludes)
-- is evaluated under a budget of at least this cost, whatever the input, the witness and the context,
-- without an end for want of budget; and at most the cost is taken from the budget.
pub evaluate-compute_cost :
    (host : Host) (witness_data : Bytes) (program : Program) (context : ScriptContext)
    (input : Value) (sizes : ListSizes) (budget : Budget) (c : ScriptCost)
    → compute_cost program sizes ≡ ok c
    → all_static program.nodes ≡ true
    → c.steps ≤ budget.steps_remaining
    → c.cells ≤ budget.cells_remaining
    → ((evaluate_with_context host witness_data program input budget context).0
        ≢ err budget_exceeded)
      × (budget.steps_remaining
          ≤ (evaluate_with_context host witness_data program input budget context).1.steps_remaining
            + c.steps)
      × (budget.cells_remaining
          ≤ (evaluate_with_context host witness_data program input budget context).1.cells_remaining
            + c.cells)
unfolding evaluate_with_context compute_cost check_structure
evaluate-compute_cost host witness_data program context input sizes budget c cost_ok static h k =
    let sizes_max = max sizes.input_count sizes.output_count in
    let (done, e, rest) = >>=-eq-ok (check_structure program) _ cost_ok in
    let (costs, table, last) = >>=-eq-ok (costs_of sizes_max 0 program.nodes) _ rest in
    let root = ok_or-eq-ok (get_elem? costs program.root) _ c last in
    let spent =
      Spent-eval_checked host witness_data program context input c
        (record { budget = budget; pos = 0 }) (typecheck program)
        (λ nodes.
          Within-eval_node host witness_data program context nodes (suc max_eval_depth) sizes_max
            costs program.root input c table static root)
        h k in
    (paid-ne _ spent.paid, spent.steps_left, spent.cells_left)
