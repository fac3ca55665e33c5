-- ===== src/Examples/Script.antt =====
-- Runs of the script language of script/, and its theorems at concrete inputs.
use exfer.Common.{◌≡◌, ◌≢◌, ◌≤◌, ◌+◌, refl, arith, true, none, [], ◌∷◌, ◌++◌, length, ok, err}
use exfer.Script.Types.{ty_eq}
use exfer.Script.Value.Defs.{
  Value, Values, infer_type, matches_type, lists_are_homogeneous, same_type, serialize,
}
use exfer.Script.Value.Typing.{matches_type-infer_type}
use exfer.Script.Value.Decode.{deserialize}
use exfer.Script.Value.RoundTrip.{depth, deserialize-serialize_value}
use exfer.Script.Jets.{empty_context}
use exfer.Script.Ast.{
  Combinator, Program, validate_structure, check_nodes, check_children, scan, mark, all_reachable,
  behind,
}
use exfer.Script.Cost.{
  ListSizes, cost, compute_cost, check_structure, costs_of, node_cost, fold_cost, one_more_step,
}
use exfer.Script.Eval.{Host, new_budget, budget_exceeded, evaluate_with_context}
use exfer.Script.Sufficient.{evaluate-compute_cost}

abbrev nested : Value
nested =
    Value.pair
      (Value.list
        (Values.cons (Value.left Value.unit) (Values.cons (Value.left Value.unit) Values.nil)))
      (Value.right (Value.u64 7))

nested_homogeneous : lists_are_homogeneous nested ≡ true
unfolding lists_are_homogeneous infer_type same_type ty_eq
nested_homogeneous = refl

matches_type-infer_type_example : matches_type nested (infer_type nested) ≡ true
matches_type-infer_type_example = matches_type-infer_type nested nested_homogeneous

deserialize-serialize_value_example :
    deserialize (serialize nested ++ (9 ∷ [])) ≡ ok (nested, length (serialize nested))
unfolding depth
deserialize-serialize_value_example =
    deserialize-serialize_value nested (9 ∷ []) (omega arith) (omega arith)

-- Three rounds that pair the input with the accumulator.
abbrev looping : Program
looping = record {
  nodes = Combinator.fold 1 2 3 ∷ Combinator.drop 3 ∷ Combinator.unit ∷ Combinator.iden ∷ [];
  root = 0;
}

abbrev toy_host : Host
toy_host = record { heap_size = λ v. 0; value_size = 40; eval_jet = λ id input c. none }

abbrev no_lists : ListSizes
no_lists = record { input_count = 0; output_count = 0 }

compute_cost-looping : compute_cost looping no_lists ≡ ok (cost 0 11)
unfolding compute_cost check_structure validate_structure check_nodes check_children scan mark
    all_reachable costs_of node_cost behind fold_cost one_more_step
compute_cost-looping = refl

evaluate-compute_cost_example :
    ((evaluate_with_context toy_host [] looping
        (Value.pair Value.unit (Value.u64 5))
        (new_budget 11 0)
        empty_context).0
      ≢ err budget_exceeded)
    × (11
        ≤ (evaluate_with_context toy_host [] looping
            (Value.pair Value.unit (Value.u64 5))
            (new_budget 11 0)
            empty_context).1.steps_remaining
          + 11)
    × (0
        ≤ (evaluate_with_context toy_host [] looping
            (Value.pair Value.unit (Value.u64 5))
            (new_budget 11 0)
            empty_context).1.cells_remaining
          + 0)
evaluate-compute_cost_example =
    evaluate-compute_cost toy_host [] looping empty_context (Value.pair Value.unit (Value.u64 5))
      no_lists (new_budget 11 0) (cost 0 11) compute_cost-looping refl (omega arith) (omega arith)
