-- ===== src/Examples/Spendable.antt =====
-- An output whose script compares two numbers.
use exfer.Common.{◌≡◌, ◌↔◌, refl, Option, none, some, [], ◌∷◌, Bytes, ok}
use exfer.Types.Transaction.{TxOutput}
use exfer.Script.Value.Defs.{boolean}
use exfer.Script.Ast.{Program, const, comp, jet}
use exfer.Script.Jets.{eq64}
use exfer.Script.Value.Defs.{Value}
use exfer.Consensus.Validation.OutputScript.{validate_output_script}
use exfer.Consensus.Validation.Spendable.{IsSpendable, validate_output_script-IsSpendable}
use exfer.Consensus.Validation.OutputScript.{well_typed}
use exfer.Script.Typecheck.{
  typecheck, check_structure, infer_nodes, exfer_node_type, typed_nodes_of, refine_nodes,
  refine_children,
}
use exfer.Script.Ast.{validate_structure, check_nodes, check_children, all_reachable, scan, mark}
use exfer.Script.Types.{ty_eq}
use exfer.Script.Value.Defs.{infer_type}

-- A composition: a constant pair of numbers, then the jet that compares them.
abbrev comparison : Program
comparison = record {
  nodes = comp 1 2 ∷ const (Value.pair (Value.u64 7) (Value.u64 7)) ∷ jet eq64 ∷ [];
  root = 0;
}

-- A parser that reads any bytes as this program.
abbrev toy_parser : Bytes → Option Program
toy_parser [] = none
toy_parser (b ∷ bs) = some comparison

abbrev always : TxOutput
always = record { value = 300; script = 1 ∷ 2 ∷ []; datum = none; datum_hash = none }

always_accepted : validate_output_script toy_parser 0 always ≡ ok tt
unfolding validate_output_script well_typed typecheck check_structure validate_structure check_nodes
    check_children all_reachable scan mark infer_nodes exfer_node_type ty_eq typed_nodes_of
    refine_nodes refine_children infer_type
    exfer.Consensus.Validation.OutputScript.strict_type_edges
    exfer.Consensus.Validation.OutputScript.strict_edges
    exfer.Consensus.Validation.OutputScript.strict_edge
    exfer.Consensus.Validation.OutputScript.reachable_outputs
    exfer.Consensus.Validation.OutputScript.reachable_output
    exfer.Consensus.Validation.OutputScript.all_admissible
    exfer.Consensus.Validation.OutputScript.is_admissible
    exfer.Script.Value.Defs.lists_are_homogeneous
    exfer.Consensus.Validation.OutputScript.script_input_accepts exfer.Script.Ast.max_depth
    exfer.Script.Ast.depths exfer.Script.Ast.max_child exfer.Script.Cost.compute_cost
    exfer.Script.Cost.check_structure exfer.Script.Cost.costs_of exfer.Script.Cost.node_cost
    exfer.Script.Cost.const_cost exfer.Script.Value.Defs.serialize exfer.Script.Ast.behind
    exfer.Script.Typecheck.types_compatible exfer.Script.Jets.jet_type
    exfer.Script.Typecheck.refine_input exfer.Script.Typecheck.refine_output
    exfer.Script.Typecheck.refine_deep exfer.Script.Cost.comp_cost exfer.Script.Jets.jet_cost
always_accepted = refl

validate_output_script-IsSpendable_example :
    (validate_output_script toy_parser 0 always ≡ ok tt) ↔ IsSpendable (toy_parser always.script)
validate_output_script-IsSpendable_example = validate_output_script-IsSpendable toy_parser 0 always

-- So the composition joins nodes of equal types.
always-IsSpendable : IsSpendable (toy_parser always.script)
always-IsSpendable = (validate_output_script-IsSpendable toy_parser 0 always).0 always_accepted
