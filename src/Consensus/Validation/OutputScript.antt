-- ===== src/Consensus/Validation/OutputScript.antt =====
-- consensus/validation.rs: `validate_output_script`, the admission of the script of an output.
use exfer.Common.{
  ℕ, suc, Bool, true, false, not, ◌&&◌, ◌||◌, Option, List, [], ◌∷◌, Bytes, get_or, ltb,
  if◌then◌else◌, Result, ok, err, reject, ok_or, ◌>>=◌, ◌>>◌,
}
use exfer.Types.Transaction.{TxOutput}
use exfer.Script.Types.{
  Ty, unit_type, sum, product, list_type, bool_type, bytes_type, option, ty_eq,
}
use exfer.Script.Value.Defs.{lists_are_homogeneous}
use exfer.Script.Jets.{is_implemented}
use exfer.Script.Ast.{
  Combinator, comp, case, pair, fold, list_fold, jet, merkle_hidden, const, unit, Program, NodeId,
  max_depth,
}
use exfer.Script.Cost.{ListSizes, compute_cost}
use exfer.Script.Typecheck.{TypedNode, typecheck}
use exfer.Script.Eval.{max_eval_depth}
use exfer.Consensus.Validation.Defs.{ValidationError, ill_typed_script}
use exfer.Consensus.Validation.Header.{Check}

-- types/mod.rs
abbrev pub max_script_steps : ℕ
max_script_steps = 4_000_000

unfoldable pub script_input_type : Ty
script_input_type =
    product bytes_type (product (option bytes_type) (product (option bytes_type) unit_type))

-- The `Unit` of the script accepts anything, that of the runtime does not.
unfoldable pub script_input_accepts : Ty → Ty → Bool
script_input_accepts unit_type runtime = true
script_input_accepts (product a1 a2) (product b1 b2) =
    ty_eq (product a1 a2) (product b1 b2)
    || (script_input_accepts a1 b1 && script_input_accepts a2 b2)
script_input_accepts (sum a1 a2) (sum b1 b2) =
    ty_eq (sum a1 a2) (sum b1 b2) || (script_input_accepts a1 b1 && script_input_accepts a2 b2)
script_input_accepts (list_type a) (list_type b) =
    ty_eq (list_type a) (list_type b) || script_input_accepts a b
script_input_accepts script runtime = ty_eq script runtime

-- `typed[id]`; a program that type-checks has no identifier out of range.
abbrev pub blank : TypedNode
blank = record { combinator = unit; input_type = unit_type; output_type = unit_type }

abbrev pub input_of : List TypedNode → NodeId → Ty
input_of typed id = (get_or typed id blank).input_type

abbrev pub output_of : List TypedNode → NodeId → Ty
output_of typed id = (get_or typed id blank).output_type

abbrev pub is_unit : Ty → Bool
is_unit t = ty_eq t unit_type

-- The output of a step equals that of its start, and is known.
unfoldable pub strict_fold : List TypedNode → NodeId → NodeId → Bool
strict_fold typed f z =
    ty_eq (output_of typed f) (output_of typed z)
    && (not (is_unit (output_of typed f)) && not (is_unit (output_of typed z)))

-- The first loop of `strict_type_edges`, for one node.
unfoldable pub strict_edge : List TypedNode → Combinator → Bool
strict_edge typed (comp f g) = ty_eq (output_of typed f) (input_of typed g)
strict_edge typed (case f g) = ty_eq (output_of typed f) (output_of typed g)
strict_edge typed (pair f g) =
    not (
      not (is_unit (input_of typed f))
      && (not (is_unit (input_of typed g)) && not (ty_eq (input_of typed f) (input_of typed g))))
    && not (is_unit (output_of typed f) || is_unit (output_of typed g))
strict_edge typed (fold f z k) = strict_fold typed f z
strict_edge typed (list_fold f z) = strict_fold typed f z
strict_edge typed _ = true

unfoldable pub strict_edges : List TypedNode → List Combinator → Bool
strict_edges typed [] = true
strict_edges typed (node ∷ nodes) = strict_edge typed node && strict_edges typed nodes

-- The final pass, for the node at place i.
unfoldable pub reachable_output : List TypedNode → Ty → Combinator → Bool
reachable_output typed node_out (comp f g) = ty_eq node_out (output_of typed g)
reachable_output typed node_out (case f g) =
    not (is_unit (output_of typed f) || is_unit (output_of typed g))
    && (ty_eq node_out (output_of typed f) && ty_eq node_out (output_of typed g))
reachable_output typed node_out _ = true

unfoldable pub reachable_outputs : List TypedNode → ℕ → List Combinator → Bool
reachable_outputs typed i [] = true
reachable_outputs typed i (node ∷ nodes) =
    let rest = reachable_outputs typed (suc i) nodes in
    if is_unit (output_of typed i)
    then rest
    else reachable_output typed (output_of typed i) node && rest

unfoldable pub strict_type_edges : Program → List TypedNode → Bool
strict_type_edges p typed = strict_edges typed p.nodes && reachable_outputs typed 0 p.nodes

-- What the loop over the nodes refuses.
unfoldable pub is_admissible : Combinator → Bool
is_admissible (jet jet_id) = is_implemented jet_id
is_admissible (merkle_hidden hash) = false
is_admissible (const v) = lists_are_homogeneous v
is_admissible _ = true

unfoldable pub all_admissible : List Combinator → Bool
all_admissible [] = true
all_admissible (node ∷ nodes) = is_admissible node && all_admissible nodes

-- `.map_err(|_| ValidationError::IllTypedScript(idx))?`
unfoldable pub well_typed : {A E : Type 0} → ℕ → Result A E → Result A ValidationError
well_typed idx (ok a) = ok a
well_typed idx (err e) = err (ill_typed_script idx)

abbrev pub min_list_sizes : ListSizes
min_list_sizes = record { input_count = 1; output_count = 1 }

-- `deserialize_program`, whose error is dropped, is an argument.
module _ (deserialize_program : Bytes → Option Program) where
  unfoldable pub validate_output_script : ℕ → TxOutput → Check
  validate_output_script idx o = do
    program ← ok_or (deserialize_program o.script) (ill_typed_script idx)
    typed ← well_typed idx (typecheck program)
    reject (not (ty_eq (output_of typed program.root) bool_type)) (ill_typed_script idx)
    reject (not (strict_type_edges program typed)) (ill_typed_script idx)
    reject (not (all_admissible program.nodes)) (ill_typed_script idx)
    reject (not (script_input_accepts (input_of typed program.root) script_input_type))
        (ill_typed_script idx)
    reject (ltb max_eval_depth (max_depth program)) (ill_typed_script idx)
    cost ← well_typed idx (compute_cost program min_list_sizes)
    reject (ltb max_script_steps cost.steps) (ill_typed_script idx)
