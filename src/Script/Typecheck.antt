-- ===== src/Script/Typecheck.antt =====
-- script/typecheck.rs: types inferred from the leaves up, then refined from the root down.
use exfer.Common.{
  ℕ, suc, Bool, true, false, ◌&&◌, ◌||◌, not, if◌then◌else◌, Option, List, [], ◌∷◌, get_or, set,
  Result, ok, err, ◌>>=◌, ◌>>◌, ok_or, reject,
}
use exfer.Script.Types.{Ty, unit_type, sum, product, list_type, bound, ty_eq}
use exfer.Script.Value.Defs.{infer_type}
use exfer.Script.Jets.{jet_type}
use exfer.Script.Ast.{NodeId, Combinator, Program, StructureError, validate_structure, behind}

pub record TypedNode : Type 0 where
  pub combinator : Combinator
  pub input_type : Ty
  pub output_type : Ty

pub data TypeError : Type 0 where
  node_out_of_bounds : NodeId → TypeError
  comp_type_mismatch : NodeId → Ty → Ty → TypeError
  case_branch_mismatch : NodeId → TypeError
  fold_step_mismatch : NodeId → TypeError
  fold_init_mismatch : NodeId → TypeError
  list_fold_step_mismatch : NodeId → TypeError
  list_fold_init_mismatch : NodeId → TypeError
  invalid_structure : StructureError → TypeError

-- The input and the output type of a node.
abbrev pub Arrow : Type 0
Arrow = Ty × Ty

-- `Unit` stands for a type that is not known.
unfoldable pub types_compatible : Ty → Ty → Bool
types_compatible (sum a1 a2) (sum b1 b2) =
    ty_eq (sum a1 a2) (sum b1 b2) || (types_compatible a1 b1 && types_compatible a2 b2)
types_compatible (product a1 a2) (product b1 b2) =
    ty_eq (product a1 a2) (product b1 b2) || (types_compatible a1 b1 && types_compatible a2 b2)
types_compatible (list_type a) (list_type b) =
    ty_eq (list_type a) (list_type b) || types_compatible a b
types_compatible a b = ty_eq a b || (ty_eq a unit_type || ty_eq b unit_type)

abbrev pub known_or : Ty → Ty → Ty
known_or first second = if ty_eq first unit_type then second else first

abbrev pub child_types : (NodeId → Option Arrow) → NodeId → Result Arrow TypeError
child_types typed child = ok_or (typed child) (node_out_of_bounds child)

unfoldable pub check_fold_step : NodeId → Ty → Ty → Ty → Result (Unit {0}) TypeError
check_fold_step id (product a b) z_in z_out = do
  reject (not (types_compatible a z_in)) (fold_step_mismatch id)
  reject (not (types_compatible b z_out)) (fold_step_mismatch id)
check_fold_step id unit_type z_in z_out = ok tt
check_fold_step id f_in z_in z_out = err (fold_step_mismatch id)

unfoldable pub element_type : NodeId → Ty → Result Ty TypeError
element_type id (product a b) = ok a
element_type id unit_type = ok unit_type
element_type id f_in = err (list_fold_step_mismatch id)

unfoldable pub exfer_node_type :
    NodeId → Combinator → (NodeId → Option Arrow) → Result Arrow TypeError
exfer_node_type id Combinator.iden typed = ok (unit_type, unit_type)
exfer_node_type id Combinator.unit typed = ok (unit_type, unit_type)
exfer_node_type id (Combinator.comp f g) typed = do
  ft ← child_types typed f
  gt ← child_types typed g
  reject (not (types_compatible ft.1 gt.0)) (comp_type_mismatch id ft.1 gt.0)
  ok (ft.0, gt.1)
exfer_node_type id (Combinator.pair f g) typed = do
  ft ← child_types typed f
  gt ← child_types typed g
  ok (known_or ft.0 gt.0, product ft.1 gt.1)
exfer_node_type id (Combinator.take f) typed = do
  ft ← child_types typed f
  ok (product ft.0 unit_type, ft.1)
exfer_node_type id (Combinator.drop f) typed = do
  ft ← child_types typed f
  ok (product unit_type ft.0, ft.1)
exfer_node_type id (Combinator.inj_l f) typed = do
  ft ← child_types typed f
  ok (ft.0, sum ft.1 unit_type)
exfer_node_type id (Combinator.inj_r f) typed = do
  ft ← child_types typed f
  ok (ft.0, sum unit_type ft.1)
exfer_node_type id (Combinator.case f g) typed = do
  ft ← child_types typed f
  gt ← child_types typed g
  reject (not (types_compatible ft.1 gt.1)) (case_branch_mismatch id)
  ok (sum ft.0 gt.0, known_or ft.1 gt.1)
exfer_node_type id (Combinator.fold f z k) typed = do
  ft ← child_types typed f
  zt ← child_types typed z
  reject (not (types_compatible ft.1 zt.1)) (fold_init_mismatch id)
  check_fold_step id ft.0 zt.0 zt.1
  ok (product (bound k) zt.0, known_or zt.1 ft.1)
exfer_node_type id (Combinator.list_fold f z) typed = do
  ft ← child_types typed f
  zt ← child_types typed z
  reject (not (types_compatible ft.1 zt.1)) (list_fold_init_mismatch id)
  elem_type ← element_type id ft.0
  ok (product (list_type elem_type) zt.0, known_or zt.1 ft.1)
exfer_node_type id (Combinator.jet jet_id) typed = ok (jet_type jet_id)
exfer_node_type id Combinator.witness typed = ok (unit_type, unit_type)
exfer_node_type id (Combinator.merkle_hidden h) typed = ok (unit_type, unit_type)
exfer_node_type id (Combinator.const v) typed = ok (unit_type, infer_type v)

-- The first pass, from node i on.
unfoldable pub infer_nodes : ℕ → List Combinator → Result (List Arrow) TypeError
infer_nodes i [] = ok []
infer_nodes i (node ∷ rest) = do
  later ← infer_nodes (suc i) rest
  here ← exfer_node_type i node (behind i later)
  ok (here ∷ later)

unfoldable pub refine_deep : Ty → Ty → Ty
refine_deep unit_type resolved = resolved
refine_deep (product a1 a2) (product b1 b2) = product (refine_deep a1 b1) (refine_deep a2 b2)
refine_deep (sum a1 a2) (sum b1 b2) = sum (refine_deep a1 b1) (refine_deep a2 b2)
refine_deep (list_type a) (list_type b) = list_type (refine_deep a b)
refine_deep slot resolved = slot

abbrev pub has_refinable_output : Combinator → Bool
has_refinable_output Combinator.unit = false
has_refinable_output (Combinator.const v) = false
has_refinable_output (Combinator.jet id) = false
has_refinable_output node = true

-- The vector of types, whose entries are all there after the first pass.
abbrev pub type_at : List Arrow → NodeId → Arrow
type_at typed id = get_or typed id (unit_type, unit_type)

unfoldable pub refine_input : NodeId → Ty → List Arrow → List Arrow
refine_input id resolved typed =
    let t = type_at typed id in set typed id (refine_deep t.0 resolved, t.1)

unfoldable pub refine_output : List Combinator → NodeId → Ty → List Arrow → List Arrow
refine_output nodes id resolved typed =
    let t = type_at typed id in
    if has_refinable_output (get_or nodes id Combinator.iden)
    then set typed id (t.0, refine_deep t.1 resolved)
    else typed

-- The outputs of two children that give the same type.
unfoldable pub refine_both : List Combinator → NodeId → NodeId → List Arrow → List Arrow
refine_both nodes f g typed =
    let f_out = (type_at typed f).1 in
    let g_out = (type_at typed g).1 in
    refine_output nodes g f_out (refine_output nodes f g_out typed)

unfoldable pub refine_parts : List Combinator → NodeId → NodeId → Ty → List Arrow → List Arrow
refine_parts nodes f g (product a b) typed = refine_output nodes g b (refine_output nodes f a typed)
refine_parts nodes f g pair_out typed = typed

unfoldable pub refine_shared_input : NodeId → NodeId → Ty → List Arrow → List Arrow
refine_shared_input f g pair_in typed =
    if ty_eq pair_in unit_type then typed else refine_input g pair_in (refine_input f pair_in typed)

unfoldable pub refine_pair : List Combinator → NodeId → NodeId → NodeId → List Arrow → List Arrow
refine_pair nodes node_idx f g typed =
    let f_in = (type_at typed f).0 in
    let g_in = (type_at typed g).0 in
    let crossed = refine_input g f_in (refine_input f g_in typed) in
    let shared = refine_shared_input f g (type_at crossed node_idx).0 crossed in
    refine_parts nodes f g (type_at shared node_idx).1 shared

unfoldable pub refine_children : ℕ → Combinator → List Combinator → List Arrow → List Arrow
refine_children node_idx (Combinator.comp f g) nodes typed =
    let g_in = (type_at typed g).0 in
    let f_out = (type_at typed f).1 in refine_input g f_out (refine_output nodes f g_in typed)
refine_children node_idx (Combinator.pair f g) nodes typed = refine_pair nodes node_idx f g typed
refine_children node_idx (Combinator.case f g) nodes typed = refine_both nodes f g typed
refine_children node_idx (Combinator.fold f z k) nodes typed = refine_both nodes f z typed
refine_children node_idx (Combinator.list_fold f z) nodes typed = refine_both nodes f z typed
refine_children node_idx node nodes typed = typed

-- The second pass, from node i on.
unfoldable pub refine_nodes : ℕ → List Combinator → List Combinator → List Arrow → List Arrow
refine_nodes i [] nodes typed = typed
refine_nodes i (node ∷ rest) nodes typed =
    refine_nodes (suc i) rest nodes (refine_children i node nodes typed)

unfoldable pub typed_nodes_of : ℕ → List Combinator → List Arrow → List TypedNode
typed_nodes_of i [] typed = []
typed_nodes_of i (node ∷ rest) typed =
    record {
      combinator = node;
      input_type = (type_at typed i).0;
      output_type = (type_at typed i).1;
    }
    ∷ typed_nodes_of (suc i) rest typed

unfoldable pub check_structure : Program → Result (Unit {0}) TypeError
check_structure p = elim (validate_structure p) [
  | ok done ↦ ok tt
  | err e ↦ err (invalid_structure e)
]

unfoldable pub typecheck : Program → Result (List TypedNode) TypeError
typecheck p = do
  check_structure p
  typed ← infer_nodes 0 p.nodes
  ok (typed_nodes_of 0 p.nodes (refine_nodes 0 p.nodes p.nodes typed))
