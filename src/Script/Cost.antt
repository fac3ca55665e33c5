-- ===== src/Script/Cost.antt =====
-- script/cost.rs: the static cost of a program.
use exfer.Common.{
  ℕ, suc, Option, List, [], ◌∷◌, length, max, get_elem?, div_ceil, Result, ok, err, ◌>>=◌, ◌>>◌,
  ok_or, checked_add_u64, checked_mul_u64,
}
use exfer.Script.Value.Defs.{serialize}
use exfer.Script.Jets.{jet_cost}
use exfer.Script.Ast.{NodeId, Combinator, Program, StructureError, validate_structure, behind}

pub record ScriptCost : Type 0 where
  pub cells : ℕ
  pub steps : ℕ

pub record ListSizes : Type 0 where
  pub input_count : ℕ
  pub output_count : ℕ

pub data CostError : Type 0 where
  node_out_of_bounds : NodeId → CostError
  overflow : CostError
  invalid_structure : StructureError → CostError

abbrev pub Cost : Type 0
Cost = Result ScriptCost CostError

abbrev pub cost : ℕ → ℕ → ScriptCost
cost cells steps = record { cells = cells; steps = steps }

abbrev pub child_cost : (NodeId → Option ScriptCost) → NodeId → Cost
child_cost costs child = ok_or (costs child) (node_out_of_bounds child)

-- `a.checked_add(b).ok_or(Overflow)?`
abbrev pub plus : ℕ → ℕ → Result ℕ CostError
plus a b = ok_or (checked_add_u64 a b) overflow

abbrev pub times : ℕ → ℕ → Result ℕ CostError
times a b = ok_or (checked_mul_u64 a b) overflow

-- The cost of a fold of n rounds, of `fold` and `list_fold` alike.
unfoldable pub fold_cost : ScriptCost → ScriptCost → ℕ → Cost
fold_cost fc zc n = do
  f_cells_total ← times fc.cells n
  cells ← plus zc.cells f_cells_total
  f_steps_plus_1 ← plus fc.steps 1
  f_steps_total ← times f_steps_plus_1 n
  z_and_f ← plus zc.steps f_steps_total
  steps ← plus z_and_f 1
  ok (cost cells steps)

unfoldable pub comp_cost : ScriptCost → ScriptCost → Cost
comp_cost fc gc = do
  cells ← plus fc.cells gc.cells
  steps ← plus fc.steps gc.steps
  all_steps ← plus steps 1
  ok (cost cells all_steps)

unfoldable pub pair_cost : ScriptCost → ScriptCost → Cost
pair_cost fc gc = do
  cells ← plus fc.cells gc.cells
  all_cells ← plus cells 1
  steps ← plus fc.steps gc.steps
  all_steps ← plus steps 1
  ok (cost all_cells all_steps)

unfoldable pub one_more_step : ScriptCost → Cost
one_more_step fc = do steps ← plus fc.steps 1; ok (cost fc.cells steps)

unfoldable pub one_more_cell : ScriptCost → Cost
one_more_cell fc = do cells ← plus fc.cells 1; steps ← plus fc.steps 1; ok (cost cells steps)

unfoldable pub case_cost : ScriptCost → ScriptCost → Cost
case_cost fc gc = do
  cells ← plus (max fc.cells gc.cells) 1
  steps ← plus (max fc.steps gc.steps) 1
  ok (cost cells steps)

unfoldable pub const_cost : ℕ → Cost
const_cost serialized_bytes = do
  cells ← plus 1 (max (div_ceil serialized_bytes 64) 1)
  steps ← plus 1 (max (div_ceil serialized_bytes 64) 1)
  ok (cost cells steps)

unfoldable pub node_cost : Combinator → (NodeId → Option ScriptCost) → ℕ → Cost
node_cost Combinator.iden costs n = ok (cost 0 1)
node_cost Combinator.unit costs n = ok (cost 0 1)
node_cost (Combinator.comp f g) costs n = do
  fc ← child_cost costs f
  gc ← child_cost costs g
  comp_cost fc gc
node_cost (Combinator.pair f g) costs n = do
  fc ← child_cost costs f
  gc ← child_cost costs g
  pair_cost fc gc
node_cost (Combinator.take f) costs n = do fc ← child_cost costs f; one_more_step fc
node_cost (Combinator.drop f) costs n = do fc ← child_cost costs f; one_more_step fc
node_cost (Combinator.inj_l f) costs n = do fc ← child_cost costs f; one_more_cell fc
node_cost (Combinator.inj_r f) costs n = do fc ← child_cost costs f; one_more_cell fc
node_cost (Combinator.case f g) costs n = do
  fc ← child_cost costs f
  gc ← child_cost costs g
  case_cost fc gc
node_cost (Combinator.fold f z k) costs n = do
  fc ← child_cost costs f
  zc ← child_cost costs z
  fold_cost fc zc k
node_cost (Combinator.list_fold f z) costs n = do
  fc ← child_cost costs f
  zc ← child_cost costs z
  fold_cost fc zc n
node_cost (Combinator.jet id) costs n = ok (cost (jet_cost id).1 (jet_cost id).0)
node_cost Combinator.witness costs n = ok (cost 0 1)
node_cost (Combinator.merkle_hidden h) costs n = ok (cost 0 0)
node_cost (Combinator.const v) costs n = const_cost (length (serialize v))

-- The loop `for i in (0..n).rev()`, from node i on.
unfoldable pub costs_of : ℕ → ℕ → List Combinator → Result (List ScriptCost) CostError
costs_of list_size i [] = ok []
costs_of list_size i (node ∷ rest) = do
  later ← costs_of list_size (suc i) rest
  here ← node_cost node (behind i later) list_size
  ok (here ∷ later)

unfoldable pub check_structure : Program → Result (Unit {0}) CostError
check_structure p = elim (validate_structure p) [
  | ok done ↦ ok tt
  | err e ↦ err (invalid_structure e)
]

unfoldable pub compute_cost : Program → ListSizes → Cost
compute_cost p sizes = do
  check_structure p
  costs ← costs_of (max sizes.input_count sizes.output_count) 0 p.nodes
  ok_or (get_elem? costs p.root) (node_out_of_bounds p.root)
