-- ===== src/Script/Eval.antt =====
-- script/eval.rs: the evaluator under a budget of steps, cells and memory. The text of the error
-- messages is dropped.
use exfer.Common.{
  ℕ, zero, suc, ◌+◌, ◌-◌, ◌*◌, Bool, true, false, ◌&&◌, not, ◌==◌, ltb, leb, if◌then◌else◌, Option,
  none, some, List, Bytes, length, drop, get_elem?, Result, ok, err, checked_add_u64,
}
use exfer.Common.Exec.{Exec, ◌>>=◌, ◌>>◌, pure, fail}
use exfer.Script.Types.{Ty, unit_type, bool_type, ty_eq}
use exfer.Script.Value.Defs.{Value, Values, matches_type}
use exfer.Script.Value.Decode.{ValueError, deserialize}
use exfer.Script.Jets.{JetId, ScriptContext, runtime_cost}
use exfer.Script.Ast.{NodeId, Combinator, Program, get}
use exfer.Script.Typecheck.{TypedNode, TypeError, typecheck}

abbrev pub max_script_memory : ℕ
max_script_memory = 16 * 1_024 * 1_024

abbrev pub max_eval_depth : ℕ
max_eval_depth = 128

pub record Budget : Type 0 where
  pub steps_remaining : ℕ
  pub cells_remaining : ℕ
  pub memory_used : ℕ
  pub memory_limit : ℕ

abbrev pub new_budget : ℕ → ℕ → Budget
new_budget steps cells = record {
  steps_remaining = steps;
  cells_remaining = cells;
  memory_used = 0;
  memory_limit = max_script_memory;
}

pub data EvalError : Type 0 where
  budget_exceeded memory_exceeded type_mismatch hidden_node witness_error jet_error : EvalError
  recursion_depth_exceeded : EvalError
  node_out_of_bounds : NodeId → EvalError

-- The budget, and the position of the witness reader.
pub record EvalState : Type 0 where
  pub budget : Budget
  pub pos : ℕ

abbrev pub Run : Type 0 → Type 0
Run A = Exec EvalState A EvalError

abbrev pub with_budget : Budget → EvalState → EvalState
with_budget b s = record s { budget = b }

unfoldable pub consume_steps : ℕ → Run (Unit {0})
consume_steps n s =
    let b = s.budget in
    if ltb b.steps_remaining n
    then (err budget_exceeded, s)
    else (ok tt, with_budget (record b { steps_remaining = b.steps_remaining - n }) s)

unfoldable pub consume_step : Run (Unit {0})
consume_step s =
    let b = s.budget in
    if b.steps_remaining == 0
    then (err budget_exceeded, s)
    else (ok tt, with_budget (record b { steps_remaining = b.steps_remaining - 1 }) s)

unfoldable pub consume_cell : Run (Unit {0})
consume_cell s =
    let b = s.budget in
    if b.cells_remaining == 0
    then (err budget_exceeded, s)
    else (ok tt, with_budget (record b { cells_remaining = b.cells_remaining - 1 }) s)

abbrev pub checked_memory : Option ℕ → Run (Unit {0})
checked_memory none s = (err memory_exceeded, s)
checked_memory (some used) s =
    let t = with_budget (record s.budget { memory_used = used }) s in
    if ltb s.budget.memory_limit used then (err memory_exceeded, t) else (ok tt, t)

unfoldable pub track_memory : ℕ → Run (Unit {0})
track_memory size s = checked_memory (checked_add_u64 s.budget.memory_used size) s

unfoldable pub release_memory : ℕ → Run (Unit {0})
release_memory size s =
    let b = s.budget in (ok tt, with_budget (record b { memory_used = b.memory_used - size }) s)

-- What the evaluator takes from elsewhere: the heap size of a value, which depends on the capacity
-- of vectors; the size of a `Value` in memory; and the native jets.
pub record Host : Type 0 where
  pub heap_size : Value → ℕ
  pub value_size : ℕ
  pub eval_jet : JetId → Value → ScriptContext → Option Value

module _ (host : Host) (witness_data : Bytes) where
  abbrev pub read_result : Result (Value × ℕ) ValueError → Run Value
  read_result (err e) s = (err witness_error, s)
  read_result (ok r) s = (ok r.0, record s { pos = s.pos + r.1 })

  unfoldable pub read_value : Run Value
  read_value s =
      if leb (length witness_data) s.pos
      then (err witness_error, s)
      else read_result (deserialize (drop s.pos witness_data)) s

  unfoldable pub read_typed_value : Ty → Run Value
  read_typed_value expected = do
    value ← read_value
    if not (ty_eq expected unit_type) && not (matches_type value expected)
        then fail witness_error
        else pure value

  unfoldable pub unconsumed : Value → Run Value
  unconsumed result s =
      if ltb s.pos (length witness_data) then (err witness_error, s) else (ok result, s)

  module _ (program : Program) (context : ScriptContext) (typed_nodes : List TypedNode) where
    -- The evaluation of a node, one level deeper.
    abbrev pub Call : Type 0
    Call = NodeId → Value → Run Value

    unfoldable pub eval_take : Call → NodeId → Value → Run Value
    eval_take call f (Value.pair a b) = call f a
    eval_take call f input = fail type_mismatch

    unfoldable pub eval_drop : Call → NodeId → Value → Run Value
    eval_drop call f (Value.pair a b) = call f b
    eval_drop call f input = fail type_mismatch

    abbrev pub payload_fits : Value → Option TypedNode → Bool
    payload_fits payload none = true
    payload_fits payload (some tn) = matches_type payload tn.input_type

    unfoldable pub eval_payload : Call → NodeId → Value → Run Value
    eval_payload call f payload =
        if payload_fits payload (get_elem? typed_nodes f)
        then call f payload
        else fail type_mismatch

    abbrev pub input_is_bool : Option TypedNode → Bool
    input_is_bool none = false
    input_is_bool (some tn) = ty_eq tn.input_type bool_type

    unfoldable pub eval_case : Call → NodeId → NodeId → NodeId → Value → Run Value
    eval_case call id f g (Value.left a) = eval_payload call f a
    eval_case call id f g (Value.right b) = eval_payload call g b
    eval_case call id f g (Value.boolean b) =
        if input_is_bool (get_elem? typed_nodes id)
        then (if b then call g Value.unit else call f Value.unit)
        else fail type_mismatch
    eval_case call id f g input = fail type_mismatch

    -- One round of a fold: the new accumulator, with the heap size of the round's input.
    unfoldable pub fold_round : Call → NodeId → Value → ℕ → Value → Run (Value × ℕ)
    fold_round call f item prev_step_heap acc = do
      consume_step
      release_memory prev_step_heap
      track_memory (host.heap_size item + 2 * host.value_size)
      next ← call f (Value.pair item acc)
      pure (next, host.heap_size (Value.pair item acc))

    unfoldable pub fold_rounds : Call → NodeId → Value → ℕ → ℕ → Value → Run Value
    fold_rounds call f init_input zero prev_step_heap acc = do
      release_memory prev_step_heap
      pure acc
    fold_rounds call f init_input (suc k) prev_step_heap acc = do
      next ← fold_round call f init_input prev_step_heap acc
      fold_rounds call f init_input k next.1 next.0

    unfoldable pub list_fold_rounds : Call → NodeId → Values → ℕ → Value → Run Value
    list_fold_rounds call f Values.nil prev_step_heap acc = do
      release_memory prev_step_heap
      pure acc
    list_fold_rounds call f (Values.cons item rest) prev_step_heap acc = do
      next ← fold_round call f item prev_step_heap acc
      list_fold_rounds call f rest next.1 next.0

    unfoldable pub eval_fold : Call → NodeId → NodeId → ℕ → Value → Run Value
    eval_fold call f z k (Value.pair a init_input) = do
      acc ← call z init_input
      fold_rounds call f init_input k 0 acc
    eval_fold call f z k input = fail type_mismatch

    unfoldable pub eval_list_fold : Call → NodeId → NodeId → Value → Run Value
    eval_list_fold call f z (Value.pair (Value.list elements) init_input) = do
      acc ← call z init_input
      list_fold_rounds call f elements 0 acc
    eval_list_fold call f z input = fail type_mismatch

    abbrev pub jet_result : Option Value → Run Value
    jet_result none = fail jet_error
    jet_result (some v) = do track_memory (host.heap_size v); pure v

    abbrev pub expected_type : Option TypedNode → Ty
    expected_type none = unit_type
    expected_type (some tn) = tn.output_type

    unfoldable pub eval_combinator : Call → NodeId → Combinator → Value → Run Value
    eval_combinator call id Combinator.iden input = do
      consume_step
      track_memory (host.heap_size input)
      pure input
    eval_combinator call id Combinator.unit input = do consume_step; pure Value.unit
    eval_combinator call id (Combinator.comp f g) input = do
      consume_step
      mid ← call f input
      result ← call g mid
      release_memory (host.heap_size mid)
      pure result
    eval_combinator call id (Combinator.pair f g) input = do
      consume_step
      consume_cell
      first ← call f input
      second ← call g input
      track_memory (2 * host.value_size)
      pure (Value.pair first second)
    eval_combinator call id (Combinator.take f) input = do consume_step; eval_take call f input
    eval_combinator call id (Combinator.drop f) input = do consume_step; eval_drop call f input
    eval_combinator call id (Combinator.inj_l f) input = do
      consume_step
      consume_cell
      result ← call f input
      track_memory host.value_size
      pure (Value.left result)
    eval_combinator call id (Combinator.inj_r f) input = do
      consume_step
      consume_cell
      result ← call f input
      track_memory host.value_size
      pure (Value.right result)
    eval_combinator call id (Combinator.case f g) input = do
      consume_step
      eval_case call id f g input
    eval_combinator call id (Combinator.fold f z k) input = do
      consume_step
      eval_fold call f z k input
    eval_combinator call id (Combinator.list_fold f z) input = do
      consume_step
      eval_list_fold call f z input
    eval_combinator call id (Combinator.jet jet_id) input = do
      consume_steps (runtime_cost jet_id input context)
      jet_result (host.eval_jet jet_id input context)
    eval_combinator call id Combinator.witness input = do
      consume_step
      value ← read_typed_value (expected_type (get_elem? typed_nodes id))
      track_memory (host.heap_size value)
      pure value
    eval_combinator call id (Combinator.merkle_hidden h) input = fail hidden_node
    eval_combinator call id (Combinator.const v) input = do
      consume_step
      track_memory (host.heap_size v)
      pure v

    unfoldable pub eval_found : Call → NodeId → Option Combinator → Value → Run Value
    eval_found call id none input = fail (node_out_of_bounds id)
    eval_found call id (some node) input = eval_combinator call id node input

    -- `eval_node` at depth `max_eval_depth + 1 - levels`.
    unfoldable pub eval_node : ℕ → Call
    eval_node zero id input = fail recursion_depth_exceeded
    eval_node (suc levels) id input = eval_found (eval_node levels) id (get program id) input

  -- `eval_node` from the root, and the test that the witness is used up.
  unfoldable pub eval_typed : Program → Value → ScriptContext → List TypedNode → Run Value
  eval_typed program input context typed_nodes = do
    result ← eval_node program context typed_nodes (suc max_eval_depth) program.root input
    unconsumed result

  unfoldable pub eval_checked :
      Program → Value → ScriptContext → Result (List TypedNode) TypeError → Run Value
  eval_checked program input context (err e) = fail type_mismatch
  eval_checked program input context (ok typed_nodes) = eval_typed program input context typed_nodes

  unfoldable pub evaluate_with_context :
      Program → Value → Budget → ScriptContext → Result Value EvalError × Budget
  evaluate_with_context program input budget context =
      let r =
        eval_checked program input context (typecheck program)
          (record { budget = budget; pos = 0 }) in
      (r.0, r.1.budget)
