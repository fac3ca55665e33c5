-- ===== src/Script/Affordable.antt =====
-- script/eval.rs and script/cost.rs: the static cost pays for the evaluation.
use exfer.Common.{
  ℕ, zero, suc, ◌+◌, ◌*◌, ◌≤◌, arith, max, Bool, true, false, ◌&&◌, leb, not, Bool-cases, inl, inr,
  if◌then◌else◌, Option, none, some, List, [], ◌∷◌, Bytes, length, get_elem?, Result, ok, err,
}
use exfer.Common.Exec.{fail}
use native.Mathlib.Nat.{suc-mul}
use exfer.Script.Types.{Ty, unit_type, ty_eq}
use exfer.Script.Value.Defs.{Value, matches_type}
use exfer.Script.Value.Decode.{ValueError}
use exfer.Script.Jets.{ScriptContext, has_constant_cost}
use exfer.Script.Ast.{NodeId, Combinator, Program}
use exfer.Script.Cost.{ScriptCost}
use exfer.Script.Typecheck.{TypedNode}
use exfer.Script.Eval.{
  Run, EvalState, type_mismatch, jet_error, witness_error, Host, eval_combinator, eval_take,
  eval_drop, eval_payload, eval_case, fold_round, fold_rounds, eval_fold, payload_fits,
  input_is_bool, jet_result, read_value, read_typed_value, read_result,
}
use exfer.Script.Within.{
  Spent, Within, Within-pure, Within-fail, Within-le, Within-bind, Within-consume_step,
  Within-consume_cell, Within-track_memory, Within-release_memory,
}

-- The nodes whose runtime cost does not grow with the data: no fold over a list, and no jet whose
-- charge depends on its input.
abbrev pub is_static : Combinator → Bool
is_static (Combinator.list_fold f z) = false
is_static (Combinator.jet id) = has_constant_cost id
is_static node = true

abbrev pub all_static : List Combinator → Bool
all_static [] = true
all_static (node ∷ rest) = is_static node && all_static rest

fold_steps : (k a : ℕ) → a + 1 + k * (a + 1) ≤ suc k * (a + 1)
fold_steps k a = rw (suc-mul k (a + 1)) (omega arith)

fold_cells : (k a : ℕ) → a + k * a ≤ suc k * a
fold_cells k a = rw (suc-mul k a) (omega arith)

module _ (host : Host) (witness_data : Bytes) (program : Program) (context : ScriptContext)
    (typed_nodes : List TypedNode) where
  abbrev pub Paid : (NodeId → Value → Run Value) → NodeId → ScriptCost → Type 0
  Paid call f c = (v : Value) → Within (call f v) c.steps c.cells

  abbrev pub Eval : (NodeId → Value → Run Value) → NodeId → Combinator → Value → Run Value
  Eval call id node input =
      eval_combinator host witness_data program context typed_nodes call id node input

  pub Within-comp :
      (call : NodeId → Value → Run Value) (id f g : NodeId) (fc gc : ScriptCost) (input : Value)
      → Paid call f fc
      → Paid call g gc
      → Within
          (Eval call id (Combinator.comp f g) input)
          (fc.steps + gc.steps + 1)
          (fc.cells + gc.cells)
  unfolding eval_combinator
  Within-comp call id f g fc gc input pf pg =
      Within-le _ _ _ _ _
        (Within-bind _ _ 1 0 _ _ Within-consume_step λ done.
          Within-bind _ _ _ _ _ _ (pf input) λ mid.
            Within-bind _ _ _ _ _ _ (pg mid) λ result.
              Within-bind _ _ 0 0 0 0 (Within-release_memory _) λ done. Within-pure result)
        (omega arith) (omega arith)

  pub Within-pair :
      (call : NodeId → Value → Run Value) (id f g : NodeId) (fc gc : ScriptCost) (input : Value)
      → Paid call f fc
      → Paid call g gc
      → Within
          (Eval call id (Combinator.pair f g) input)
          (fc.steps + gc.steps + 1)
          (fc.cells + gc.cells + 1)
  unfolding eval_combinator
  Within-pair call id f g fc gc input pf pg =
      Within-le _ _ _ _ _
        (Within-bind _ _ 1 0 _ _ Within-consume_step λ done.
          Within-bind _ _ 0 1 _ _ Within-consume_cell λ done.
            Within-bind _ _ _ _ _ _ (pf input) λ first.
              Within-bind _ _ _ _ _ _ (pg input)
                λ second. Within-bind _ _ 0 0 0 0 (Within-track_memory _) λ done. Within-pure _)
        (omega arith) (omega arith)

  pub mismatch : (a b : ℕ) → Within {A = Value} (fail type_mismatch) a b
  mismatch a b =
      Within-le _ 0 0 a b (Within-fail type_mismatch (λ e. cc)) (omega arith) (omega arith)

  module _ (call : NodeId → Value → Run Value) where
    pub Within-eval_take :
        (f : NodeId) (fc : ScriptCost) (v : Value)
        → Paid call f fc
        → Within
            (eval_take host witness_data program context typed_nodes call f v)
            fc.steps
            fc.cells
    unfolding eval_take
    Within-eval_take f fc (Value.pair a b) p = p a
    Within-eval_take f fc _ p = mismatch fc.steps fc.cells

    pub Within-eval_drop :
        (f : NodeId) (fc : ScriptCost) (v : Value)
        → Paid call f fc
        → Within
            (eval_drop host witness_data program context typed_nodes call f v)
            fc.steps
            fc.cells
    unfolding eval_drop
    Within-eval_drop f fc (Value.pair a b) p = p b
    Within-eval_drop f fc _ p = mismatch fc.steps fc.cells

    pub Within-eval_payload :
        (f : NodeId) (fc : ScriptCost) (v : Value)
        → Paid call f fc
        → Within
            (eval_payload host witness_data program context typed_nodes call f v)
            fc.steps
            fc.cells
    unfolding eval_payload
    Within-eval_payload f fc v p =
        elim (Bool-cases (
          payload_fits host witness_data program context typed_nodes v (get_elem? typed_nodes f))) [
            | inl q ↦ rw q (p v)
            | inr q ↦ rw q (mismatch fc.steps fc.cells)
          ]

    pub Within-eval_case :
        (id f g : NodeId) (fc gc : ScriptCost) (v : Value)
        → Paid call f fc
        → Paid call g gc
        → Within
            (eval_case host witness_data program context typed_nodes call id f g v)
            (max fc.steps gc.steps)
            (max fc.cells gc.cells)
    unfolding eval_case
    Within-eval_case id f g fc gc (Value.left a) p q =
        Within-le _ _ _ _ _ (Within-eval_payload f fc a p) (omega arith) (omega arith)
    Within-eval_case id f g fc gc (Value.right b) p q =
        Within-le _ _ _ _ _ (Within-eval_payload g gc b q) (omega arith) (omega arith)
    Within-eval_case id f g fc gc (Value.boolean b) p q =
        elim (Bool-cases (
          input_is_bool host witness_data program context typed_nodes (get_elem? typed_nodes id))) [
            | inl e ↦
                rw e
                  (elim b
                    as (λ c.
                      Within (if c then call g Value.unit else call f Value.unit)
                        (max fc.steps gc.steps) (max fc.cells gc.cells)) [
                          | true ↦ Within-le _ _ _ _ _ (q Value.unit) (omega arith) (omega arith)
                          | false ↦ Within-le _ _ _ _ _ (p Value.unit) (omega arith) (omega arith)
                        ])
            | inr e ↦ rw e (mismatch _ _)
          ]
    Within-eval_case id f g fc gc _ p q = mismatch _ _

    -- Each round takes one step more than its node.
    pub Within-fold_rounds :
        (f : NodeId) (fc : ScriptCost) (init_input : Value) (k prev : ℕ) (acc : Value)
        → Paid call f fc
        → Within
            (fold_rounds host witness_data program context typed_nodes call f init_input k prev acc)
            (k * (fc.steps + 1))
            (k * fc.cells)
    unfolding fold_rounds fold_round
    Within-fold_rounds f fc init_input zero prev acc p =
        Within-le _ _ _ _ _
          (Within-bind _ _ 0 0 0 0 (Within-release_memory _) λ done. Within-pure acc) (omega arith)
          (omega arith)
    Within-fold_rounds f fc init_input (suc k) prev acc p =
        Within-le _ _ _ _ _
          (Within-bind _ _ (fc.steps + 1) fc.cells (k * (fc.steps + 1)) (k * fc.cells)
            (Within-le _ _ _ _ _
              (Within-bind _ _ 1 0 _ _ Within-consume_step λ done.
                Within-bind _ _ 0 0 _ _ (Within-release_memory _) λ done.
                  Within-bind _ _ 0 0 _ _ (Within-track_memory _) λ done.
                    Within-bind _ _ _ _ 0 0 (p (Value.pair init_input acc)) λ next. Within-pure _)
              (omega arith) (omega arith))
            λ next. Within-fold_rounds f fc init_input k next.1 next.0 p)
          (fold_steps k fc.steps) (fold_cells k fc.cells)

    pub Within-eval_fold :
        (f z : NodeId) (fc zc : ScriptCost) (k : ℕ) (v : Value)
        → Paid call f fc
        → Paid call z zc
        → Within
            (eval_fold host witness_data program context typed_nodes call f z k v)
            (zc.steps + k * (fc.steps + 1))
            (zc.cells + k * fc.cells)
    unfolding eval_fold
    Within-eval_fold f z fc zc k (Value.pair a init_input) p q =
        Within-bind _ _ _ _ _ _ (q init_input) λ acc. Within-fold_rounds f fc init_input k 0 acc p
    Within-eval_fold f z fc zc k _ p q = mismatch _ _

    pub Within-jet_result :
        (o : Option Value) → Within (jet_result host witness_data program context typed_nodes o) 0 0
    Within-jet_result none = Within-fail jet_error (λ e. cc)
    Within-jet_result (some v) =
        Within-bind _ _ 0 0 0 0 (Within-track_memory _) λ done. Within-pure v

  pub Spent-read_result :
      (r : Result (Value × ℕ) ValueError) (s : EvalState)
      → Spent 0 0 s (read_result host witness_data r s)
  Spent-read_result (err e) s = record {
    paid = λ q. cc;
    steps_left = omega arith;
    cells_left = omega arith;
  }
  Spent-read_result (ok r) s = record {
    paid = tt;
    steps_left = omega arith;
    cells_left = omega arith;
  }

  pub Within-read_value : Within (read_value host witness_data) 0 0
  unfolding read_value
  Within-read_value = record {
    spends = λ s h k. elim (Bool-cases (leb (length witness_data) s.pos)) [
      | inl q ↦ rw q (record { paid = λ e. cc; steps_left = omega arith; cells_left = omega arith })
      | inr q ↦ rw q (Spent-read_result _ s)
    ];
  }

  pub Within-read_typed_value : (t : Ty) → Within (read_typed_value host witness_data t) 0 0
  unfolding read_typed_value
  Within-read_typed_value t = Within-bind _ _ 0 0 0 0 Within-read_value λ value.
      elim (Bool-cases (not (ty_eq t unit_type) && not (matches_type value t))) [
        | inl q ↦ rw q (Within-fail witness_error (λ e. cc))
        | inr q ↦ rw q (Within-pure value)
      ]
