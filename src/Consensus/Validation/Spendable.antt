-- ===== src/Consensus/Validation/Spendable.antt =====
-- consensus/validation.rs: what an admitted output script has.
use exfer.Common.{
  ℕ, ◌≤◌, ◌≡◌, ◌↔◌, refl, arith, true, false, not, Bool-cases, inl, inr, Option, none, some, List,
  [], ◌∷◌, Bytes, All, length, ltb, ◌==◌, Result, ok, err, reject, ok_or, >>=-eq-ok, ltb→ge,
}
use exfer.Types.Transaction.{TxOutput}
use exfer.Common.Map.{is_some}
use exfer.Types.Hash.{Sha}
use exfer.Script.Types.{bool_type, ty_eq, ty_eq→eq}
use exfer.Script.Ast.{Program, max_depth}
use exfer.Script.Cost.{ScriptCost, compute_cost}
use exfer.Script.Typecheck.{TypedNode, typecheck}
use exfer.Script.Eval.{max_eval_depth}
use exfer.Consensus.Validation.Defs.{ValidationError, ill_typed_script}
use exfer.Consensus.Validation.Checks.{reject-ok, reject-not}
use exfer.Consensus.Validation.Coinbase.{ScriptRules}
use exfer.Consensus.Validation.Structure.{RefusesEmpty}
use exfer.Consensus.Validation.Joined.{
  IsJoined, AreReached, CanRun, Fills, ty_eq_iff, strict_type_edges_iff, all_admissible_iff,
  script_input_accepts_iff,
}
use exfer.Consensus.Validation.OutputScript.{
  max_script_steps, output_of, input_of, strict_type_edges, all_admissible, well_typed,
  min_list_sizes, script_input_accepts, script_input_type, validate_output_script,
}

pub record IsSpendable (script : Option Program) : Type 0 where
  pub program : Program
  pub typed : List TypedNode
  pub cost : ScriptCost
  pub reads : script ≡ some program
  pub checked : typecheck program ≡ ok typed
  pub gives_bool : output_of typed program.root ≡ bool_type
  pub joined : All (IsJoined typed) program.nodes
  pub reached : AreReached typed 0 program.nodes
  pub runnable : All CanRun program.nodes
  pub fed : Fills (input_of typed program.root) script_input_type
  pub shallow : max_depth program ≤ max_eval_depth
  pub priced : compute_cost program min_list_sizes ≡ ok cost
  pub cheap : cost.steps ≤ max_script_steps

well_typed-ok :
    {A E : Type 0} (idx : ℕ) (r : Result A E) (a : A) → well_typed idx r ≡ ok a → r ≡ ok a
unfolding well_typed
well_typed-ok idx (ok b) a h = cc
well_typed-ok idx (err e) a h = cc

pub ok_or-some :
    {A : Type 0} (o : Option A) (e : ValidationError) (a : A) → ok_or o e ≡ ok a → o ≡ some a
ok_or-some none e a h = cc
ok_or-some (some b) e a h = cc

no_bytes : (xs : Bytes) → (length xs == 0) ≡ true → xs ≡ []
no_bytes [] h = refl
no_bytes (x ∷ xs) h = ground arith

module _ (deserialize_program : Bytes → Option Program) where
  validate_output_script-ok :
      (idx : ℕ) (o : TxOutput)
      → validate_output_script deserialize_program idx o ≡ ok tt
      → IsSpendable (deserialize_program o.script)
  unfolding validate_output_script
  validate_output_script-ok idx o h =
      let e = ill_typed_script idx in
      let (p, reads, r1) = >>=-eq-ok (ok_or (deserialize_program o.script) e) _ h in
      let (typed, checked, r2) = >>=-eq-ok (well_typed idx (typecheck p)) _ r1 in
      let (u3, root, r3) =
        >>=-eq-ok (reject (not (ty_eq (output_of typed p.root) bool_type)) e) _ r2 in
      let (u4, edges, r4) = >>=-eq-ok (reject (not (strict_type_edges p typed)) e) _ r3 in
      let (u5, nodes, r5) = >>=-eq-ok (reject (not (all_admissible p.nodes)) e) _ r4 in
      let (u6, input, r6) =
        >>=-eq-ok (reject (not (script_input_accepts (input_of typed p.root) script_input_type)) e)
          _ r5 in
      let (u7, depth, r7) = >>=-eq-ok (reject (ltb max_eval_depth (max_depth p)) e) _ r6 in
      let (cost, priced, cheap) = >>=-eq-ok (well_typed idx (compute_cost p min_list_sizes)) _ r7 in
      let (joined, reached) = (strict_type_edges_iff p typed).0 ((reject-not _ _).0 edges) in
      record {
        program = p;
        typed = typed;
        cost = cost;
        reads = ok_or-some (deserialize_program o.script) _ p reads;
        checked = well_typed-ok idx (typecheck p) typed checked;
        gives_bool = ty_eq→eq (output_of typed p.root) bool_type ((reject-not _ _).0 root);
        joined = joined;
        reached = reached;
        runnable = (all_admissible_iff p.nodes).0 ((reject-not _ _).0 nodes);
        fed =
            (script_input_accepts_iff (input_of typed p.root) script_input_type).0
              ((reject-not _ _).0 input);
        shallow = ltb→ge max_eval_depth (max_depth p) ((reject-ok _ _).0 depth);
        priced = well_typed-ok idx (compute_cost p min_list_sizes) cost priced;
        cheap = ltb→ge max_script_steps cost.steps ((reject-ok _ e).0 cheap);
      }

  IsSpendable-validate_output_script :
      (idx : ℕ) (o : TxOutput)
      → IsSpendable (deserialize_program o.script)
      → validate_output_script deserialize_program idx o ≡ ok tt
  unfolding validate_output_script well_typed
  IsSpendable-validate_output_script idx o s =
      let p = s.program in
      let root = (ty_eq_iff (output_of s.typed p.root) bool_type).1 s.gives_bool in
      let edges = (strict_type_edges_iff p s.typed).1 (s.joined, s.reached) in
      let nodes = (all_admissible_iff p.nodes).1 s.runnable in
      let input = (script_input_accepts_iff (input_of s.typed p.root) script_input_type).1 s.fed in
      let depth : ltb max_eval_depth (max_depth p) ≡ false = ground (arith, s.shallow) in
      let cheap : ltb max_script_steps s.cost.steps ≡ false = ground (arith, s.cheap) in
      rw
        (
          validate_output_script, s.reads, s.checked, root, edges, nodes, input, depth, s.priced,
          cheap,
        )
        refl

  -- `validate_output_script` accepts a script if and only if it is read as a program that
  -- type-checks, whose root gives a Bool and takes a type that the input of a script fills, whose
  -- compositions, branches, pairs and folds join nodes of agreeing types, of which each composition
  -- and case of a known type gives what is run last, which has no hidden node, no jet that is not
  -- implemented and no constant with a list of mixed types, whose depth is within the limit of the
  -- evaluator, and whose static cost for one input and one output exists and is at most 4,000,000
  -- steps.
  pub validate_output_script-IsSpendable :
      (idx : ℕ) (o : TxOutput)
      → (validate_output_script deserialize_program idx o ≡ ok tt)
        ↔ IsSpendable (deserialize_program o.script)
  validate_output_script-IsSpendable idx o =
      (validate_output_script-ok idx o, IsSpendable-validate_output_script idx o)

  -- The rules of `validate_coinbase` and `validate_block_structure`.
  abbrev pub output_rules : ScriptRules
  output_rules = record {
    is_program = λ script. is_some (deserialize_program script);
    validate_output_script = validate_output_script deserialize_program;
  }

  -- They refuse the empty script, since the parser does.
  pub output_rules-RefusesEmpty :
      (sha : Sha) → deserialize_program [] ≡ none → RefusesEmpty sha output_rules
  unfolding validate_output_script
  output_rules-RefusesEmpty sha no_program idx o h = elim (Bool-cases (length o.script == 0)) [
    | inr some_bytes ↦ some_bytes
    | inl empty ↦
        let e = ill_typed_script idx in
        let (p, reads, rest) = >>=-eq-ok (ok_or (deserialize_program o.script) e) _ h in
        cc
          (ok_or-some (deserialize_program o.script) e p reads, no_program, no_bytes o.script empty)
  ]
