-- ===== src/Consensus/Validation/Joined.antt =====
-- consensus/validation.rs: what the loops of `validate_output_script` over the nodes ask for.
use exfer.Common.{
  ℕ, suc, ◌≡◌, ◌≢◌, refl, arith, ◌⊎◌, ◌↔◌, true, false, not, ◌&&◌, ◌||◌, Bool-cases, inl, inr, List,
  [], ◌∷◌, All,
}
use mathlib.Core.Path.{subst}
use exfer.Script.Types.{
  Ty, unit_type, sum, product, list_type, bound, u256_type, ty_eq, ty_eq→eq, ty_eq_refl,
}
use exfer.Script.Value.Defs.{lists_are_homogeneous}
use exfer.Script.Jets.{JetId, is_implemented, schnorr_verify}
use exfer.Script.Ast.{
  Combinator, comp, case, pair, fold, list_fold, jet, merkle_hidden, const, unit, iden, take, drop,
  inj_l, inj_r, witness, Program,
}
use exfer.Script.Typecheck.{TypedNode}
use exfer.Consensus.Validation.OutputScript.{
  output_of, input_of, is_unit, strict_fold, strict_edge, strict_edges, strict_type_edges,
  reachable_output, reachable_outputs, is_admissible, all_admissible, script_input_accepts,
}

pub ty_eq_iff : (t u : Ty) → (ty_eq t u ≡ true) ↔ (t ≡ u)
ty_eq_iff t u = (ty_eq→eq t u, λ e. rw (← e) (ty_eq_refl t))

known : (t : Ty) → is_unit t ≡ false → t ≢ unit_type
known t h e = cc ((ty_eq_iff t unit_type).1 e)

known_not : (t : Ty) → t ≢ unit_type → is_unit t ≡ false
known_not t h = elim (Bool-cases (ty_eq t unit_type)) [
  | inl same ↦ absurd (h ((ty_eq_iff t unit_type).0 same))
  | inr other ↦ other
]

-- The types that a node joins agree, and those that a pair or a fold needs are known.
abbrev pub IsJoined : List TypedNode → Combinator → Type 0
IsJoined typed (comp f g) = output_of typed f ≡ input_of typed g
IsJoined typed (case f g) = output_of typed f ≡ output_of typed g
IsJoined typed (pair f g) =
    ((input_of typed f ≡ unit_type)
      ⊎ ((input_of typed g ≡ unit_type) ⊎ (input_of typed f ≡ input_of typed g)))
    × (output_of typed f ≢ unit_type)
    × (output_of typed g ≢ unit_type)
IsJoined typed (fold f z k) =
    (output_of typed f ≡ output_of typed z) × (output_of typed f ≢ unit_type)
IsJoined typed (list_fold f z) =
    (output_of typed f ≡ output_of typed z) × (output_of typed f ≢ unit_type)
IsJoined typed _ = Unit

-- The output of a composition or of a case is that of what is run last.
abbrev pub IsReached : List TypedNode → Ty → Combinator → Type 0
IsReached typed out (comp f g) = out ≡ output_of typed g
IsReached typed out (case f g) = (out ≡ output_of typed f) × (out ≡ output_of typed g)
IsReached typed out _ = Unit

-- So for the nodes from place i on whose output is known.
abbrev pub AreReached : List TypedNode → ℕ → List Combinator → Type 0
AreReached typed i [] = Unit
AreReached typed i (node ∷ nodes) =
    ((output_of typed i ≡ unit_type) ⊎ IsReached typed (output_of typed i) node)
    × AreReached typed (suc i) nodes

-- Nothing in the node fails whenever it is run.
abbrev pub CanRun : Combinator → Type 0
CanRun (jet j) = j ≢ schnorr_verify
CanRun (merkle_hidden hash) = ⊥
CanRun (const v) = lists_are_homogeneous v ≡ true
CanRun _ = Unit

-- The second type has something in place of parts of the first that are Unit.
pub data Fills : Ty → Ty → Type 0 where
  anything : (b : Ty) → Fills unit_type b
  same : (t : Ty) → Fills t t
  of_product :
      {a1 a2 b1 b2 : Ty} → Fills a1 b1 → Fills a2 b2 → Fills (product a1 a2) (product b1 b2)
  of_sum : {a1 a2 b1 b2 : Ty} → Fills a1 b1 → Fills a2 b2 → Fills (sum a1 a2) (sum b1 b2)
  of_list : {a b : Ty} → Fills a b → Fills (list_type a) (list_type b)

strict_fold_iff :
    (typed : List TypedNode) (f z : ℕ)
    → (strict_fold typed f z ≡ true)
      ↔ ((output_of typed f ≡ output_of typed z) × (output_of typed f ≢ unit_type))
unfolding strict_fold
strict_fold_iff typed f z = (
  λ h. (
    ty_eq→eq (output_of typed f) (output_of typed z) (ground (arith, h)),
    known (output_of typed f) (ground (arith, h)),
  ),
  λ (e, k).
      rw (← e) (ground (arith, ty_eq_refl (output_of typed f), known_not (output_of typed f) k)),
)

pair_inputs :
    (a b : Ty)
    → (a ≡ unit_type) ⊎ ((b ≡ unit_type) ⊎ (a ≡ b))
    → (is_unit a || (is_unit b || ty_eq a b)) ≡ true
pair_inputs a b (inl e) = ground (arith, (ty_eq_iff a unit_type).1 e)
pair_inputs a b (inr (inl e)) = ground (arith, (ty_eq_iff b unit_type).1 e)
pair_inputs a b (inr (inr e)) = ground (arith, (ty_eq_iff a b).1 e)

pair_iff :
    (a b c d : Ty)
    → ((not (not (is_unit a) && (not (is_unit b) && not (ty_eq a b)))
          && not (is_unit c || is_unit d))
        ≡ true)
      ↔ (((a ≡ unit_type) ⊎ ((b ≡ unit_type) ⊎ (a ≡ b))) × (c ≢ unit_type) × (d ≢ unit_type))
pair_iff a b c d = (
  λ h. (
    elim (Bool-cases (is_unit a)) [
      | inl e ↦ inl (ty_eq→eq a unit_type e)
      | inr a_known ↦ elim (Bool-cases (is_unit b)) [
        | inl e ↦ inr (inl (ty_eq→eq b unit_type e))
        | inr b_known ↦ inr (inr (ty_eq→eq a b (ground (arith, h, a_known, b_known))))
      ]
    ],
    known c (ground (arith, h)),
    known d (ground (arith, h)),
  ),
  λ (e, c_known, d_known).
      ground (arith, pair_inputs a b e, known_not c c_known, known_not d d_known),
)

pub strict_edge_iff :
    (typed : List TypedNode) (node : Combinator)
    → (strict_edge typed node ≡ true) ↔ IsJoined typed node
unfolding strict_edge
strict_edge_iff typed (comp f g) = ty_eq_iff (output_of typed f) (input_of typed g)
strict_edge_iff typed (case f g) = ty_eq_iff (output_of typed f) (output_of typed g)
strict_edge_iff typed (pair f g) =
    pair_iff (input_of typed f) (input_of typed g) (output_of typed f) (output_of typed g)
strict_edge_iff typed (fold f z k) = strict_fold_iff typed f z
strict_edge_iff typed (list_fold f z) = strict_fold_iff typed f z
strict_edge_iff typed iden = (λ h. tt, λ u. refl)
strict_edge_iff typed unit = (λ h. tt, λ u. refl)
strict_edge_iff typed (take f) = (λ h. tt, λ u. refl)
strict_edge_iff typed (drop f) = (λ h. tt, λ u. refl)
strict_edge_iff typed (inj_l f) = (λ h. tt, λ u. refl)
strict_edge_iff typed (inj_r f) = (λ h. tt, λ u. refl)
strict_edge_iff typed (jet j) = (λ h. tt, λ u. refl)
strict_edge_iff typed witness = (λ h. tt, λ u. refl)
strict_edge_iff typed (merkle_hidden x) = (λ h. tt, λ u. refl)
strict_edge_iff typed (const v) = (λ h. tt, λ u. refl)

strict_edges_iff :
    (typed : List TypedNode) (nodes : List Combinator)
    → (strict_edges typed nodes ≡ true) ↔ All (IsJoined typed) nodes
unfolding strict_edges
strict_edges_iff typed [] = (λ h. tt, λ u. refl)
strict_edges_iff typed (node ∷ nodes) =
    let first = strict_edge_iff typed node in
    let rest = strict_edges_iff typed nodes in
    (
      λ h. (first.0 (ground (arith, h)), rest.0 (ground (arith, h))),
      λ all. ground (arith, first.1 all.0, rest.1 all.1),
    )

reachable_output_iff :
    (typed : List TypedNode) (out : Ty) (node : Combinator)
    → out ≢ unit_type
    → (reachable_output typed out node ≡ true) ↔ IsReached typed out node
unfolding reachable_output
reachable_output_iff typed out (comp f g) k = ty_eq_iff out (output_of typed g)
reachable_output_iff typed out (case f g) k = (
  λ h. (
    ty_eq→eq out (output_of typed f) (ground (arith, h)),
    ty_eq→eq out (output_of typed g) (ground (arith, h)),
  ),
  λ (e, e'). rw (← e, ← e') (ground (arith, ty_eq_refl out, known_not out k)),
)
reachable_output_iff typed out (pair f g) k = (λ h. tt, λ u. refl)
reachable_output_iff typed out (fold f z n) k = (λ h. tt, λ u. refl)
reachable_output_iff typed out (list_fold f z) k = (λ h. tt, λ u. refl)
reachable_output_iff typed out iden k = (λ h. tt, λ u. refl)
reachable_output_iff typed out unit k = (λ h. tt, λ u. refl)
reachable_output_iff typed out (take f) k = (λ h. tt, λ u. refl)
reachable_output_iff typed out (drop f) k = (λ h. tt, λ u. refl)
reachable_output_iff typed out (inj_l f) k = (λ h. tt, λ u. refl)
reachable_output_iff typed out (inj_r f) k = (λ h. tt, λ u. refl)
reachable_output_iff typed out (jet j) k = (λ h. tt, λ u. refl)
reachable_output_iff typed out witness k = (λ h. tt, λ u. refl)
reachable_output_iff typed out (merkle_hidden x) k = (λ h. tt, λ u. refl)
reachable_output_iff typed out (const v) k = (λ h. tt, λ u. refl)

reachable_outputs_iff :
    (typed : List TypedNode) (i : ℕ) (nodes : List Combinator)
    → (reachable_outputs typed i nodes ≡ true) ↔ AreReached typed i nodes
unfolding reachable_outputs
reachable_outputs_iff typed i [] = (λ h. tt, λ u. refl)
reachable_outputs_iff typed i (node ∷ nodes) =
    let out = output_of typed i in
    let rest = reachable_outputs_iff typed (suc i) nodes in
    elim (Bool-cases (is_unit out)) [
      | inl e ↦
          (λ h. (inl (ty_eq→eq out unit_type e), rest.0 (rw e at h)), λ all. rw e (rest.1 all.1))
      | inr k ↦
          let here = reachable_output_iff typed out node (known out k) in
          (
            λ h.
                let h' = rw k at h in
                (inr (here.0 (ground (arith, h'))), rest.0 (ground (arith, h'))),
            λ all.
                let reached : IsReached typed out node = elim all.0 [
                  | inl e ↦ absurd (known out k e)
                  | inr r ↦ r
                ] in
                rw k (ground (arith, here.1 reached, rest.1 all.1)),
          )
    ]

missing_jet : (j : JetId) → is_implemented j ≡ false → j ≡ schnorr_verify
missing_jet schnorr_verify h = refl
missing_jet _ h = cc

is_implemented_iff : (j : JetId) → (is_implemented j ≡ true) ↔ (j ≢ schnorr_verify)
is_implemented_iff j = (
  λ h e. cc (rw e at h),
  λ k. elim (Bool-cases (is_implemented j)) [
    | inl there ↦ there
    | inr missing ↦ absurd (k (missing_jet j missing))
  ],
)

is_admissible_iff : (node : Combinator) → (is_admissible node ≡ true) ↔ CanRun node
unfolding is_admissible
is_admissible_iff (jet j) = is_implemented_iff j
is_admissible_iff (merkle_hidden x) = (λ h. cc, λ u. absurd u)
is_admissible_iff (const v) = (λ h. h, λ h. h)
is_admissible_iff (pair f g) = (λ h. tt, λ u. refl)
is_admissible_iff (comp f g) = (λ h. tt, λ u. refl)
is_admissible_iff (case f g) = (λ h. tt, λ u. refl)
is_admissible_iff (fold f z n) = (λ h. tt, λ u. refl)
is_admissible_iff (list_fold f z) = (λ h. tt, λ u. refl)
is_admissible_iff iden = (λ h. tt, λ u. refl)
is_admissible_iff unit = (λ h. tt, λ u. refl)
is_admissible_iff (take f) = (λ h. tt, λ u. refl)
is_admissible_iff (drop f) = (λ h. tt, λ u. refl)
is_admissible_iff (inj_l f) = (λ h. tt, λ u. refl)
is_admissible_iff (inj_r f) = (λ h. tt, λ u. refl)
is_admissible_iff witness = (λ h. tt, λ u. refl)

pub all_admissible_iff :
    (nodes : List Combinator) → (all_admissible nodes ≡ true) ↔ All CanRun nodes
unfolding all_admissible
all_admissible_iff [] = (λ h. tt, λ u. refl)
all_admissible_iff (node ∷ nodes) =
    let first = is_admissible_iff node in
    let rest = all_admissible_iff nodes in
    (
      λ h. (first.0 (ground (arith, h)), rest.0 (ground (arith, h))),
      λ all. ground (arith, first.1 all.0, rest.1 all.1),
    )

Fills-ty_eq : (a b : Ty) → ty_eq a b ≡ true → Fills a b
Fills-ty_eq a b h = subst (Fills a) (ty_eq→eq a b h) (same a)

script_input_accepts-Fills : (a b : Ty) → script_input_accepts a b ≡ true → Fills a b
unfolding script_input_accepts
script_input_accepts-Fills unit_type b h = anything b
script_input_accepts-Fills (product a1 a2) (product b1 b2) h =
    elim (Bool-cases (ty_eq (product a1 a2) (product b1 b2))) [
      | inl e ↦ Fills-ty_eq (product a1 a2) (product b1 b2) e
      | inr other ↦
          of_product (script_input_accepts-Fills a1 b1 (ground (arith, h, other)))
            (script_input_accepts-Fills a2 b2 (ground (arith, h, other)))
    ]
script_input_accepts-Fills (sum a1 a2) (sum b1 b2) h =
    elim (Bool-cases (ty_eq (sum a1 a2) (sum b1 b2))) [
      | inl e ↦ Fills-ty_eq (sum a1 a2) (sum b1 b2) e
      | inr other ↦
          of_sum (script_input_accepts-Fills a1 b1 (ground (arith, h, other)))
            (script_input_accepts-Fills a2 b2 (ground (arith, h, other)))
    ]
script_input_accepts-Fills (list_type a) (list_type b) h =
    elim (Bool-cases (ty_eq (list_type a) (list_type b))) [
      | inl e ↦ Fills-ty_eq (list_type a) (list_type b) e
      | inr other ↦ of_list (script_input_accepts-Fills a b (ground (arith, h, other)))
    ]
script_input_accepts-Fills a b h = Fills-ty_eq a b h

accepts_same : (t : Ty) → script_input_accepts t t ≡ true
unfolding script_input_accepts
accepts_same unit_type = refl
accepts_same (product a b) = ground (arith, ty_eq_refl (product a b))
accepts_same (sum a b) = ground (arith, ty_eq_refl (sum a b))
accepts_same (list_type a) = ground (arith, ty_eq_refl (list_type a))
accepts_same (bound k) = ty_eq_refl (bound k)
accepts_same u256_type = ty_eq_refl u256_type

Fills-script_input_accepts : {a b : Ty} → Fills a b → script_input_accepts a b ≡ true
unfolding script_input_accepts
Fills-script_input_accepts (anything b) = refl
Fills-script_input_accepts (same t) = accepts_same t
Fills-script_input_accepts (of_product f g) =
    ground (arith, Fills-script_input_accepts f, Fills-script_input_accepts g)
Fills-script_input_accepts (of_sum f g) =
    ground (arith, Fills-script_input_accepts f, Fills-script_input_accepts g)
Fills-script_input_accepts (of_list f) = ground (arith, Fills-script_input_accepts f)

pub script_input_accepts_iff : (a b : Ty) → (script_input_accepts a b ≡ true) ↔ Fills a b
script_input_accepts_iff a b = (script_input_accepts-Fills a b, λ f. Fills-script_input_accepts f)

pub strict_type_edges_iff :
    (p : Program) (typed : List TypedNode)
    → (strict_type_edges p typed ≡ true)
      ↔ (All (IsJoined typed) p.nodes × AreReached typed 0 p.nodes)
unfolding strict_type_edges
strict_type_edges_iff p typed =
    let edges = strict_edges_iff typed p.nodes in
    let outputs = reachable_outputs_iff typed 0 p.nodes in
    (
      λ h. (edges.0 (ground (arith, h)), outputs.0 (ground (arith, h))),
      λ both. ground (arith, edges.1 both.0, outputs.1 both.1),
    )
