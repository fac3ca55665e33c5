-- ===== src/Script/Priced.antt =====
-- script/cost.rs: what a cost table says of each node.
use exfer.Common.{
  ℕ, zero, suc, ◌-◌, ◌≤◌, ◌≡◌, refl, arith, Bool-cases, inl, inr, leb, leb→gt, Option, some, List,
  [], ◌∷◌, get_elem?, Result, ok, >>=-eq-ok,
}
use exfer.Script.Ast.{NodeId, Combinator, behind}
use exfer.Script.Cost.{ScriptCost, CostError, node_cost, costs_of}

-- The node at j has its cost in the table, from a table of its children that agrees with this one.
pub record Priced (n i : ℕ) (costs : List ScriptCost) (j : ℕ) (node : Combinator) : Type 0 where
  pub here : ScriptCost
  pub children : NodeId → Option ScriptCost
  pub at : get_elem? costs j ≡ some here
  pub from_children : node_cost node children n ≡ ok here
  pub agrees :
      (child : NodeId) (c : ScriptCost)
      → children child ≡ some c
      → (i ≤ child) × (get_elem? costs (child - i) ≡ some c)

behind-agrees :
    (i child : ℕ) (x c : ScriptCost) (later : List ScriptCost)
    → behind i later child ≡ some c
    → (i ≤ child) × (get_elem? (x ∷ later) (child - i) ≡ some c)
unfolding behind
behind-agrees i child x c later h = elim (Bool-cases (leb child i)) [
  | inl q ↦ let h' = rw (behind, q) at h in absurd (let e = h' in cc)
  | inr q ↦
      let h' = rw (behind, q) at h in
      let l = leb→gt child i q in
      let one : child - i ≡ suc (child - suc i) = omega arith in (omega arith, rw one h')
]

ok-injective :
    {a b : List ScriptCost} → ◌≡◌ {A = Result (List ScriptCost) CostError} (ok a) (ok b) → a ≡ b
ok-injective h = cc

pub costs_of-Priced :
    (n i : ℕ) (nodes : List Combinator) (costs : List ScriptCost) (j : ℕ) (node : Combinator)
    → costs_of n i nodes ≡ ok costs
    → get_elem? nodes j ≡ some node
    → Priced n i costs j node
unfolding costs_of
costs_of-Priced n i [] costs j node h g = absurd (let e = g in cc)
costs_of-Priced n i (x ∷ rest) costs zero node h g =
    let (later, e, h') = >>=-eq-ok (costs_of n (suc i) rest) _ h in
    let (first, e', h'') = >>=-eq-ok (node_cost x (behind i later) n) _ h' in
    let same : x ≡ node = cc in
    rw (← (ok-injective h'')) (record {
      here = first;
      children = behind i later;
      at = refl;
      from_children = rw (← same) e';
      agrees = λ child c k. behind-agrees i child first c later k;
    })
costs_of-Priced n i (x ∷ rest) costs (suc j) node h g =
    let (later, e, h') = >>=-eq-ok (costs_of n (suc i) rest) _ h in
    let (first, e', h'') = >>=-eq-ok (node_cost x (behind i later) n) _ h' in
    let p = costs_of-Priced n (suc i) rest later j node e g in
    rw (← (ok-injective h'')) (record {
      here = p.here;
      children = p.children;
      at = p.at;
      from_children = p.from_children;
      agrees = λ child c k.
          let (le, found) = p.agrees child c k in
          let one : child - i ≡ suc (child - suc i) = omega (arith, le) in
          (omega (arith, le), rw one found);
    })
