-- ===== src/Script/Totals.antt =====
-- script/cost.rs: the cost of a node as sums and products, where nothing overflows.
use exfer.Common.{
  ℕ, ◌+◌, ◌*◌, ◌^◌, ◌≤◌, ◌≡◌, ap, sym, arith, max, div_ceil, ltb, Bool-cases, inl, inr, Option,
  none, some, ok, ◌>>=◌, >>=-eq-ok, ok_or,
}
use exfer.Script.Cost.{
  ScriptCost, CostError, Cost, cost, plus, times, comp_cost, pair_cost, case_cost, fold_cost,
  one_more_step, one_more_cell, const_cost,
}

pub ok_or-eq-ok :
    {A : Type 0} (o : Option A) (e : CostError) (a : A) → ok_or o e ≡ ok a → o ≡ some a
ok_or-eq-ok none e a h = cc
ok_or-eq-ok (some x) e a h = cc

plus-eq : (a b c : ℕ) → plus a b ≡ ok c → a + b ≡ c
plus-eq a b c h = elim (Bool-cases (ltb (a + b) (2 ^ 64))) [
  | inl q ↦ let h' = rw q at h in cc
  | inr q ↦ let h' = rw q at h in cc
]

times-eq : (a b c : ℕ) → times a b ≡ ok c → a * b ≡ c
times-eq a b c h = elim (Bool-cases (ltb (a * b) (2 ^ 64))) [
  | inl q ↦ let h' = rw q at h in cc
  | inr q ↦ let h' = rw q at h in cc
]

-- What a cost says.
pub record Totals (c : ScriptCost) (cells steps : ℕ) : Type 0 where
  pub cells_eq : c.cells ≡ cells
  pub steps_eq : c.steps ≡ steps

pub cost-Totals :
    (c : ScriptCost) (cells steps : ℕ)
    → ◌≡◌ {A = Cost} (ok (cost cells steps)) (ok c)
    → Totals c cells steps
cost-Totals c cells steps h =
    let e : cost cells steps ≡ c = cc in
    record {
      cells_eq = ap (λ (x : ScriptCost). x.cells) (sym e);
      steps_eq = ap (λ (x : ScriptCost). x.steps) (sym e);
    }

pub comp_cost-Totals :
    (f g c : ScriptCost)
    → comp_cost f g ≡ ok c
    → Totals c (f.cells + g.cells) (f.steps + g.steps + 1)
unfolding comp_cost
comp_cost-Totals f g c h =
    let (cells, e1, h1) = >>=-eq-ok (plus f.cells g.cells) _ h in
    let (steps, e2, h2) = >>=-eq-ok (plus f.steps g.steps) _ h1 in
    let (all_steps, e3, h3) = >>=-eq-ok (plus steps 1) _ h2 in
    let t = cost-Totals c cells all_steps h3 in
    let p1 = plus-eq _ _ _ e1 in
    let p2 = plus-eq _ _ _ e2 in
    let p3 = plus-eq _ _ _ e3 in
    record {
      cells_eq = omega (arith, t.cells_eq, p1);
      steps_eq = omega (arith, t.steps_eq, p2, p3);
    }

pub pair_cost-Totals :
    (f g c : ScriptCost)
    → pair_cost f g ≡ ok c
    → Totals c (f.cells + g.cells + 1) (f.steps + g.steps + 1)
unfolding pair_cost
pair_cost-Totals f g c h =
    let (cells, e1, h1) = >>=-eq-ok (plus f.cells g.cells) _ h in
    let (all_cells, e2, h2) = >>=-eq-ok (plus cells 1) _ h1 in
    let (steps, e3, h3) = >>=-eq-ok (plus f.steps g.steps) _ h2 in
    let (all_steps, e4, h4) = >>=-eq-ok (plus steps 1) _ h3 in
    let t = cost-Totals c all_cells all_steps h4 in
    let p1 = plus-eq _ _ _ e1 in
    let p2 = plus-eq _ _ _ e2 in
    let p3 = plus-eq _ _ _ e3 in
    let p4 = plus-eq _ _ _ e4 in
    record {
      cells_eq = omega (arith, t.cells_eq, p1, p2);
      steps_eq = omega (arith, t.steps_eq, p3, p4);
    }

pub one_more_step-Totals :
    (f c : ScriptCost) → one_more_step f ≡ ok c → Totals c f.cells (f.steps + 1)
unfolding one_more_step
one_more_step-Totals f c h =
    let (steps, e1, h1) = >>=-eq-ok (plus f.steps 1) _ h in
    let t = cost-Totals c f.cells steps h1 in
    let p1 = plus-eq _ _ _ e1 in
    record { cells_eq = t.cells_eq; steps_eq = omega (arith, t.steps_eq, p1) }

-- Two checked sums, for the cells and for the steps.
two_sums :
    (a b x y : ℕ) (c : ScriptCost)
    → (plus a b >>= λ cells. plus x y >>= λ steps. ok (cost cells steps)) ≡ ok c
    → Totals c (a + b) (x + y)
two_sums a b x y c h =
    let (cells, e1, h1) = >>=-eq-ok (plus a b) _ h in
    let (steps, e2, h2) = >>=-eq-ok (plus x y) _ h1 in
    let t = cost-Totals c cells steps h2 in
    let p1 = plus-eq _ _ _ e1 in
    let p2 = plus-eq _ _ _ e2 in
    record { cells_eq = omega (arith, t.cells_eq, p1); steps_eq = omega (arith, t.steps_eq, p2) }

pub one_more_cell-Totals :
    (f c : ScriptCost) → one_more_cell f ≡ ok c → Totals c (f.cells + 1) (f.steps + 1)
unfolding one_more_cell
one_more_cell-Totals f c h = two_sums f.cells 1 f.steps 1 c h

pub case_cost-Totals :
    (f g c : ScriptCost)
    → case_cost f g ≡ ok c
    → Totals c (max f.cells g.cells + 1) (max f.steps g.steps + 1)
unfolding case_cost
case_cost-Totals f g c h = two_sums (max f.cells g.cells) 1 (max f.steps g.steps) 1 c h

pub const_cost-positive : (n : ℕ) (c : ScriptCost) → const_cost n ≡ ok c → 1 ≤ c.steps
unfolding const_cost
const_cost-positive n c h =
    let t = two_sums 1 (max (div_ceil n 64) 1) 1 (max (div_ceil n 64) 1) c h in
    omega (arith, t.steps_eq)

pub fold_cost-Totals :
    (f z c : ScriptCost) (k : ℕ)
    → fold_cost f z k ≡ ok c
    → Totals c (z.cells + f.cells * k) (z.steps + (f.steps + 1) * k + 1)
unfolding fold_cost
fold_cost-Totals f z c k h =
    let (f_cells, e1, h1) = >>=-eq-ok (times f.cells k) _ h in
    let (cells, e2, h2) = >>=-eq-ok (plus z.cells f_cells) _ h1 in
    let (f_plus, e3, h3) = >>=-eq-ok (plus f.steps 1) _ h2 in
    let (f_steps, e4, h4) = >>=-eq-ok (times f_plus k) _ h3 in
    let (z_f, e5, h5) = >>=-eq-ok (plus z.steps f_steps) _ h4 in
    let (steps, e6, h6) = >>=-eq-ok (plus z_f 1) _ h5 in
    let t = cost-Totals c cells steps h6 in
    let p1 = times-eq _ _ _ e1 in
    let p2 = plus-eq _ _ _ e2 in
    let p3 = plus-eq _ _ _ e3 in
    let p4 = times-eq _ _ _ e4 in
    let p5 = plus-eq _ _ _ e5 in
    let p6 = plus-eq _ _ _ e6 in
    record {
      cells_eq = rw p1 (omega (arith, t.cells_eq, p2));
      steps_eq = rw (p3, p4) (omega (arith, t.steps_eq, p5, p6));
    }
