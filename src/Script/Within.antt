-- ===== src/Script/Within.antt =====
-- script/eval.rs: evaluations that a number of steps and cells pays for, whatever their result.
use exfer.Common.{
  ℕ, ◌+◌, ◌≤◌, ◌≡◌, ◌≢◌, arith, false, ◌==◌, ltb, Bool-cases, inl, inr, Option, none, some, Result,
  ok, err, checked_add_u64,
}
use exfer.Common.Exec.{run_after, ◌>>=◌, pure, fail}
use exfer.Script.Eval.{
  EvalState, EvalError, budget_exceeded, Run, consume_step, consume_steps, consume_cell,
  track_memory, release_memory, checked_memory,
}

-- The error is not that of the budget.
abbrev pub IsPaid : {A : Type 0} → Result A EvalError → Type 0
IsPaid (ok a) = Unit
IsPaid (err e) = e ≢ budget_exceeded

pub record Spent {A : Type 0} (steps cells : ℕ) (s : EvalState) (r : Result A EvalError × EvalState)
    : Type 0 where
  pub paid : IsPaid r.0
  pub steps_left : s.budget.steps_remaining ≤ r.1.budget.steps_remaining + steps
  pub cells_left : s.budget.cells_remaining ≤ r.1.budget.cells_remaining + cells

-- With `steps` and `cells` at hand, the run does not end for want of budget, and takes no more.
pub record Within {A : Type 0} (m : Run A) (steps cells : ℕ) : Type 0 where
  pub spends :
      (s : EvalState)
      → steps ≤ s.budget.steps_remaining
      → cells ≤ s.budget.cells_remaining
      → Spent steps cells s (m s)

module _ {A : Type 0} where
  pub Within-pure : (a : A) → Within (pure a) 0 0
  Within-pure a = record {
    spends = λ s h k. record { paid = tt; steps_left = omega arith; cells_left = omega arith };
  }

  pub Within-fail : (e : EvalError) → e ≢ budget_exceeded → Within {A = A} (fail e) 0 0
  Within-fail e n = record {
    spends = λ s h k. record { paid = n; steps_left = omega arith; cells_left = omega arith };
  }

  pub Within-le : (m : Run A) (a b a' b' : ℕ) → Within m a b → a ≤ a' → b ≤ b' → Within m a' b'
  Within-le m a b a' b' w la lb = record {
    spends = λ s h k.
        let d = w.spends s (omega arith) (omega arith) in
        record {
          paid = d.paid;
          steps_left = omega (arith, d.steps_left);
          cells_left = omega (arith, d.cells_left);
        };
  }

module _ {A B : Type 0} where
  Spent-run_after :
      (r : Result A EvalError × EvalState) (f : A → Run B) (a b c d : ℕ) (s : EvalState)
      → a + c ≤ s.budget.steps_remaining
      → b + d ≤ s.budget.cells_remaining
      → Spent a b s r
      → ((x : A) → Within (f x) c d)
      → Spent (a + c) (b + d) s (run_after r f)
  Spent-run_after (ok x, t) f a b c d s h k first next =
      let then_ =
        (next x).spends t (omega (arith, first.steps_left)) (omega (arith, first.cells_left)) in
      record {
        paid = then_.paid;
        steps_left = omega (arith, first.steps_left, then_.steps_left);
        cells_left = omega (arith, first.cells_left, then_.cells_left);
      }
  Spent-run_after (err e, t) f a b c d s h k first next = record {
    paid = first.paid;
    steps_left = omega (arith, first.steps_left);
    cells_left = omega (arith, first.cells_left);
  }

  pub Within-bind :
      (m : Run A) (f : A → Run B) (a b c d : ℕ)
      → Within m a b
      → ((x : A) → Within (f x) c d)
      → Within (m >>= f) (a + c) (b + d)
  Within-bind m f a b c d first next = record {
    spends = λ s h k.
        Spent-run_after (m s) f a b c d s h k (first.spends s (omega arith) (omega arith)) next;
  }

pub Within-consume_steps : (n : ℕ) → Within (consume_steps n) n 0
unfolding consume_steps
Within-consume_steps n = record {
  spends = λ s h k.
      let enough : ltb s.budget.steps_remaining n ≡ false = ground arith in
      rw enough (record { paid = tt; steps_left = omega arith; cells_left = omega arith });
}

pub Within-consume_step : Within consume_step 1 0
unfolding consume_step
Within-consume_step = record {
  spends = λ s h k.
      let enough : (s.budget.steps_remaining == 0) ≡ false = ground arith in
      rw enough (record { paid = tt; steps_left = omega arith; cells_left = omega arith });
}

pub Within-consume_cell : Within consume_cell 0 1
unfolding consume_cell
Within-consume_cell = record {
  spends = λ s h k.
      let enough : (s.budget.cells_remaining == 0) ≡ false = ground arith in
      rw enough (record { paid = tt; steps_left = omega arith; cells_left = omega arith });
}

checked_memory-Spent : (o : Option ℕ) (s : EvalState) → Spent 0 0 s (checked_memory o s)
checked_memory-Spent none s = record {
  paid = λ e. cc;
  steps_left = omega arith;
  cells_left = omega arith;
}
checked_memory-Spent (some used) s = elim (Bool-cases (ltb s.budget.memory_limit used)) [
  | inl q ↦ rw q (record { paid = λ e. cc; steps_left = omega arith; cells_left = omega arith })
  | inr q ↦ rw q (record { paid = tt; steps_left = omega arith; cells_left = omega arith })
]

pub Within-track_memory : (size : ℕ) → Within (track_memory size) 0 0
unfolding track_memory
Within-track_memory size = record {
  spends = λ s h k. checked_memory-Spent (checked_add_u64 s.budget.memory_used size) s;
}

pub Within-release_memory : (size : ℕ) → Within (release_memory size) 0 0
unfolding release_memory
Within-release_memory size = record {
  spends = λ s h k. record { paid = tt; steps_left = omega arith; cells_left = omega arith };
}
