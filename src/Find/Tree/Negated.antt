-- ===== src/Find/Tree/Negated.antt =====
-- command/internal/find/parser.go: where a -delete stands under negations.
use mathlib.Core.Path.{subst}
use kefka.Common.{sym, ◌≡◌, refl, Bool, true, false, not, ◌||◌, arith}
use kefka.Find.Syntax.{Action, act_delete, Expr, expr_action, expr_not, expr_and, expr_or}
use kefka.Find.Tree.{contains_negated_delete, is_delete}

-- A -delete stands in the expression under negations of this parity, odd if `true`.
pub data DeleteUnder : Bool → Expr → Type 0 where
  delete_here : {a : Action} → a.kind ≡ act_delete → DeleteUnder false (expr_action a)
  negated : {b : Bool} {e : Expr} → DeleteUnder b e → DeleteUnder (not b) (expr_not e)
  and_left : {b : Bool} {e f : Expr} → DeleteUnder b e → DeleteUnder b (expr_and e f)
  and_right : {b : Bool} {e f : Expr} → DeleteUnder b f → DeleteUnder b (expr_and e f)
  or_left : {b : Bool} {e f : Expr} → DeleteUnder b e → DeleteUnder b (expr_or e f)
  or_right : {b : Bool} {e f : Expr} → DeleteUnder b f → DeleteUnder b (expr_or e f)

or_left-true : (b c : Bool) → b ≡ true → b || c ≡ true
or_left-true b c h = ground arith

or_right-true : (b c : Bool) → c ≡ true → b || c ≡ true
or_right-true b c h = ground arith

double_negation : (b : Bool) → not (not b) ≡ b
double_negation true = refl
double_negation false = refl

-- The builder's test sees it where the negations around add up to an odd number.
pub DeleteUnder-contains_negated_delete :
    {b : Bool} {e : Expr} → DeleteUnder b e → contains_negated_delete e (not b) ≡ true
unfolding contains_negated_delete is_delete
DeleteUnder-contains_negated_delete (delete_here h) = rw h refl
DeleteUnder-contains_negated_delete (negated {b = b} {e = e} d) =
    subst (λ c. contains_negated_delete e c ≡ true) (sym (double_negation (not b)))
      (DeleteUnder-contains_negated_delete d)
DeleteUnder-contains_negated_delete (and_left d) =
    or_left-true _ _ (DeleteUnder-contains_negated_delete d)
DeleteUnder-contains_negated_delete (and_right d) =
    or_right-true _ _ (DeleteUnder-contains_negated_delete d)
DeleteUnder-contains_negated_delete (or_left d) =
    or_left-true _ _ (DeleteUnder-contains_negated_delete d)
DeleteUnder-contains_negated_delete (or_right d) =
    or_right-true _ _ (DeleteUnder-contains_negated_delete d)
