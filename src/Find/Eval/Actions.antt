-- ===== src/Find/Eval/Actions.antt =====
-- command/internal/find/matcher.go: the actions that `eval` reaches.
use mathlib.Core.List.{Sublistᴰ}
use mathlib.Core.List.Sublistᴰ as SublistD
use kefka.Common.{◌≡◌, refl, sym, Bool, true, false, List, [], ◌∷◌, ◌++◌, append-nil, if◌then◌else◌}
use kefka.Find.Syntax.{Action, Expr, expr_action, expr_not, expr_and, expr_or}
use kefka.Find.Eval.{
  Platform, EvalCtx, EvalResult, eval, both, concat_actions, walk, action_of, actions,
}
use kefka.Find.Eval.Depends.{collect-append}

concat_actions-append : (a b : List Action) → concat_actions a b ≡ a ++ b
unfolding concat_actions
concat_actions-append [] b = refl
concat_actions-append (x ∷ a) [] = sym (append-nil (x ∷ a))
concat_actions-append (x ∷ a) (y ∷ b) = refl

-- `IsPart a b`: `a` is `b` with some elements left out.
Sublistᴰ_nil : (b : List Action) → Sublistᴰ [] b
Sublistᴰ_nil [] = Sublistᴰ.slnil
Sublistᴰ_nil (x ∷ b) = Sublistᴰ.cons (Sublistᴰ_nil b)

Sublistᴰ_left : {a b : List Action} (d : List Action) → Sublistᴰ a b → Sublistᴰ a (b ++ d)
Sublistᴰ_left d h = rw append-nil at (SublistD.append h (Sublistᴰ_nil d))

-- Both branches of a test on results.
Sublistᴰ_if :
    (b : Bool) (x y : EvalResult) (d : List Action)
    → Sublistᴰ x.actions d
    → Sublistᴰ y.actions d
    → Sublistᴰ (if b then x else y).actions d
Sublistᴰ_if true x y d h k = h
Sublistᴰ_if false x y d h k = k

Sublistᴰ_both :
    (x y : EvalResult) {a b : List Action}
    → Sublistᴰ x.actions a
    → Sublistᴰ y.actions b
    → Sublistᴰ (both x y).actions (a ++ b)
unfolding both
Sublistᴰ_both x y h k = rw (concat_actions-append x.actions y.actions) (SublistD.append h k)

module _ (p : Platform) where
  -- The actions that an evaluation reaches are those of the expression, some of them left out, in
  -- the order in which the expression has them.
  pub eval-actions : (e : Expr) (c : EvalCtx) → Sublistᴰ (eval p e c).actions (actions e)
  unfolding eval actions
  eval-actions (expr_action act) c = Sublistᴰ.cons-cons refl Sublistᴰ.slnil
  eval-actions (expr_not l) c = eval-actions l c
  eval-actions (expr_and l r) c =
      let x = eval-actions l c in
      let y = eval-actions r c in
      rw (collect-append action_of (walk l) (walk r)) (
        Sublistᴰ_if _ _ _ _ (Sublistᴰ_left (actions r) x)
          (Sublistᴰ_both (eval p l c) (eval p r c) x y))
  eval-actions (expr_or l r) c =
      let x = eval-actions l c in
      let y = eval-actions r c in
      rw (collect-append action_of (walk l) (walk r)) (
        Sublistᴰ_if _ _ _ _ (Sublistᴰ_left (actions r) x)
          (Sublistᴰ_both (eval p l c) (eval p r c) x y))
  eval-actions _ c = Sublistᴰ.slnil
