-- ===== src/Find/Eval/Depends.antt =====
-- command/internal/find/matcher.go: the parts of an entry that `eval` reads.
use kefka.Common.{
  ℕ, ◌≡◌, refl, Bool, false, ◌||◌, Option, List, [], ◌∷◌, ◌++◌, append_assoc, arith, Bytes,
}
use kefka.Find.Syntax.{
  Expr, expr_name, expr_path, expr_regex, expr_type, expr_newer, expr_prune, expr_true, expr_action,
  expr_not, expr_and, expr_or,
}
use kefka.Find.Eval.{
  Platform, EvalCtx, eval, walk, reads_stat, any_of, collect, needs_stat, newer_ref_of, newer_refs,
}

any_of-append :
    (f : Expr → Bool) (xs ys : List Expr) → any_of f (xs ++ ys) ≡ (any_of f xs || any_of f ys)
any_of-append f [] ys = refl
any_of-append f (x ∷ xs) ys = ground (arith, any_of-append f xs ys)

pub collect-append {ℓ} :
    {A : Type ℓ} (f : Expr → List A) (xs ys : List Expr)
    → collect f (xs ++ ys) ≡ collect f xs ++ collect f ys
collect-append f [] ys = refl
collect-append f (x ∷ xs) ys = rw (collect-append f xs ys, append_assoc)

module _ (p : Platform) where
  -- Where no test needs a stat, the result is that of any other entry with the same name, path and
  -- type, whatever its size, times, mode, contents and references are.
  pub eval-needs_stat :
      (e : Expr) (c d : EvalCtx)
      → needs_stat e ≡ false
      → c.name ≡ d.name
      → c.path ≡ d.path
      → c.typ ≡ d.typ
      → eval p e c ≡ eval p e d
  unfolding eval needs_stat
  eval-needs_stat (expr_name pattern ignore_case) c d h n q t = rw n
  eval-needs_stat (expr_path pattern ignore_case) c d h n q t = rw q
  eval-needs_stat (expr_regex pattern ignore_case re) c d h n q t = rw q
  eval-needs_stat (expr_type file_type) c d h n q t = rw t
  eval-needs_stat expr_prune c d h n q t = refl
  eval-needs_stat expr_true c d h n q t = refl
  eval-needs_stat (expr_action act) c d h n q t = refl
  eval-needs_stat (expr_not l) c d h n q t = rw (eval-needs_stat l c d h n q t)
  eval-needs_stat (expr_and l r) c d h n q t =
      let parts = any_of-append reads_stat (walk l) (walk r) in
      rw (
        eval-needs_stat l c d (ground (arith, parts)) n q t,
        eval-needs_stat r c d (ground (arith, parts)) n q t,
      )
  eval-needs_stat (expr_or l r) c d h n q t =
      let parts = any_of-append reads_stat (walk l) (walk r) in
      rw (
        eval-needs_stat l c d (ground (arith, parts)) n q t,
        eval-needs_stat r c d (ground (arith, parts)) n q t,
      )
  eval-needs_stat _ c d h n q t = cc

-- Two tables of reference times that agree on these references.
abbrev pub AgreeOn : List Bytes → (Bytes → Option ℕ) → (Bytes → Option ℕ) → Type 0
AgreeOn [] f g = Unit
AgreeOn (r ∷ rs) f g = (f r ≡ g r) × AgreeOn rs f g

AgreeOn-split :
    (rs ss : List Bytes) (f g : Bytes → Option ℕ)
    → AgreeOn (rs ++ ss) f g
    → AgreeOn rs f g × AgreeOn ss f g
AgreeOn-split [] ss f g h = (tt, h)
AgreeOn-split (r ∷ rs) ss f g h = let (a, b) = AgreeOn-split rs ss f g h.1 in ((h.0, a), b)

module _ (p : Platform) where
  -- The evaluation looks at the reference times of `newer_refs` only.
  pub eval-newer_refs :
      (e : Expr) (c : EvalCtx) (table : Bytes → Option ℕ)
      → AgreeOn (newer_refs e) c.newer table
      → eval p e c ≡ eval p e (record c { newer = table })
  unfolding eval newer_refs
  eval-newer_refs (expr_newer ref_path) c table h = rw h.0
  eval-newer_refs (expr_not l) c table h = rw (eval-newer_refs l c table h)
  eval-newer_refs (expr_and l r) c table h =
      let h' = rw (collect-append newer_ref_of (walk l) (walk r)) at h in
      let (a, b) = AgreeOn-split (newer_refs l) (newer_refs r) c.newer table h' in
      rw (eval-newer_refs l c table a, eval-newer_refs r c table b)
  eval-newer_refs (expr_or l r) c table h =
      let h' = rw (collect-append newer_ref_of (walk l) (walk r)) at h in
      let (a, b) = AgreeOn-split (newer_refs l) (newer_refs r) c.newer table h' in
      rw (eval-newer_refs l c table a, eval-newer_refs r c table b)
  eval-newer_refs _ c table h = refl
