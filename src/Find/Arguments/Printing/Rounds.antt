-- ===== src/Find/Arguments/Printing/Rounds.antt =====
-- command/internal/find/parser.go: the rounds of `parseExpression` where -delete and -exec are not among
-- the arguments.
use mathlib.Core.Path.{subst}
use mathlib.Core.List.{Memᴰ}
use mathlib.Core.List.Memᴰ as MemD
use kefka.Common.{
  ◌||◌, ◌/◌, length, if◌then◌else◌, ltb, ℕ, ◌≡◌, refl, ◌≢◌, inl, inr, Bool, true, false, not,
  Option, none, some, List, [], ◌∷◌, ◌++◌, arith, Bool-cases, Bytes, codes, contains,
}
use kefka.Find.Syntax.{
  Comparison, PermMatch, expr_size, expr_perm, Action, ActionKind, act_print, act_print0,
  act_printf, Expr, expr_mtime, expr_action, expr_path, expr_name, expr_regex, expr_type,
  expr_newer, expr_empty, expr_prune, expr_true, Token, tok_expr, tok_and, tok_or, tok_not,
  tok_lparen, tok_rparen,
}
use kefka.Find.Eval.{actions}
use kefka.Find.Operands.{
  split_unit, split_perm, all_within, parse_int, max_safe_integer, size_multiplier, parse_size,
  parse_perm, parse_safe_uint, sized, perm_mode, split_comparison,
}
use kefka.Find.Arguments.{
  max_int, push, Keyword, kw_lparen, kw_rparen, kw_prune, kw_empty, kw_xdev, kw_not, kw_or, kw_and,
  kw_depth, kw_print, kw_print0, kw_delete, kw_help, kw_glob, kw_regex, kw_type, kw_exec, kw_printf,
  kw_maxdepth, kw_mindepth, kw_mtime, kw_size, kw_perm, kw_newer, kw_default, Scanned, Round, next,
  return, fail, with_operand, checked_operand, push_type, push_printf, set_depth, unknown,
  compile_regex, step, push_action, push_token,
}
use kefka.Find.Printf.{check_printf}
use kefka.Find.Arguments.Printing.{kind_changes, OnlyPrints, QuietTokens, Plain, silent}

-- A round leaves such arguments, tokens that only print, and no expression in the options.
abbrev pub Printing : Round → Type 0
Printing (next rest s) = Plain rest × QuietTokens s.tokens × (s.opts.expr ≡ none)
Printing (return o) = o.expr ≡ none
Printing (fail line) = Unit

with_operand-Printing :
    (arg : Bytes) (rest : List Bytes) (k : Bytes → List Bytes → Round)
    → Plain rest
    → ((v : Bytes) (r : List Bytes) → Plain r → Printing (k v r))
    → Printing (with_operand arg rest k)
with_operand-Printing arg [] k p h = tt
with_operand-Printing arg (v ∷ rest) k p h = h v rest p.1

checked_operand-Printing {ℓ} :
    {A : Type ℓ} (arg raw : Bytes) (o : Option A) (k : A → Round)
    → ((a : A) → o ≡ some a → Printing (k a))
    → Printing (checked_operand arg raw o k)
checked_operand-Printing arg raw none k h = tt
checked_operand-Printing arg raw (some a) k h = h a refl

sized-actions :
    (cmp : Comparison) (unit : ℕ) (o : Option ℕ) (e : Expr)
    → sized cmp unit o ≡ some e
    → actions e ≡ []
unfolding sized actions
sized-actions cmp unit none e k = absurd (ground (arith, k))
sized-actions cmp unit (some n) e k =
    elim (Bool-cases (ltb (max_safe_integer / size_multiplier unit) n)) [
      | inl b ↦ absurd (ground (arith, rw b at k))
      | inr b ↦ let q : expr_size cmp n unit ≡ e = ground (arith, rw b at k) in rw (← q) refl
    ]

parse_size-actions : (v : Bytes) (e : Expr) → parse_size v ≡ some e → actions e ≡ []
unfolding parse_size
parse_size-actions v e k =
    let (cmp, rest) = split_comparison v in
    let (unit, digits) = split_unit rest in sized-actions cmp unit (parse_safe_uint digits) e k

perm_mode-actions :
    (m : PermMatch) (o : Option ℕ) (e : Expr) → perm_mode m o ≡ some e → actions e ≡ []
unfolding perm_mode actions
perm_mode-actions m none e k = absurd (ground (arith, k))
perm_mode-actions m (some n) e k = let q : expr_perm m n ≡ e = ground (arith, k) in rw (← q) refl

parse_perm-actions : (v : Bytes) (e : Expr) → parse_perm v ≡ some e → actions e ≡ []
unfolding parse_perm
parse_perm-actions v e k =
    let (m, digits) = split_perm v in
    elim (Bool-cases (ltb (length digits) 1 || ltb 4 (length digits))) [
      | inl b ↦ absurd (ground (arith, rw b at k))
      | inr b ↦ elim (Bool-cases (not (all_within b'0' b'7' digits))) [
        | inl c ↦ absurd (ground (arith, rw (b, c) at k))
        | inr c ↦ perm_mode-actions m (parse_int 8 digits) e (rw (b, c) at k)
      ]
    ]

-- A round under a test.
if-Printing : (b : Bool) (x y : Round) → Printing x → Printing y → Printing (if b then x else y)
if-Printing true x y h k = h
if-Printing false x y h k = k

same : (x e : Expr) → tok_expr x ≡ tok_expr e → e ≡ x
same x e k = ground (arith, k)

prints : (a : Action) → kind_changes a.kind ≡ false → OnlyPrints (actions (expr_action a))
unfolding actions
prints a h b (Memᴰ.head e) = rw e h
prints a h b (Memᴰ.tail m) = absurd (MemD.not-nil m)

module _ (s : Scanned) (fresh : s.opts.expr ≡ none) (q : QuietTokens s.tokens) where
  push_token-Quiet :
      (t : Token)
      → ((x : Expr) → tok_expr x ≡ t → OnlyPrints (actions x))
      → QuietTokens (s.tokens ++ t ∷ [])
  push_token-Quiet t h x m = elim (MemD.append_cases s.tokens m) [
    | inl i ↦ q x i
    | inr i ↦ elim (MemD.cases_cons i) [ inl e ↦ h x e | inr j ↦ absurd (MemD.not-nil j) ]
  ]

  push-Quiet : (e : Expr) → OnlyPrints (actions e) → QuietTokens (s.tokens ++ tok_expr e ∷ [])
  push-Quiet e h =
      push_token-Quiet (tok_expr e) (λ x k. subst (λ y. OnlyPrints (actions y)) (same x e k) h)

  next-Printing :
      (rest : List Bytes) (e : Expr)
      → Plain rest
      → OnlyPrints (actions e)
      → Printing (next rest (push s e))
  next-Printing rest e p h = (p, push-Quiet e h, fresh)

  silent-Printing :
      (rest : List Bytes) (e : Expr) → Plain rest → actions e ≡ [] → Printing (next rest (push s e))
  silent-Printing rest e p h = next-Printing rest e p (silent e h)

  action-Printing :
      (rest : List Bytes) (k : ActionKind)
      → Plain rest
      → kind_changes k ≡ false
      → Printing (next rest (push_action s k))
  action-Printing rest k p h = next-Printing rest (expr_action _) p (prints _ h)

  push_type-Printing : (v : Bytes) (r : List Bytes) → Plain r → Printing (push_type s v r)
  unfolding push_type actions
  push_type-Printing [] r p = tt
  push_type-Printing (t ∷ []) r p = elim (Bool-cases (not (contains (codes "bcdflps") t))) [
    | inl k ↦ rw k tt
    | inr k ↦ rw k (silent-Printing r (expr_type t) p refl)
  ]
  push_type-Printing (t ∷ u ∷ v) r p = tt

  push_printf-Printing : (v : Bytes) (r : List Bytes) → Plain r → Printing (push_printf s v r)
  unfolding push_printf
  push_printf-Printing v r p = elim (Bool-cases (check_printf v)) [
    | inl k ↦ rw k (action-Printing r (act_printf v) p refl)
    | inr k ↦ rw k tt
  ]

  set_depth-Printing :
      (arg raw : Bytes) (r : List Bytes) (is_max : Bool) (o : Option ℕ)
      → Plain r
      → Printing (set_depth arg raw s r is_max o)
  unfolding set_depth
  set_depth-Printing arg raw r is_max none p = tt
  set_depth-Printing arg raw r is_max (some d) p =
      if-Printing (ltb max_int d) _ _ tt (if-Printing is_max _ _ (p, q, fresh) (p, q, fresh))

  unknown-Printing : (arg : Bytes) → Printing (unknown arg)
  unfolding unknown
  unknown-Printing [] = tt
  unknown-Printing (c ∷ arg) = ground arith

  token-Printing :
      (t : Token) (rest : List Bytes)
      → Plain rest
      → ((x : Expr) → tok_expr x ≢ t)
      → Printing (next rest (push_token s t))
  token-Printing t rest p h = (p, push_token-Quiet t (λ x e. absurd (h x e)), fresh)

  pub step-Printing :
      (compiles : Bytes → Bool) (k : Keyword) (arg : Bytes) (rest : List Bytes)
      → k ≢ kw_delete
      → k ≢ kw_exec
      → Plain rest
      → Printing (step compiles k arg rest s)
  unfolding step actions
  step-Printing compiles (kw_glob true i) arg rest d x p =
      with_operand-Printing arg rest _ p (λ v r h. silent-Printing r (expr_path v i) h refl)
  step-Printing compiles (kw_glob false i) arg rest d x p =
      with_operand-Printing arg rest _ p (λ v r h. silent-Printing r (expr_name v i) h refl)
  step-Printing compiles (kw_regex i) arg rest d x p = with_operand-Printing arg rest _ p (λ v r h.
      checked_operand-Printing arg v (compile_regex compiles v i) _
        (λ re e. silent-Printing r (expr_regex v i re) h refl))
  step-Printing compiles kw_type arg rest d x p =
      with_operand-Printing arg rest _ p (λ v r h. push_type-Printing v r h)
  step-Printing compiles kw_mtime arg rest d x p = with_operand-Printing arg rest _ p (λ v r h.
      let (cmp, digits) = split_comparison v in
      checked_operand-Printing arg v (parse_safe_uint digits)
        (λ days. next r (push s (expr_mtime cmp days)))
        (λ days e. silent-Printing r (expr_mtime cmp days) h refl))
  step-Printing compiles kw_newer arg rest d x p =
      with_operand-Printing arg rest _ p (λ v r h. silent-Printing r (expr_newer v) h refl)
  step-Printing compiles kw_size arg rest d x p = with_operand-Printing arg rest _ p (λ v r h.
      checked_operand-Printing arg v (parse_size v) (λ e. next r (push s e))
        (λ e k. silent-Printing r e h (parse_size-actions v e k)))
  step-Printing compiles kw_perm arg rest d x p = with_operand-Printing arg rest _ p (λ v r h.
      checked_operand-Printing arg v (parse_perm v) (λ e. next r (push s e))
        (λ e k. silent-Printing r e h (parse_perm-actions v e k)))
  step-Printing compiles kw_maxdepth arg rest d x p =
      with_operand-Printing arg rest _ p
        (λ v r h. set_depth-Printing arg v r true (parse_safe_uint v) h)
  step-Printing compiles kw_mindepth arg rest d x p =
      with_operand-Printing arg rest _ p
        (λ v r h. set_depth-Printing arg v r false (parse_safe_uint v) h)
  step-Printing compiles kw_exec arg rest d x p = absurd (x refl)
  step-Printing compiles kw_delete arg rest d x p = absurd (d refl)
  step-Printing compiles kw_print arg rest d x p = action-Printing rest act_print p refl
  step-Printing compiles kw_print0 arg rest d x p = action-Printing rest act_print0 p refl
  step-Printing compiles kw_printf arg rest d x p =
      with_operand-Printing arg rest _ p (λ v r h. push_printf-Printing v r h)
  step-Printing compiles kw_default arg rest d x p = unknown-Printing arg
  step-Printing compiles kw_help arg rest d x p = fresh
  step-Printing compiles kw_lparen arg rest d x p =
      token-Printing tok_lparen rest p (λ x e. absurd (ground (arith, e)))
  step-Printing compiles kw_rparen arg rest d x p =
      token-Printing tok_rparen rest p (λ x e. absurd (ground (arith, e)))
  step-Printing compiles kw_not arg rest d x p =
      token-Printing tok_not rest p (λ x e. absurd (ground (arith, e)))
  step-Printing compiles kw_or arg rest d x p =
      token-Printing tok_or rest p (λ x e. absurd (ground (arith, e)))
  step-Printing compiles kw_and arg rest d x p =
      token-Printing tok_and rest p (λ x e. absurd (ground (arith, e)))
  step-Printing compiles kw_empty arg rest d x p = silent-Printing rest expr_empty p refl
  step-Printing compiles kw_prune arg rest d x p = silent-Printing rest expr_prune p refl
  step-Printing compiles kw_xdev arg rest d x p =
      (p, push-Quiet expr_true (silent expr_true refl), fresh)
  step-Printing compiles kw_depth arg rest d x p = (p, q, fresh)
