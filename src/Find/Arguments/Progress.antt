-- ===== src/Find/Arguments/Progress.antt =====
-- command/internal/find/parser.go: the rounds of `parseExpression` and its end.
use kefka.Common.{
  ℕ, zero, suc, ◌≤◌, ◌≡◌, refl, ◌≢◌, Bool, true, false, Option, none, some, List, [], ◌∷◌, ◌++◌,
  arith, length, Bytes,
}
use kefka.Find.Syntax.{Options, Expr, Token, expr_mtime}
use kefka.Find.Operands.{parse_size, parse_perm, parse_safe_uint, split_comparison}
use kefka.Find.Tree.{
  Built, built, no_expression, refused, no_answer, build_expression_tree, contains_negated_delete,
}
use kefka.Find.Tree.Fuel.{build_expression_tree-ne-no_answer}
use kefka.Find.Tree.Negated.{DeleteUnder, DeleteUnder-contains_negated_delete}
use kefka.Find.Tree.Sound.{build_expression_tree-Reads}
use kefka.Find.Arguments.{
  push, Keyword, kw_help, kw_glob, kw_regex, kw_type, kw_exec, kw_printf, kw_maxdepth, kw_mindepth,
  kw_mtime, kw_size, kw_perm, kw_newer, kw_default, keyword, Scanned, Round, next, return, fail,
  with_operand, checked_operand, push_type, exec_command, push_exec, push_printf, set_depth,
  unknown, compile_regex, step, Parsed, options, error, unfinished, with_tree, finish, parse_loop,
  parse_expression, initial_options,
}

-- A round leaves at most `n` arguments, and no expression in the options.
abbrev Leaves : ℕ → Round → Type 0
Leaves n (next rest s) = (length rest ≤ n) × (s.opts.expr ≡ none)
Leaves n (return o) = o.expr ≡ none
Leaves n (fail line) = Unit

with_operand-Leaves :
    (arg : Bytes) (rest : List Bytes) (k : Bytes → List Bytes → Round)
    → ((v : Bytes) (r : List Bytes) → length r ≤ length rest → Leaves (length rest) (k v r))
    → Leaves (length rest) (with_operand arg rest k)
with_operand-Leaves arg [] k h = tt
with_operand-Leaves arg (v ∷ rest) k h = h v rest (omega arith)

checked_operand-Leaves {ℓ} :
    {A : Type ℓ} (n : ℕ) (arg raw : Bytes) (o : Option A) (k : A → Round)
    → ((a : A) → Leaves n (k a))
    → Leaves n (checked_operand arg raw o k)
checked_operand-Leaves n arg raw none k h = tt
checked_operand-Leaves n arg raw (some a) k h = h a

module _ (s : Scanned) (fresh : s.opts.expr ≡ none) where
  push_type-Leaves : (v : Bytes) (r : List Bytes) → Leaves (length r) (push_type s v r)
  unfolding push_type
  push_type-Leaves [] r = tt
  push_type-Leaves (t ∷ []) r = ground arith
  push_type-Leaves (t ∷ u ∷ v) r = tt

  push_printf-Leaves : (v : Bytes) (r : List Bytes) → Leaves (length r) (push_printf s v r)
  unfolding push_printf
  push_printf-Leaves v r = ground arith

  set_depth-Leaves :
      (arg raw : Bytes) (r : List Bytes) (is_max : Bool) (o : Option ℕ)
      → Leaves (length r) (set_depth arg raw s r is_max o)
  unfolding set_depth
  set_depth-Leaves arg raw r is_max none = tt
  set_depth-Leaves arg raw r is_max (some d) = ground arith

  exec_command-length :
      (command args : List Bytes) (c : List Bytes) (b : Bool) (r : List Bytes)
      → exec_command command args ≡ some (c, b, r)
      → length r ≤ length args
  unfolding exec_command
  exec_command-length command [] c b r e = cc
  exec_command-length command (a ∷ args) c b r e =
      ground (arith, exec_command-length (command ++ a ∷ []) args c b r)

  push_exec-Leaves :
      (n : ℕ) (o : Option (List Bytes × Bool × List Bytes))
      → ((c : List Bytes) (b : Bool) (r : List Bytes) → o ≡ some (c, b, r) → length r ≤ n)
      → Leaves n (push_exec s o)
  unfolding push_exec
  push_exec-Leaves n none h = tt
  push_exec-Leaves n (some ([], b, r)) h = tt
  push_exec-Leaves n (some (c ∷ command, b, r)) h = ground (arith, h (c ∷ command) b r refl)

  Leaves-le : (m n : ℕ) (r : Round) → m ≤ n → Leaves m r → Leaves n r
  Leaves-le m n (next rest t) h k = (omega arith, k.1)
  Leaves-le m n (return o) h k = k
  Leaves-le m n (fail line) h k = tt

  unknown-Leaves : (n : ℕ) (arg : Bytes) → Leaves n (unknown arg)
  unfolding unknown
  unknown-Leaves n [] = tt
  unknown-Leaves n (c ∷ arg) = ground arith

  step-Leaves :
      (compiles : Bytes → Bool) (k : Keyword) (arg : Bytes) (rest : List Bytes)
      → Leaves (length rest) (step compiles k arg rest s)
  unfolding step
  step-Leaves compiles (kw_glob true i) arg rest =
      with_operand-Leaves arg rest _ (λ v r h. (h, fresh))
  step-Leaves compiles (kw_glob false i) arg rest =
      with_operand-Leaves arg rest _ (λ v r h. (h, fresh))
  step-Leaves compiles (kw_regex i) arg rest = with_operand-Leaves arg rest _ (λ v r h.
      checked_operand-Leaves (length rest) arg v (compile_regex compiles v i) _ (λ re. (h, fresh)))
  step-Leaves compiles kw_type arg rest =
      with_operand-Leaves arg rest _
        (λ v r h. Leaves-le (length r) (length rest) (push_type s v r) h (push_type-Leaves v r))
  step-Leaves compiles kw_mtime arg rest = with_operand-Leaves arg rest _ (λ v r h.
      let (cmp, digits) = split_comparison v in
      checked_operand-Leaves (length rest) arg v (parse_safe_uint digits)
        (λ days. next r (push s (expr_mtime cmp days))) (λ days. (h, fresh)))
  step-Leaves compiles kw_newer arg rest = with_operand-Leaves arg rest _ (λ v r h. (h, fresh))
  step-Leaves compiles kw_size arg rest = with_operand-Leaves arg rest _ (λ v r h.
      checked_operand-Leaves (length rest) arg v (parse_size v) (λ e. next r (push s e))
        (λ e. (h, fresh)))
  step-Leaves compiles kw_perm arg rest = with_operand-Leaves arg rest _ (λ v r h.
      checked_operand-Leaves (length rest) arg v (parse_perm v) (λ e. next r (push s e))
        (λ e. (h, fresh)))
  step-Leaves compiles kw_maxdepth arg rest = with_operand-Leaves arg rest _ (λ v r h.
      Leaves-le (length r) (length rest) _ h (set_depth-Leaves arg v r true (parse_safe_uint v)))
  step-Leaves compiles kw_mindepth arg rest = with_operand-Leaves arg rest _ (λ v r h.
      Leaves-le (length r) (length rest) _ h (set_depth-Leaves arg v r false (parse_safe_uint v)))
  step-Leaves compiles kw_exec arg rest =
      push_exec-Leaves (length rest) (exec_command [] rest)
        (λ c b r e. exec_command-length [] rest c b r e)
  step-Leaves compiles kw_printf arg rest =
      with_operand-Leaves arg rest _
        (λ v r h. Leaves-le (length r) (length rest) _ h (push_printf-Leaves v r))
  step-Leaves compiles kw_default arg rest = unknown-Leaves (length rest) arg
  step-Leaves compiles kw_help arg rest = fresh
  step-Leaves compiles _ arg rest = (omega arith, fresh)

-- An answer, with no expression that the builder refuses.
abbrev Checked : Parsed → Type 0
Checked (options o) = (e : Expr) → o.expr ≡ some e → contains_negated_delete e false ≡ false
Checked (error line) = Unit
Checked unfinished = ⊥

with_tree-Checked :
    (o : Options) (ts : List Token) (b : Built)
    → o.expr ≡ none
    → build_expression_tree ts ≡ b
    → Checked (with_tree o b)
unfolding with_tree
with_tree-Checked o ts (built x) h q =
    λ e r. let same : x ≡ e = ground arith in rw (← same) (build_expression_tree-Reads ts q).1
with_tree-Checked o ts no_expression h q = λ e r. cc
with_tree-Checked o ts (refused m) h q = tt
with_tree-Checked o ts no_answer h q = build_expression_tree-ne-no_answer ts q

finish-Checked : (s : Scanned) → s.opts.expr ≡ none → Checked (finish s)
unfolding finish
finish-Checked s h = go s.tokens
  where
    go :
        (ts : List Token)
        → Checked (elim ts [
          | [] ↦ options s.opts
          | t ∷ us ↦ with_tree s.opts (build_expression_tree (t ∷ us))
        ])
    go [] = λ e r. cc
    go (t ∷ ts) = with_tree-Checked s.opts (t ∷ ts) _ h refl

module _ (compiles : Bytes → Bool) where
  parse_loop-Checked :
      (f : ℕ) (args : List Bytes) (s : Scanned)
      → length args ≤ f
      → s.opts.expr ≡ none
      → Checked (parse_loop compiles f args s)
  unfolding parse_loop
  parse_loop-Checked f [] s l h = finish-Checked s h
  parse_loop-Checked zero (arg ∷ rest) s l h = absurd (omega arith)
  parse_loop-Checked (suc f) (arg ∷ rest) s l h =
      go (step compiles (keyword arg) arg rest s) (step-Leaves s h compiles (keyword arg) arg rest)
        (λ r t k q. parse_loop-Checked f r t (omega arith) q)
    where
      go :
          (r : Round)
          → Leaves (length rest) r
          → ((us : List Bytes) (t : Scanned)
              → length us ≤ length rest
              → t.opts.expr ≡ none
              → Checked (parse_loop compiles f us t))
          → Checked (elim r [
            | next rest' s' ↦ parse_loop compiles f rest' s'
            | return opts ↦ options opts
            | fail line ↦ error line
          ])
      go (next us t) k ih = ih us t k.0 k.1
      go (return o) k ih = λ e q. cc
      go (fail line) k ih = tt

  parse_expression-Checked : (args : List Bytes) → Checked (parse_expression compiles args)
  unfolding parse_expression
  parse_expression-Checked args =
      parse_loop-Checked (length args) args (record { opts = initial_options; tokens = [] })
        (omega arith) refl

  -- `parseExpression` ends on every command line, with options or with an error.
  pub parse_expression-ne-unfinished :
      (args : List Bytes) → parse_expression compiles args ≢ unfinished
  parse_expression-ne-unfinished args e = rw e at (parse_expression-Checked args)

  -- No command line that `parseExpression` accepts has a -delete under an odd number of negations.
  pub parse_expression-ne-DeleteUnder :
      (args : List Bytes) {o : Options} (e : Expr)
      → parse_expression compiles args ≡ options o
      → o.expr ≡ some e
      → ¬ DeleteUnder true e
  parse_expression-ne-DeleteUnder args e q r d =
      let safe = (rw q at (parse_expression-Checked args)) e r in
      cc (safe, DeleteUnder-contains_negated_delete d)
