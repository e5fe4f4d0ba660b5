-- ===== src/Find/Tree/Fuel.antt =====
-- command/internal/find/parser.go: the fuel of the descent of `buildExpressionTree`.
use kefka.Common.{ℕ, zero, suc, ◌+◌, ◌*◌, ◌≤◌, ◌<◌, ◌≢◌, none, some, List, [], ◌∷◌, arith, length}
use kefka.Find.Syntax.{
  Expr, Token, tok_expr, tok_and, tok_or, tok_not, tok_lparen, tok_rparen, expr_and, expr_or,
}
use kefka.Find.Tree.{
  Outcome, parsed, nothing, out_of_fuel, Message, unless_nil, close_paren, parse_or, or_loop,
  parse_and, and_loop, parse_not, parse_primary, no_answer, conclude, build_expression_tree,
}

-- An answer, which leaves fewer than `n` tokens if it is an expression.
abbrev Answers : ℕ → Outcome → Type 0
Answers n (parsed x us e) = length us < n
Answers n (nothing us e) = length us ≤ n
Answers n out_of_fuel = ⊥

Answers-unless_nil :
    (m n : ℕ) (o : Outcome) (next : Expr → List Token → Message → Outcome)
    (stop : List Token → Message → Outcome)
    → Answers m o
    → ((x : Expr) (us : List Token) (e : Message) → length us < m → Answers n (next x us e))
    → ((us : List Token) (e : Message) → length us ≤ m → Answers n (stop us e))
    → Answers n (unless_nil o next stop)
Answers-unless_nil m n (parsed x us e) next stop h k s = k x us e h
Answers-unless_nil m n (nothing us e) next stop h k s = s us e h
Answers-unless_nil m n out_of_fuel next stop h k s = h

close_paren-Answers :
    (n : ℕ) (x : Expr) (us : List Token) (e : Message)
    → length us < n
    → Answers n (close_paren x us e)
close_paren-Answers n x [] e h = omega arith
close_paren-Answers n x (tok_rparen ∷ us) e h = omega arith
close_paren-Answers n x (_ ∷ us) e h = omega arith

mutual
  unfolding parse_or

  parse_or-Answers :
      (f : ℕ) (ts : List Token) (e : Message)
      → 5 * length ts + 4 < f
      → Answers (length ts) (parse_or f ts e)
  parse_or-Answers zero ts e h = omega arith
  parse_or-Answers (suc f) ts e h =
      Answers-unless_nil (length ts) (length ts) (parse_and f ts e) _ _
        (parse_and-Answers f ts e (omega arith))
        (λ x us e' k. or_loop-Answers f (length ts) x us e' k (omega arith))
        (λ us e' k'. omega arith)

  or_loop-Answers :
      (f n : ℕ) (x : Expr) (ts : List Token) (e : Message)
      → length ts < n
      → 5 * length ts + 4 < f
      → Answers n (or_loop f x ts e)
  or_loop-Answers zero n x ts e k h = omega arith
  or_loop-Answers (suc f) n x (tok_or ∷ ts) e k h =
      Answers-unless_nil (length ts) n (parse_and f ts e) _ _
        (parse_and-Answers f ts e (omega arith))
        (λ y us e' k'. or_loop-Answers f n (expr_or x y) us e' (omega arith) (omega arith))
        (λ us e' k'. omega arith)
  or_loop-Answers (suc f) n x [] e k h = k
  or_loop-Answers (suc f) n x (_ ∷ ts) e k h = k

  parse_and-Answers :
      (f : ℕ) (ts : List Token) (e : Message)
      → 5 * length ts + 3 < f
      → Answers (length ts) (parse_and f ts e)
  parse_and-Answers zero ts e h = omega arith
  parse_and-Answers (suc f) ts e h =
      Answers-unless_nil (length ts) (length ts) (parse_not f ts e) _ _
        (parse_not-Answers f ts e (omega arith))
        (λ x us e' k. and_loop-Answers f (length ts) x us e' k (omega arith))
        (λ us e' k'. omega arith)

  and_loop-Answers :
      (f n : ℕ) (x : Expr) (ts : List Token) (e : Message)
      → length ts < n
      → 5 * length ts + 3 < f
      → Answers n (and_loop f x ts e)
  and_loop-Answers zero n x ts e k h = omega arith
  and_loop-Answers (suc f) n x (tok_and ∷ ts) e k h =
      Answers-unless_nil (length ts) n (parse_not f ts e) _ _
        (parse_not-Answers f ts e (omega arith))
        (λ y us e' k'. and_loop-Answers f n (expr_and x y) us e' (omega arith) (omega arith))
        (λ us e' k'. omega arith)
  and_loop-Answers (suc f) n x (tok_expr z ∷ ts) e k h =
      Answers-unless_nil (length (tok_expr z ∷ ts)) n (parse_not f (tok_expr z ∷ ts) e) _ _
        (parse_not-Answers f (tok_expr z ∷ ts) e (omega arith))
        (λ y us e' k'. and_loop-Answers f n (expr_and x y) us e' (omega arith) (omega arith))
        (λ us e' k'. omega arith)
  and_loop-Answers (suc f) n x (tok_not ∷ ts) e k h =
      Answers-unless_nil (length (tok_not ∷ ts)) n (parse_not f (tok_not ∷ ts) e) _ _
        (parse_not-Answers f (tok_not ∷ ts) e (omega arith))
        (λ y us e' k'. and_loop-Answers f n (expr_and x y) us e' (omega arith) (omega arith))
        (λ us e' k'. omega arith)
  and_loop-Answers (suc f) n x (tok_lparen ∷ ts) e k h =
      Answers-unless_nil (length (tok_lparen ∷ ts)) n (parse_not f (tok_lparen ∷ ts) e) _ _
        (parse_not-Answers f (tok_lparen ∷ ts) e (omega arith))
        (λ y us e' k'. and_loop-Answers f n (expr_and x y) us e' (omega arith) (omega arith))
        (λ us e' k'. omega arith)
  and_loop-Answers (suc f) n x [] e k h = k
  and_loop-Answers (suc f) n x (_ ∷ ts) e k h = k

  parse_not-Answers :
      (f : ℕ) (ts : List Token) (e : Message)
      → 5 * length ts + 2 < f
      → Answers (length ts) (parse_not f ts e)
  parse_not-Answers zero ts e h = omega arith
  parse_not-Answers (suc f) (tok_not ∷ ts) e h =
      Answers-unless_nil (length ts) (suc (length ts)) (parse_not f ts e) _ _
        (parse_not-Answers f ts e (omega arith)) (λ x us e' k. omega arith)
        (λ us e' k'. omega arith)
  parse_not-Answers (suc f) [] e h = parse_primary-Answers f [] e (omega arith)
  parse_not-Answers (suc f) (t ∷ ts) e h = parse_primary-Answers f (t ∷ ts) e (omega arith)

  parse_primary-Answers :
      (f : ℕ) (ts : List Token) (e : Message)
      → 5 * length ts + 1 < f
      → Answers (length ts) (parse_primary f ts e)
  parse_primary-Answers zero ts e h = omega arith
  parse_primary-Answers (suc f) (tok_lparen ∷ ts) e h =
      Answers-unless_nil (length ts) (suc (length ts)) (parse_or f ts e) _ _
        (parse_or-Answers f ts e (omega arith))
        (λ x us e' k. close_paren-Answers (suc (length ts)) x us e' (omega arith))
        (λ us e' k'. omega arith)
  parse_primary-Answers (suc f) [] e h = omega arith
  parse_primary-Answers (suc f) (tok_expr x ∷ ts) e h = omega arith
  parse_primary-Answers (suc f) (_ ∷ ts) e h = omega arith

conclude-Answers : (n : ℕ) (o : Outcome) → Answers n o → conclude o ≢ no_answer
conclude-Answers n (parsed x us (some m)) h = cc
conclude-Answers n (parsed x (t ∷ us) none) h = cc
conclude-Answers n (parsed x [] none) h = ground arith
conclude-Answers n (nothing us (some m)) h = cc
conclude-Answers n (nothing (t ∷ us) none) h = cc
conclude-Answers n (nothing [] none) h = cc
conclude-Answers n out_of_fuel h = absurd h

-- The descent of `buildExpressionTree` ends for every list of tokens.
pub build_expression_tree-ne-no_answer : (ts : List Token) → build_expression_tree ts ≢ no_answer
unfolding build_expression_tree
build_expression_tree-ne-no_answer ts =
    conclude-Answers (length ts) (parse_or (5 * length ts + 5) ts none)
      (parse_or-Answers (5 * length ts + 5) ts none (omega arith))
