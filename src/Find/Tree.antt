-- ===== src/Find/Tree.antt =====
-- command/internal/find/parser.go, lines 419 to 526: `buildExpressionTree` and
-- `containsNegatedDelete`. The position in the tokens is the list of tokens that are left, and the
-- variable `errMsg` is passed along. The recursion of the descent is on fuel.
pub mod Grammar
pub mod Fuel
pub mod Negated
pub mod Sound
pub mod Complete
use kefka.Common.{
  ℕ, zero, suc, ◌+◌, ◌-◌, ◌*◌, ◌/◌, ◌%◌, ◌^◌, ◌≤◌, ◌<◌, ◌≡◌, refl, sym, ap, ◌∙◌, ◌≢◌, ◌↔◌, ◌⊎◌, inl,
  inr, Bool, true, false, not, ◌&&◌, ◌||◌, Option, none, some, List, [], ◌∷◌, ◌++◌, map, append-nil,
  append_assoc, arith, ltb, leb, ◌==◌, if◌then◌else◌, ==_iff, Bool-cases, Option-cases, length,
  take, drop, replicate, last?, init, length-append, length-take, length-drop, length-replicate,
  Bytes, codes, equal, equal_iff, has_prefix, trim_prefix, contains, within,
}
use kefka.Find.Syntax.{
  ActionKind, act_delete, Action, Expr, expr_action, expr_not, expr_and, expr_or, Token, tok_expr,
  tok_and, tok_or, tok_not, tok_lparen, tok_rparen,
}

-- The messages, by what they complain of; `message` has their text.
pub data SyntaxError : Type 0 where
  after_or after_and after_not missing_rparen unexpected_rparen : SyntaxError
  invalid_expression negated_delete : SyntaxError

pub message : SyntaxError → Bytes
message after_or = codes "find: expected an expression after `-o'\n"
message after_and = codes "find: expected an expression after `-a'\n"
message after_not = codes "find: expected an expression after `!'\n"
message missing_rparen = codes "find: missing closing `)'\n"
message unexpected_rparen = codes "find: unexpected `)'\n"
message invalid_expression = codes "find: invalid expression\n"
message negated_delete = codes "find: refusing to evaluate `-delete' under negation\n"

-- `errMsg`, with `none` for the empty string
abbrev pub Message : Type 0
Message = Option SyntaxError

-- What a parser returns, an expression or nil, with the tokens left and `errMsg` after it.
pub data Outcome : Type 0 where
  parsed : Expr → List Token → Message → Outcome
  nothing : List Token → Message → Outcome
  out_of_fuel : Outcome

-- The test of a returned expression against nil.
abbrev pub unless_nil :
    Outcome → (Expr → List Token → Message → Outcome) → (List Token → Message → Outcome) → Outcome
unless_nil (parsed x ts e) next stop = next x ts e
unless_nil (nothing ts e) next stop = stop ts e
unless_nil out_of_fuel next stop = out_of_fuel

-- the end of `parsePrimary` behind a parenthesis
abbrev pub close_paren : Expr → List Token → Message → Outcome
close_paren x (tok_rparen ∷ ts) e = parsed x ts e
close_paren x ts e = nothing ts (some missing_rparen)

unfoldable mutual
  pub parse_or : ℕ → List Token → Message → Outcome
  parse_or zero ts e = out_of_fuel
  parse_or (suc f) ts e =
      unless_nil (parse_and f ts e) (λ left ts' e'. or_loop f left ts' e')
        (λ ts' e'. nothing ts' e')

  -- the loop of `parseOr`
  pub or_loop : ℕ → Expr → List Token → Message → Outcome
  or_loop zero left ts e = out_of_fuel
  or_loop (suc f) left (tok_or ∷ ts) e =
      unless_nil (parse_and f ts e) (λ right ts' e'. or_loop f (expr_or left right) ts' e')
        (λ ts' e'. nothing ts' (some after_or))
  or_loop (suc f) left ts e = parsed left ts e

  pub parse_and : ℕ → List Token → Message → Outcome
  parse_and zero ts e = out_of_fuel
  parse_and (suc f) ts e =
      unless_nil (parse_not f ts e) (λ left ts' e'. and_loop f left ts' e')
        (λ ts' e'. nothing ts' e')

  -- the loop of `parseAnd`
  pub and_loop : ℕ → Expr → List Token → Message → Outcome
  and_loop zero left ts e = out_of_fuel
  and_loop (suc f) left (tok_and ∷ ts) e =
      unless_nil (parse_not f ts e) (λ right ts' e'. and_loop f (expr_and left right) ts' e')
        (λ ts' e'. nothing ts' (some after_and))
  and_loop (suc f) left (tok_expr x ∷ ts) e =
      unless_nil (parse_not f (tok_expr x ∷ ts) e)
        (λ right ts' e'. and_loop f (expr_and left right) ts' e') (λ ts' e'. parsed left ts' e')
  and_loop (suc f) left (tok_not ∷ ts) e =
      unless_nil (parse_not f (tok_not ∷ ts) e)
        (λ right ts' e'. and_loop f (expr_and left right) ts' e') (λ ts' e'. parsed left ts' e')
  and_loop (suc f) left (tok_lparen ∷ ts) e =
      unless_nil (parse_not f (tok_lparen ∷ ts) e)
        (λ right ts' e'. and_loop f (expr_and left right) ts' e') (λ ts' e'. parsed left ts' e')
  and_loop (suc f) left ts e = parsed left ts e

  pub parse_not : ℕ → List Token → Message → Outcome
  parse_not zero ts e = out_of_fuel
  parse_not (suc f) (tok_not ∷ ts) e =
      unless_nil (parse_not f ts e) (λ inner ts' e'. parsed (expr_not inner) ts' e')
        (λ ts' e'. nothing ts' (some after_not))
  parse_not (suc f) ts e = parse_primary f ts e

  pub parse_primary : ℕ → List Token → Message → Outcome
  parse_primary zero ts e = out_of_fuel
  parse_primary (suc f) (tok_lparen ∷ ts) e =
      unless_nil (parse_or f ts e) (λ inner ts' e'. close_paren inner ts' e')
        (λ ts' e'. nothing ts' (some missing_rparen))
  parse_primary (suc f) (tok_expr x ∷ ts) e = parsed x ts e
  parse_primary (suc f) ts e = nothing ts e

unfoldable is_delete : ActionKind → Bool
is_delete act_delete = true
is_delete _ = false

unfoldable pub contains_negated_delete : Expr → Bool → Bool
unfolding is_delete
contains_negated_delete (expr_action act) negated = negated && is_delete act.kind
contains_negated_delete (expr_not left) negated = contains_negated_delete left (not negated)
contains_negated_delete (expr_and left right) negated =
    contains_negated_delete left negated || contains_negated_delete right negated
contains_negated_delete (expr_or left right) negated =
    contains_negated_delete left negated || contains_negated_delete right negated
contains_negated_delete _ negated = false

-- What `buildExpressionTree` returns; `no_expression` is a nil expression with no message.
pub data Built : Type 0 where
  built : Expr → Built
  no_expression : Built
  refused : SyntaxError → Built
  no_answer : Built

-- the message for tokens that are left over
abbrev pub left_over : Token → SyntaxError
left_over tok_rparen = unexpected_rparen
left_over _ = invalid_expression

-- the end of `buildExpressionTree`
abbrev pub conclude : Outcome → Built
conclude (parsed x ts (some m)) = refused m
conclude (parsed x (t ∷ ts) none) = refused (left_over t)
conclude (parsed x [] none) =
    if contains_negated_delete x false then refused negated_delete else built x
conclude (nothing ts (some m)) = refused m
conclude (nothing (t ∷ ts) none) = refused (left_over t)
conclude (nothing [] none) = no_expression
conclude out_of_fuel = no_answer

unfoldable pub build_expression_tree : List Token → Built
unfolding parse_or contains_negated_delete
build_expression_tree ts = conclude (parse_or (5 * length ts + 5) ts none)
