-- ===== src/Find/Tree/Grammar.antt =====
-- The grammar of find's expressions, with no parser in it: parentheses bind tightest, then `!`,
-- then conjunction, written `-a` or by juxtaposition, then `-o`; both operators associate to the
-- left.
use kefka.Common.{◌<◌, List, ◌∷◌, arith, length}
use kefka.Find.Syntax.{
  Expr, expr_not, expr_and, expr_or, Token, tok_expr, tok_and, tok_or, tok_not, tok_lparen,
  tok_rparen,
}

pub data Level : Type 0 where
  primary negation conjunction disjunction : Level

-- `Reads l ts x us`: the tokens of `ts` before `us` are a phrase of level `l` that means `x`.
pub data Reads : Level → List Token → Expr → List Token → Type 0 where
  leaf : {x : Expr} {us : List Token} → Reads primary (tok_expr x ∷ us) x us
  paren :
      {ts us : List Token} {x : Expr}
      → Reads disjunction ts x (tok_rparen ∷ us)
      → Reads primary (tok_lparen ∷ ts) x us
  plain : {ts us : List Token} {x : Expr} → Reads primary ts x us → Reads negation ts x us
  negated :
      {ts us : List Token} {x : Expr}
      → Reads negation ts x us
      → Reads negation (tok_not ∷ ts) (expr_not x) us
  one : {ts us : List Token} {x : Expr} → Reads negation ts x us → Reads conjunction ts x us
  conjoined :
      {ts us vs : List Token} {x y : Expr}
      → Reads conjunction ts x (tok_and ∷ us)
      → Reads negation us y vs
      → Reads conjunction ts (expr_and x y) vs
  juxtaposed :
      {ts us vs : List Token} {x y : Expr}
      → Reads conjunction ts x us
      → Reads negation us y vs
      → Reads conjunction ts (expr_and x y) vs
  single : {ts us : List Token} {x : Expr} → Reads conjunction ts x us → Reads disjunction ts x us
  disjoined :
      {ts us vs : List Token} {x y : Expr}
      → Reads disjunction ts x (tok_or ∷ us)
      → Reads conjunction us y vs
      → Reads disjunction ts (expr_or x y) vs

-- A phrase is not empty.
pub Reads-length :
    {l : Level} {ts us : List Token} {x : Expr} → Reads l ts x us → length us < length ts
Reads-length leaf = omega arith
Reads-length (paren d) = omega (arith, Reads-length d)
Reads-length (plain d) = Reads-length d
Reads-length (negated d) = omega (arith, Reads-length d)
Reads-length (one d) = Reads-length d
Reads-length (conjoined d k) = omega (arith, Reads-length d, Reads-length k)
Reads-length (juxtaposed d k) = omega (arith, Reads-length d, Reads-length k)
Reads-length (single d) = Reads-length d
Reads-length (disjoined d k) = omega (arith, Reads-length d, Reads-length k)
