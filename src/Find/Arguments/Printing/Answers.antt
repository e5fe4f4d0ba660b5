-- ===== src/Find/Arguments/Printing/Answers.antt =====
-- command/internal/find/parser.go: the expression of a command line without -delete and -exec.
use mathlib.Core.Path.{subst}
use mathlib.Core.List.Memᴰ as MemD
use kefka.Common.{length, zero, suc, ℕ, ◌≡◌, refl, Bool, none, some, List, [], ◌∷◌, arith, Bytes}
use kefka.Find.Syntax.{Options, Expr, Token}
use kefka.Find.Eval.{actions}
use kefka.Find.Tree.{Built, built, no_expression, refused, no_answer, build_expression_tree}
use kefka.Find.Tree.Sound.{build_expression_tree-Reads}
use kefka.Find.Arguments.{
  keyword, Scanned, Round, next, return, fail, step, Parsed, options, error, unfinished, with_tree,
  finish, parse_loop, parse_expression, initial_options,
}
use kefka.Find.Arguments.Printing.{
  OnlyPrints, QuietTokens, Plain, keyword-delete, keyword-exec, Reads-OnlyPrints,
}
use kefka.Find.Arguments.Printing.Rounds.{Printing, step-Printing}

QuietTokens-nil : QuietTokens []
QuietTokens-nil x m = absurd (MemD.not-nil m)

-- An answer whose expression only prints.
abbrev Prints : Parsed → Type 0
Prints (options o) = (e : Expr) → o.expr ≡ some e → OnlyPrints (actions e)
Prints (error line) = Unit
Prints unfinished = Unit

with_tree-Prints :
    (o : Options) (ts : List Token) (b : Built)
    → o.expr ≡ none
    → QuietTokens ts
    → build_expression_tree ts ≡ b
    → Prints (with_tree o b)
unfolding with_tree
with_tree-Prints o ts (built x) h t q = λ e r.
    let same : x ≡ e = ground (arith, r) in
    subst (λ y. OnlyPrints (actions y)) same
      (Reads-OnlyPrints (build_expression_tree-Reads ts q).0 t).0
with_tree-Prints o ts no_expression h t q = λ e r. absurd (ground (arith, h, r))
with_tree-Prints o ts (refused m) h t q = tt
with_tree-Prints o ts no_answer h t q = tt

finished-Prints :
    (o : Options) (ts : List Token)
    → o.expr ≡ none
    → QuietTokens ts
    → Prints (elim ts [ [] ↦ options o | t ∷ us ↦ with_tree o (build_expression_tree (t ∷ us)) ])
finished-Prints o [] h q = λ e r. absurd (ground (arith, h, r))
finished-Prints o (t ∷ ts) h q = with_tree-Prints o (t ∷ ts) _ h q refl

module _ (compiles : Bytes → Bool) where
  round-Prints :
      (f : ℕ) (r : Round)
      → Printing r
      → ((us : List Bytes) (t : Scanned)
          → Plain us
          → QuietTokens t.tokens
          → t.opts.expr ≡ none
          → Prints (parse_loop compiles f us t))
      → Prints (elim r [
        | next rest' s' ↦ parse_loop compiles f rest' s'
        | return opts ↦ options opts
        | fail line ↦ error line
      ])
  round-Prints f (next us t) k ih = ih us t k.0 k.1 k.2
  round-Prints f (return o) k ih = λ e r. absurd (ground (arith, k, r))
  round-Prints f (fail line) k ih = tt

  parse_loop-Prints :
      (f : ℕ) (args : List Bytes) (s : Scanned)
      → Plain args
      → QuietTokens s.tokens
      → s.opts.expr ≡ none
      → Prints (parse_loop compiles f args s)
  unfolding parse_loop finish
  parse_loop-Prints f [] s p q h = finished-Prints s.opts s.tokens h q
  parse_loop-Prints zero (arg ∷ rest) s p q h = tt
  parse_loop-Prints (suc f) (arg ∷ rest) s p q h =
      round-Prints f (step compiles (keyword arg) arg rest s)
        (step-Printing s h q compiles (keyword arg) arg rest (keyword-delete arg p.0.0)
          (keyword-exec arg p.0.1) p.1)
        (λ us t u v w. parse_loop-Prints f us t u v w)

  -- Without -delete and -exec among the arguments, every action of the expression only prints.
  pub parse_expression-OnlyPrints :
      (args : List Bytes) {o : Options} (e : Expr)
      → Plain args
      → parse_expression compiles args ≡ options o
      → o.expr ≡ some e
      → OnlyPrints (actions e)
  unfolding parse_expression
  parse_expression-OnlyPrints args e p q r =
      (rw q at (
          parse_loop-Prints (length args) args (record { opts = initial_options; tokens = [] }) p
            QuietTokens-nil refl))
        e r
