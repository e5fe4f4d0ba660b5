-- ===== src/Find/Arguments/Printing.antt =====
-- command/internal/find/parser.go: the actions of a command line without -delete and -exec.
pub mod Rounds
pub mod Answers
use mathlib.Core.Path.{subst}
use mathlib.Core.List.{Memᴰ}
use mathlib.Core.List.Memᴰ as MemD
use kefka.Common.{
  ℕ, zero, suc, ◌+◌, ◌-◌, ◌*◌, ◌/◌, ◌%◌, ◌^◌, ◌≤◌, ◌<◌, ◌≡◌, refl, sym, ap, ◌∙◌, ◌≢◌, ◌↔◌, ◌⊎◌, inl,
  inr, Bool, true, false, not, ◌&&◌, ◌||◌, Option, none, some, List, [], ◌∷◌, ◌++◌, map, append-nil,
  append_assoc, arith, ltb, leb, ◌==◌, if◌then◌else◌, ==_iff, Bool-cases, Option-cases, length,
  take, drop, replicate, last?, init, length-append, length-take, length-drop, length-replicate,
  Bytes, codes, equal, equal_iff, has_prefix, trim_prefix, contains, within, replace_all,
}
use kefka.Find.Syntax.{
  Action, ActionKind, act_print, act_print0, act_printf, act_delete, act_exec, Options, Expr,
  expr_not, expr_and, expr_or, expr_mtime, expr_action, Token, tok_expr, tok_and, tok_or, tok_not,
  tok_lparen, tok_rparen,
}
use kefka.Find.Eval.{actions, walk, action_of, collect}
use kefka.Find.Eval.Depends.{collect-append}
use kefka.Find.Tree.{Built, built, no_expression, refused, no_answer, build_expression_tree}
use kefka.Find.Tree.Grammar.{
  Reads, leaf, paren, plain, negated, one, conjoined, juxtaposed, single, disjoined, Level,
}
use kefka.Find.Tree.Sound.{build_expression_tree-Reads}
use kefka.Find.Operands.{
  parse_size, parse_perm, parse_safe_uint, sized, perm_mode, split_comparison,
}
use kefka.Find.Arguments.{
  push, Keyword, kw_lparen, kw_rparen, kw_prune, kw_empty, kw_xdev, kw_not, kw_or, kw_and, kw_depth,
  kw_print, kw_print0, kw_delete, kw_help, kw_glob, kw_regex, kw_type, kw_exec, kw_printf,
  kw_maxdepth, kw_mindepth, kw_mtime, kw_size, kw_perm, kw_newer, kw_default, keyword, Scanned,
  Round, next, return, fail, with_operand, checked_operand, push_type, exec_command, push_exec,
  push_printf, set_depth, unknown, compile_regex, step, Parsed, options, error, unfinished,
  with_tree, finish, parse_loop, parse_expression, initial_options,
}

abbrev pub kind_changes : ActionKind → Bool
kind_changes act_delete = true
kind_changes (act_exec command batch) = true
kind_changes act_print = false
kind_changes act_print0 = false
kind_changes (act_printf f) = false

-- Every action of a list only prints.
abbrev pub OnlyPrints : List Action → Type 0
OnlyPrints l = (a : Action) → Memᴰ a l → kind_changes a.kind ≡ false

append-OnlyPrints : (l m : List Action) → OnlyPrints l → OnlyPrints m → OnlyPrints (l ++ m)
append-OnlyPrints l m h k a i = elim (MemD.append_cases l i) [ inl j ↦ h a j | inr j ↦ k a j ]

pub silent : (e : Expr) → actions e ≡ [] → OnlyPrints (actions e)
silent e q a m = absurd (MemD.not-nil (subst (Memᴰ a) q m))

actions-and : (x y : Expr) → actions (expr_and x y) ≡ actions x ++ actions y
unfolding actions
actions-and x y = collect-append action_of (walk x) (walk y)

actions-or : (x y : Expr) → actions (expr_or x y) ≡ actions x ++ actions y
unfolding actions
actions-or x y = collect-append action_of (walk x) (walk y)

actions-not : (x : Expr) → actions (expr_not x) ≡ actions x
unfolding actions
actions-not x = refl

-- The expressions among the tokens only print.
abbrev pub QuietTokens : List Token → Type 0
QuietTokens ts = (x : Expr) → Memᴰ (tok_expr x) ts → OnlyPrints (actions x)

later : (t : Token) (ts : List Token) → QuietTokens (t ∷ ts) → QuietTokens ts
later t ts h x m = h x (Memᴰ.tail m)

two :
    (x y z : Expr) (us : List Token)
    → actions z ≡ actions x ++ actions y
    → OnlyPrints (actions x)
    → OnlyPrints (actions y) × QuietTokens us
    → OnlyPrints (actions z) × QuietTokens us
two x y z us q h k = (subst OnlyPrints (sym q) (append-OnlyPrints _ _ h k.0), k.1)

pub Reads-OnlyPrints :
    {l : Level} {ts us : List Token} {x : Expr}
    → Reads l ts x us
    → QuietTokens ts
    → OnlyPrints (actions x) × QuietTokens us
Reads-OnlyPrints (leaf {x = x} {us = us}) h = (h x (Memᴰ.head refl), later (tok_expr x) us h)
Reads-OnlyPrints (paren {ts = ts} {us = us} d) h =
    let (a, b) = Reads-OnlyPrints d (later tok_lparen ts h) in (a, later tok_rparen us b)
Reads-OnlyPrints (plain d) h = Reads-OnlyPrints d h
Reads-OnlyPrints (negated {ts = ts} {x = x} d) h =
    let (a, b) = Reads-OnlyPrints d (later tok_not ts h) in
    (subst OnlyPrints (sym (actions-not x)) a, b)
Reads-OnlyPrints (one d) h = Reads-OnlyPrints d h
Reads-OnlyPrints (conjoined {us = us} {vs = vs} {x = x} {y = y} d k) h =
    let (a, b) = Reads-OnlyPrints d h in
    two x y (expr_and x y) vs (actions-and x y) a (Reads-OnlyPrints k (later tok_and us b))
Reads-OnlyPrints (juxtaposed {vs = vs} {x = x} {y = y} d k) h =
    let (a, b) = Reads-OnlyPrints d h in
    two x y (expr_and x y) vs (actions-and x y) a (Reads-OnlyPrints k b)
Reads-OnlyPrints (single d) h = Reads-OnlyPrints d h
Reads-OnlyPrints (disjoined {us = us} {vs = vs} {x = x} {y = y} d k) h =
    let (a, b) = Reads-OnlyPrints d h in
    two x y (expr_or x y) vs (actions-or x y) a (Reads-OnlyPrints k (later tok_or us b))

-- The arguments that change something are not among these.
abbrev pub Plain : List Bytes → Type 0
Plain [] = Unit
Plain (a ∷ args) =
    ((equal a (codes "-delete") ≡ false) × (equal a (codes "-exec") ≡ false)) × Plain args

pub keyword-delete : (a : Bytes) → equal a (codes "-delete") ≡ false → keyword a ≢ kw_delete
unfolding keyword
keyword-delete a h e = absurd (ground (arith, h, e))

pub keyword-exec : (a : Bytes) → equal a (codes "-exec") ≡ false → keyword a ≢ kw_exec
unfolding keyword
keyword-exec a h e = absurd (ground (arith, h, e))
