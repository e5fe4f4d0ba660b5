-- ===== src/Tests/FindTests.antt =====
-- Tests and instances for the find command.
use mathlib.Core.List.{Sublistᴰ}
use kefka.Common.{
  has_prefix, contains, ℕ, ◌*◌, ◌≤◌, ◌≡◌, refl, sym, ◌≢◌, ◌↔◌, Bool, true, false, Option, none,
  some, List, [], ◌∷◌, if◌then◌else◌, Bytes, codes, equal,
}
use kefka.Find.Syntax.{
  act_delete, Expr, expr_name, expr_newer, expr_not, expr_and, expr_or, expr_true, expr_action,
  expr_prune, expr_size, cmp_more, Token, tok_expr, tok_or, tok_not, tok_lparen, tok_rparen,
}
use kefka.Find.Operands.{max_safe_integer, size_multiplier, parse_size}
use kefka.Find.Operands.Bounds.{parse_size_bounds}
use kefka.Find.Tree.{
  built, refused, negated_delete, missing_rparen, build_expression_tree, contains_negated_delete,
}
use kefka.Find.Tree.Grammar.{Reads, disjunction}
use kefka.Find.Tree.Complete.{build_expression_tree_iff}
use kefka.Find.Glob.{match_glob}
use kefka.Find.Glob.Spec.{Matches}
use kefka.Find.Glob.Match.{match_glob_iff}
use kefka.Find.Eval.{EvalCtx, eval, needs_stat, newer_refs, actions}
use kefka.Find.Eval.Depends.{eval-needs_stat, eval-newer_refs}
use kefka.Find.Eval.Actions.{eval-actions}
use kefka.Find.Arguments.{options, error, unfinished, parse_expression, initial_options}
use kefka.Find.Tree.Negated.{DeleteUnder}
use kefka.Find.Arguments.Progress.{parse_expression-ne-unfinished, parse_expression-ne-DeleteUnder}
use kefka.Find.Printf.{Width, process_escapes, check_printf, parse_width_precision}
use kefka.Find.Printf.Escapes.{doubled, process_escapes-doubled}
use kefka.Find.Printf.Format.{PrintfData, format_printf}
use kefka.Find.Printf.Checked.{
  format_strict, format_strict-check_printf, WithinLimit, parse_width_precision-WithinLimit,
}
use kefka.Tests.Platforms.{ascii, platform, clock}
use kefka.Utf8.{runes}

abbrev delete : Expr
delete = expr_action (record { id = 0; kind = act_delete })

-- ! ( -prune -o -xdev )
abbrev tokens : List Token
tokens = tok_not ∷ tok_lparen ∷ tok_expr expr_prune ∷ tok_or ∷ tok_expr expr_true ∷ tok_rparen ∷ []

tokens_build : build_expression_tree tokens ≡ built (expr_not (expr_or expr_prune expr_true))
unfolding build_expression_tree
tokens_build = refl

not_delete : build_expression_tree (tok_not ∷ tok_expr delete ∷ []) ≡ refused negated_delete
unfolding build_expression_tree
not_delete = refl

open_paren : build_expression_tree (tok_lparen ∷ tok_expr delete ∷ []) ≡ refused missing_rparen
unfolding build_expression_tree
open_paren = refl

build_expression_tree_iff_example :
    (build_expression_tree tokens ≡ built (expr_not (expr_or expr_prune expr_true))) ↔ (
      Reads disjunction tokens (expr_not (expr_or expr_prune expr_true)) []
      × (contains_negated_delete (expr_not (expr_or expr_prune expr_true)) false ≡ false))
build_expression_tree_iff_example =
    build_expression_tree_iff tokens (expr_not (expr_or expr_prune expr_true))

glob_runs : match_glob ascii (codes "*.[!a-f]o") (codes "main.Go") true ≡ true
unfolding match_glob runes
glob_runs = refl

glob_class : match_glob ascii (codes "[[:digit:]]*") (codes "x1") false ≡ false
unfolding match_glob runes equal
glob_class = refl

match_glob_iff_example :
    (match_glob ascii (codes "*.[!a-f]o") (codes "a.go") false ≡ true)
    ↔ Matches ascii false (runes (codes "*.[!a-f]o")) (runes (codes "a.go"))
match_glob_iff_example = match_glob_iff ascii (codes "*.[!a-f]o") (codes "a.go") false

abbrev entry : EvalCtx
entry = record {
  name = codes "a.go";
  path = codes "./a.go";
  typ = 0;
  is_file = true;
  is_dir = false;
  is_empty = false;
  mtime = 5;
  size = 100;
  mode = 420;
  now = 9;
  newer = λ r. none;
}

abbrev by_name : Expr
by_name = expr_and (expr_name (codes "*.go") false) delete

by_name_deletes : (eval platform by_name entry).actions ≡ record { id = 0; kind = act_delete } ∷ []
unfolding eval match_glob runes
by_name_deletes = refl

by_name_no_stat : needs_stat by_name ≡ false
unfolding needs_stat
by_name_no_stat = refl

eval-needs_stat_example :
    eval platform by_name entry ≡ eval platform by_name (record entry { size = 0; is_empty = true })
eval-needs_stat_example =
    eval-needs_stat platform by_name entry (record entry { size = 0; is_empty = true })
      by_name_no_stat refl refl refl

abbrev by_age : Expr
by_age = expr_or (expr_newer (codes "ref")) delete

-- Two tables that agree on "ref".
abbrev table : Bytes → Option ℕ
table r = if equal r (codes "ref") then none else some 3

by_age_refs : newer_refs by_age ≡ codes "ref" ∷ []
unfolding newer_refs
by_age_refs = refl

table_ref : table (codes "ref") ≡ none
unfolding equal
table_ref = refl

eval-newer_refs_example :
    eval platform by_age entry ≡ eval platform by_age (record entry { newer = table })
eval-newer_refs_example =
    eval-newer_refs platform by_age entry table (rw by_age_refs (sym table_ref, tt))

eval-actions_example : Sublistᴰ (eval platform by_name entry).actions (actions by_name)
eval-actions_example = eval-actions platform by_name entry

abbrev any_source : Bytes → Bool
any_source source = true

abbrev command_line : List Bytes
command_line = codes "-name" ∷ codes "*.o" ∷ codes "-delete" ∷ []

abbrev command_tree : Expr
command_tree =
    expr_and (expr_name (codes "*.o") false) (expr_action (record { id = 1; kind = act_delete }))

command_line_parses :
    parse_expression any_source command_line
    ≡ options (record initial_options { expr = some command_tree })
unfolding parse_expression
command_line_parses = refl

unknown_predicate :
    parse_expression any_source (codes "-nope" ∷ [])
    ≡ error (codes "find: unknown predicate '-nope'\n")
unfolding parse_expression
unknown_predicate = refl

parse_expression-ne-unfinished_example : parse_expression any_source command_line ≢ unfinished
parse_expression-ne-unfinished_example = parse_expression-ne-unfinished any_source command_line

parse_expression-ne-DeleteUnder_example : ¬ DeleteUnder true command_tree
parse_expression-ne-DeleteUnder_example =
    parse_expression-ne-DeleteUnder any_source command_line command_tree command_line_parses refl

size_parses : parse_size (codes "+3k") ≡ some (expr_size cmp_more 3 b'k')
unfolding parse_size
size_parses = refl

parse_size_bounds_example : 3 * size_multiplier b'k' ≤ max_safe_integer
parse_size_bounds_example = parse_size_bounds (codes "+3k") cmp_more b'k' size_parses

escapes_run : process_escapes (codes "a\\n\\101\\x42\\q") ≡ codes "a\nAB\\q"
unfolding process_escapes
escapes_run = refl

process_escapes-doubled_example : process_escapes (doubled (codes "c:\\n")) ≡ codes "c:\\n"
process_escapes-doubled_example = process_escapes-doubled (codes "c:\\n")

abbrev shown : PrintfData
shown = record {
  path = codes "src/a.go";
  name = codes "a.go";
  size = 100;
  mtime = 5;
  mode = 420;
  is_dir = false;
  depth = 1;
  starting_point = codes "src";
}

printf_runs :
    format_printf clock (codes "%-6f|%h %P %s %m %M%%\\n") shown
    ≡ codes "a.go  |src a.go 100 644 -rw-r--r--%\n"
unfolding format_printf contains has_prefix
printf_runs = refl

printf_checks : check_printf (codes "%6f\\n") ≡ true
unfolding check_printf
printf_checks = refl

format_strict-check_printf_example :
    format_strict clock (codes "%6f\\n") shown ≡ some (format_printf clock (codes "%6f\\n") shown)
format_strict-check_printf_example =
    format_strict-check_printf clock (codes "%6f\\n") shown printf_checks

abbrev six_dot_two : Width
six_dot_two = record { left = true; width = 6; precision = some 2 }

width_parses : parse_width_precision (codes "-6.2f") ≡ some (six_dot_two, codes "f")
unfolding parse_width_precision
width_parses = refl

parse_width_precision-WithinLimit_example : WithinLimit six_dot_two
parse_width_precision-WithinLimit_example =
    parse_width_precision-WithinLimit (codes "-6.2f") six_dot_two (codes "f") width_parses
