-- ===== src/Find/Arguments.antt =====
-- command/internal/find/parser.go, lines 111 to 321: `parseExpression` and `compileRegex`. The
-- arguments from the index on are a list, and each round of the loop takes one at least.
pub mod Progress
pub mod Printing
use kefka.Common.{
  ℕ, zero, suc, ◌-◌, ◌^◌, Bool, true, false, not, ◌&&◌, ◌||◌, Option, none, some, List, [], ◌∷◌,
  ◌++◌, ltb, ◌==◌, if◌then◌else◌, length, last?, Bytes, codes, equal, contains,
}
use kefka.Find.Syntax.{
  act_print, act_print0, act_printf, act_delete, act_exec, ActionKind, Expr, expr_name, expr_path,
  expr_regex, expr_type, expr_empty, expr_mtime, expr_newer, expr_prune, expr_true, expr_action,
  Options, Token, tok_expr, tok_and, tok_or, tok_not, tok_lparen, tok_rparen,
}
use kefka.Find.Operands.{split_comparison, parse_safe_uint, parse_size, parse_perm, count_braces}
use kefka.Find.Printf.{check_printf}
use kefka.Find.Tree.{
  message, Built, built, no_expression, refused, no_answer, build_expression_tree,
}

-- The cases of the `switch` on an argument.
pub data Keyword : Type 0 where
  kw_lparen kw_rparen kw_help : Keyword
  kw_glob : (whole_path ignore_case : Bool) → Keyword
  kw_regex : (ignore_case : Bool) → Keyword
  kw_type kw_empty kw_mtime kw_newer kw_size kw_perm kw_prune kw_xdev : Keyword
  kw_not kw_or kw_and kw_maxdepth kw_mindepth kw_depth : Keyword
  kw_exec kw_print kw_print0 kw_printf kw_delete kw_default : Keyword

unfoldable pub keyword : Bytes → Keyword
unfolding equal
keyword arg =
    if equal arg (codes "(") || equal arg (codes "\\(")
    then kw_lparen
    else if equal arg (codes ")") || equal arg (codes "\\)")
    then kw_rparen
    else if equal arg (codes "--help")
    then kw_help
    else if equal arg (codes "-name")
    then kw_glob false false
    else if equal arg (codes "-iname")
    then kw_glob false true
    else if equal arg (codes "-path")
    then kw_glob true false
    else if equal arg (codes "-ipath")
    then kw_glob true true
    else if equal arg (codes "-regex")
    then kw_regex false
    else if equal arg (codes "-iregex")
    then kw_regex true
    else if equal arg (codes "-type")
    then kw_type
    else if equal arg (codes "-empty")
    then kw_empty
    else if equal arg (codes "-mtime")
    then kw_mtime
    else if equal arg (codes "-newer")
    then kw_newer
    else if equal arg (codes "-size")
    then kw_size
    else if equal arg (codes "-perm")
    then kw_perm
    else if equal arg (codes "-prune")
    then kw_prune
    else if equal arg (codes "-xdev")
    then kw_xdev
    else if equal arg (codes "-not") || equal arg (codes "!")
    then kw_not
    else if equal arg (codes "-o") || equal arg (codes "-or")
    then kw_or
    else if equal arg (codes "-a") || equal arg (codes "-and")
    then kw_and
    else if equal arg (codes "-maxdepth")
    then kw_maxdepth
    else if equal arg (codes "-mindepth")
    then kw_mindepth
    else if equal arg (codes "-depth")
    then kw_depth
    else if equal arg (codes "-exec")
    then kw_exec
    else if equal arg (codes "-print")
    then kw_print
    else if equal arg (codes "-print0")
    then kw_print0
    else if equal arg (codes "-printf")
    then kw_printf
    else if equal arg (codes "-delete")
    then kw_delete
    else kw_default

-- The options read so far, with the tokens.
pub record Scanned : Type 0 where
  pub opts : Options
  pub tokens : List Token

-- One round of the loop goes on with the arguments that are left, or returns; an error is the line
-- that is printed.
pub data Round : Type 0 where
  next : List Bytes → Scanned → Round
  return : Options → Round
  fail : Bytes → Round

abbrev pub missing_argument : Bytes → Round
missing_argument pred = fail (codes "find: missing argument to `" ++ (pred ++ codes "'\n"))

abbrev pub invalid_argument : Bytes → Bytes → Round
invalid_argument pred value =
    fail (codes "find: invalid argument `" ++ (value ++ (codes "' to `" ++ (pred ++ codes "'\n"))))

abbrev pub push_token : Scanned → Token → Scanned
push_token s t = record s { tokens = s.tokens ++ t ∷ [] }

abbrev pub push : Scanned → Expr → Scanned
push s e = push_token s (tok_expr e)

-- A new action; no two have the same number, since each is pushed.
abbrev pub push_action : Scanned → ActionKind → Scanned
push_action s k = push s (expr_action (record { id = length s.tokens; kind = k }))

-- The value behind a predicate.
abbrev pub with_operand : Bytes → List Bytes → (Bytes → List Bytes → Round) → Round
with_operand arg [] use_operand = missing_argument arg
with_operand arg (value ∷ rest) use_operand = use_operand value rest

-- An operand that is parsed to a value.
abbrev pub checked_operand {ℓ} : {A : Type ℓ} → Bytes → Bytes → Option A → (A → Round) → Round
checked_operand arg raw none use_value = invalid_argument arg raw
checked_operand arg raw (some v) use_value = use_value v

unfoldable pub push_type : Scanned → Bytes → List Bytes → Round
unfolding contains
push_type s (t ∷ []) rest =
    if not (contains (codes "bcdflps") t)
    then fail (codes "find: Unknown argument to -type: " ++ (t ∷ 10 ∷ []))
    else next rest (push s (expr_type t))
push_type s file_type rest =
    fail (codes "find: Unknown argument to -type: " ++ (file_type ++ 10 ∷ []))

-- The arguments of -exec up to its end: the command, whether it is a batch, and what follows.
unfoldable pub exec_command : List Bytes → List Bytes → Option (List Bytes × Bool × List Bytes)
unfolding equal
exec_command command [] = none
exec_command command (a ∷ args) =
    if equal a (codes ";")
    then some (command, false, args)
    else if equal a (codes "+")
        && elim (last? command) [ none ↦ false | some l ↦ equal l (codes "{}") ]
    then some (command, true, args)
    else exec_command (command ++ a ∷ []) args

unfoldable pub push_exec : Scanned → Option (List Bytes × Bool × List Bytes) → Round
unfolding count_braces
push_exec s none = missing_argument (codes "-exec")
push_exec s (some ([], batch, rest)) = missing_argument (codes "-exec")
push_exec s (some (c ∷ command, batch, rest)) =
    if batch && not (count_braces (c ∷ command) == 1)
    then invalid_argument (codes "-exec") (codes "+")
    else next rest (push_action s (act_exec (c ∷ command) batch))

unfoldable pub push_printf : Scanned → Bytes → List Bytes → Round
push_printf s format rest =
    if check_printf format
    then next rest (push_action s (act_printf format))
    else fail (codes "find: format width limit exceeded (10485760 bytes)\n")

-- the largest `int`
abbrev max_int : ℕ
max_int = 2 ^ 63 - 1

unfoldable pub set_depth : Bytes → Bytes → Scanned → List Bytes → Bool → Option ℕ → Round
set_depth arg raw s rest is_max none = invalid_argument arg raw
set_depth arg raw s rest is_max (some depth) =
    if ltb max_int depth
    then invalid_argument arg raw
    else if is_max
    then next rest (record s { opts = record s.opts { max_depth = some depth } })
    else next rest (record s { opts = record s.opts { min_depth = depth } })

unfoldable pub unknown : Bytes → Round
unknown [] = fail (codes "find: paths must precede expression: `" ++ codes "'\n")
unknown (c ∷ arg) =
    if c == b'-'
    then fail (codes "find: unknown predicate '" ++ (c ∷ (arg ++ codes "'\n")))
    else fail (codes "find: paths must precede expression: `" ++ (c ∷ (arg ++ codes "'\n")))

-- What `parseExpression` returns; `unfinished` means that the fuel ran out.
pub data Parsed : Type 0 where
  options : Options → Parsed
  error : Bytes → Parsed
  unfinished : Parsed

-- the end of `parseExpression`, behind `buildExpressionTree`
unfoldable pub with_tree : Options → Built → Parsed
with_tree opts (built e) = options (record opts { expr = some e })
with_tree opts no_expression = options opts
with_tree opts (refused e) = error (message e)
with_tree opts no_answer = unfinished

unfoldable pub finish : Scanned → Parsed
unfolding with_tree
finish s = elim s.tokens [
  | [] ↦ options s.opts
  | t ∷ ts ↦ with_tree s.opts (build_expression_tree (t ∷ ts))
]

abbrev pub initial_options : Options
initial_options = record {
  expr = none;
  max_depth = none;
  min_depth = 0;
  depth_first = false;
  xdev = false;
  help = false;
}

-- `compiles` is whether package regexp compiles a source.
module _ (compiles : Bytes → Bool) where
  unfoldable pub compile_regex : Bytes → Bool → Option Bytes
  compile_regex pattern ignore_case =
      let flags : Bytes = if ignore_case then codes "(?i)" else [] in
      let source = flags ++ (codes "^(?:" ++ (pattern ++ codes ")$")) in
      if not (compiles pattern) then none else if compiles source then some source else none

  -- The case of the `switch` at the argument `arg`, with the arguments behind it.
  unfoldable pub step : Keyword → Bytes → List Bytes → Scanned → Round
  unfolding push_type push_exec push_printf set_depth unknown exec_command
  step kw_lparen arg rest s = next rest (push_token s tok_lparen)
  step kw_rparen arg rest s = next rest (push_token s tok_rparen)
  step kw_help arg rest s = return (record s.opts { help = true })
  step (kw_glob true ignore_case) arg rest s =
      with_operand arg rest (λ v r. next r (push s (expr_path v ignore_case)))
  step (kw_glob false ignore_case) arg rest s =
      with_operand arg rest (λ v r. next r (push s (expr_name v ignore_case)))
  step (kw_regex ignore_case) arg rest s = with_operand arg rest (λ v r.
      checked_operand arg v (compile_regex v ignore_case)
        (λ re. next r (push s (expr_regex v ignore_case re))))
  step kw_type arg rest s = with_operand arg rest (λ v r. push_type s v r)
  step kw_empty arg rest s = next rest (push s expr_empty)
  step kw_mtime arg rest s = with_operand arg rest (λ v r.
      let (cmp, digits) = split_comparison v in
      checked_operand arg v (parse_safe_uint digits)
        (λ days. next r (push s (expr_mtime cmp days))))
  step kw_newer arg rest s = with_operand arg rest (λ v r. next r (push s (expr_newer v)))
  step kw_size arg rest s =
      with_operand arg rest (λ v r. checked_operand arg v (parse_size v) (λ e. next r (push s e)))
  step kw_perm arg rest s =
      with_operand arg rest (λ v r. checked_operand arg v (parse_perm v) (λ e. next r (push s e)))
  step kw_prune arg rest s = next rest (push s expr_prune)
  step kw_xdev arg rest s =
      next rest (push (record s { opts = record s.opts { xdev = true } }) expr_true)
  step kw_not arg rest s = next rest (push_token s tok_not)
  step kw_or arg rest s = next rest (push_token s tok_or)
  step kw_and arg rest s = next rest (push_token s tok_and)
  step kw_maxdepth arg rest s =
      with_operand arg rest (λ v r. set_depth arg v s r true (parse_safe_uint v))
  step kw_mindepth arg rest s =
      with_operand arg rest (λ v r. set_depth arg v s r false (parse_safe_uint v))
  step kw_depth arg rest s = next rest (record s { opts = record s.opts { depth_first = true } })
  step kw_exec arg rest s = push_exec s (exec_command [] rest)
  step kw_print arg rest s = next rest (push_action s act_print)
  step kw_print0 arg rest s = next rest (push_action s act_print0)
  step kw_printf arg rest s = with_operand arg rest (λ v r. push_printf s v r)
  step kw_delete arg rest s = next rest (push_action s act_delete)
  step kw_default arg rest s = unknown arg

  unfoldable pub parse_loop : ℕ → List Bytes → Scanned → Parsed
  parse_loop f [] s = finish s
  parse_loop zero (arg ∷ rest) s = unfinished
  parse_loop (suc f) (arg ∷ rest) s = elim (step (keyword arg) arg rest s) [
    | next rest' s' ↦ parse_loop f rest' s'
    | return opts ↦ options opts
    | fail line ↦ error line
  ]

  unfoldable pub parse_expression : List Bytes → Parsed
  unfolding parse_loop step keyword finish compile_regex split_comparison parse_safe_uint parse_size
      parse_perm check_printf build_expression_tree
  parse_expression args =
      parse_loop (length args) args (record { opts = initial_options; tokens = [] })
