-- ===== src/Find/Syntax.antt =====
-- command/internal/find/parser.go, lines 14 to 109: expressions, actions, options and tokens.
-- The struct `expr` is split by its kind, so each constructor has the fields that its kind uses.
use kefka.Common.{ℕ, Bool, List, Option, Bytes}

pub data Comparison : Type 0 where
  cmp_exact cmp_more cmp_less : Comparison

pub data PermMatch : Type 0 where
  perm_exact perm_all perm_any : PermMatch

pub data ActionKind : Type 0 where
  act_print act_print0 : ActionKind
  act_printf : (format : Bytes) → ActionKind
  act_delete : ActionKind
  act_exec : (command : List Bytes) (batch : Bool) → ActionKind

-- Batches are grouped by the pointer to the action: `id` stands for the pointer.
pub record Action : Type 0 where
  pub id : ℕ
  pub kind : ActionKind

-- A compiled regular expression is represented by the source text that was compiled.
pub data Expr : Type 0 where
  expr_name : (pattern : Bytes) (ignore_case : Bool) → Expr
  expr_path : (pattern : Bytes) (ignore_case : Bool) → Expr
  expr_regex : (pattern : Bytes) (ignore_case : Bool) (re : Bytes) → Expr
  expr_type : (file_type : ℕ) → Expr
  expr_empty : Expr
  expr_mtime : (cmp : Comparison) (value : ℕ) → Expr
  expr_newer : (ref_path : Bytes) → Expr
  expr_size : (cmp : Comparison) (value : ℕ) (unit : ℕ) → Expr
  expr_perm : (perm : PermMatch) (value : ℕ) → Expr
  expr_prune : Expr
  expr_true : Expr
  expr_action : (act : Action) → Expr
  expr_not : (left : Expr) → Expr
  expr_and expr_or : (left right : Expr) → Expr

-- `max_depth` is `none` where the source has -1.
pub record Options : Type 0 where
  pub expr : Option Expr
  pub max_depth : Option ℕ
  pub min_depth : ℕ
  pub depth_first : Bool
  pub xdev : Bool
  pub help : Bool

pub data Token : Type 0 where
  tok_expr : Expr → Token
  tok_and tok_or tok_not tok_lparen tok_rparen : Token
