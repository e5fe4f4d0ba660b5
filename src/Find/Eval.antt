-- ===== src/Find/Eval.antt =====
-- command/internal/find/matcher.go, lines 12 to 208: the evaluation of an expression at one entry,
-- and what is collected from an expression before the walk.
pub mod Depends
pub mod Actions
use Prim.Native.Nat.{bit_and}
use kefka.Common.{
  ℕ, ◌+◌, ◌*◌, ◌%◌, Bool, true, false, not, ◌||◌, Option, none, some, List, [], ◌∷◌, ◌++◌, ltb,
  ◌==◌, if◌then◌else◌, Bytes,
}
use kefka.Common.Int.{ℤ, pos, ltb_ℤ, eqb_ℤ, int64, quot}
use kefka.FileMode.{
  has_bit, set_bit, mode_dir, mode_symlink, mode_device, mode_named_pipe, mode_socket, mode_setuid,
  mode_setgid, mode_char_device, mode_sticky, perm, is_regular,
}
use kefka.Find.Syntax.{
  Comparison, cmp_exact, cmp_more, cmp_less, PermMatch, perm_exact, perm_all, perm_any, Action,
  Expr, expr_name, expr_path, expr_regex, expr_type, expr_empty, expr_mtime, expr_newer, expr_size,
  expr_perm, expr_prune, expr_true, expr_action, expr_not, expr_and, expr_or,
}
use kefka.Find.Operands.{size_multiplier}
use kefka.Find.Glob.{match_glob}
use kefka.Unicode.{Unicode}

-- What the evaluation takes from the language's library: package unicode, the match of a compiled
-- regular expression (here its source) against a text, and the whole days between two times, which
-- the source computes in floating point.
pub record Platform : Type 0 where
  pub unicode : Unicode
  pub match_string : Bytes → Bytes → Bool
  pub days_between : ℕ → ℕ → ℤ

-- A time is a number of nanoseconds. `is_empty` is what the function of that name answers.
pub record EvalCtx : Type 0 where
  pub name : Bytes
  pub path : Bytes
  pub typ : ℕ
  pub is_file : Bool
  pub is_dir : Bool
  pub is_empty : Bool
  pub mtime : ℕ
  pub size : ℕ
  pub mode : ℕ
  pub now : ℕ
  pub newer : Bytes → Option ℕ

-- `asks_empty` says that the function `isEmpty` was called, which may read the directory.
pub record EvalResult : Type 0 where
  pub matches : Bool
  pub pruned : Bool
  pub actions : List Action
  pub asks_empty : Bool

-- A result with a match only.
abbrev pub only_matches : Bool → EvalResult
only_matches b = record { matches = b; pruned = false; actions = []; asks_empty = false }

unfoldable pub compare_to : ℤ → Comparison → ℕ → Bool
compare_to got cmp_more n = ltb_ℤ (pos n) got
compare_to got cmp_less n = ltb_ℤ got (pos n)
compare_to got cmp_exact n = eqb_ℤ got (pos n)

unfoldable pub file_type_letter : ℕ → ℕ
file_type_letter typ =
    if is_regular typ
    then b'f'
    else if has_bit typ mode_dir
    then b'd'
    else if has_bit typ mode_symlink
    then b'l'
    else if has_bit typ mode_named_pipe
    then b'p'
    else if has_bit typ mode_socket
    then b's'
    else if has_bit typ mode_char_device
    then b'c'
    else if has_bit typ mode_device
    then b'b'
    else 0

unfoldable pub unix_mode : ℕ → ℕ
unix_mode m =
    let a = if has_bit m mode_setuid then set_bit (perm m) 11 else perm m in
    let b = if has_bit m mode_setgid then set_bit a 10 else a in
    if has_bit m mode_sticky then set_bit b 9 else b

-- `got` of the test -size, and the number that it is compared with.
unfoldable pub size_matches : ℕ → Comparison → ℕ → ℕ → Bool
unfolding compare_to size_multiplier int64 quot
size_matches size cmp value unit =
    if unit == b'b'
    then compare_to (quot (int64 (size + 511)) 512) cmp value
    else if unit == b'c'
    then compare_to (int64 size) cmp value
    else compare_to (int64 size) cmp (value * size_multiplier unit)

unfoldable pub perm_matches : ℕ → PermMatch → ℕ → Bool
perm_matches mode perm_all value = bit_and mode (value % 4096) == value % 4096
perm_matches mode perm_any value = not (bit_and mode (value % 4096) == 0)
perm_matches mode perm_exact value = mode == value % 4096

-- `ok && c.mtime.After(ref)`
unfoldable pub after_reference : Option ℕ → ℕ → Bool
after_reference none mtime = false
after_reference (some ref) mtime = ltb ref mtime

unfoldable pub concat_actions : List Action → List Action → List Action
concat_actions [] b = b
concat_actions (x ∷ a) [] = x ∷ a
concat_actions (x ∷ a) (y ∷ b) = (x ∷ a) ++ (y ∷ b)

-- The result of both operands of -a and -o.
unfoldable pub both : EvalResult → EvalResult → EvalResult
unfolding concat_actions
both left right = record {
  matches = right.matches;
  pruned = left.pruned || right.pruned;
  actions = concat_actions left.actions right.actions;
  asks_empty = left.asks_empty || right.asks_empty;
}

module _ (p : Platform) where
  unfoldable pub eval : Expr → EvalCtx → EvalResult
  unfolding both file_type_letter unix_mode size_matches perm_matches after_reference compare_to
  eval (expr_name pattern ignore_case) c =
      only_matches (match_glob p.unicode pattern c.name ignore_case)
  eval (expr_path pattern ignore_case) c =
      only_matches (match_glob p.unicode pattern c.path ignore_case)
  eval (expr_regex pattern ignore_case re) c = only_matches (p.match_string re c.path)
  eval (expr_type file_type) c = only_matches (file_type_letter c.typ == file_type)
  eval expr_empty c = record {
    matches = c.is_empty;
    pruned = false;
    actions = [];
    asks_empty = true;
  }
  eval (expr_mtime cmp value) c = only_matches (compare_to (p.days_between c.now c.mtime) cmp value)
  eval (expr_newer ref_path) c = only_matches (after_reference (c.newer ref_path) c.mtime)
  eval (expr_size cmp value unit) c = only_matches (size_matches c.size cmp value unit)
  eval (expr_perm m value) c = only_matches (perm_matches (unix_mode c.mode) m value)
  eval expr_prune c = record { matches = true; pruned = true; actions = []; asks_empty = false }
  eval expr_true c = only_matches true
  eval (expr_action act) c = record {
    matches = true;
    pruned = false;
    actions = act ∷ [];
    asks_empty = false;
  }
  eval (expr_not e) c = let inner = eval e c in record inner { matches = not inner.matches }
  eval (expr_and l r) c =
      let left = eval l c in
      let right = both left (eval r c) in if not left.matches then left else right
  eval (expr_or l r) c =
      let left = eval l c in
      let right = both left (eval r c) in if left.matches then left else right

-- `walk`: the expression and every one below it, in the order of the calls.
unfoldable pub walk : Expr → List Expr
walk (expr_not l) = expr_not l ∷ walk l
walk (expr_and l r) = expr_and l r ∷ (walk l ++ walk r)
walk (expr_or l r) = expr_or l r ∷ (walk l ++ walk r)
walk e = e ∷ []

-- the tests that need what only a stat gives
abbrev pub reads_stat : Expr → Bool
reads_stat expr_empty = true
reads_stat (expr_mtime _ _) = true
reads_stat (expr_newer _) = true
reads_stat (expr_size _ _ _) = true
reads_stat (expr_perm _ _) = true
reads_stat _ = false

abbrev pub any_of : (Expr → Bool) → List Expr → Bool
any_of f [] = false
any_of f (e ∷ es) = f e || any_of f es

unfoldable pub needs_stat : Expr → Bool
unfolding walk
needs_stat e = any_of reads_stat (walk e)

-- what the callback of `walk` appends
abbrev pub action_of : Expr → List Action
action_of (expr_action act) = act ∷ []
action_of _ = []

abbrev pub newer_ref_of : Expr → List Bytes
newer_ref_of (expr_newer ref_path) = ref_path ∷ []
newer_ref_of _ = []

abbrev pub collect {ℓ} : {A : Type ℓ} → (Expr → List A) → List Expr → List A
collect f [] = []
collect f (e ∷ es) = f e ++ collect f es

unfoldable pub actions : Expr → List Action
unfolding walk
actions e = collect action_of (walk e)

-- A search without an expression has no action.
abbrev pub actions_of : Option Expr → List Action
actions_of none = []
actions_of (some e) = actions e

unfoldable pub newer_refs : Expr → List Bytes
unfolding walk
newer_refs e = collect newer_ref_of (walk e)
