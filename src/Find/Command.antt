-- ===== src/Find/Command.antt =====
-- command/internal/find/find.go, lines 32 to 188: the command. The runner, the filesystem and package
-- regexp are parameters.
pub mod Harmless
use kefka.Common.{
  ℕ, inl, inr, Bool, true, false, not, ◌||◌, Option, none, some, List, [], ◌∷◌, ◌++◌, if◌then◌else◌,
  Bytes, codes, equal, has_prefix, replace_all,
}
use kefka.ShellPath.{resolve_path}
use kefka.Find.Syntax.{Action, ActionKind, act_printf, act_delete, Expr, Options}
use kefka.Find.Arguments.{options, error, unfinished, Parsed, parse_expression}
use kefka.Find.Eval.{Platform, needs_stat, actions, actions_of, newer_refs}
use kefka.Find.Printf.Format.{Clock}
use kefka.Find.Filesystem.{Filesystem, error_reason}
use kefka.Find.Node.{Walker, Walked, walked, ended, unfinished}
use kefka.Find.Walk.{walk_starts}
use kefka.Find.Apply.{World, Event, warned, Applied, going, stopped, apply}

abbrev pub help_options : List Bytes
help_options =
    codes "-H               follow symbolic links given as starting points"
    ∷ codes "-P               never follow symbolic links (default)"
    ∷ codes "-name PATTERN    file name matches shell pattern PATTERN"
    ∷ codes "-iname PATTERN   like -name but case insensitive"
    ∷ codes "-path PATTERN    file path matches shell pattern PATTERN"
    ∷ codes "-ipath PATTERN   like -path but case insensitive"
    ∷ codes "-regex PATTERN   file path matches regular expression PATTERN"
    ∷ codes "-iregex PATTERN  like -regex but case insensitive"
    ∷ codes "-type TYPE       file is of type: f (regular file), d (directory), l (symbolic link),"
    ∷ codes "                 p (FIFO), s (socket), b (block device), c (character device)"
    ∷ codes "-empty           file is empty or directory is empty"
    ∷ codes "-mtime N         file's data was modified N*24 hours ago"
    ∷ codes "-newer FILE      file was modified more recently than FILE"
    ∷ codes "-size N[ckMGb]   file uses N units of space (c=bytes, k=KB, M=MB, G=GB, b=512B blocks)"
    ∷ codes "-perm MODE       file's permission bits are exactly MODE (octal)"
    ∷ codes "-perm -MODE      all permission bits MODE are set"
    ∷ codes "-perm /MODE      any permission bits MODE are set"
    ∷ codes "-maxdepth LEVELS descend at most LEVELS directories"
    ∷ codes "-mindepth LEVELS do not apply tests at levels less than LEVELS"
    ∷ codes "-depth           process directory contents before directory itself"
    ∷ codes "-prune           do not descend into this directory"
    ∷ codes "-xdev            do not descend into directories on other devices"
    ∷ codes "-not, !          negate the following expression"
    ∷ codes "-a, -and         logical AND (default)"
    ∷ codes "-o, -or          logical OR"
    ∷ codes "-exec CMD {} ;   execute CMD on each file ({} is replaced by filename)"
    ∷ codes "-exec CMD {} +   execute CMD with multiple files at once"
    ∷ codes "-print           print the full file name (default action)"
    ∷ codes "-print0          print the full file name followed by a null character"
    ∷ codes "-printf FORMAT   print FORMAT with directives: %f %h %p %P %s %d %m %M %t"
    ∷ codes "-delete          delete found files/directories"
    ∷ codes "    --help       display this help and exit"
    ∷ []

-- the loop of `usage`
abbrev pub usage_lines : List Bytes → Bytes
usage_lines [] = []
usage_lines (opt ∷ opts) = codes "  " ++ opt ++ codes "\n" ++ usage_lines opts

abbrev pub usage : Bytes
usage =
    codes "find - search for files in a directory hierarchy\n\n"
    ++ codes "Usage: find [-H|-P] [path...] [expression]\n"
    ++ codes "\nOptions:\n"
    ++ usage_lines help_options

-- The options before the starting points: -H or not, and what is left; `none` is for -L.
unfoldable pub leading_options : Bool → List Bytes → Option (Bool × List Bytes)
unfolding equal
leading_options follow_start [] = some (follow_start, [])
leading_options follow_start (arg ∷ args) =
    if equal arg (codes "-H")
    then leading_options true args
    else if equal arg (codes "-P")
    then leading_options false args
    else if equal arg (codes "-L")
    then none
    else if equal arg (codes "--")
    then some (follow_start, args)
    else some (follow_start, arg ∷ args)

abbrev pub starts_expression : Bytes → Bool
starts_expression arg =
    has_prefix (codes "-") arg
    || equal arg (codes "(")
    || equal arg (codes "\\(")
    || equal arg (codes ")")
    || equal arg (codes "\\)")
    || equal arg (codes "!")

-- The starting points, and the expression behind them.
unfoldable pub split_starts : List Bytes → List Bytes × List Bytes
unfolding equal has_prefix
split_starts [] = ([], [])
split_starts (arg ∷ args) =
    let (starts, rest) = split_starts args in
    if starts_expression arg then ([], arg ∷ args) else (arg ∷ starts, rest)

abbrev pub or_here : List Bytes → List Bytes
or_here [] = codes "." ∷ []
or_here (start ∷ starts) = start ∷ starts

abbrev pub is_delete_kind : ActionKind → Bool
is_delete_kind act_delete = true
is_delete_kind k = false

unfoldable pub any_delete : List Action → Bool
any_delete [] = false
any_delete (a ∷ acts) = is_delete_kind a.kind || any_delete acts

abbrev pub printf_stat_directive : Bytes
printf_stat_directive = codes "%[-+]?[0-9]*\\.?[0-9]*[smMtT]"

abbrev pub needs_stat_of : Option Expr → Bool
needs_stat_of none = false
needs_stat_of (some e) = needs_stat e

abbrev pub newer_refs_of : Option Expr → List Bytes
newer_refs_of none = []
newer_refs_of (some e) = newer_refs e

-- An exit status, or an error that `Exec` returns; `unbounded` means that the fuel ran out.
pub data Outcome : Type 0 where
  exits : ℕ → Outcome
  failed : Bytes → Outcome
  unbounded : Outcome

pub record Result (S : Type 0) : Type 0 where
  pub log : List Event
  pub world : S
  pub outcome : Outcome

-- Where the command runs: the directory, the time, and the filesystem if there is one.
pub record Context : Type 0 where
  pub dir : Bytes
  pub now : ℕ
  pub has_filesystem : Bool

module _ (p : Platform) where
  abbrev pub format_needs_stat : ActionKind → Bool
  format_needs_stat (act_printf format) =
      p.match_string printf_stat_directive (replace_all (codes "%%") [] format)
  format_needs_stat k = false

  unfoldable pub printf_needs_stat : List Action → Bool
  unfolding replace_all
  printf_needs_stat [] = false
  printf_needs_stat (a ∷ acts) = format_needs_stat a.kind || printf_needs_stat acts

module _ (fs : Filesystem) (ctx : Context) where
  -- The table of the references of -newer that exist.
  unfoldable pub newer_table : List Bytes → Bytes → Option ℕ
  unfolding equal resolve_path
  newer_table [] ref = none
  newer_table (r ∷ refs) ref =
      let rest = newer_table refs ref in
      let found : Option ℕ = elim (fs.stat (resolve_path ctx.dir r)) [
        | inl err ↦ rest
        | inr info ↦ some info.mtime
      ] in
      if equal ref r then found else rest

  unfoldable pub walker : Platform → Bool → Options → Walker
  unfolding newer_table any_delete printf_needs_stat needs_stat actions newer_refs
  walker p follow_start opts =
      let acts = actions_of opts.expr in
      record {
        dir = ctx.dir;
        opts = record opts { depth_first = opts.depth_first || any_delete acts };
        has_action = elim acts as (λ _. Bool) [ [] ↦ false | a ∷ others ↦ true ];
        needs_stat = needs_stat_of opts.expr || printf_needs_stat p acts || opts.xdev;
        follow_start = follow_start;
        now = ctx.now;
        newer = newer_table (newer_refs_of opts.expr);
      }

module _ {S : Type 0} (p : Platform) (w : World S) (clk : Clock) (ctx : Context) where
  abbrev pub result_of : Applied S → Result S
  result_of (going s) = record { log = s.log; world = s.world; outcome = exits s.status }
  result_of (stopped s err) = record { log = s.log; world = s.world; outcome = failed err }

  abbrev pub refused : S → Bytes → Result S
  refused s line = record { log = warned line ∷ []; world = s; outcome = exits 1 }

  abbrev pub after_walk : S → Walked → Result S
  after_walk s (walked effects) = result_of (apply w clk s effects)
  after_walk s (ended path err) =
      refused s (codes "find: " ++ path ++ codes ": " ++ error_reason err ++ codes "\n")
  after_walk s unfinished = record { log = []; world = s; outcome = unbounded }

  -- the search, once the options are read
  unfoldable pub search : ℕ → S → Bool → Options → List Bytes → Result S
  unfolding walker walk_starts apply error_reason
  search f s follow_start opts starts =
      let fs = w.view s in
      after_walk s (walk_starts p fs (walker fs ctx p follow_start opts) f starts)

  abbrev pub after_parse : ℕ → S → Bool → List Bytes → Parsed → Result S
  after_parse f s follow_start starts (options opts) =
      let searched = search f s follow_start opts starts in
      let no_filesystem : Result S = record {
        log = [];
        world = s;
        outcome = failed (codes "find: ExecContext has no filesystem");
      } in
      if opts.help
      then record { log = warned usage ∷ []; world = s; outcome = exits 0 }
      else if not ctx.has_filesystem
      then no_filesystem
      else searched
  after_parse f s follow_start starts (error line) = refused s line
  after_parse f s follow_start starts unfinished = record {
    log = [];
    world = s;
    outcome = unbounded;
  }

  -- `Exec` behind the leading options
  abbrev pub after_options : (Bytes → Bool) → ℕ → S → Option (Bool × List Bytes) → Result S
  after_options compiles f s none = refused s (codes "find: -L is not supported\n")
  after_options compiles f s (some (follow_start, args)) =
      let (starts, expression) = split_starts args in
      after_parse f s follow_start (or_here starts) (parse_expression compiles expression)

  -- `Exec`
  unfoldable pub exec : (Bytes → Bool) → ℕ → S → List Bytes → Result S
  unfolding leading_options split_starts parse_expression search
  exec compiles f s args = after_options compiles f s (leading_options false args)
