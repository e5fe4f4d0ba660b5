-- ===== src/Find/Apply.antt =====
-- command/internal/find/find.go, lines 462 to 610: the effects of the walk are performed. The state of
-- the world is a parameter, with the calls that change it; a write to the standard output does not
-- fail.
pub mod Unchanged
pub mod Batches
pub mod Deletion
use kefka.Common.{
  ◌⊎◌, ℕ, inl, inr, Bool, true, false, not, ◌&&◌, ◌||◌, Option, none, some, List, [], ◌∷◌, ◌++◌,
  ◌==◌, if◌then◌else◌, Bytes, codes, equal, replace_all,
}
use kefka.FileMode.{is_dir}
use kefka.Find.Syntax.{Action, ActionKind, act_print, act_print0, act_printf, act_delete, act_exec}
use kefka.Find.Printf.Format.{PrintfData, Clock, format_printf}
use kefka.Find.Filesystem.{FileInfo, DirEntry, FsError, Filesystem, dir_not_empty, error_reason}
use kefka.Find.Node.{Effect, act, message}

-- How a run in a subshell ended: its line does not parse; it ended well, or with a status; or
-- another error came up, before the run or in it.
pub data Ended : Type 0 where
  not_parsed : Ended
  ended_well : Ended
  exit_status : ℕ → Ended
  run_error : Bytes → Ended

-- `remove` is the filesystem's; `quote` is the quoting for the shell and `quoted` that of the verb
-- %q; `run_line` parses a line and runs it in a subshell, if there is a runner.
pub record World (S : Type 0) : Type 0 where
  pub view : S → Filesystem
  pub remove : S → Bytes → Option FsError × S
  pub has_runner : Bool
  pub quote : Bytes → Option Bytes
  pub quoted : Bytes → Bytes
  pub run_line : S → Bytes → Ended × S

-- What is seen from outside, in order: the standard output is flushed before anything else happens.
pub data Event : Type 0 where
  printed : Bytes → Event
  warned : Bytes → Event
  ran : (line : Bytes) → Event

-- The batches in the order in which their actions came up, each with its paths.
pub record Applying (S : Type 0) : Type 0 where
  pub world : S
  pub log : List Event
  pub status : ℕ
  pub batches : List (Action × List Bytes)

-- The loop goes on, or `apply` returns an error at once.
pub data Applied (S : Type 0) : Type 0 where
  going : Applying S → Applied S
  stopped : Applying S → Bytes → Applied S

-- What `runExec` returns: an exit status, or an error.
pub record Ran (S : Type 0) : Type 0 where
  pub code : ℕ ⊎ Bytes
  pub events : List Event
  pub world : S

-- The quoted arguments with spaces between them, or the first that cannot be quoted.
unfoldable pub quote_all : (Bytes → Option Bytes) → List Bytes → Bytes ⊎ Bytes
quote_all quote [] = inr []
quote_all quote (a ∷ args) =
    let rest = quote_all quote args in
    elim (quote a) [
      | none ↦ inl a
      | some q ↦ elim rest [
        | inl b ↦ inl b
        | inr line ↦ inr (elim args [ [] ↦ q | b ∷ bs ↦ q ++ (b' ' ∷ line) ])
      ]
    ]

-- Adding a path to the batch of an action.
unfoldable pub add_to_batch :
    Action → Bytes → List (Action × List Bytes) → List (Action × List Bytes)
add_to_batch a path [] = (a, path ∷ []) ∷ []
add_to_batch a path ((b, paths) ∷ batches) =
    let rest = add_to_batch a path batches in
    if a.id == b.id then (b, paths ++ path ∷ []) ∷ batches else (b, paths) ∷ rest

-- `{}` is replaced by the path, wherever it stands.
abbrev pub each_replaced : Bytes → List Bytes → List Bytes
each_replaced path [] = []
each_replaced path (part ∷ parts) = replace_all (codes "{}") path part ∷ each_replaced path parts

-- The argument `{}` is replaced by all paths.
unfoldable pub batch_arguments : List Bytes → List Bytes → List Bytes
unfolding equal
batch_arguments paths [] = []
batch_arguments paths (part ∷ parts) =
    let rest = batch_arguments paths parts in
    if equal part (codes "{}") then paths ++ rest else part ∷ rest

-- The command of an action, which is one of the kind -exec.
abbrev pub command_of : Action → List Bytes
command_of a = elim a.kind [
  | act_exec command batch ↦ command
  | act_print ↦ []
  | act_print0 ↦ []
  | act_printf f ↦ []
  | act_delete ↦ []
]

abbrev pub is_exec : Effect → Bool
is_exec (message text) = false
is_exec (act a fs_path d) = elim a.kind [
  | act_exec command batch ↦ true
  | act_print ↦ false
  | act_print0 ↦ false
  | act_printf f ↦ false
  | act_delete ↦ false
]

unfoldable pub any_exec : List Effect → Bool
any_exec [] = false
any_exec (e ∷ es) = is_exec e || any_exec es

module _ {S : Type 0} where
  abbrev pub logged : List Event → Applying S → Applying S
  logged events s = record s { log = s.log ++ events }

  abbrev pub warn : Bytes → Applying S → Applying S
  warn text s = record (logged (warned text ∷ []) s) { status = 1 }

  -- behind `runExec`: an exit status that is not 0 is remembered, and an error returned
  abbrev pub after_code : Applying S → ℕ ⊎ Bytes → Applied S
  after_code s (inl code) = going (record s { status = if code == 0 then s.status else code })
  after_code s (inr err) = stopped s err

  abbrev pub after_run : Ran S → Applying S → Applied S
  after_run r s = after_code (record s { world = r.world; log = s.log ++ r.events }) r.code

  -- An error ends the loop.
  abbrev pub then_going : Applied S → (Applying S → Applied S) → Applied S
  then_going (going s) onward = onward s
  then_going (stopped s err) onward = stopped s err

module _ {S : Type 0} (w : World S) (clk : Clock) where
  abbrev pub run_quoted : S → List Bytes → Bytes ⊎ Bytes → Ran S
  run_quoted s argv (inl a) = record {
    code = inl 1;
    events = warned (codes "find: cannot quote argument " ++ w.quoted a ++ codes "\n") ∷ [];
    world = s;
  }
  run_quoted s argv (inr line) =
      let r = w.run_line s line in
      elim r.0 [
        | not_parsed ↦ record {
          code = inl 1;
          events = warned (codes "find: cannot parse -exec command\n") ∷ [];
          world = s;
        }
        | ended_well ↦ record { code = inl 0; events = ran line ∷ []; world = r.1 }
        | exit_status n ↦ record { code = inl n; events = ran line ∷ []; world = r.1 }
        | run_error err ↦ record { code = inr err; events = ran line ∷ []; world = r.1 }
      ]

  unfoldable pub run_exec : S → List Bytes → Ran S
  unfolding quote_all
  run_exec s argv = run_quoted s argv (quote_all w.quote argv)

  -- a directory is removed if it has no entries
  abbrev pub delete_directory : S → Bytes → FsError ⊎ List DirEntry → Option FsError × S
  delete_directory s path (inl err) = (some err, s)
  delete_directory s path (inr []) = w.remove s path
  delete_directory s path (inr (e ∷ entries)) = (some dir_not_empty, s)

  abbrev pub delete_found : S → Bytes → FsError ⊎ FileInfo → Option FsError × S
  delete_found s path (inl err) = (some err, s)
  delete_found s path (inr info) =
      if is_dir info.mode
      then delete_directory s path ((w.view s).read_dir path)
      else w.remove s path

  -- `deleteEntry`; `none` is the error nil.
  unfoldable pub delete_entry : S → Bytes → Option FsError × S
  delete_entry s path = delete_found s path ((w.view s).lstat path)

  abbrev pub after_delete : PrintfData → Option FsError × S → Applying S → Applied S
  after_delete d (none, t) s = going (record s { world = t })
  after_delete d (some err, t) s = going (
      warn
        (codes "find: cannot delete '" ++ d.path ++ codes "': " ++ error_reason err ++ codes "\n")
        (record s { world = t }))

  -- The `switch` on the kind of an action.
  unfoldable pub apply_action : Action → ActionKind → Bytes → PrintfData → Applying S → Applied S
  unfolding run_exec delete_entry format_printf add_to_batch error_reason replace_all
  apply_action a act_print fs_path d s = going (logged (printed (d.path ++ 10 ∷ []) ∷ []) s)
  apply_action a act_print0 fs_path d s = going (logged (printed (d.path ++ 0 ∷ []) ∷ []) s)
  apply_action a (act_printf format) fs_path d s =
      going (logged (printed (format_printf clk format d) ∷ []) s)
  apply_action a act_delete fs_path d s = after_delete d (delete_entry s.world fs_path) s
  apply_action a (act_exec command true) fs_path d s =
      going (record s { batches = add_to_batch a d.path s.batches })
  apply_action a (act_exec command false) fs_path d s =
      after_run (run_exec s.world (each_replaced d.path command)) s

  unfoldable pub apply_effect : Effect → Applying S → Applied S
  unfolding apply_action
  apply_effect (message text) s = going (warn text s)
  apply_effect (act a fs_path d) s = apply_action a a.kind fs_path d s

  unfoldable pub apply_effects : List Effect → Applying S → Applied S
  unfolding apply_effect
  apply_effects [] s = going s
  apply_effects (e ∷ es) s = then_going (apply_effect e s) (apply_effects es)

  -- The loop over `batchOrder`.
  unfoldable pub run_batches : List (Action × List Bytes) → Applying S → Applied S
  unfolding run_exec batch_arguments
  run_batches [] s = going s
  run_batches ((a, paths) ∷ batches) s =
      then_going (after_run (run_exec s.world (batch_arguments paths (command_of a))) s)
        (run_batches batches)

  abbrev pub then_batches : Applied S → Applied S
  then_batches (going s) = run_batches s.batches s
  then_batches (stopped s err) = stopped s err

  abbrev pub initial : S → Applying S
  initial s = record { world = s; log = []; status = 0; batches = [] }

  abbrev pub no_runner : S → Applying S
  no_runner s = warn (codes "find: -exec not supported in this context\n") (initial s)

  -- `apply`; where it returns no error, the exit status is that of the result.
  unfoldable pub apply : S → List Effect → Applied S
  unfolding apply_effects run_batches any_exec
  apply s effects =
      let performed = then_batches (apply_effects effects (initial s)) in
      if any_exec effects && not w.has_runner then going (no_runner s) else performed
