-- ===== src/Tests/WalkTests.antt =====
-- Tests and instances for the walk of the find command.
use mathlib.Core.List.{Memᴰ}
use kefka.Common.{
  ℕ, ◌^◌, ◌≤◌, ◌≡◌, refl, ◌≢◌, ◌↔◌, ◌⊎◌, inl, inr, Bool, true, false, none, some, List, [], ◌∷◌,
  ◌++◌, arith, if◌then◌else◌, Bytes, codes, equal, contains,
}
use kefka.Find.Eval.{actions_of}
use kefka.Find.Syntax.{Action, act_print, act_exec}
use kefka.Find.Arguments.{initial_options}
use kefka.Find.Filesystem.{not_exist, not_dir, FileInfo, Filesystem}
use kefka.Find.Node.{
  default_print, Effect, act, Node, Walker, Start, walked, unfinished, entry_node, diagnose,
  not_read,
}
use kefka.Find.Walk.Step.{last_reading}
use kefka.Find.Walk.{evaluate, printf_data, visit, walk_starts, child}
use kefka.Find.Walk.Reported.{Below, Reports, visit-Below}
use kefka.Find.Walk.Ends.{visit-Finished, walk_starts-max_depth, max_depth-Height}
use kefka.Find.Walk.Effects.{walk_starts-Collected}
use kefka.Find.Walk.Order.{ReportedBelow, visit-order}
use kefka.Find.Apply.{World, ended_well, Applying, going, initial, apply_effects, delete_entry}
use kefka.Find.Apply.Batches.{count, collected, batch_paths, apply_effects-batch_paths}
use kefka.Find.Apply.Deletion.{Deleted, delete_entry-Deleted}
use kefka.Find.Arguments.Printing.{Plain}
use kefka.Find.Command.{Context, exec}
use kefka.Find.Command.Harmless.{exec-Plain}
use kefka.Tests.Platforms.{platform, clock}

abbrev directory : FileInfo
directory = record { mode = 2 ^ 31; size = 0; mtime = 0; device = none }

abbrev file : FileInfo
file = record { mode = 420; size = 3; mtime = 1; device = none }

-- A directory with one file.
abbrev two_entries : Filesystem
two_entries = record {
  lstat = λ path.
      if equal path (codes ".")
      then inr directory
      else if equal path (codes "b")
      then inr file
      else inl not_exist;
  stat = λ path. inl not_exist;
  read_dir = λ path.
      if equal path (codes ".")
      then inr (record { name = codes "b"; typ = 0 } ∷ [])
      else inl not_dir;
}

-- The state is what was removed.
abbrev world : World (List Bytes)
world = record {
  view = λ removed. two_entries;
  remove = λ removed path. (none, path ∷ removed);
  has_runner = true;
  quote = λ s. some s;
  quoted = λ s. s;
  run_line = λ removed line. (ended_well, removed);
}

abbrev here_context : Context
here_context = record { dir = codes "."; now = 7; has_filesystem = true }

one_le_one : 1 ≤ 1
one_le_one = omega arith

abbrev walker_to : ℕ → Bool → Walker
walker_to k depth_first = record {
  dir = codes ".";
  opts = record initial_options { max_depth = some k; depth_first = depth_first };
  has_action = false;
  needs_stat = false;
  follow_start = false;
  now = 7;
  newer = λ r. none;
}

abbrev top : Start
top = record { start = codes "."; start_dev = none }

abbrev top_node : Node
top_node = record {
  display = codes ".";
  fs_path = codes ".";
  name = codes ".";
  depth = 0;
  typ = 2 ^ 31;
  is_file = false;
  is_dir = true;
  info = some directory;
}

abbrev file_node : Node
file_node = entry_node (codes "./b") (codes "b") 1 (record { name = codes "b"; typ = 0 })

abbrev prints : Bool → Node → Effect
prints b n =
    act (record { id = 0; kind = act_print }) n.fs_path
      (printf_data platform two_entries (walker_to 1 b) top n)

-- The directory, with its file behind it or before.
walk_before :
    visit platform two_entries (walker_to 1 false) 2 top top_node
    ≡ walked (prints false top_node ∷ prints false file_node ∷ [])
unfolding visit
walk_before = refl

walk_after :
    visit platform two_entries (walker_to 1 true) 2 top top_node
    ≡ walked (prints true file_node ∷ prints true top_node ∷ [])
unfolding visit
walk_after = refl

-- find . -name b
abbrev by_name_args : List Bytes
by_name_args = codes "." ∷ codes "-name" ∷ codes "b" ∷ []

by_name_args-Plain : Plain by_name_args
unfolding equal
by_name_args-Plain = ((refl, refl), ((refl, refl), ((refl, refl), tt)))

exec-Plain_example :
    (exec platform world clock here_context (λ s. true) 5 [] by_name_args).world ≡ []
exec-Plain_example =
    exec-Plain platform world clock here_context (λ s. true) 5 [] by_name_args by_name_args-Plain

-- find . -delete
delete_runs :
    (exec platform world clock here_context
      (λ s. true)
      5
      []
      (codes "." ∷ codes "-delete" ∷ [])).world
    ≡ codes "b" ∷ []
unfolding exec
delete_runs = refl

visit-Below_example :
    Memᴰ (prints false file_node) (prints false top_node ∷ prints false file_node ∷ []) ↔ (
      (m : Node) × (Below platform two_entries (walker_to 1 false) top top_node m
        × Reports platform two_entries (walker_to 1 false) top m (prints false file_node)))
visit-Below_example =
    visit-Below platform two_entries (walker_to 1 false) top 2 top_node
      (prints false top_node ∷ prints false file_node ∷ []) walk_before (prints false file_node)

starts_walk :
    walk_starts platform two_entries (walker_to 1 false) 2 (codes "." ∷ [])
    ≡ walked (prints false top_node ∷ prints false file_node ∷ [])
unfolding walk_starts contains
starts_walk = refl

walk_starts-Collected_example :
    (Memᴰ (record { id = 0; kind = act_print }) (actions_of none)
      ⊎ ((false ≡ false) × Memᴰ (record { id = 0; kind = act_print }) default_print))
    × (0 ≤ 0)
    × ((k : ℕ) → some 1 ≡ some k → 0 ≤ k)
unfolding printf_data
walk_starts-Collected_example =
    walk_starts-Collected platform two_entries (walker_to 1 false) 2 (codes "." ∷ [])
      (prints false top_node ∷ prints false file_node ∷ []) starts_walk
      (record { id = 0; kind = act_print }) (codes ".")
      (printf_data platform two_entries (walker_to 1 false) top top_node) (Memᴰ.head refl)

walk_starts-max_depth_example :
    walk_starts platform two_entries (walker_to 1 false) 2 (codes "." ∷ []) ≢ unfinished
walk_starts-max_depth_example =
    walk_starts-max_depth platform two_entries (walker_to 1 false) 1 1 (codes "." ∷ []) refl
      one_le_one

visit-Finished_example : visit platform two_entries (walker_to 1 false) 2 top top_node ≢ unfinished
visit-Finished_example =
    visit-Finished platform two_entries (walker_to 1 false) top 2 top_node
      (max_depth-Height platform two_entries (walker_to 1 false) top 1 1 top_node refl one_le_one)

visit-order_example :
    (gs : List Effect) × ((prints true file_node ∷ prints true top_node ∷ [])
      ≡ gs
        ++ (diagnose top_node (last_reading platform two_entries (walker_to 1 true) top top_node)
            ++ (evaluate platform two_entries (walker_to 1 true) top top_node not_read).effects))
    × ((e : Effect)
        → Memᴰ e gs ↔ ReportedBelow platform two_entries (walker_to 1 true) top top_node e)
visit-order_example =
    visit-order platform two_entries (walker_to 1 true) top 2 top_node
      (prints true file_node ∷ prints true top_node ∷ []) walk_after

-- -exec x {} +
abbrev batched : Action
batched = record { id = 4; kind = act_exec (codes "x" ∷ codes "{}" ∷ []) true }

abbrev batched_effects : List Effect
batched_effects =
    act batched (codes ".") (printf_data platform two_entries (walker_to 1 false) top top_node)
    ∷ act batched (codes "b") (printf_data platform two_entries (walker_to 1 false) top file_node)
    ∷ []

abbrev batched_state : Applying (List Bytes)
batched_state = record {
  world = [];
  log = [];
  status = 0;
  batches = (batched, codes "." ∷ codes "./b" ∷ []) ∷ [];
}

batched_runs :
    apply_effects world clock batched_effects (initial world clock []) ≡ going batched_state
unfolding apply_effects printf_data
batched_runs = refl

apply_effects-batch_paths_example :
    (count 4 batched_state.batches ≤ 1)
    × (collected 4 batched_state.batches ≡ batch_paths 4 batched_effects)
apply_effects-batch_paths_example =
    apply_effects-batch_paths world clock batched_effects [] batched_state batched_runs 4

delete_entry-Deleted_example :
    Deleted world clock [] (codes ".") (delete_entry world clock [] (codes "."))
delete_entry-Deleted_example = delete_entry-Deleted world clock [] (codes ".")

file_child :
    child platform two_entries (walker_to 1 false) top_node (record { name = codes "b"; typ = 0 })
    ≡ some file_node
unfolding child
file_child = refl
